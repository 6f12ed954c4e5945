-- ===== src/Tests/Frames.antt =====
-- Frames of src/protocol/framing.cpp.
use my_messenger.Prelude.{◌≡◌, ◌+◌, refl, some, [], ◌∷◌, length, arith, true}
use my_messenger.Prelude.Bytes.{Bytes}
use my_messenger.Prelude.Result.{ok, err}
use my_messenger.Failure.{undefined}
use my_messenger.Wire.{read_u32, write_u32}
use my_messenger.Framing.{has_message_in_buffer, extract_message, feed}
use my_messenger.Framing.Overflow.{extract_message_safe, has_message_wraps}
use my_messenger.Framing.Stream.{frames, concat, feed-frames}

-- Two frames, cut inside the length field of the second.
feed-frames_example :
    feed [] ((0 ∷ 0 ∷ 0 ∷ 1 ∷ 65 ∷ 0 ∷ []) ∷ (0 ∷ 0 ∷ 2 ∷ 66 ∷ 67 ∷ []) ∷ [])
    ≡ some (ok ((65 ∷ []) ∷ (66 ∷ 67 ∷ []) ∷ [], []))
unfolding write_u32 frames concat
feed-frames_example =
    feed-frames ((65 ∷ []) ∷ (66 ∷ 67 ∷ []) ∷ [])
      ((0 ∷ 0 ∷ 0 ∷ 1 ∷ 65 ∷ 0 ∷ []) ∷ (0 ∷ 0 ∷ 2 ∷ 66 ∷ 67 ∷ []) ∷ [])
      (omega arith, (omega arith, tt)) refl

extract_message_safe_example :
    (message : Bytes) × (left : Bytes) × (extract_message (0 ∷ 0 ∷ 0 ∷ 1 ∷ 65 ∷ 66 ∷ [])
      ≡ ok (message, left))
    × (length message ≡ 1)
    × (6 ≡ 4 + 1 + length left)
unfolding read_u32 has_message_in_buffer
extract_message_safe_example =
    extract_message_safe (0 ∷ 0 ∷ 0 ∷ 1 ∷ 65 ∷ 66 ∷ []) (65 ∷ 66 ∷ []) 1 refl (omega arith) refl

has_message_wraps_example :
    (has_message_in_buffer (255 ∷ 255 ∷ 255 ∷ 254 ∷ []) ≡ true)
    × (extract_message (255 ∷ 255 ∷ 255 ∷ 254 ∷ []) ≡ err undefined)
unfolding read_u32
has_message_wraps_example =
    has_message_wraps (255 ∷ 255 ∷ 255 ∷ 254 ∷ []) [] 4294967294 refl (omega arith) (omega arith)
      (omega arith)
