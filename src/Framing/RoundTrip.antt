-- ===== src/Framing/RoundTrip.antt =====
-- FramerMessage of src/protocol/framing.cpp: a framed message is found and given back.
use my_messenger.Prelude.{
  ℕ, some, ◌≤◌, ◌∙◌, take, drop, ◌-◌, ◌%◌, ◌^◌, ◌<◌, ◌≡◌, true, [], ◌++◌, length, length-append,
  append_assoc, arith, take-append, drop-append,
}
use my_messenger.Prelude.Bytes.{Bytes}
use my_messenger.Prelude.Result.{ok}
use my_messenger.Wire.{write_u32}
use my_messenger.Wire.Laws.{read_u32-length, read_u32-write_u32}
use my_messenger.Framing.{has_message_in_buffer, extract_message, form_message, length_prefix}

-- One message as it stands in the stream.
abbrev pub frame : Bytes → Bytes
frame message = write_u32 (length message % 2 ^ 32) ++ message

-- The sizes for which `4 + len` does not wrap.
abbrev pub FitsFrame : Bytes → Type 0
FitsFrame message = length message < 2 ^ 32 - 4

-- What the two methods do on a buffer that holds all that its prefix says.
pub has_message_complete :
    (buffer rest : Bytes) (len : ℕ)
    → length_prefix buffer ≡ some (len, rest)
    → len < 2 ^ 32 - 4
    → len ≤ length rest
    → has_message_in_buffer buffer ≡ true
unfolding has_message_in_buffer
has_message_complete buffer rest len e small h = ground (arith, read_u32-length buffer rest len e)

pub extract_message_complete :
    (buffer rest : Bytes) (len : ℕ)
    → length_prefix buffer ≡ some (len, rest)
    → len ≤ length rest
    → extract_message buffer ≡ ok (take len rest, drop len rest)
unfolding extract_message
extract_message_complete buffer rest len e h = ground arith

pub prefix-frame :
    (message rest : Bytes)
    → FitsFrame message
    → length_prefix (frame message ++ rest) ≡ some (length message, message ++ rest)
prefix-frame message rest h =
    let e : length message % 2 ^ 32 ≡ length message = omega arith in
    rw (e, append_assoc (write_u32 (length message)) message rest)
      (read_u32-write_u32 (length message) (message ++ rest) (omega arith))

pub has_message-frame :
    (message rest : Bytes)
    → FitsFrame message
    → has_message_in_buffer (frame message ++ rest) ≡ true
has_message-frame message rest h =
    has_message_complete _ (message ++ rest) (length message) (prefix-frame message rest h) h
      (omega (arith, length-append message rest))

pub extract_message-frame :
    (message rest : Bytes)
    → FitsFrame message
    → extract_message (frame message ++ rest) ≡ ok (message, rest)
extract_message-frame message rest h =
    extract_message_complete _ (message ++ rest) (length message) (prefix-frame message rest h)
      (omega (arith, length-append message rest))
    ∙ rw (take-append message rest, drop-append message rest)

-- A message shorter than 2^32 - 4 that is framed into an empty buffer is found there, and is given
-- back whole with what follows it, whatever that is.
pub extract_message-form_message :
    (message rest : Bytes)
    → length message < 2 ^ 32 - 4
    → (has_message_in_buffer (form_message message [] ++ rest) ≡ true)
      × (extract_message (form_message message [] ++ rest) ≡ ok (message, rest))
unfolding form_message
extract_message-form_message message rest h =
    (has_message-frame message rest h, extract_message-frame message rest h)
