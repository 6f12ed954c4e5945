-- ===== src/Tests/Sockets.antt =====
-- Byte streams for src/transport/transport.cpp and src/transport/connection.cpp.
use my_messenger.Prelude.{
  ◌≡◌, refl, none, some, List, [], ◌∷◌, ◌++◌, arith, true, if◌then◌else◌, map,
}
use my_messenger.Prelude.Bytes.{Bytes, codes}
use my_messenger.Prelude.Result.{ok}
use my_messenger.Wire.{write_u32, read_u32}
use my_messenger.Framing.{form_message, has_message_in_buffer, extract_message}
use my_messenger.Framing.Stream.{concat}
use my_messenger.Transport.{
  Recv, chunk, again, ReceiveResult, received, would_block, extract_complete_message, receive,
  transport_bytes, ClientConnection, new_connection, queue_send, try_receive, has_complete_message,
  take_message,
}
use my_messenger.Transport.Wire.{
  taken, extract_complete_message-framer, receive-transport_bytes, receive-again,
  queue_send-arrives,
}

-- "hi" behind its length, in two reads, and a byte of what comes next.
abbrev two_reads : List Bytes
two_reads = (0 ∷ 0 ∷ 0 ∷ []) ∷ (2 ∷ 104 ∷ 105 ∷ 1 ∷ []) ∷ []

receive-transport_bytes_example :
    (left : Bytes) × (more : List Recv) × (receive [] (map chunk two_reads ++ again ∷ [])
      ≡ some (record { status = received; content = codes "hi"; error_code = 0 }, left, more))
unfolding concat transport_bytes write_u32
receive-transport_bytes_example =
    receive-transport_bytes two_reads [] (codes "hi") (1 ∷ []) (again ∷ []) (omega arith) refl

-- The length and the first byte of "hi", and nothing more for now.
abbrev part_read : List Bytes
part_read = (0 ∷ 0 ∷ 0 ∷ []) ∷ (2 ∷ 104 ∷ []) ∷ []

receive-again_example :
    (receive [] (map chunk part_read ++ again ∷ chunk (105 ∷ []) ∷ [])
      ≡ some (
        record { status = would_block; content = 0 ∷ 0 ∷ 0 ∷ 2 ∷ 104 ∷ []; error_code = 0 },
        0 ∷ 0 ∷ 0 ∷ 2 ∷ 104 ∷ [],
        chunk (105 ∷ []) ∷ [],
      ))
    × (receive (0 ∷ 0 ∷ 0 ∷ 2 ∷ 104 ∷ []) (chunk (105 ∷ []) ∷ [])
        ≡ receive [] (chunk (105 ∷ []) ∷ []))
unfolding concat transport_bytes write_u32
receive-again_example =
    receive-again part_read [] (105 ∷ []) (codes "hi") [] (chunk (105 ∷ []) ∷ []) (omega arith) refl
      (omega arith)

abbrev queued_reads : List Bytes
queued_reads = (0 ∷ 0 ∷ 0 ∷ 6 ∷ 0 ∷ []) ∷ (0 ∷ 0 ∷ 2 ∷ 104 ∷ 105 ∷ []) ∷ []

queue_send-arrives_example :
    (result : ReceiveResult) × (left : Bytes) × (more : List Recv) × (c : ClientConnection)
    × (receive [] (map chunk queued_reads ++ []) ≡ some (result, left, more))
    × (try_receive result new_connection ≡ (true, c))
    × (has_complete_message c ≡ true)
    × (take_message c ≡ ok (codes "hi", new_connection))
unfolding concat transport_bytes write_u32 queue_send form_message
queue_send-arrives_example =
    queue_send-arrives (codes "hi") [] [] queued_reads [] (omega arith) refl

extract_complete_message-framer_example :
    extract_complete_message (0 ∷ 0 ∷ 0 ∷ 1 ∷ 65 ∷ 66 ∷ []) ≡ (
      if has_message_in_buffer (0 ∷ 0 ∷ 0 ∷ 1 ∷ 65 ∷ 66 ∷ [])
      then taken (extract_message (0 ∷ 0 ∷ 0 ∷ 1 ∷ 65 ∷ 66 ∷ []))
      else none)
unfolding read_u32
extract_complete_message-framer_example =
    extract_complete_message-framer (0 ∷ 0 ∷ 0 ∷ 1 ∷ 65 ∷ 66 ∷ []) (65 ∷ 66 ∷ []) 1 refl
      (omega arith)
