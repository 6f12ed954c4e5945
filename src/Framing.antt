-- ===== src/Framing.antt =====
-- src/protocol/framing.cpp (class FramerMessage) and the loop over a receive buffer that
-- src/transport/client.cpp (Client::on_server_message) and src/transport/handling.cpp
-- (PeerEventHandler::handle_event) make with it. A method that changes `buffer` returns it.
pub mod RoundTrip
pub mod Stream
pub mod Overflow
use my_messenger.Prelude.{
  ℕ, zero, suc, ◌+◌, ◌*◌, ◌%◌, ◌^◌, Bool, true, false, List, [], ◌∷◌, ◌++◌, length, take, drop, ltb,
  leb, if◌then◌else◌, Option, none, some,
}
use my_messenger.Prelude.Bytes.{Bytes}
use my_messenger.Prelude.Result.{Result, ok, err, ◌>>=◌}
use my_messenger.Failure.{Failure, undefined}
use my_messenger.Wire.{write_u32, read_u32}

-- memcpy and ntohl; `none` where the buffer has fewer than four bytes.
abbrev pub length_prefix : Bytes → Option (ℕ × Bytes)
length_prefix = read_u32

-- `4 + ntohl(len)` is a sum of uint32_t.
unfoldable pub has_message_in_buffer : Bytes → Bool
has_message_in_buffer buffer =
    if ltb (length buffer) 4 then false else elim (length_prefix buffer) [
      | none ↦ false
      | some (len, rest) ↦ leb ((4 + len) % 2 ^ 32) (length buffer)
    ]

-- The message and the buffer after it. A buffer shorter than its prefix says is read past its end.
unfoldable pub extract_message : Bytes → Result Failure (Bytes × Bytes)
extract_message buffer = elim (length_prefix buffer) [
  | none ↦ err undefined
  | some (len, rest) ↦
      if ltb (length rest) len then err undefined else ok (take len rest, drop len rest)
]

-- The buffer with the message appended. htonl(static_cast<uint32_t>(size)).
unfoldable pub form_message : Bytes → Bytes → Bytes
form_message message buffer = buffer ++ (write_u32 (length message % 2 ^ 32) ++ message)

-- The messages of a round in front of those of the rounds after it.
abbrev pub prepend :
    List Bytes
    → Option (Result Failure (List Bytes × Bytes))
    → Option (Result Failure (List Bytes × Bytes))
prepend messages none = none
prepend messages (some (err e)) = some (err e)
prepend messages (some (ok (more, left))) = some (ok (messages ++ more, left))

-- while (has_message_in_buffer(buffer)) messages.push_back(extract_message(buffer)). `none` is no
-- outcome of the program: the fuel ran out.
unfoldable pub drain_loop : ℕ → Bytes → Option (Result Failure (List Bytes × Bytes))
drain_loop zero buffer = none
drain_loop (suc fuel) buffer = elim (has_message_in_buffer buffer) [
  | false ↦ some (ok ([], buffer))
  | true ↦ elim (extract_message buffer) [
    | err e ↦ some (err e)
    | ok (message, rest) ↦ prepend (message ∷ []) (drain_loop fuel rest)
  ]
]

-- Each message takes four bytes at least.
unfoldable pub drain : Bytes → Option (Result Failure (List Bytes × Bytes))
drain buffer = drain_loop (suc (length buffer)) buffer

-- What arrives is appended to the buffer, then the loop runs, for each arrival in turn.
unfoldable pub feed : Bytes → List Bytes → Option (Result Failure (List Bytes × Bytes))
feed buffer [] = some (ok ([], buffer))
feed buffer (chunk ∷ chunks) = elim (drain (buffer ++ chunk)) [
  | none ↦ none
  | some (err e) ↦ some (err e)
  | some (ok (messages, left)) ↦ prepend messages (feed left chunks)
]
