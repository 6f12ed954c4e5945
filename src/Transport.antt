-- ===== src/Transport.antt =====
-- src/transport/transport.cpp (extract_complete_message, class TCPTransport) and
-- src/transport/connection.cpp (class ClientConnection, and PeerConnection, whose methods have the
-- same bodies; class ConnectionManager). What the calls recv and send of the system answer is an
-- argument.
pub mod Wire
pub mod Datagram
pub mod Socket
pub mod Buffer
use my_messenger.Prelude.{
  ℕ, zero, suc, ◌+◌, ◌%◌, ◌^◌, Bool, true, false, ◌||◌, List, [], ◌∷◌, ◌++◌, length, take, drop,
  ltb, nat_eq, if◌then◌else◌, Option, none, some, ℕ-eq,
}
use my_messenger.Prelude.Bytes.{Bytes, is_empty}
use my_messenger.Prelude.Dict.{Dict, lookup, insert, erase, has}
use my_messenger.Prelude.Result.{Result, ◌>>=◌}
use my_messenger.Failure.{Failure}
use my_messenger.Wire.{write_u32}
use my_messenger.Framing.{length_prefix, has_message_in_buffer, extract_message, form_message}

-- `sizeof(uint32_t) + len` is a sum of 64 bits. The message and the buffer after it.
unfoldable pub extract_complete_message : Bytes → Option (Bytes × Bytes)
extract_complete_message buffer =
    if ltb (length buffer) 4 then none else elim (length_prefix buffer) [
      | none ↦ none
      | some (len, rest) ↦
          if ltb (length buffer) (4 + len) then none else some (take len rest, drop len rest)
    ]

-- What one call of ::recv answers: some bytes, 0, or -1 with errno.
pub data Recv : Type 0 where
  chunk : Bytes → Recv
  end_of_stream : Recv
  again : Recv
  failed : ℕ → Recv

pub data ReceiveStatus : Type 0 where
  received would_block closed error : ReceiveStatus

pub record ReceiveResult : Type 0 where
  pub status : ReceiveStatus
  pub content : Bytes
  pub error_code : ℕ

-- The loop of TCPTransport::receive, with the accumulation buffer. `none`: the last call of ::recv
-- has not come back. The result has the buffer and the answers that are left.
unfoldable pub receive_loop : Bytes → List Recv → Option (ReceiveResult × Bytes × List Recv)
receive_loop acc [] = none
receive_loop acc (chunk bytes ∷ answers) = elim (extract_complete_message (acc ++ bytes)) [
  | none ↦ receive_loop (acc ++ bytes) answers
  | some (message, left) ↦
      some (record { status = received; content = message; error_code = 0 }, left, answers)
]
receive_loop acc (end_of_stream ∷ answers) =
    some (record { status = closed; content = acc; error_code = 0 }, acc, answers)
receive_loop acc (again ∷ answers) =
    some (record { status = would_block; content = acc; error_code = 0 }, acc, answers)
receive_loop acc (failed errno ∷ answers) =
    some (record { status = error; content = acc; error_code = errno }, acc, answers)

-- TCPTransport::receive clears the accumulation buffer, whatever it holds.
unfoldable pub receive : Bytes → List Recv → Option (ReceiveResult × Bytes × List Recv)
receive accumulation_buffer answers = receive_loop [] answers

-- The bytes that TCPTransport::send gives to ::send.
unfoldable pub transport_bytes : Bytes → Bytes
transport_bytes content = write_u32 (length content % 2 ^ 32) ++ content

-- What ::send answers: a number of bytes, or -1 with errno.
pub data Sent : Type 0 where
  sent : ℕ → Sent
  not_sent : ℕ → Sent

-- A ssize_t.
pub data Signed : Type 0 where
  nonnegative : ℕ → Signed
  minus_suc : ℕ → Signed

-- What TCPTransport::send returns: the answer less four, also where the answer is -1.
abbrev pub less_four : Sent → Signed
less_four (sent (suc (suc (suc (suc n))))) = nonnegative n
less_four (sent (suc (suc (suc zero)))) = minus_suc 0
less_four (sent (suc (suc zero))) = minus_suc 1
less_four (sent (suc zero)) = minus_suc 2
less_four (sent zero) = minus_suc 3
less_four (not_sent errno) = minus_suc 4

-- The buffers of a connection.
pub record ClientConnection : Type 0 where
  pub recv_buffer : Bytes
  pub send_buffer : Bytes

abbrev pub new_connection : ClientConnection
new_connection = record { recv_buffer = []; send_buffer = [] }

unfoldable pub queue_send : Bytes → ClientConnection → ClientConnection
queue_send content c = record c { send_buffer = form_message content c.send_buffer }

-- EAGAIN and EWOULDBLOCK, which is the same number on Linux.
abbrev pub eagain : ℕ
eagain = 11

-- What remains after `transport->send(send_buffer)` returned; `errno` is that of the time.
abbrev pub flushed : Signed → ℕ → ClientConnection → Bool × ClientConnection
flushed (nonnegative (suc n)) errno c =
    let left = drop (suc n) c.send_buffer in (is_empty left, record c { send_buffer = left })
flushed (nonnegative zero) errno c = (false, c)
flushed (minus_suc n) errno c = (if nat_eq n 0 then nat_eq errno eagain else false, c)

unfoldable pub flush : Sent → ℕ → ClientConnection → Bool × ClientConnection
flush answer errno c =
    if is_empty c.send_buffer then (true, c) else flushed (less_four answer) errno c

unfoldable pub try_receive : ReceiveResult → ClientConnection → Bool × ClientConnection
try_receive result c = (
  elim result.status [ received ↦ true | would_block ↦ true | closed ↦ false | error ↦ false ],
  record c { recv_buffer = c.recv_buffer ++ result.content },
)

unfoldable pub has_complete_message : ClientConnection → Bool
has_complete_message c = has_message_in_buffer c.recv_buffer

abbrev pub keeps_buffer : ClientConnection → Bytes × Bytes → Bytes × ClientConnection
keeps_buffer c (message, left) = (message, record c { recv_buffer = left })

unfoldable pub take_message : ClientConnection → Result Failure (Bytes × ClientConnection)
take_message c = do got ← extract_message c.recv_buffer; Result.ok (keeps_buffer c got)

-- ConnectionManager
abbrev pub ConnectionManager : Type 0
ConnectionManager = Dict ℕ ClientConnection

unfoldable pub add_connection : ℕ → ClientConnection → ConnectionManager → ConnectionManager
add_connection fd conn m = insert fd conn m

unfoldable pub remove_connection : ℕ → ConnectionManager → ConnectionManager
remove_connection fd m = if has fd m then erase fd m else m

unfoldable pub get_connection : ℕ → ConnectionManager → Option ClientConnection
get_connection fd m = lookup fd m

-- A connection that is not there is passed over.
unfoldable pub send_to_buffer : ℕ → Bytes → ConnectionManager → ConnectionManager
send_to_buffer fd content m = elim (get_connection fd m) [
  | none ↦ m
  | some conn ↦ insert fd (queue_send content conn) m
]
