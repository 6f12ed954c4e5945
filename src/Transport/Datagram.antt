-- ===== src/Transport/Datagram.antt =====
-- The other two transports of src/transport/transport.cpp: UDPTransport, and TLSTransport, whose loop
-- is that of TCPTransport over SSL_read. What the calls answer is an argument.
use my_messenger.Prelude.{
  ℕ, zero, suc, ◌+◌, Bool, true, false, ◌&&◌, List, [], length, nat_eq, if◌then◌else◌, Option, none,
  some,
}
use my_messenger.Prelude.Bytes.{Bytes}
use my_messenger.Framing.{length_prefix}
use my_messenger.Transport.{
  Recv, ReceiveResult, received, would_block, closed, error, receive_loop, Sent, sent, not_sent,
  Signed, nonnegative, minus_suc, less_four, eagain,
}

-- The address and the port of a sockaddr_in.
pub record Address : Type 0 where
  pub s_addr : ℕ
  pub port : ℕ

abbrev pub same_address : Address → Address → Bool
same_address a b = nat_eq a.s_addr b.s_addr && nat_eq a.port b.port

-- What ::recvfrom answers.
pub data RecvFrom : Type 0 where
  datagram : Address → Bytes → RecvFrom
  failed : ℕ → RecvFrom

abbrev pub einval : ℕ
einval = 22

abbrev pub ebadmsg : ℕ
ebadmsg = 74

abbrev pub failing_with : ℕ → ReceiveResult
failing_with errno = record { status = error; content = []; error_code = errno }

-- A datagram that came from the other end.
abbrev pub whole_datagram : Bytes → ReceiveResult
whole_datagram bytes = elim (length_prefix bytes) [
  | none ↦ failing_with ebadmsg
  | some (declared_len, message) ↦
      if nat_eq (length bytes) (4 + declared_len)
      then record { status = received; content = message; error_code = 0 }
      else failing_with ebadmsg
]

-- UDPTransport::receive
unfoldable pub udp_receive : Address → RecvFrom → ReceiveResult
udp_receive addr (datagram from bytes) =
    if nat_eq (length bytes) 0
    then record { status = closed; content = []; error_code = 0 }
    else if same_address from addr
    then whole_datagram bytes
    else failing_with einval
udp_receive addr (failed errno) =
    if nat_eq errno eagain
    then record { status = would_block; content = []; error_code = 0 }
    else failing_with errno

-- What UDPTransport::send returns, after ::connect and ::sendto of the bytes with their length.
unfoldable pub udp_sent : Bool → Sent → Signed
udp_sent false answer = nonnegative 0
udp_sent true (sent zero) = nonnegative 0
udp_sent true (sent (suc n)) = less_four (sent (suc n))
udp_sent true (not_sent errno) = minus_suc 0

-- TLSTransport::receive, with the answers of SSL_read.
unfoldable pub tls_receive : Bytes → List Recv → Option (ReceiveResult × Bytes × List Recv)
tls_receive accumulation_buffer answers = receive_loop [] answers

-- TLSTransport::send, with the answer of SSL_write.
unfoldable pub tls_sent : Sent → Signed
tls_sent answer = less_four answer
