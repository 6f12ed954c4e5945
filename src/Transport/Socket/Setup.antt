-- ===== src/Transport/Socket/Setup.antt =====
-- src/transport/raw_socket.cpp: when setting up a socket succeeds, and what it leaves behind.
use my_messenger.Prelude.{
  ℕ, Bool, true, false, not, ◌&&◌, ◌||◌, List, ◌∷◌, Option, none, some, ◌≡◌, if◌then◌else◌, arith,
}
use my_messenger.Prelude.Bytes.{Bytes}
use my_messenger.Prelude.Result.{Result, ok, err}
use my_messenger.Failure.{Failure}
use my_messenger.Transport.Socket.{
  SocketType, tcp, udp, Socket, taken_over, server_of, ServerCalls, understood, setup_server,
  tcp_server, udp_server,
}

-- A datagram socket is not told to listen.
abbrev listens : SocketType → Bool → Bool
listens tcp listening = listening
listens udp listening = true

-- The descriptor of a server, where each call succeeds.
abbrev pub serving : SocketType → Bytes → ServerCalls → Option ℕ
serving t ip calls =
    if understood ip calls.address_taken
      && calls.bound
      && listens t calls.listening
      && calls.option_set
    then calls.socket
    else none

abbrev pub has_value {ℓ} : {A : Type ℓ} → Option A → Bool
has_value none = false
has_value (some a) = true

abbrev pub succeeded : Result Failure (Unit {0}) → Bool
succeeded (ok u) = true
succeeded (err e) = false

abbrev pub and_opened : Option ℕ → List ℕ → List ℕ
and_opened none opened = opened
and_opened (some fd) opened = fd ∷ opened

-- What setup_server leaves, by the type of the socket.
abbrev Leaves : SocketType → Bytes → ServerCalls → Socket → Type 0
Leaves t ip calls s =
    let (r, s') = taken_over s (server_of t ip calls s.inner) in
    (s'.fd ≡ serving t ip calls)
    × (s'.inner.opened ≡ and_opened calls.socket s.inner.opened)
    × (succeeded r ≡ (not (has_value calls.socket) || has_value (serving t ip calls)))

leaves :
    (t : SocketType) (ip : Bytes) (calls : ServerCalls) (s : Socket)
    → s.fd ≡ none
    → Leaves t ip calls s
unfolding tcp_server udp_server
leaves tcp ip calls s empty = (ground (arith, empty), ground arith, ground arith)
leaves udp ip calls s empty = (ground (arith, empty), ground arith, ground arith)

-- Setting up a server, for a socket without a descriptor: it gets one exactly where each call
-- succeeds; the descriptor of ::socket stays open in each case; and the function throws unless each
-- call succeeds or the first one, ::socket, has failed.
pub setup_server_serves :
    (ip : Bytes) (calls : ServerCalls) (s : Socket)
    → s.fd ≡ none
    → let (r, s') = setup_server ip calls s in
      (s'.fd ≡ serving s.type ip calls)
      × (s'.inner.opened ≡ and_opened calls.socket s.inner.opened)
      × (succeeded r ≡ (not (has_value calls.socket) || has_value (serving s.type ip calls)))
unfolding setup_server
setup_server_serves ip calls s empty = leaves s.type ip calls s empty
