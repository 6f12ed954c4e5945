-- ===== src/Transport/Socket.antt =====
-- src/transport/raw_socket.cpp: TCPSocket, UDPSocket and ISocket. What the calls of the system
-- answer is an argument. `opened` has each descriptor that ::socket gave; none of the
-- functions closes one.
pub mod Setup
use my_messenger.Prelude.{
  ℕ, zero, suc, ◌+◌, Bool, true, false, not, ◌&&◌, ◌||◌, List, [], ◌∷◌, Option, none, some, nat_eq,
  if◌then◌else◌, ◌==◌,
}
use my_messenger.Prelude.Bytes.{Bytes, Bytes-eq, codes}
use my_messenger.Prelude.Result.{Result, ok, err}
use my_messenger.Failure.{Failure, wrong_ip, bind_failed, listen_failed, setsockopt_failed}
use my_messenger.Transport.{Signed, nonnegative, minus_suc}

-- `fd` is -1 where it is `none`.
pub record RawSocket : Type 0 where
  pub fd : Option ℕ
  pub opened : List ℕ

-- The answers of the calls, if they are made: of ::socket, whether inet_pton takes the address, and
-- whether ::bind, ::listen and ::setsockopt succeed.
pub record ServerCalls : Type 0 where
  pub socket : Option ℕ
  pub address_taken : Bool
  pub bound : Bool
  pub listening : Bool
  pub option_set : Bool

abbrev pub opening : Option ℕ → RawSocket → RawSocket
opening none s = record s { fd = none }
opening (some fd) s = record s { fd = some fd; opened = fd ∷ s.opened }

abbrev pub forget : RawSocket → RawSocket
forget s = record s { fd = none }

abbrev pub any_address : Bytes
any_address = codes "0.0.0.0"

abbrev pub understood : Bytes → Bool → Bool
understood ip address_taken = (ip == any_address) || address_taken

abbrev pub SocketSetup : Type 0
SocketSetup = Result Failure (Unit {0}) × RawSocket

-- TCPSocket::server. Where ::socket fails it returns as if all was well.
unfoldable pub tcp_server : Bytes → ServerCalls → RawSocket → SocketSetup
tcp_server ip calls s = elim calls.socket [
  | none ↦ (ok tt, opening none s)
  | some fd ↦
      let s = opening (some fd) s in
      if not (understood ip calls.address_taken)
      then (err wrong_ip, forget s)
      else if not calls.bound
      then (err bind_failed, forget s)
      else if not calls.listening
      then (err listen_failed, forget s)
      else if not calls.option_set
      then (err setsockopt_failed, forget s)
      else (ok tt, s)
]

-- UDPSocket::server, whose socket is a stream socket too; where ::bind fails, fd keeps its value.
unfoldable pub udp_server : Bytes → ServerCalls → RawSocket → SocketSetup
udp_server ip calls s = elim calls.socket [
  | none ↦ (ok tt, opening none s)
  | some fd ↦
      let s = opening (some fd) s in
      if not (understood ip calls.address_taken)
      then (err wrong_ip, forget s)
      else if not calls.bound
      then (err bind_failed, s)
      else if not calls.option_set
      then (err setsockopt_failed, forget s)
      else (ok tt, s)
]

abbrev pub einprogress : ℕ
einprogress = 115

abbrev pub eisconn : ℕ
eisconn = 106

abbrev pub ealready : ℕ
ealready = 114

-- The number below zero that is this far from it.
abbrev pub negative : ℕ → Signed
negative zero = nonnegative 0
negative (suc n) = minus_suc n

-- The answers of ::socket and inet_pton, and errno where ::connect fails.
pub record ClientCalls : Type 0 where
  pub socket : Option ℕ
  pub address_taken : Bool
  pub refused : Option ℕ

-- A connection that is under way is taken for one.
abbrev pub under_way : ℕ → Bool
under_way errno = nat_eq errno einprogress || nat_eq errno eisconn || nat_eq errno ealready

-- TCPSocket::client. A descriptor that is not connected stays.
unfoldable pub tcp_client : ClientCalls → RawSocket → Signed × RawSocket
tcp_client calls s = elim calls.socket [
  | none ↦ (minus_suc 0, opening none s)
  | some fd ↦
      let s = opening (some fd) s in
      if not calls.address_taken then (negative 22, s) else elim calls.refused [
        | none ↦ (nonnegative 0, s)
        | some errno ↦ if under_way errno then (nonnegative 0, s) else (negative errno, s)
      ]
]

-- UDPSocket::client: fd is -1 when it is looked at.
unfoldable pub udp_client : ClientCalls → RawSocket → Signed × RawSocket
udp_client calls s = (minus_suc 0, forget s)

-- What select says of the descriptor, whether it is in the set of exceptions and in that of writes;
-- `none`: the time is up or the call failed.
abbrev pub Selected : Type 0
Selected = Option (Bool × Bool)

-- TCPSocket::check_connection_complete, with the answer of getsockopt for SO_ERROR.
unfoldable pub check_connection_complete : Selected → ℕ → Bool
check_connection_complete none so_error = false
check_connection_complete (some (excepted, writable)) so_error =
    if excepted then false else if writable then nat_eq so_error 0 else false

pub data SocketType : Type 0 where
  tcp udp : SocketType

-- ISocket::setup_server. Where the inner socket throws, the descriptor of the outer one stays.
pub record Socket : Type 0 where
  pub type : SocketType
  pub fd : Option ℕ
  pub inner : RawSocket

abbrev pub server_of : SocketType → Bytes → ServerCalls → RawSocket → SocketSetup
server_of tcp = tcp_server
server_of udp = udp_server

abbrev pub taken_over : Socket → SocketSetup → Result Failure (Unit {0}) × Socket
taken_over s (err e, inner) = (err e, record s { inner = inner })
taken_over s (ok u, inner) = (ok u, record s { inner = inner; fd = inner.fd })

unfoldable pub setup_server : Bytes → ServerCalls → Socket → Result Failure (Unit {0}) × Socket
setup_server ip calls s = taken_over s (server_of s.type ip calls s.inner)

abbrev pub client_of_type : SocketType → ClientCalls → RawSocket → Signed × RawSocket
client_of_type tcp = tcp_client
client_of_type udp = udp_client

-- ISocket::setup_connection makes the inner socket anew; a descriptor it had is not closed.
unfoldable pub setup_connection : ClientCalls → Socket → Signed × Socket
setup_connection calls s =
    let (code, inner) = client_of_type s.type calls (forget s.inner) in
    (code, record s { inner = inner; fd = inner.fd })
