-- ===== src/Server/Service.antt =====
-- src/transport/server.cpp (start, run_event_loop, stop), the acceptors of src/transport/acceptor.cpp
-- and AcceptHandler of src/transport/handling.cpp: the server from its socket to its loop.
pub mod Life
use my_messenger.Prelude.{
  ℕ, Bool, true, false, not, List, [], ◌∷◌, Option, none, some, if◌then◌else◌,
}
use my_messenger.Prelude.Bytes.{Bytes}
use my_messenger.Prelude.Result.{Result, ok, err}
use my_messenger.Prelude.Exec.{Exec, ◌>>◌}
use my_messenger.Failure.{Failure}
use my_messenger.Transport.{ClientConnection, new_connection}
use my_messenger.Transport.Socket.{ServerCalls, Socket, setup_server}
use my_messenger.Server.Events.{
  ServerNode, ServerEvent, ServerLoop, Handshake, on_client_connected, run_once,
}

-- `listener` is the descriptor that the event loop has for the AcceptHandler; `woken`: the eventfd
-- that wakes the event loop has been written to.
pub record Service : Type 0 where
  pub node : ServerNode
  pub socket : Socket
  pub running : Bool
  pub listener : Option ℕ
  pub woken : Bool

-- Server::start. Where there is no descriptor, an exception is made but not thrown.
unfoldable pub start : Bytes → ServerCalls → Exec Service Failure (Unit {0})
start ip calls v =
    let (r, socket) = setup_server ip calls v.socket in
    let v = record v { socket = socket } in
    elim r [
      | err e ↦ (err e, v)
      | ok u ↦ elim socket.fd [
        | none ↦ (ok tt, v)
        | some fd ↦ (ok tt, record v { running = true; listener = some fd })
      ]
    ]

-- Server::stop, with EventLoop::stop
unfoldable pub stop : Service → Service
stop v = if v.running then record v { running = false; woken = true } else v

-- TCPAcceptor::accept, with the answer of ::accept; no other error than that nobody is there is told.
unfoldable pub tcp_accept : Option ℕ → Option (ℕ × ClientConnection)
tcp_accept none = none
tcp_accept (some client_fd) = some (client_fd, new_connection)

-- UDPAcceptor::accept, with whether recvfrom finds something when it peeks. The connection has the
-- descriptor of the server itself.
unfoldable pub udp_accept : ℕ → Bool → Option (ℕ × ClientConnection)
udp_accept server_fd false = none
udp_accept server_fd true = some (server_fd, new_connection)

-- AcceptHandler::handle_event
unfoldable pub accept_event : Bool → Option ℕ → Handshake → ServerLoop (Unit {0})
accept_event readable answer handshake n = elim readable [
  | false ↦ (ok tt, n)
  | true ↦ elim (tcp_accept answer) [
    | none ↦ (ok tt, n)
    | some (fd, conn) ↦ on_client_connected fd handshake n
  ]
]

-- What the loop sees: an event of the listener, of a client or of the eventfd, time that passes, and
-- another thread that stops the server.
pub data LoopEvent : Type 0 where
  incoming : Bool → Option ℕ → Handshake → LoopEvent
  of_client : ℕ → ServerEvent → LoopEvent
  wakeup : LoopEvent
  passed : ℕ → LoopEvent
  stopped : LoopEvent

abbrev pub on_node : ServerLoop (Unit {0}) → Exec Service Failure (Unit {0})
on_node run v = let (r, node) = run v.node in (r, record v { node = node })

abbrev pub at_time : ℕ → ServerNode → ServerNode
at_time now n = record n { context = record n.context { now = now } }

-- One step of the loop of EventLoop::run_once, or of what happens beside it: without a listener nobody
-- comes in.
unfoldable pub serve : LoopEvent → Exec Service Failure (Unit {0})
serve (incoming readable answer handshake) v = elim v.listener [
  | none ↦ (ok tt, v)
  | some fd ↦ on_node (accept_event readable answer handshake) v
]
serve (of_client fd event) v = on_node (run_once fd event) v
serve wakeup v = (ok tt, record v { woken = false })
serve (passed now) v = (ok tt, record v { node = at_time now v.node })
serve stopped v = (ok tt, stop v)

-- EventLoop::run_once for the events that one epoll_wait gives, which may be none: they are all served,
-- with no test of `running` between them, unless something is thrown.
unfoldable pub serve_all : List LoopEvent → Exec Service Failure (Unit {0})
serve_all [] v = (ok tt, v)
serve_all (event ∷ events) v = (serve event >> serve_all events) v

-- Server::run_event_loop, where epoll_wait gives these events one time after the other; `true`: the
-- loop has ended, `false`: it waits.
unfoldable pub run_event_loop : List (List LoopEvent) → Exec Service Failure Bool
run_event_loop [] v = (ok (not v.running), v)
run_event_loop (batch ∷ batches) v = elim v.running [
  | false ↦ (ok true, v)
  | true ↦ (serve_all batch >> run_event_loop batches) v
]
