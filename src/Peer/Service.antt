-- ===== src/Peer/Service.antt =====
-- src/transport/peer.cpp (start_listening, run_event_loop), PeerTCPAcceptor of
-- src/transport/acceptor.cpp and PeerAcceptHandler of src/transport/handling.cpp: a node from its
-- listening socket to its loop.
pub mod Life
use my_messenger.Prelude.{ℕ, Bool, true, false, not, List, [], ◌∷◌, Option, none, some}
use my_messenger.Prelude.Bytes.{Bytes}
use my_messenger.Prelude.Result.{Result, ok, err}
use my_messenger.Prelude.Exec.{Exec, ◌>>◌}
use my_messenger.Failure.{Failure, no_listening_socket}
use my_messenger.Transport.{new_connection}
use my_messenger.Transport.Socket.{ServerCalls, Socket, setup_server, any_address}
use my_messenger.Peer.{PeerNode, PeerSession, Node, fresh_node, register_peer_connection, stop}
use my_messenger.Peer.Events.{PeerEvent, run_once}

-- `listener` is the descriptor that the event loop has for the PeerAcceptHandler.
pub record PeerService : Type 0 where
  pub node : PeerNode
  pub listening_socket : Socket
  pub listener : Option ℕ

-- A node that does not listen yet.
abbrev pub silent_node : PeerNode
silent_node = record fresh_node { running = false }

unfoldable pub start_listening : ServerCalls → Exec PeerService Failure (Unit {0})
start_listening calls v =
    let (r, socket) = setup_server any_address calls v.listening_socket in
    let v = record v { listening_socket = socket } in
    elim r [
      | err e ↦ (err e, v)
      | ok u ↦ elim socket.fd [
        | none ↦ (err no_listening_socket, v)
        | some fd ↦
            (ok tt, record v { node = record v.node { running = true }; listener = some fd })
      ]
    ]

-- PeerTCPAcceptor::accept, with the descriptor of ::accept and the address as inet_ntop writes it.
unfoldable pub peer_tcp_accept : Option (ℕ × Bytes) → Option (ℕ × PeerSession)
peer_tcp_accept none = none
peer_tcp_accept (some (client_fd, ip)) =
    some (client_fd, record { ip = ip; buffers = new_connection })

-- PeerAcceptHandler::handle_event, which does not look at the answer of the registration.
unfoldable pub accept_peer : Bool → Option (ℕ × Bytes) → PeerNode → PeerNode
accept_peer readable answer n = elim readable [
  | false ↦ n
  | true ↦ elim (peer_tcp_accept answer) [
    | none ↦ n
    | some (fd, session) ↦ (register_peer_connection fd session n).1
  ]
]

-- What the loop sees: an event of the listener or of a peer, and another thread that stops the node.
pub data PeerLoopEvent : Type 0 where
  knocking : Bool → Option (ℕ × Bytes) → PeerLoopEvent
  of_peer : ℕ → PeerEvent → PeerLoopEvent
  halted : PeerLoopEvent

abbrev pub on_peer_node : Node (Unit {0}) → Exec PeerService Failure (Unit {0})
on_peer_node run v = let (r, node) = run v.node in (r, record v { node = node })

module _ (on_data_callback : ℕ → Bytes → Node (Unit {0})) where
  -- One step of the loop of EventLoop::run_once, or a stop beside it: without a listener nobody comes in.
  unfoldable pub serve_peer : PeerLoopEvent → Exec PeerService Failure (Unit {0})
  serve_peer (knocking readable answer) v = elim v.listener [
    | none ↦ (ok tt, v)
    | some fd ↦ (ok tt, record v { node = accept_peer readable answer v.node })
  ]
  serve_peer (of_peer fd event) v = on_peer_node (run_once on_data_callback fd event) v
  serve_peer halted v = on_peer_node stop v

  -- EventLoop::run_once for the events that one epoll_wait gives, with no test of `running_` between.
  unfoldable pub serve_peers : List PeerLoopEvent → Exec PeerService Failure (Unit {0})
  serve_peers [] v = (ok tt, v)
  serve_peers (event ∷ events) v = (serve_peer event >> serve_peers events) v

  -- The loop, where epoll_wait gives these events one time after the other; `true`: it has ended,
  -- `false`: it waits.
  unfoldable pub run_event_loop : List (List PeerLoopEvent) → Exec PeerService Failure Bool
  run_event_loop [] v = (ok (not v.node.running), v)
  run_event_loop (batch ∷ batches) v = elim v.node.running [
    | false ↦ (ok true, v)
    | true ↦ (serve_peers batch >> run_event_loop batches) v
  ]
