-- ===== src/Tests/Starts.antt =====
-- Starts of a server: one that serves and is stopped, and one that gets no socket.
use my_messenger.Prelude.{ℕ-eq, ◌≡◌, refl, [], ◌∷◌, true, false, none, some}
use my_messenger.Prelude.Bytes.{codes}
use my_messenger.Transport.{new_connection}
use my_messenger.Prelude.Result.{ok}
use my_messenger.Transport.Socket.{Socket, ServerCalls, tcp, setup_server, tcp_server}
use my_messenger.Transport.Socket.Setup.{
  serving, and_opened, succeeded, has_value, setup_server_serves,
}
use my_messenger.Server.Invariant.{Inv}
use my_messenger.Server.Reach.{Reachable}
use my_messenger.Server.Events.{ServerNode, finished, on_client_connected}
use my_messenger.Framing.Stream.{frames}
use my_messenger.Server.Loop.{Served, listening}
use my_messenger.Server.Service.{
  Service, start, incoming, passed, stopped, stop, run_event_loop, serve_all, serve, accept_event,
  tcp_accept,
}
use my_messenger.Server.Service.Life.{
  idle, start-run_event_loop, run_event_loop-stop, start_without_socket,
}

abbrev tcp_socket : Socket
tcp_socket = record { type = tcp; fd = none; inner = record { fd = none; opened = [] } }

abbrev all_well : ServerCalls
all_well = record {
  socket = some 3;
  address_taken = true;
  bound = true;
  listening = true;
  option_set = true;
}

abbrev port_taken : ServerCalls
port_taken = record all_well { bound = false }

setup_server_serves_example :
    let (r, s') = setup_server (codes "0.0.0.0") port_taken tcp_socket in
    (s'.fd ≡ serving tcp (codes "0.0.0.0") port_taken)
    × (s'.inner.opened ≡ and_opened (some 3) [])
    × (succeeded r ≡ has_value (serving tcp (codes "0.0.0.0") port_taken))
setup_server_serves_example = setup_server_serves (codes "0.0.0.0") port_taken tcp_socket refl

abbrev serving_service : Service
serving_service = (start (codes "0.0.0.0") all_well (idle 5 tcp_socket)).1

abbrev one_comes : Service
one_comes =
    (run_event_loop ((passed 6 ∷ incoming true (some 4) finished ∷ []) ∷ []) serving_service).1

start-run_event_loop_example :
    Served one_comes.node × Reachable one_comes.node.context × Inv one_comes.node.context.services
unfolding start setup_server tcp_server run_event_loop serve_all serve accept_event tcp_accept
    on_client_connected
start-run_event_loop_example =
    start-run_event_loop (codes "0.0.0.0") all_well 5 tcp_socket
      ((passed 6 ∷ incoming true (some 4) finished ∷ []) ∷ []) serving_service one_comes false refl
      refl

-- The stop comes in the middle of a batch, whose last event is still served.
abbrev stopped_then : Service
stopped_then = (serve_all (stopped ∷ passed 7 ∷ []) one_comes).1

run_event_loop-stop_example :
    (run_event_loop
        ((passed 6 ∷ incoming true (some 4) finished ∷ [])
          ∷ (stopped ∷ passed 7 ∷ [])
          ∷ (passed 8 ∷ [])
          ∷ [])
        serving_service
      ≡ (ok true, stopped_then))
    × (stopped_then.running ≡ false)
    × ((stop one_comes).woken ≡ true)
unfolding start setup_server tcp_server run_event_loop serve_all serve stop accept_event tcp_accept
    on_client_connected
run_event_loop-stop_example =
    run_event_loop-stop ((passed 6 ∷ incoming true (some 4) finished ∷ []) ∷ [])
      ((passed 8 ∷ []) ∷ []) [] (passed 7 ∷ []) serving_service one_comes stopped_then refl refl

start_without_socket_example :
    let (r, v) = start (codes "0.0.0.0") (record all_well { socket = none }) (idle 5 tcp_socket) in
    (r ≡ ok tt) × (run_event_loop ((passed 6 ∷ []) ∷ []) v ≡ (ok true, v))
start_without_socket_example =
    start_without_socket (codes "0.0.0.0") (record all_well { socket = none }) 5 tcp_socket
      ((passed 6 ∷ []) ∷ []) refl

abbrev one_client : ServerNode
one_client = record (listening 5) {
  connections = (4, new_connection) ∷ [];
  clients = (4, tt) ∷ [];
  watched = (4, true) ∷ [];
  handshakes = (4, true) ∷ [];
}

abbrev left_unread : ServerNode
left_unread = record one_client {
  connections =
      (4, record new_connection { recv_buffer = frames ((65 ∷ []) ∷ (66 ∷ []) ∷ []) }) ∷ [];
}
