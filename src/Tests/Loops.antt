-- ===== src/Tests/Loops.antt =====
-- Events for the loop of src/transport/peer.cpp.
use my_messenger.Prelude.{List, [], ◌∷◌, true, false, none, some, refl}
use my_messenger.Prelude.Bytes.{codes}
use my_messenger.Transport.{ReceiveResult, received, sent}
use my_messenger.Transport.Socket.{Socket, ServerCalls, tcp, setup_server, tcp_server}
use my_messenger.Peer.Events.{PeerEvent}
use my_messenger.Peer.Linked.{IsLinked}
use my_messenger.Peer.Callback.{received_by, received_by-Keeps}
use my_messenger.Tests.Toy.{toy}
use my_messenger.Tests.Peers.{bob}
use my_messenger.Peer.Service
use my_messenger.Peer.Service.{
  PeerService, PeerLoopEvent, knocking, of_peer, halted, start_listening,
}
use my_messenger.Peer.Service.Life.{silent, start_listening-IsLinked}

-- Five bytes that are no message have arrived behind their length.
abbrev exit_arrived : ReceiveResult
exit_arrived = record { status = received; content = 0 ∷ 0 ∷ 0 ∷ 5 ∷ codes "/exit"; error_code = 0 }

abbrev friend_writes : PeerEvent
friend_writes = record {
  hung_up = false;
  readable = true;
  writable = false;
  result = exit_arrived;
  answer = sent 0;
  errno = 0;
}

abbrev listening_socket : Socket
listening_socket = record { type = tcp; fd = none; inner = record { fd = none; opened = [] } }

abbrev free_port : ServerCalls
free_port = record {
  socket = some 3;
  address_taken = true;
  bound = true;
  listening = true;
  option_set = true;
}

abbrev friend_comes : List (List PeerLoopEvent)
friend_comes =
    (knocking true (some (5, codes "10.0.0.1")) ∷ [])
    ∷ (of_peer 5 friend_writes ∷ halted ∷ of_peer 5 friend_writes ∷ [])
    ∷ []

abbrev listening_node : PeerService
listening_node = (start_listening free_port (silent listening_socket)).1

start_listening-IsLinked_example :
    IsLinked (Service.run_event_loop (received_by toy bob) friend_comes listening_node).1.node
unfolding start_listening setup_server tcp_server
start_listening-IsLinked_example =
    start_listening-IsLinked (received_by toy bob) (received_by-Keeps toy bob) free_port
      listening_socket friend_comes listening_node refl
