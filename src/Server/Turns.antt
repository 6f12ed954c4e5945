-- ===== src/Server/Turns.antt =====
-- src/transport/handling.cpp (ServerHandler::handle_event): the events after several messages have come
-- at once.
use my_messenger.Prelude.{ℕ, zero, suc, true, false, List, [], ◌∷◌, ◌≡◌, none, some, ℕ-eq}
use my_messenger.Prelude.Bytes.{Bytes}
use my_messenger.Prelude.Dict.{lookup, insert, has}
use my_messenger.Prelude.Result.{Result, ok}
use my_messenger.Prelude.Exec.{◌>>◌}
use my_messenger.Failure.{Failure}
use my_messenger.Framing.Stream.{frames}
use my_messenger.Transport.{
  ClientConnection, ConnectionManager, get_connection, would_block, not_sent,
}
use my_messenger.Server.Commands.{on_client_message}
use my_messenger.Server.{Server}
use my_messenger.Server.Events.{
  ServerNode, ServerLoop, ServerEvent, unfinished, calling, handle_event,
}

-- The connection of `fd` has these bytes to be read.
pub record HasUnread (fd : ℕ) (bytes : Bytes) (m : ConnectionManager) : Type 0 where
  pub conn : ClientConnection
  pub there : get_connection fd m ≡ some conn
  pub unread : conn.recv_buffer ≡ bytes

-- What the loop knows of a client whose bytes are to be read.
pub record IsWaiting (fd : ℕ) (bytes : Bytes) (n : ServerNode) : Type 0 where
  pub secured : lookup fd n.handshakes ≡ some true
  pub known : has fd n.clients ≡ true
  pub has_unread : HasUnread fd bytes n.connections

-- An event that says that the client can be read, when nothing more has come: recv gives EAGAIN.
abbrev poke : ServerEvent
poke = record {
  hung_up = false;
  readable = true;
  writable = false;
  accepted = unfinished;
  result = record { status = would_block; content = []; error_code = 0 };
  answer = not_sent 0;
  errno = 0;
}

-- That many events.
unfoldable pub poked : ℕ → ℕ → ServerLoop (Unit {0})
poked zero fd n = (ok tt, n)
poked (suc k) fd n = (handle_event fd poke >> poked k fd) n

-- The connection of `fd` with these bytes to be read.
abbrev with_unread : ℕ → Bytes → ServerNode → ServerNode
with_unread fd bytes n = elim (get_connection fd n.connections) [
  | none ↦ n
  | some conn ↦ record n {
    connections = insert fd (record conn { recv_buffer = bytes }) n.connections;
  }
]

-- The application is given the messages one after the other, as long as it throws nothing.
unfoldable pub in_turn : ℕ → List Bytes → ServerLoop (Unit {0})
in_turn fd [] n = (ok tt, n)
in_turn fd (message ∷ messages) n =
    (calling (on_client_message fd message) >> in_turn fd messages)
      (with_unread fd (frames messages) n)
