-- ===== src/Server/Backlog.antt =====
-- src/transport/handling.cpp (ServerHandler::handle_event): what one readable event takes.
use my_messenger.Prelude.{ℕ, true, false, ◌++◌, ◌≡◌, ap, ◌∙◌, some, arith, ℕ-eq}
use my_messenger.Prelude.Bytes.{Bytes}
use my_messenger.Prelude.Dict.{lookup, insert, has}
use my_messenger.Prelude.Exec.{◌>>◌}
use my_messenger.Framing.{has_message_in_buffer, extract_message}
use my_messenger.Framing.RoundTrip.{frame, FitsFrame, has_message-frame, extract_message-frame}
use my_messenger.Transport.{
  ClientConnection, get_connection, try_receive, has_complete_message, take_message,
}
use my_messenger.Server.Commands.{on_client_message}
use my_messenger.Server.Events.{
  ServerNode, ServerEvent, calling, client_writable, client_readable, client_event, handle_event,
}

-- A client is past its handshake and known, and an event says that it can be read and is not hung up.
-- What receive answers is neither an end of the stream nor an error.
-- When the bytes that were there and those that come are a message shorter than 2^32 - 4 behind its
-- length and then anything else, the event gives the application that message alone and leaves all
-- that follows in the buffer, also where it holds further whole messages.
pub handle_event-first :
    (fd : ℕ) (event : ServerEvent) (n : ServerNode) (conn : ClientConnection) (message rest : Bytes)
    → event.hung_up ≡ false
    → event.readable ≡ true
    → (try_receive event.result conn).0 ≡ true
    → lookup fd n.handshakes ≡ some true
    → has fd n.clients ≡ true
    → get_connection fd n.connections ≡ some conn
    → FitsFrame message
    → conn.recv_buffer ++ event.result.content ≡ frame message ++ rest
    → handle_event fd event n
      ≡ (calling (on_client_message fd message) >> client_writable fd event)
          (record n { connections = insert fd (record conn { recv_buffer = rest }) n.connections })
unfolding handle_event client_event client_readable try_receive has_complete_message take_message
handle_event-first fd event n conn message rest quiet readable came done known there fits e =
    let found = ap has_message_in_buffer e ∙ has_message-frame message rest fits in
    let got = ap extract_message e ∙ extract_message-frame message rest fits in
    ground (arith, quiet, readable, came, done, known, there, found, got)
