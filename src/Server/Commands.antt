-- ===== src/Server/Commands.antt =====
-- How the server runs a message: src/application/commands/impl/*.cpp (fromMessage and
-- execeuteOnServer), include/application/commands/impl/help_command.hpp, ServerCommandBus of
-- src/application/commands/command_interface.cpp, ServerMessageDispatcher of
-- src/application/dispatching/message_dispatcher.cpp with the handlers of
-- src/application/dispatching/message_dispatchers, src/application/messaging/messaging_server.cpp,
-- and the filter of on_client_message of src/transport/server.cpp. Printing is left out.
use my_messenger.Prelude.{
  ℕ, Option, none, some, [], ◌∷◌, ◌++◌, Bool, true, false, if◌then◌else◌, ◌==◌, ◌||◌,
}
use my_messenger.Prelude.Bytes.{Bytes, Bytes-eq, codes, is_empty}
use my_messenger.Prelude.Dict.{Dict, lookup}
use my_messenger.Prelude.Result.{Result, ok, err}
use my_messenger.Failure.{Failure}
use my_messenger.Message.{
  Message, MessageType, text, command, cipher_message, file_start, file_chunk, file_end,
  new_message, get_meta, get_payload, get_type, command_code, exit,
}
use my_messenger.Message.Responses.{user_not_found}
use my_messenger.Message.Codec.{serialize, deserialize}
use my_messenger.Sessions
use my_messenger.Sessions.{ServiceError}
use my_messenger.Commands.Parser.{make_struct_from_command}
use my_messenger.Server.{
  ServerContext, Server, send, send_text, login, create_room, join_room, send_group_message,
  exit_current_session, deliver_cipher_message, send_pubkey,
}

-- fromMessage, then execeuteOnServer.
unfoldable pub run_exit : Message → Server (Unit {0})
run_exit msg = exit_current_session

unfoldable pub run_login : Message → Server (Unit {0})
run_login msg = login (get_meta msg 1) (get_meta msg 2) (get_meta msg 3) (get_meta msg 4)

unfoldable pub run_room : Message → Server (Unit {0})
run_room msg = create_room (get_meta msg 1)

-- SendGroupMessageCommand::toMessage is built before the service is called.
unfoldable pub run_send : Message → Server (Unit {0})
run_send msg s = elim (new_message s.now (get_payload msg) 0 [] text) [
  | err e ↦ (err e, s)
  | ok built ↦ send_group_message (get_meta msg 1) built s
]

unfoldable pub run_join : Message → Server (Unit {0})
run_join msg = join_room (get_meta msg 1)

unfoldable pub run_getpub : Message → Server (Unit {0})
run_getpub msg = send_pubkey (get_meta msg 1)

unfoldable pub run_help : Message → Server (Unit {0})
run_help msg s = (ok tt, s)

unfoldable pub run_sendfile : Message → Server (Unit {0})
run_sendfile msg s =
    send_text s.fd
      (codes "Server should send a file '" ++ (get_meta msg 2 ++ (codes "' to " ++ get_meta msg 1)))
      s

-- The commands that the constructor of ServerCommandHandler registers.
abbrev pub registry : Dict Bytes (Message → Server (Unit {0}))
registry =
    (codes "exit", run_exit)
    ∷ (codes "login", run_login)
    ∷ (codes "room", run_room)
    ∷ (codes "send", run_send)
    ∷ (codes "join", run_join)
    ∷ (codes "getpub", run_getpub)
    ∷ (codes "help", run_help)
    ∷ (codes "sendfile", run_sendfile)
    ∷ []

-- ServerCommandBus::dispatch
unfoldable pub dispatch_command : Message → Server (Unit {0})
dispatch_command msg s = elim (lookup (make_struct_from_command msg).name registry) [
  | none ↦ (ok tt, s)
  | some handler ↦ handler msg s
]

-- The three handlers of server_file_handlers.cpp have the same body.
unfoldable pub forward_file : Message → Server (Unit {0})
forward_file msg s = elim (Sessions.get_fd (get_meta msg 0) s.sessions) [
  | err e ↦ send s.fd user_not_found s
  | ok recipient_fd ↦ send recipient_fd (serialize msg) s
]

-- ServerTextHandler only prints.
unfoldable pub run_text : Message → Server (Unit {0})
run_text msg s = (ok tt, s)

-- handleMessage of the handler that the constructor of MessagingServer registers for the type.
unfoldable pub handler_for : MessageType → Option (Message → Server (Unit {0}))
handler_for text = some run_text
handler_for command = some dispatch_command
handler_for cipher_message = some (λ msg s. deliver_cipher_message s.fd msg s)
handler_for file_start = some forward_file
handler_for file_chunk = some forward_file
handler_for file_end = some forward_file
handler_for _ = none

-- A handler that throws leaves what it changed, and the exception is swallowed.
abbrev pub caught : Result Failure (Unit {0}) × ServerContext → Bool × ServerContext
caught (ok u, s) = (true, s)
caught (err e, s) = (false, s)

abbrev pub handled_by :
    Option (Message → Server (Unit {0})) → Message → ServerContext → Bool × ServerContext
handled_by none msg s = (false, s)
handled_by (some handler) msg s = caught (handler msg s)

unfoldable pub dispatch : Message → ServerContext → Bool × ServerContext
dispatch msg s = handled_by (handler_for (get_type msg)) msg s

-- An exception of deserialize is not caught here.
unfoldable pub on_tcp_data_received : ℕ → Bytes → Server Bool
on_tcp_data_received fd raw_data s = elim (deserialize raw_data) [
  | err e ↦ (err e, s)
  | ok msg ↦ let (handled, s) = dispatch msg (record s { fd = fd }) in (ok handled, s)
]

-- Message({}, 1, {{EXIT}}, Command), built by the callback of a lost connection
unfoldable pub exit_message : ℕ → Result Failure Message
exit_message now = new_message now [] 1 ((command_code exit ∷ []) ∷ []) command

unfoldable pub on_disconnect : ℕ → Server Bool
on_disconnect fd s = elim (exit_message s.now) [
  | err e ↦ (err e, record s { fd = fd })
  | ok msg ↦ let (handled, s) = dispatch msg (record s { fd = fd }) in (ok handled, s)
]

-- Server::on_client_message passes on what is neither empty nor "/exit".
unfoldable pub on_client_message : ℕ → Bytes → Server Bool
on_client_message fd raw_data s =
    if is_empty raw_data || raw_data == codes "/exit"
    then (ok false, s)
    else on_tcp_data_received fd raw_data s
