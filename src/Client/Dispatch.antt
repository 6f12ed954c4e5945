-- ===== src/Client/Dispatch.antt =====
-- The way of a message on the client: ClientCommandHandler, ClientCommandBus of
-- src/application/commands/command_interface.cpp, ClientMessageDispatcher of
-- src/application/dispatching/message_dispatcher.cpp and src/application/messaging/messaging_client.cpp.
-- A command object that is kept between two messages is set anew by each.
use my_messenger.Prelude.{Option, none, some, [], ◌∷◌, Bool, true, false}
use my_messenger.Prelude.Bytes.{Bytes, Bytes-eq, codes}
use my_messenger.Prelude.Dict.{Dict, lookup}
use my_messenger.Prelude.Result.{Result, ok, err}
use my_messenger.Failure.{Failure}
use my_messenger.Message.{
  Message, MessageType, text, command, response, cipher_message, file_start, file_chunk, file_end,
  get_type,
}
use my_messenger.Message.Codec.{deserialize}
use my_messenger.Commands.Parser.{parse, make_struct_from_command}
use my_messenger.Crypto.{OpenSsl}
use my_messenger.Client.{
  ClientContext, Client, client_exit, client_login, client_room, client_send, client_join,
  client_getpub, client_pmess, client_help,
}
use my_messenger.Client.Files.{client_sendfile}
use my_messenger.Client.Handlers.{
  handle_text, handle_response, handle_cipher, handle_file_start, handle_file_chunk,
  handle_file_end,
}

module _ (o : OpenSsl) where
  -- The commands that the constructor of ClientCommandHandler registers.
  abbrev pub client_registry : Dict Bytes (Message → Client o (Unit {0}))
  client_registry =
      (codes "exit", client_exit o)
      ∷ (codes "login", client_login o)
      ∷ (codes "room", client_room o)
      ∷ (codes "send", client_send o)
      ∷ (codes "join", client_join o)
      ∷ (codes "getpub", client_getpub o)
      ∷ (codes "pmess", client_pmess o)
      ∷ (codes "help", client_help o)
      ∷ (codes "sendfile", client_sendfile o)
      ∷ []

  -- ClientCommandBus::dispatch
  unfoldable pub client_command : Message → Client o (Unit {0})
  client_command msg c = elim (lookup (make_struct_from_command msg).name client_registry) [
    | none ↦ (ok tt, c)
    | some handler ↦ handler msg c
  ]

  -- handleOutgoing of the handler that the constructor of MessagingClient registers for the type.
  unfoldable pub client_handler_for : MessageType → Option (Message → Client o (Unit {0}))
  client_handler_for text = some (handle_text o)
  client_handler_for command = some client_command
  client_handler_for response = some (handle_response o)
  client_handler_for cipher_message = some (handle_cipher o)
  client_handler_for file_start = some (handle_file_start o)
  client_handler_for file_chunk = some (handle_file_chunk o)
  client_handler_for file_end = some (handle_file_end o)
  client_handler_for _ = none

  abbrev pub client_caught : Result Failure (Unit {0}) × ClientContext o → Bool × ClientContext o
  client_caught (ok u, c) = (true, c)
  client_caught (err e, c) = (false, c)

  abbrev pub client_handled_by :
      Option (Message → Client o (Unit {0})) → Message → ClientContext o → Bool × ClientContext o
  client_handled_by none msg c = (false, c)
  client_handled_by (some handler) msg c = client_caught (handler msg c)

  -- ClientMessageDispatcher::dispatch; it calls handleOutgoing, whichever way the message goes.
  unfoldable pub client_dispatch : Message → ClientContext o → Bool × ClientContext o
  client_dispatch msg c = client_handled_by (client_handler_for (get_type msg)) msg c

  -- An exception of deserialize is not caught here.
  unfoldable pub client_receives : Bytes → Client o (Unit {0})
  client_receives raw_data c = elim (deserialize raw_data) [
    | err e ↦ (err e, c)
    | ok msg ↦ (ok tt, (client_dispatch msg c).1)
  ]

  -- MessagingClient::get_data, for what the user typed; an exception of parse is not caught here.
  unfoldable pub get_data : Bytes → Client o (Unit {0})
  get_data line c = elim (parse c.now line) [
    | err e ↦ (err e, c)
    | ok msg ↦ (ok tt, (client_dispatch msg c).1)
  ]
