-- ===== src/Peer/Commands.antt =====
-- What a peer does with commands and messages: send_from_peer and recv_on_peer of the commands in
-- src/application/commands/impl that PeerCommandHandler registers, PeerCommandBus, the handlers
-- src/application/dispatching/message_dispatchers/peer_*.cpp, PeerMessageDispatcher, and
-- src/application/messaging/messaging_peer.cpp. Printing is left out.
use my_messenger.Prelude.{
  ℕ, List, [], ◌∷◌, Bool, true, false, nat_eq, if◌then◌else◌, Option, none, some, ℕ-eq,
}
use my_messenger.Prelude.Bytes.{Bytes, Bytes-eq, codes, is_empty}
use my_messenger.Prelude.Dict.{Dict, lookup}
use my_messenger.Prelude.Result.{Result, ok, err}
use my_messenger.Prelude.Exec.{Exec, lift, modify, ◌>>=◌, ◌>>◌}
use my_messenger.Failure.{Failure, undefined}
use my_messenger.Message.{
  Message, MessageType, text, command, response, cipher_message, file_start, file_chunk, file_end,
  connect, get_pubkey, command_code, command_of_code, new_message, get_meta, get_payload, get_type,
}
use my_messenger.Message.Codec.{serialize, deserialize}
use my_messenger.Commands.Parser.{parse, make_struct_from_command}
use my_messenger.Sessions
use my_messenger.Sessions.{SessionManager}
use my_messenger.Users
use my_messenger.Users.{UserService}
use my_messenger.Crypto.{OpenSsl}
use my_messenger.Encryption
use my_messenger.Encryption.{
  EncryptionService, service_sign, get_dh_bytes, get_identity_bytes, cache_public_key,
}
use my_messenger.Client.{counter_of, with_counter}
use my_messenger.Peer
use my_messenger.Peer.{PeerNode, send_to_peer, broadcast, connect_to_peer}
use my_messenger.Peer.Numbers.{stoi, to_string}

-- `opened` is what connecting answers at one attempt after another; none left is a failure.
pub record PeerContext (o : OpenSsl) : Type 0 where
  pub peer_node : PeerNode
  pub user_service : UserService
  pub session_manager : SessionManager
  pub encryption_service : EncryptionService o
  pub my_username : Bytes
  pub messages_counter : Dict Bytes ℕ
  pub fd : ℕ
  pub opened : List (Option ℕ)
  pub now : ℕ

abbrev pub Peering {ℓ} : OpenSsl → Type ℓ → Type ℓ
Peering o = Exec (PeerContext o) Failure

module _ (o : OpenSsl) where
  -- send_to_peer(*context->peer_node, fd, context->serializer->serialize(message))
  unfoldable pub submit_to : ℕ → Result Failure Message → Peering o (Unit {0})
  submit_to fd built = do
    m ← lift built
    modify (λ c. record c { peer_node = send_to_peer fd (serialize m) c.peer_node })

  unfoldable pub connect_message :
      ℕ → Bytes → Bytes → Bytes → Bytes → Bytes → Bytes → Result Failure Message
  connect_message now username ip port_str dh identity signature =
      new_message now username 6
        ((command_code connect ∷ []) ∷ ip ∷ port_str ∷ dh ∷ identity ∷ signature ∷ []) command

  -- connect_to_peer, with the answer to the next attempt; a failure is the descriptor 0.
  unfoldable pub connecting : Bytes → Peering o ℕ
  connecting ip c = elim c.opened [
    | [] ↦ (ok 0, c)
    | answer ∷ rest ↦
        let (fd, node) = connect_to_peer ip answer c.peer_node in
        (ok fd, record c { peer_node = node; opened = rest })
  ]

  -- ConnectCommand; fromMessage reads the port.
  unfoldable pub connect_send : Message → Peering o (Unit {0})
  connect_send msg c =
      (do
        port ← lift (stoi (get_meta msg 2))
        (if is_empty c.my_username then lift (ok tt) else (do
          fd ← connecting (get_meta msg 1)
          (if nat_eq fd 0 then lift (ok tt) else (do
            identity ← lift (get_identity_bytes o c.encryption_service)
            signature ← lift (service_sign o c.encryption_service)
            submit_to fd (
                connect_message c.now c.my_username (get_meta msg 1) (to_string port)
                  (get_dh_bytes o c.encryption_service) identity signature))))))
        c

  -- encryption_service->cache_public_key
  unfoldable pub cache_peer_key : Bytes → Bytes → Bytes → Peering o (Unit {0})
  cache_peer_key username pubkey identity c =
      let (r, s) = cache_public_key o username pubkey identity c.encryption_service in
      (r, record c { encryption_service = s })

  -- A user that is registered already is passed over.
  unfoldable pub take_peer :
      Bytes → Bytes → Bytes → Bytes → Peering o (Unit {0}) → Peering o (Unit {0})
  take_peer username dh identity signature answer c =
      let (r, users) = Users.register_user username dh identity signature c.user_service in
      elim r [
        | err e ↦ (ok tt, c)
        | ok u ↦ (cache_peer_key username dh identity >> answer) (record c {
          user_service = users;
          session_manager = Sessions.bind c.fd username c.session_manager;
        })
      ]

  unfoldable pub connect_answer : Peering o (Unit {0})
  connect_answer c =
      (do
        identity ← lift (get_identity_bytes o c.encryption_service)
        signature ← lift (service_sign o c.encryption_service)
        submit_to c.fd (
            new_message c.now c.my_username 4
              ((command_code connect ∷ [])
                ∷ get_dh_bytes o c.encryption_service
                ∷ identity
                ∷ signature
                ∷ [])
              response))
        c

  unfoldable pub connect_receive : Message → Peering o (Unit {0})
  connect_receive msg c =
      (do
        port ← lift (stoi (get_meta msg 2))
        take_peer (get_payload msg) (get_meta msg 3) (get_meta msg 4) (get_meta msg 5)
            connect_answer)
        c

  -- DisconnectCommand: PeerApplicationService::disconnect_peer, which it calls, does nothing.
  unfoldable pub disconnect_send : Message → Peering o (Unit {0})
  disconnect_send msg c = (ok tt, c)

  -- The answer of get_username is read without a test.
  unfoldable pub disconnect_receive : Message → Peering o (Unit {0})
  disconnect_receive msg c = elim (Sessions.get_username c.fd c.session_manager) [
    | err e ↦ (err undefined, c)
    | ok username ↦ (
      ok tt,
      record c {
        user_service = Users.remove_user username c.user_service;
        session_manager = Sessions.unbind c.fd c.session_manager;
      },
    )
  ]

  unfoldable pub exit_send : Message → Peering o (Unit {0})
  exit_send msg c = let (r, node) = Peer.stop c.peer_node in (r, record c { peer_node = node })

  unfoldable pub login_send : Message → Peering o (Unit {0})
  login_send msg c =
      (do
        identity ← lift (get_identity_bytes o c.encryption_service)
        signature ← lift (service_sign o c.encryption_service)
        modify (λ c. record c { my_username = get_meta msg 1 }))
        c

  unfoldable pub login_receive : Message → Peering o (Unit {0})
  login_receive msg c =
      (do
        identity ← lift (get_identity_bytes o c.encryption_service)
        signature ← lift (service_sign o c.encryption_service)
        submit_to c.fd (
            new_message c.now (get_dh_bytes o c.encryption_service) 4
              ((command_code get_pubkey ∷ []) ∷ get_meta msg 1 ∷ identity ∷ signature ∷ [])
              response))
        c

  -- PrivateMessageCommand: PeerApplicationService::send_private_message does nothing.
  unfoldable pub pmess_send : Message → Peering o (Unit {0})
  pmess_send msg c = (ok tt, c)

  -- recv_on_peer of ExitCommand and PrivateMessageCommand, and the handlers that only print.
  unfoldable pub nothing_done : Message → Peering o (Unit {0})
  nothing_done msg c = (ok tt, c)

  -- The commands that the constructor of PeerCommandHandler registers: what they do with a command
  -- of the user, and with one of a peer.
  abbrev pub sending_registry : Dict Bytes (Message → Peering o (Unit {0}))
  sending_registry =
      (codes "exit", exit_send)
      ∷ (codes "connect", connect_send)
      ∷ (codes "disconnect", disconnect_send)
      ∷ (codes "pmess", pmess_send)
      ∷ (codes "login", login_send)
      ∷ []

  abbrev pub receiving_registry : Dict Bytes (Message → Peering o (Unit {0}))
  receiving_registry =
      (codes "exit", nothing_done)
      ∷ (codes "connect", connect_receive)
      ∷ (codes "disconnect", disconnect_receive)
      ∷ (codes "pmess", nothing_done)
      ∷ (codes "login", login_receive)
      ∷ []

  -- PeerCommandBus::dispatchSending and dispatchReceiving, each with its registry.
  unfoldable pub peer_command :
      Dict Bytes (Message → Peering o (Unit {0})) → Message → Peering o (Unit {0})
  peer_command registry msg c = elim (lookup (make_struct_from_command msg).name registry) [
    | none ↦ (ok tt, c)
    | some handler ↦ handler msg c
  ]

  -- PeerTextHandler::handleSending
  unfoldable pub text_send : Message → Peering o (Unit {0})
  text_send msg c = (ok tt, record c { peer_node = broadcast (serialize msg) c.peer_node })

  -- PeerCipherHandler::handleReceiving; messages_counter[sender] makes a missing counter.
  unfoldable pub cipher_receive : Message → Peering o (Unit {0})
  cipher_receive msg c =
      let sender = get_meta msg 0 in
      (
        elim (Encryption.decrypt_for o c.encryption_service sender c.my_username (get_payload msg)
            (get_meta msg 1) (counter_of sender c.messages_counter)) [
              | err e ↦ err e
              | ok plaintext ↦ ok tt
            ],
        record c { messages_counter = with_counter sender c.messages_counter },
      )

  -- PeerResponseHandler::handleReceiving
  unfoldable pub response_receive : Message → Peering o (Unit {0})
  response_receive msg c = elim (get_meta msg 0) [
    | [] ↦ (ok tt, c)
    | code ∷ rest ↦ elim (command_of_code code) [
      | connect ↦
          take_peer (get_payload msg) (get_meta msg 1) (get_meta msg 2) (get_meta msg 3)
            (λ c. (ok tt, c)) c
      | _ ↦ (ok tt, c)
    ]
  ]

  -- The handlers that the constructor of MessagingPeer registers.
  unfoldable pub sending_handler : MessageType → Option (Message → Peering o (Unit {0}))
  sending_handler text = some text_send
  sending_handler command = some (peer_command sending_registry)
  sending_handler response = some nothing_done
  sending_handler cipher_message = some nothing_done
  sending_handler file_start = some nothing_done
  sending_handler file_chunk = some nothing_done
  sending_handler file_end = some nothing_done
  sending_handler _ = none

  unfoldable pub receiving_handler : MessageType → Option (Message → Peering o (Unit {0}))
  receiving_handler text = some nothing_done
  receiving_handler command = some (peer_command receiving_registry)
  receiving_handler response = some response_receive
  receiving_handler cipher_message = some cipher_receive
  receiving_handler file_start = some nothing_done
  receiving_handler file_chunk = some nothing_done
  receiving_handler file_end = some nothing_done
  receiving_handler _ = none

  -- A handler that throws leaves what it changed, and the exception is swallowed.
  abbrev pub peer_caught : Result Failure (Unit {0}) × PeerContext o → Bool × PeerContext o
  peer_caught (ok u, c) = (true, c)
  peer_caught (err e, c) = (false, c)

  abbrev pub peer_handled :
      Option (Message → Peering o (Unit {0})) → Message → PeerContext o → Bool × PeerContext o
  peer_handled none msg c = (false, c)
  peer_handled (some handler) msg c = peer_caught (handler msg c)

  unfoldable pub dispatch_sending : Message → PeerContext o → Bool × PeerContext o
  dispatch_sending msg c = peer_handled (sending_handler (get_type msg)) msg c

  unfoldable pub dispatch_receiving : Message → PeerContext o → Bool × PeerContext o
  dispatch_receiving msg c = peer_handled (receiving_handler (get_type msg)) msg c

  -- on_data_callback of MessagingPeer; an exception of deserialize is not caught here.
  unfoldable pub peer_receives : ℕ → Bytes → Peering o (Unit {0})
  peer_receives fd raw_data c = elim (deserialize raw_data) [
    | err e ↦ (err e, c)
    | ok msg ↦ (ok tt, (dispatch_receiving msg (record c { fd = fd })).1)
  ]

  -- MessagingPeer::send_msg, for what the user typed.
  unfoldable pub send_msg : Bytes → Peering o (Unit {0})
  send_msg line c = elim (parse c.now line) [
    | err e ↦ (err e, c)
    | ok msg ↦ (ok tt, (dispatch_sending msg c).1)
  ]
