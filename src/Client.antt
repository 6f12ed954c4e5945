-- ===== src/Client.antt =====
-- The client: ClientContext of include/application/session/client_context.hpp, Client::send_to_server
-- of src/transport/client.cpp, and toMessage, fromMessage and executeOnClient of
-- src/application/commands/impl. Printing is left out.
pub mod Files
pub mod Handlers
pub mod Dispatch
pub mod Reach
pub mod Pending
pub mod Conversation
pub mod Chunks
pub mod Journey
pub mod Events
pub mod Login
use my_messenger.Prelude.{
  ℕ, ◌+◌, ◌%◌, ◌^◌, List, [], ◌∷◌, ◌++◌, Bool, true, false, ◌||◌, Option, none, some, if◌then◌else◌,
}
use my_messenger.Prelude.Bytes.{Bytes, Bytes-eq, codes, is_empty}
use my_messenger.Prelude.Dict.{Dict, lookup, insert}
use my_messenger.Prelude.Result.{Result, ok, err}
use my_messenger.Prelude.Exec.{Exec, lift, modify, ◌>>=◌, ◌>>◌}
use my_messenger.Failure.{Failure}
use my_messenger.Message.{
  Message, command, CommandType, get_pubkey, send, exit, command_code, new_message, get_meta,
  get_payload,
}
use my_messenger.Message.Codec.{serialize}
use my_messenger.Framing.{form_message}
use my_messenger.Crypto.{OpenSsl}
use my_messenger.Encryption
use my_messenger.Encryption.{EncryptionService, service_sign, get_dh_bytes, get_identity_bytes}
use my_messenger.Queue.{MessageQueue, push_for}
use my_messenger.Commands.Parser.{ParsedCommand, make_command_from_struct}

-- `packets` are the byte strings that were given to the transport, in order; `shown` those that were
-- given to ui_callback, which the window has set. `entropy` is what RAND_bytes answers at one
-- attempt to encrypt after another, until it fails. `disk` holds the files by path, and
-- `pending_files` the paths that are open for writing; `can_open` is whether a path can be opened for
-- writing. `now` is the clock.
pub record ClientContext (o : OpenSsl) : Type 0 where
  pub my_username : Bytes
  pub packets : List Bytes
  pub connected : Bool
  pub encryption_service : EncryptionService o
  pub mq : MessageQueue
  pub messages_counter : Dict Bytes ℕ
  pub pending_messages : Dict Bytes (List Bytes)
  pub pending_files : Dict Bytes (Unit {0})
  pub disk : Dict Bytes Bytes
  pub can_open : Bytes → Bool
  pub shown : List Bytes
  pub entropy : List Bytes
  pub now : ℕ

abbrev pub Client {ℓ} : OpenSsl → Type ℓ → Type ℓ
Client o = Exec (ClientContext o) Failure

-- if (messages_counter.find(name) == messages_counter.end()) messages_counter[name] = 0
abbrev pub with_counter : Bytes → Dict Bytes ℕ → Dict Bytes ℕ
with_counter name counters = elim (lookup name counters) [
  | none ↦ insert name 0 counters
  | some n ↦ counters
]

-- messages_counter[name]
abbrev pub counter_of : Bytes → Dict Bytes ℕ → ℕ
counter_of name counters = elim (lookup name counters) [ none ↦ 0 | some n ↦ n ]

-- ++messages_counter[name], a uint64_t
abbrev pub counted : Bytes → Dict Bytes ℕ → Dict Bytes ℕ
counted name counters = insert name ((counter_of name counters + 1) % 2 ^ 64) counters

module _ (o : OpenSsl) where
  abbrev pub make_counter : Bytes → Client o (Unit {0})
  make_counter name =
      modify (λ c. record c { messages_counter = with_counter name c.messages_counter })

  abbrev pub advance_counter : Bytes → Client o (Unit {0})
  advance_counter name =
      modify (λ c. record c { messages_counter = counted name c.messages_counter })

  unfoldable pub send_to_server : Bytes → Client o (Unit {0})
  send_to_server bytes c = (ok tt, record c { packets = c.packets ++ form_message bytes [] ∷ [] })

  -- client->send_to_server(serializer.serialize(message))
  unfoldable pub submit : Result Failure Message → Client o (Unit {0})
  submit built = do m ← lift built; send_to_server (serialize m)

  -- encryption_service->encrypt_for
  unfoldable pub encrypt_for : Bytes → Bytes → Bytes → ℕ → Client o Bytes
  encrypt_for sender username plaintext counter c = elim c.entropy [
    | [] ↦ (Encryption.encrypt_for o c.encryption_service sender username plaintext counter none, c)
    | iv ∷ rest ↦ (
      Encryption.encrypt_for o c.encryption_service sender username plaintext counter (some iv),
      record c { entropy = rest },
    )
  ]

  -- encryption_service->cache_public_key
  unfoldable pub cache_key : Bytes → Bytes → Bytes → Client o (Unit {0})
  cache_key username pubkey identity c =
      let (r, s) = Encryption.cache_public_key o username pubkey identity c.encryption_service in
      (r, record c { encryption_service = s })

  -- encryption_service->decrypt_for
  unfoldable pub decrypt_for : Bytes → Bytes → Bytes → Bytes → ℕ → Client o Bytes
  decrypt_for sender username ciphertext signature counter c = (
    Encryption.decrypt_for o c.encryption_service sender username ciphertext signature counter,
    c,
  )

  unfoldable pub login_message : ℕ → Bytes → Bytes → Bytes → Bytes → Result Failure Message
  login_message now username dh identity signature =
      make_command_from_struct now
        (record { name = codes "login"; args = username ∷ dh ∷ identity ∷ signature ∷ [] })

  -- LoginCommand: the name is taken over before the message is built.
  unfoldable pub client_login : Message → Client o (Unit {0})
  client_login msg c =
      (do
        let username = get_meta msg 1
        identity ← lift (get_identity_bytes o c.encryption_service)
        signature ← lift (service_sign o c.encryption_service)
        modify (λ c. record c { my_username = username })
        submit
            (login_message c.now username (get_dh_bytes o c.encryption_service) identity signature))
        c

  unfoldable pub room_message : ℕ → Bytes → Result Failure Message
  room_message now chat_name =
      make_command_from_struct now (record { name = codes "room"; args = chat_name ∷ [] })

  unfoldable pub client_room : Message → Client o (Unit {0})
  client_room msg c = submit (room_message c.now (get_meta msg 1)) c

  unfoldable pub join_message : ℕ → Bytes → Result Failure Message
  join_message now chat_name =
      make_command_from_struct now (record { name = codes "join"; args = chat_name ∷ [] })

  unfoldable pub client_join : Message → Client o (Unit {0})
  client_join msg c = submit (join_message c.now (get_meta msg 1)) c

  -- SendGroupMessageCommand
  unfoldable pub client_send : Message → Client o (Unit {0})
  client_send msg c =
      submit
        (new_message c.now (get_payload msg) 2 ((command_code send ∷ []) ∷ get_meta msg 1 ∷ [])
          command)
        c

  -- GetPubkeyCommand, of which a name is set
  unfoldable pub ask_pubkey : Bytes → Client o (Unit {0})
  ask_pubkey username c =
      submit (new_message c.now [] 2 ((command_code get_pubkey ∷ []) ∷ username ∷ []) command) c

  unfoldable pub client_getpub : Message → Client o (Unit {0})
  client_getpub msg = ask_pubkey (get_meta msg 1)

  -- PrivateMessageCommand: the text waits for the recipient's keys.
  unfoldable pub client_pmess : Message → Client o (Unit {0})
  client_pmess msg c =
      if is_empty (get_meta msg 1) || is_empty (get_payload msg)
      then (ok tt, c)
      else (ask_pubkey (get_meta msg 1)
            >> modify (λ c. record c { mq = push_for (get_meta msg 1) (get_payload msg) c.mq }))
          c

  unfoldable pub client_help : Message → Client o (Unit {0})
  client_help msg c = (ok tt, c)

  unfoldable pub client_disconnect : Client o (Unit {0})
  client_disconnect c = (ok tt, record c { connected = false })

  unfoldable pub client_exit : Message → Client o (Unit {0})
  client_exit msg c =
      (submit (new_message c.now [] 1 ((command_code exit ∷ []) ∷ []) command) >> client_disconnect)
        c
