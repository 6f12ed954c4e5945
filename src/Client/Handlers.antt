-- ===== src/Client/Handlers.antt =====
-- The handlers of src/application/dispatching/message_dispatchers on the client: cipher_handler.cpp,
-- response_handler.cpp, file_handlers.cpp and text_dispatcher.cpp.
use my_messenger.Prelude.{ℕ, zero, suc, List, [], ◌∷◌, ◌++◌, none, some, ltb, length, if◌then◌else◌}
use my_messenger.Prelude.Bytes.{Bytes, Bytes-eq, codes}
use my_messenger.Prelude.Dict.{lookup, insert, erase, has}
use my_messenger.Prelude.Result.{Result, ok, err, or_throw}
use my_messenger.Prelude.Exec.{lift, modify, ◌>>=◌, ◌>>◌}
use my_messenger.Failure.{Failure, undefined, out_of_fuel}
use my_messenger.Message.{
  Message, cipher_message, get_pubkey, command_of_code, new_message, get_meta, get_payload,
}
use my_messenger.Crypto.{OpenSsl}
use my_messenger.Encryption.{service_sign}
use my_messenger.Queue.{find_pending}
use my_messenger.Client.{
  ClientContext, Client, submit, encrypt_for, decrypt_for, cache_key, counter_of, make_counter,
  advance_counter,
}

-- "[Личное от " in UTF-8
abbrev pub private_from : Bytes
private_from =
    0x5b ∷ 0xd0 ∷ 0x9b ∷ 0xd0 ∷ 0xb8 ∷ 0xd1 ∷ 0x87 ∷ 0xd0 ∷ 0xbd ∷ 0xd0 ∷ 0xbe ∷ 0xd0 ∷ 0xb5 ∷ 0x20
    ∷ 0xd0 ∷ 0xbe ∷ 0xd1 ∷ 0x82 ∷ 0x20 ∷ []

-- What is shown of a private message.
abbrev pub private_line : Bytes → Bytes → Bytes
private_line sender plaintext = private_from ++ (sender ++ (codes "]: " ++ plaintext))

-- The key of pending_files, which is the path of the file.
abbrev pub path_of : Bytes → Bytes → Bytes
path_of recipient filename = recipient ++ (codes " " ++ filename)

abbrev pub file_key : Message → Bytes
file_key msg = path_of (get_meta msg 0) (get_meta msg 1)

module _ (o : OpenSsl) where
  unfoldable pub ui_callback : Bytes → Client o (Unit {0})
  ui_callback line c = (ok tt, record c { shown = c.shown ++ line ∷ [] })

  unfoldable pub handle_text : Message → Client o (Unit {0})
  handle_text msg = ui_callback (get_payload msg)

  -- try { … } catch (const std::exception &e)
  abbrev pub swallowed :
      Result Failure (Unit {0}) × ClientContext o → Result Failure (Unit {0}) × ClientContext o
  swallowed (r, c) = (ok tt, c)

  unfoldable pub process_encrypted_message :
      Bytes → Bytes → Bytes → Bytes → Bytes → Bytes → Client o (Unit {0})
  process_encrypted_message sender recipient pubkey_bytes payload identity_key signature = do
    cache_key o sender pubkey_bytes identity_key
    make_counter o sender
    plaintext ← λ c.
        decrypt_for o sender recipient payload signature (counter_of sender c.messages_counter) c
    advance_counter o sender
    ui_callback (private_line sender plaintext)

  unfoldable pub handle_cipher : Message → Client o (Unit {0})
  handle_cipher msg c = swallowed (
      process_encrypted_message (get_meta msg 1) (get_meta msg 0) (get_meta msg 2) (get_payload msg)
        (get_meta msg 3) (get_meta msg 4) c)

  -- The body of the loop over the texts that wait for `username`.
  unfoldable pub send_queued : Bytes → Bytes → Client o (Unit {0})
  send_queued username bytes c =
      (do
        make_counter o username
        ciphertext ←
            encrypt_for o c.my_username username bytes (counter_of username c.messages_counter)
        submit o (new_message c.now ciphertext 2 (username ∷ c.my_username ∷ []) cipher_message)
        advance_counter o username)
        c

  -- while (pending_it)
  unfoldable pub send_pending : ℕ → Bytes → Client o (Unit {0})
  send_pending zero username c = (err out_of_fuel, c)
  send_pending (suc fuel) username c =
      let (found, mq) = find_pending username c.mq in
      elim found [
        | none ↦ (ok tt, record c { mq = mq })
        | some bytes ↦
            (send_queued username bytes >> send_pending fuel username) (record c { mq = mq })
      ]

  -- Nothing is kept of what is read here; the counter is looked up without a test.
  unfoldable pub read_received : Bytes → List Bytes → Client o (Unit {0})
  read_received username [] c = (ok tt, c)
  read_received username (ciphertext ∷ rest) c =
      let later = read_received username rest in
      (do
        signature ← lift (service_sign o c.encryption_service)
        counter ← lift (or_throw (lookup username c.messages_counter) undefined)
        plaintext ← decrypt_for o c.my_username c.my_username ciphertext signature counter
        later)
        c

  -- A ring holds fewer than 4096 texts.
  unfoldable pub handle_get_pubkey_response : Message → Client o (Unit {0})
  handle_get_pubkey_response msg = do
    cache_key o (get_meta msg 1) (get_payload msg) (get_meta msg 2)
    send_pending 4096 (get_meta msg 1)
    λ c. elim (lookup (get_meta msg 1) c.pending_messages) [
      | none ↦ (ok tt, c)
      | some pending ↦
          read_received (get_meta msg 1) pending
            (record c { pending_messages = erase (get_meta msg 1) c.pending_messages })
    ]

  -- Only GET_PUBKEY does more than print.
  unfoldable pub handle_response : Message → Client o (Unit {0})
  handle_response msg c = elim (get_meta msg 0) [
    | [] ↦ (ok tt, c)
    | code ∷ rest ↦ elim (command_of_code code) [
      | get_pubkey ↦ handle_get_pubkey_response msg c
      | _ ↦ (ok tt, c)
    ]
  ]

  -- from_bytes reads eight bytes of the size without a test. Opening a file empties it.
  unfoldable pub handle_file_start : Message → Client o (Unit {0})
  handle_file_start msg c =
      if ltb (length (get_meta msg 2)) 8
      then (err undefined, c)
      else if c.can_open (file_key msg)
      then (
        ok tt,
        record c {
          pending_files = insert (file_key msg) tt c.pending_files;
          disk = insert (file_key msg) [] c.disk;
        },
      )
      else (ok tt, c)

  abbrev pub written : Bytes → Bytes → ClientContext o → ClientContext o
  written path bytes c = record c {
    disk = insert path ((elim (lookup path c.disk) [ none ↦ [] | some old ↦ old ]) ++ bytes) c.disk;
  }

  -- What is done with a part of a file that is open. The counter is not advanced.
  unfoldable pub receive_chunk :
      Bytes → Bytes → Bytes → Bytes → Bytes → Bytes → Bytes → Client o (Unit {0})
  receive_chunk path recipient sender pubkey_bytes identity_key payload signature c =
      (do
        make_counter o recipient
        cache_key o sender pubkey_bytes identity_key
        part ←
            decrypt_for o sender recipient payload signature
              (counter_of recipient c.messages_counter)
        modify (written path part))
        c

  unfoldable pub handle_file_chunk : Message → Client o (Unit {0})
  handle_file_chunk msg c =
      if has (file_key msg) c.pending_files
      then receive_chunk (file_key msg) (get_meta msg 0) (get_meta msg 2) (get_meta msg 3)
          (get_meta msg 4) (get_payload msg) (get_meta msg 5) c
      else (ok tt, c)

  unfoldable pub handle_file_end : Message → Client o (Unit {0})
  handle_file_end msg c = (ok tt, record c { pending_files = erase (file_key msg) c.pending_files })
