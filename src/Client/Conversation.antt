-- ===== src/Client/Conversation.antt =====
-- A private message from one client to another, through src/application/services/encryption_service.cpp
-- on both sides and src/application/dispatching/message_dispatchers/cipher_handler.cpp on the reader's.
use my_messenger.Prelude.{
  ℕ, ◌^◌, ◌<◌, ◌≡◌, refl, sym, subst, [], ◌∷◌, ◌++◌, some, length, nat_eq, arith, Bool-cases,
  Option-cases, inl, inr, if◌then◌else◌,
}
use my_messenger.Prelude.Bytes.{Bytes, Bytes-eq, bytes_eq_iff}
use my_messenger.Prelude.Dict.{Dict, lookup, lookup-insert}
use my_messenger.Prelude.Result.{ok, err}
use my_messenger.Failure.{replay_detected}
use my_messenger.Message.{Message}
use my_messenger.Crypto.{OpenSsl, IsLawful}
use my_messenger.Encryption
use my_messenger.Encryption.{
  EncryptionService, service_sign, get_dh_bytes, get_identity_bytes, cache_public_key,
}
use my_messenger.Encryption.Exchange.{
  Knows, cache_public_key-Knows, HasGeneratedKey, cache_public_key-HasGeneratedKey,
  cache_public_key-known, decrypt_for-encrypt_for,
}
use my_messenger.Client.{ClientContext, cache_key, decrypt_for, with_counter, counted, counter_of}
use my_messenger.Client.Handlers.{
  private_line, handle_cipher, process_encrypted_message, ui_callback,
}

pub counter_of-with_counter :
    (name : Bytes) (counters : Dict Bytes ℕ)
    → counter_of name (with_counter name counters) ≡ counter_of name counters
counter_of-with_counter name counters = elim (Option-cases (lookup name counters)) [
  | inl p ↦ ground (arith, lookup-insert name name 0 counters, bytes_eq_iff name name)
  | inr (n, p) ↦ ground arith
]

-- The reader after a private message whose keys were cached: it is shown and counted, or not.
abbrev pub read_or_not :
    {o : OpenSsl} → Bytes → Bytes → ℕ → EncryptionService o → ClientContext o → ClientContext o
read_or_not sender text sent service c =
    let counters = with_counter sender c.messages_counter in
    if nat_eq sent (counter_of sender c.messages_counter)
    then record c {
      encryption_service = service;
      messages_counter = counted sender counters;
      shown = c.shown ++ private_line sender text ∷ [];
    }
    else record c { encryption_service = service; messages_counter = counters }

processed :
    (o : OpenSsl) (service : EncryptionService o) (c : ClientContext o)
    (sender recipient dh identity signature text e : Bytes) (sent : ℕ)
    → cache_public_key o sender dh identity c.encryption_service ≡ (ok tt, service)
    → Encryption.decrypt_for o service sender recipient e signature
        (counter_of sender c.messages_counter)
      ≡ (if nat_eq sent (counter_of sender c.messages_counter)
          then ok text
          else err replay_detected)
    → process_encrypted_message o sender recipient dh e identity signature c ≡ (
      if nat_eq sent (counter_of sender c.messages_counter) then ok tt else err replay_detected,
      read_or_not sender text sent service c,
    )
unfolding process_encrypted_message cache_key decrypt_for ui_callback
processed o service c sender recipient dh identity signature text e sent cached opened =
    let same = counter_of-with_counter sender c.messages_counter in
    let opened' : Encryption.decrypt_for o service sender recipient e signature
          (counter_of sender (with_counter sender c.messages_counter))
        ≡ (if nat_eq sent (counter_of sender c.messages_counter)
            then ok text
            else err replay_detected) =
      subst
        (λ k. Encryption.decrypt_for o service sender recipient e signature k ≡ (
          if nat_eq sent (counter_of sender c.messages_counter)
          then ok text
          else err replay_detected))
        (sym same) opened in
    elim (Bool-cases (nat_eq sent (counter_of sender c.messages_counter))) [
      | inl p ↦ rw (cached) (rw (opened', p) refl)
      | inr p ↦ rw (cached) (rw (opened', p) refl)
    ]

-- The Diffie-Hellman keys of the sender and of the reader were generated. A private message which one service encrypts with a counter of 64 bits and an IV of 12 bytes for a reader
-- whose keys it knows, and which comes with the sender's keys and signature, keys the reader can
-- take over, is shown to the reader exactly if the counter is the reader's own for that sender, and
-- then that counter goes up by one. Else nothing is shown and the counter stays. Either way nothing
-- is thrown.
pub handle_cipher_shows :
    (o : OpenSsl) (sender_service service : EncryptionService o) (c : ClientContext o) (m : Message)
    (sender recipient text iv identity signature e : Bytes) (sent : ℕ)
    → IsLawful o
    → HasGeneratedKey o sender_service
    → HasGeneratedKey o c.encryption_service
    → Knows o sender_service c.encryption_service recipient
    → get_identity_bytes o sender_service ≡ ok identity
    → service_sign o sender_service ≡ ok signature
    → cache_public_key o sender (get_dh_bytes o sender_service) identity c.encryption_service
      ≡ (ok tt, service)
    → length iv ≡ 12
    → sent < 2 ^ 64
    → Encryption.encrypt_for o sender_service sender recipient text sent (some iv) ≡ ok e
    → m.metadata ≡ recipient ∷ sender ∷ get_dh_bytes o sender_service ∷ identity ∷ signature ∷ []
    → m.payload ≡ e
    → handle_cipher o m c ≡ (ok tt, read_or_not sender text sent service c)
unfolding handle_cipher
handle_cipher_shows o sender_service service c m sender recipient text iv identity signature e sent
      lawful sender_key own_key known given signed cached twelve small sealed metas payload =
    let reader =
      cache_public_key-Knows o c.encryption_service sender_service service sender identity given
        cached in
    let known' =
      cache_public_key-known o sender_service c.encryption_service service recipient sender
        (get_dh_bytes o sender_service) identity cached known in
    let own_key' =
      cache_public_key-HasGeneratedKey o c.encryption_service service sender
        (get_dh_bytes o sender_service) identity cached own_key in
    let counter = counter_of sender c.messages_counter in
    let opened =
      decrypt_for-encrypt_for o sender_service service sender recipient text iv signature e sent
        counter lawful sender_key own_key' known' reader twelve small signed sealed in
    rw
      (
        metas,
        payload,
        processed o service c sender recipient (get_dh_bytes o sender_service) identity signature
            text e sent cached opened,
      )
      refl
