-- ===== src/Client/Chunks.antt =====
-- A part of a file from one client to another: src/application/dispatching/message_dispatchers/file_handlers.cpp.
use my_messenger.Prelude.{
  ℕ, ◌^◌, ◌<◌, ◌≡◌, refl, [], ◌∷◌, true, some, length, nat_eq, Bool-cases, inl, inr, if◌then◌else◌,
}
use my_messenger.Prelude.Bytes.{Bytes, Bytes-eq}
use my_messenger.Prelude.Dict.{has}
use my_messenger.Prelude.Result.{ok, err}
use my_messenger.Failure.{replay_detected}
use my_messenger.Message.{Message}
use my_messenger.Crypto.{OpenSsl, IsLawful}
use my_messenger.Encryption
use my_messenger.Encryption.{
  EncryptionService, service_sign, get_dh_bytes, get_identity_bytes, cache_public_key,
}
use my_messenger.Encryption.Exchange.{
  Knows, cache_public_key-Knows, HasGeneratedKey, cache_public_key-HasGeneratedKey,
  cache_public_key-known, decrypt_for-encrypt_for,
}
use my_messenger.Client.{ClientContext, cache_key, decrypt_for, with_counter, counter_of}
use my_messenger.Client.Handlers.{receive_chunk, handle_file_chunk, path_of, written}
use my_messenger.Client.Conversation.{counter_of-with_counter}

-- The reader after a part of a file whose keys were cached: it is written, or not.
abbrev pub written_or_not :
    (o : OpenSsl)
    → Bytes
    → Bytes
    → Bytes
    → ℕ
    → EncryptionService o
    → ClientContext o
    → ClientContext o
written_or_not o path recipient part sent service c =
    let c' = record c {
      encryption_service = service;
      messages_counter = with_counter recipient c.messages_counter;
    } in
    if nat_eq sent (counter_of recipient c.messages_counter) then written o path part c' else c'

received_part :
    (o : OpenSsl) (service : EncryptionService o) (c : ClientContext o)
    (path sender recipient dh identity signature part e : Bytes) (sent : ℕ)
    → cache_public_key o sender dh identity c.encryption_service ≡ (ok tt, service)
    → Encryption.decrypt_for o service sender recipient e signature
        (counter_of recipient c.messages_counter)
      ≡ (if nat_eq sent (counter_of recipient c.messages_counter)
          then ok part
          else err replay_detected)
    → receive_chunk o path recipient sender dh identity e signature c ≡ (
      if nat_eq sent (counter_of recipient c.messages_counter) then ok tt else err replay_detected,
      written_or_not o path recipient part sent service c,
    )
unfolding receive_chunk cache_key decrypt_for
received_part o service c path sender recipient dh identity signature part e sent cached opened =
    elim (Bool-cases (nat_eq sent (counter_of recipient c.messages_counter))) [
      | inl p ↦ rw (cached) (rw (opened, p) refl)
      | inr p ↦ rw (cached) (rw (opened, p) refl)
    ]

kept :
    (o : OpenSsl) (path recipient part : Bytes) (sent : ℕ) (service : EncryptionService o)
    (c : ClientContext o)
    → counter_of recipient (written_or_not o path recipient part sent service c).messages_counter
      ≡ counter_of recipient c.messages_counter
kept o path recipient part sent service c =
    elim (Bool-cases (nat_eq sent (counter_of recipient c.messages_counter))) [
      | inl p ↦ rw (p) (counter_of-with_counter recipient c.messages_counter)
      | inr p ↦ rw (p) (counter_of-with_counter recipient c.messages_counter)
    ]

-- The Diffie-Hellman keys of the sender and of the reader were generated. A part of an open file, encrypted with a counter of 64 bits and an IV of 12 bytes for a reader whose keys the
-- sender knows, which comes with the sender's keys and signature, keys the reader can take over,
-- is written behind what the file holds exactly if the counter is the one that the reader has
-- under the recipient's name; else it is refused as a replay. In both cases that counter stays
-- what it was.
pub handle_file_chunk_writes :
    (o : OpenSsl) (sender_service service : EncryptionService o) (c : ClientContext o) (m : Message)
    (sender recipient filename part iv identity signature e : Bytes) (sent : ℕ)
    → IsLawful o
    → HasGeneratedKey o sender_service
    → HasGeneratedKey o c.encryption_service
    → Knows o sender_service c.encryption_service recipient
    → get_identity_bytes o sender_service ≡ ok identity
    → service_sign o sender_service ≡ ok signature
    → cache_public_key o sender (get_dh_bytes o sender_service) identity c.encryption_service
      ≡ (ok tt, service)
    → length iv ≡ 12
    → sent < 2 ^ 64
    → Encryption.encrypt_for o sender_service sender recipient part sent (some iv) ≡ ok e
    → m.metadata
      ≡ recipient ∷ filename ∷ sender ∷ get_dh_bytes o sender_service ∷ identity ∷ signature ∷ []
    → m.payload ≡ e
    → has (path_of recipient filename) c.pending_files ≡ true
    → (handle_file_chunk o m c ≡ (
      if nat_eq sent (counter_of recipient c.messages_counter) then ok tt else err replay_detected,
      written_or_not o (path_of recipient filename) recipient part sent service c,
    ))
      × (counter_of recipient (handle_file_chunk o m c).1.messages_counter
          ≡ counter_of recipient c.messages_counter)
unfolding handle_file_chunk
handle_file_chunk_writes o sender_service service c m sender recipient filename part iv identity
      signature e sent lawful sender_key own_key known given signed cached twelve small sealed metas
      payload open_ =
    let reader =
      cache_public_key-Knows o c.encryption_service sender_service service sender identity given
        cached in
    let known' =
      cache_public_key-known o sender_service c.encryption_service service recipient sender
        (get_dh_bytes o sender_service) identity cached known in
    let own_key' =
      cache_public_key-HasGeneratedKey o c.encryption_service service sender
        (get_dh_bytes o sender_service) identity cached own_key in
    let counter = counter_of recipient c.messages_counter in
    let opened =
      decrypt_for-encrypt_for o sender_service service sender recipient part iv signature e sent
        counter lawful sender_key own_key' known' reader twelve small signed sealed in
    let path = path_of recipient filename in
    let run : handle_file_chunk o m c ≡ (
      if nat_eq sent counter then ok tt else err replay_detected,
      written_or_not o path recipient part sent service c,
    ) =
      rw (metas, payload, open_, handle_file_chunk)
        ((received_part o service c path sender recipient (get_dh_bytes o sender_service) identity
          signature part e sent cached opened)) in
    (run, rw (run) (kept o path recipient part sent service c))
