-- ===== src/Tests/Conversations.antt =====
-- Ann and Bob, whose keys are toys, write to each other.
use my_messenger.Prelude.{◌≡◌, refl, [], ◌∷◌, ◌++◌, some, true, arith}
use my_messenger.Prelude.Bytes.{Bytes, codes}
use my_messenger.Prelude.Dict.{lookup, insert}
use my_messenger.Prelude.Result.{ok, err}
use my_messenger.Failure.{replay_detected}
use my_messenger.Message.{Message, cipher_message, file_chunk}
use my_messenger.Message.Compact.{built}
use my_messenger.Wire.{write_u64}
use my_messenger.Crypto.Keys.{
  identity_public_bytes, identity_sign, dh_public_bytes, identity_from_public_bytes,
  dh_from_public_bytes, compute_shared_secret,
}
use my_messenger.Crypto.Gcm.{encrypt}
use my_messenger.Crypto.Kdf.{derive_for_messaging, hkdf_derive}
use my_messenger.Encryption.{
  get_identity_bytes, get_dh_bytes, service_sign, encrypt_for, decrypt_for, cache_public_key,
}
use my_messenger.Encryption.Exchange.{Knows, HasGeneratedKey, decrypt_for-encrypt_for}
use my_messenger.Client.{ClientContext, counter_of}
use my_messenger.Client.Handlers.{
  handle_cipher, private_line, handle_file_chunk, path_of, send_queued, send_pending,
}
use my_messenger.Client.Chunks.{handle_file_chunk_writes}
use my_messenger.Client.Dispatch.{client_receives}
use my_messenger.Client.Pending.{with_mq, send_each, send_pending-send_each}
use my_messenger.Client.Journey.{keys_of, after_sending, send_queued-client_receives}
use my_messenger.Queue.{LockFreeQueue, new_queue, push, stored}
use my_messenger.Queue.Fifo.{Holds, new_queue-Holds, push-Holds}
use my_messenger.Message.{metadata_size}
use my_messenger.Message.Body.{FitsBody}
use my_messenger.Sessions.{get_username, get_fd}
use my_messenger.Users.{User, online, find_user}
use my_messenger.Server.{ServerContext, no_services}
use my_messenger.Server.Commands.{on_tcp_data_received}
use my_messenger.Server.Reach.{started}
use my_messenger.Client.Conversation.{handle_cipher_shows}
use my_messenger.Tests.Toy.{
  toy, toy-IsLawful, key_of, client_of, ann_service, bob_service, first_iv,
}

ann-Knows : Knows toy ann_service bob_service (codes "bob")
unfolding get_dh_bytes dh_public_bytes lookup
ann-Knows = record {
  dh = key_of 9;
  identity = 10 ∷ [];
  identity_bytes = 10 ∷ [];
  dh_made = refl;
  identity_raw = refl;
  identity_made = refl;
  dh_cached = refl;
  identity_cached = refl;
}

bob-Knows : Knows toy bob_service ann_service (codes "ann")
unfolding get_dh_bytes dh_public_bytes lookup
bob-Knows = record {
  dh = key_of 7;
  identity = 8 ∷ [];
  identity_bytes = 8 ∷ [];
  dh_made = refl;
  identity_raw = refl;
  identity_made = refl;
  dh_cached = refl;
  identity_cached = refl;
}

abbrev ann_signature : Bytes
ann_signature = 8 ∷ key_of 7

-- What Ann makes of "hi" with the counter 0.
unfoldable sealed_hi : Bytes
sealed_hi =
    first_iv
    ++ (write_u64 0
        ++ (codes "hi" ++ (0 ∷ 0 ∷ 0 ∷ 0 ∷ 0 ∷ 0 ∷ 0 ∷ 0 ∷ 0 ∷ 0 ∷ 0 ∷ 0 ∷ 0 ∷ 0 ∷ 0 ∷ 0 ∷ [])))

hi_sealed :
    encrypt_for toy ann_service (codes "ann") (codes "bob") (codes "hi") 0 (some first_iv)
    ≡ ok sealed_hi
unfolding sealed_hi encrypt_for encrypt derive_for_messaging hkdf_derive compute_shared_secret
    lookup
hi_sealed = refl

ann-generated : HasGeneratedKey toy ann_service
ann-generated = record { seed = key_of 7; generated = refl }

bob-generated : HasGeneratedKey toy bob_service
bob-generated = record { seed = key_of 9; generated = refl }

decrypt_for-encrypt_for_example :
    decrypt_for toy bob_service (codes "ann") (codes "bob") sealed_hi ann_signature 1
    ≡ err replay_detected
unfolding service_sign identity_sign dh_public_bytes
decrypt_for-encrypt_for_example =
    decrypt_for-encrypt_for toy ann_service bob_service (codes "ann") (codes "bob") (codes "hi")
      first_iv ann_signature sealed_hi 0 1 toy-IsLawful ann-generated bob-generated ann-Knows
      bob-Knows refl (omega arith) refl hi_sealed

abbrev hi : Message
hi =
    built 5 sealed_hi (codes "bob" ∷ codes "ann" ∷ key_of 7 ∷ (8 ∷ []) ∷ ann_signature ∷ [])
      cipher_message

abbrev bob : ClientContext toy
bob = client_of (codes "bob") bob_service

handle_cipher_shows_example : handle_cipher toy hi bob ≡ (
  ok tt,
  record bob {
    messages_counter = (codes "ann", 1) ∷ [];
    shown = private_line (codes "ann") (codes "hi") ∷ [];
  },
)
unfolding get_dh_bytes get_identity_bytes service_sign identity_public_bytes identity_sign
    dh_public_bytes cache_public_key dh_from_public_bytes identity_from_public_bytes lookup insert
handle_cipher_shows_example =
    handle_cipher_shows toy ann_service bob_service bob hi (codes "ann") (codes "bob") (codes "hi")
      first_iv (8 ∷ []) ann_signature sealed_hi 0 toy-IsLawful ann-generated bob-generated ann-Knows
      refl refl refl refl (omega arith) hi_sealed refl refl

-- Bob has opened a file for writing, and Ann sends him its only part.
abbrev part : Message
part =
    built 5 sealed_hi
      (codes "bob" ∷ codes "f" ∷ codes "ann" ∷ key_of 7 ∷ (8 ∷ []) ∷ ann_signature ∷ []) file_chunk

abbrev waiting : ClientContext toy
waiting = record bob {
  pending_files = (path_of (codes "bob") (codes "f"), tt) ∷ [];
  disk = (path_of (codes "bob") (codes "f"), codes "A") ∷ [];
}

handle_file_chunk_writes_example :
    (handle_file_chunk toy part waiting ≡ (
      ok tt,
      record waiting {
        messages_counter = (codes "bob", 0) ∷ [];
        disk = (path_of (codes "bob") (codes "f"), codes "Ahi") ∷ [];
      },
    ))
    × (counter_of (codes "bob") (handle_file_chunk toy part waiting).1.messages_counter ≡ 0)
unfolding get_dh_bytes get_identity_bytes service_sign identity_public_bytes identity_sign
    dh_public_bytes cache_public_key dh_from_public_bytes identity_from_public_bytes lookup insert
handle_file_chunk_writes_example =
    handle_file_chunk_writes toy ann_service bob_service waiting part (codes "ann") (codes "bob")
      (codes "f") (codes "hi") first_iv (8 ∷ []) ann_signature sealed_hi 0 toy-IsLawful
      ann-generated bob-generated ann-Knows refl refl refl refl (omega arith) hi_sealed refl refl
      refl

-- Ann has one text for Bob.
abbrev one_text : LockFreeQueue
one_text = record new_queue { buffer = stored 0 (codes "hi") new_queue.buffer; tail = 1 }

one_text-Holds : Holds one_text (codes "hi" ∷ [])
unfolding push
one_text-Holds = (push-Holds new_queue [] (codes "hi") new_queue-Holds).1

abbrev ann : ClientContext toy
ann = record (client_of (codes "ann") ann_service) { mq = (codes "bob", one_text) ∷ [] }

send_pending-send_each_example :
    (let (r, after) = send_pending toy 4096 (codes "bob") ann in (r, with_mq [] after))
    ≡ send_each toy (codes "bob") (codes "hi" ∷ []) (with_mq [] ann)
unfolding lookup
send_pending-send_each_example =
    send_pending-send_each toy 4096 (codes "bob") (codes "hi" ∷ []) one_text ann (omega arith)
      one_text-Holds refl

-- A server on which both are logged in.
abbrev ann_user : User
ann_user = record {
  id = codes "ann";
  username = codes "ann";
  public_dh_key = key_of 7;
  public_identity_key = 8 ∷ [];
  signature = ann_signature;
  status = online;
  chat_ids = [];
}

abbrev both : ServerContext
both = record (started 5) {
  services = record (no_services) {
    users = record { users = (codes "ann", ann_user) ∷ [] };
    sessions = record {
      fd_to_name = (4, codes "ann") ∷ (6, codes "bob") ∷ [];
      name_to_fd = (codes "ann", 4) ∷ (codes "bob", 6) ∷ [];
    };
  };
}

hi-FitsBody : FitsBody (keys_of (codes "bob") (codes "ann") ann_user) sealed_hi
unfolding metadata_size sealed_hi write_u64
hi-FitsBody = record {
  entries = (omega arith, (omega arith, (omega arith, (omega arith, (omega arith, tt)))));
  total = omega arith;
}

send_queued-client_receives_example :
    (bytes : Bytes) × (forwarded : Bytes) × (send_queued toy (codes "bob") (codes "hi") ann
      ≡ (ok tt, after_sending (codes "bob") bytes [] ann))
    × (on_tcp_data_received 4 bytes both
        ≡ (ok true, record both { fd = 4; sent = (6, forwarded) ∷ [] }))
    × (client_receives toy forwarded bob ≡ (
      ok tt,
      record bob {
        messages_counter = (codes "ann", 1) ∷ [];
        shown = private_line (codes "ann") (codes "hi") ∷ [];
      },
    ))
unfolding get_dh_bytes get_identity_bytes service_sign identity_public_bytes identity_sign
    dh_public_bytes cache_public_key dh_from_public_bytes identity_from_public_bytes lookup insert
    get_username get_fd find_user
send_queued-client_receives_example =
    send_queued-client_receives toy ann bob bob_service both 4 6 ann_user (codes "bob") (codes "hi")
      first_iv sealed_hi [] toy-IsLawful ann-generated bob-generated ann-Knows refl refl refl refl
      refl refl (omega arith) hi_sealed refl refl refl hi-FitsBody
