-- ===== src/Peer/Exchange.antt =====
-- /connect between two peers: src/application/commands/impl/connect.cpp and
-- src/application/dispatching/message_dispatchers/peer_response_handler.cpp.
use my_messenger.Prelude.{ℕ, ◌≡◌, refl, sym, ap, ◌∙◌, List, [], ◌∷◌, append-nil, arith}
use my_messenger.Prelude.Bytes.{Bytes, Bytes-eq}
use my_messenger.Prelude.Result.{ok}
use my_messenger.Message.{Message, response, command_code, command_of_code}
use my_messenger.Message.Body.{FitsBody}
use my_messenger.Message.Codec.{serialize, deserialize}
use my_messenger.Message.Compact.{
  received, built, new_message-IsCompact, deserialize-serialize_compact,
}
use my_messenger.Sessions
use my_messenger.Users
use my_messenger.Users.{UserService}
use my_messenger.Crypto.{OpenSsl}
use my_messenger.Encryption.{
  EncryptionService, service_sign, get_dh_bytes, get_identity_bytes, cache_public_key,
}
use my_messenger.Encryption.Exchange.{Knows, cache_public_key-Knows, cache_public_key-known}
use my_messenger.Peer.{send_to_peer}
use my_messenger.Peer.Numbers.{Number, stoi}
use my_messenger.Peer.Commands.{
  PeerContext, Peering, take_peer, cache_peer_key, connect_answer, connect_receive, submit_to,
  response_receive, dispatch_receiving, receiving_handler, peer_receives,
}

-- A peer that has taken over a user's keys.
abbrev pub with_peer :
    {o : OpenSsl} → Bytes → UserService → EncryptionService o → PeerContext o → PeerContext o
with_peer username users service c = record c {
  user_service = users;
  session_manager = Sessions.bind c.fd username c.session_manager;
  encryption_service = service;
}

module _ (o : OpenSsl) where
  taken :
      (c : PeerContext o) (users : UserService) (service : EncryptionService o)
      (username dh identity signature : Bytes) (answer : Peering o (Unit {0}))
      → Users.register_user username dh identity signature c.user_service ≡ (ok username, users)
      → cache_public_key o username dh identity c.encryption_service ≡ (ok tt, service)
      → take_peer o username dh identity signature answer c
        ≡ answer (with_peer username users service c)
  unfolding take_peer cache_peer_key
  taken c users service username dh identity signature answer new cached =
      rw (new, take_peer) (rw (new, cached) refl)

  -- The metadata of the answer.
  abbrev pub answer_metadata : Bytes → Bytes → Bytes → List Bytes
  answer_metadata dh identity signature = (11 ∷ []) ∷ dh ∷ identity ∷ signature ∷ []

  answered :
      (c : PeerContext o) (identity signature : Bytes)
      → get_identity_bytes o c.encryption_service ≡ ok identity
      → service_sign o c.encryption_service ≡ ok signature
      → FitsBody
          (answer_metadata (get_dh_bytes o c.encryption_service) identity signature)
          c.my_username
      → connect_answer o c ≡ (
        ok tt,
        record c {
          peer_node =
              send_to_peer c.fd
                (serialize (
                  built c.now c.my_username
                    (answer_metadata (get_dh_bytes o c.encryption_service) identity signature)
                    response))
                c.peer_node;
        },
      )
  unfolding connect_answer submit_to command_code
  answered c identity signature given signed fits =
      rw
        (
          given,
          signed,
          (new_message-IsCompact c.now c.my_username 4
              (answer_metadata (get_dh_bytes o c.encryption_service) identity signature) response tt
              (omega arith) fits).0,
        )
        refl

  invited :
      (c : PeerContext o) (m : Message) (users : UserService) (service : EncryptionService o)
      (port : Number) (username ip port_str dh identity signature : Bytes)
      → m.metadata ≡ (11 ∷ []) ∷ ip ∷ port_str ∷ dh ∷ identity ∷ signature ∷ []
      → m.payload ≡ username
      → stoi port_str ≡ ok port
      → Users.register_user username dh identity signature c.user_service ≡ (ok username, users)
      → cache_public_key o username dh identity c.encryption_service ≡ (ok tt, service)
      → connect_receive o m c ≡ connect_answer o (with_peer username users service c)
  unfolding connect_receive
  invited c m users service port username ip port_str dh identity signature metas payload number new
        cached =
      rw (metas, payload, number, connect_receive)
        (rw (taken c users service username dh identity signature (connect_answer o) new cached)
          refl)

  accepting :
      (c : PeerContext o) (users : UserService) (service : EncryptionService o) (now fd : ℕ)
      (username dh identity signature : Bytes)
      → Users.register_user username dh identity signature c.user_service ≡ (ok username, users)
      → cache_public_key o username dh identity c.encryption_service ≡ (ok tt, service)
      → FitsBody (answer_metadata dh identity signature) username
      → peer_receives o fd
          (serialize (built now username (answer_metadata dh identity signature) response))
          c
        ≡ (ok tt, with_peer username users service (record c { fd = fd }))
  unfolding peer_receives dispatch_receiving receiving_handler response_receive command_of_code
  accepting c users service now fd username dh identity signature new cached fits =
      let metadata = answer_metadata dh identity signature in
      let m = built now username metadata response in
      let back : deserialize (serialize m) ≡ ok (received m) =
        ap deserialize (sym (append-nil (serialize m)))
        ∙ deserialize-serialize_compact m []
            (new_message-IsCompact now username 0 metadata response tt (omega arith) fits).1 in
      rw (back, peer_receives)
        (rw
          (taken (record c { fd = fd }) users service username dh identity signature
            (λ c. (ok tt, c)) new cached)
          refl)

  -- Where a peer receives the /connect of another one, neither has a user of the other's name yet, both
  -- can take over the other's keys and the answer fits the wire format: the first one registers the
  -- other with its keys, binds it to the connection and answers; the answer makes the other do the
  -- same; and then each knows the public keys of the other under its name.
  pub connect_receive-peer_receives :
      (a b : PeerContext o) (m : Message) (users_a users_b : UserService)
      (service_a service_b : EncryptionService o) (port : Number) (fd : ℕ)
      (ip port_str identity_a signature_a identity_b signature_b : Bytes)
      → m.metadata
        ≡ (11 ∷ [])
          ∷ ip
          ∷ port_str
          ∷ get_dh_bytes o a.encryption_service
          ∷ identity_a
          ∷ signature_a
          ∷ []
      → m.payload ≡ a.my_username
      → stoi port_str ≡ ok port
      → get_identity_bytes o a.encryption_service ≡ ok identity_a
      → Users.register_user a.my_username
          (get_dh_bytes o a.encryption_service)
          identity_a
          signature_a
          b.user_service
        ≡ (ok a.my_username, users_b)
      → cache_public_key o a.my_username
          (get_dh_bytes o a.encryption_service)
          identity_a
          b.encryption_service
        ≡ (ok tt, service_b)
      → get_identity_bytes o service_b ≡ ok identity_b
      → service_sign o service_b ≡ ok signature_b
      → FitsBody (answer_metadata (get_dh_bytes o service_b) identity_b signature_b) b.my_username
      → Users.register_user b.my_username
          (get_dh_bytes o service_b)
          identity_b
          signature_b
          a.user_service
        ≡ (ok b.my_username, users_a)
      → cache_public_key o b.my_username (get_dh_bytes o service_b) identity_b a.encryption_service
        ≡ (ok tt, service_a)
      → (answer : Bytes) × (connect_receive o m b ≡ (
        ok tt,
        record (with_peer a.my_username users_b service_b b) {
          peer_node = send_to_peer b.fd answer b.peer_node;
        },
      ))
        × (peer_receives o fd answer a
            ≡ (ok tt, with_peer b.my_username users_a service_a (record a { fd = fd })))
        × Knows o service_b service_a a.my_username
        × Knows o service_a service_b b.my_username
  connect_receive-peer_receives a b m users_a users_b service_a service_b port fd ip port_str
        identity_a signature_a identity_b signature_b metas payload number given_a new_b cached_b
        given_b signed_b fits new_a cached_a =
      let dh_a = get_dh_bytes o a.encryption_service in
      let dh_b = get_dh_bytes o service_b in
      let b' = with_peer a.my_username users_b service_b b in
      (
        serialize
            (built b.now b.my_username (answer_metadata dh_b identity_b signature_b) response),
        invited b m users_b service_b port a.my_username ip port_str dh_a identity_a signature_a
              metas payload number new_b cached_b
            ∙ answered b' identity_b signature_b given_b signed_b fits,
        accepting a users_a service_a b.now fd b.my_username dh_b identity_b signature_b new_a
            cached_a fits,
        cache_public_key-known o service_b a.encryption_service service_a a.my_username
            b.my_username dh_b identity_b cached_a
            (cache_public_key-Knows o b.encryption_service a.encryption_service service_b
              a.my_username identity_a given_a cached_b),
        cache_public_key-Knows o a.encryption_service service_b service_a b.my_username identity_b
            given_b cached_a,
      )
