-- ===== src/Tests/Peers.antt =====
-- Ann connects to Bob, peer to peer.
use my_messenger.Prelude.{◌≡◌, refl, [], ◌∷◌, arith, false}
use my_messenger.Prelude.Bytes.{Bytes, codes}
use my_messenger.Prelude.Dict.{lookup, insert}
use my_messenger.Prelude.Result.{ok}
use my_messenger.Message.{Message, command, metadata_size}
use my_messenger.Message.Body.{FitsBody}
use my_messenger.Message.Compact.{built}
use my_messenger.Sessions.{no_sessions}
use my_messenger.Users
use my_messenger.Users.{UserService, User, offline, no_users}
use my_messenger.Crypto.Keys.{
  identity_public_bytes, identity_sign, dh_public_bytes, identity_from_public_bytes,
  dh_from_public_bytes,
}
use my_messenger.Encryption.{
  EncryptionService, get_identity_bytes, get_dh_bytes, service_sign, cache_public_key,
}
use my_messenger.Encryption.Exchange.{Knows}
use my_messenger.Peer.{fresh_node, send_to_peer}
use my_messenger.Peer.Numbers.{stoi, unsigned, digits_value}
use my_messenger.Peer.Commands.{PeerContext, connect_receive, peer_receives}
use my_messenger.Peer.Exchange.{with_peer, answer_metadata, connect_receive-peer_receives}
use my_messenger.Tests.Toy.{toy, key_of, ann_service, bob_service}

abbrev peer_of : Bytes → EncryptionService toy → PeerContext toy
peer_of name service = record {
  peer_node = fresh_node;
  user_service = no_users;
  session_manager = no_sessions;
  encryption_service = service;
  my_username = name;
  messages_counter = [];
  fd = 5;
  opened = [];
  now = 3;
}

abbrev ann : PeerContext toy
ann = peer_of (codes "ann") ann_service

abbrev pub bob : PeerContext toy
bob = peer_of (codes "bob") bob_service

abbrev known_user : Bytes → Bytes → Bytes → Bytes → UserService
known_user name dh identity signature = record {
  users =
      (
        name,
        record {
          id = [];
          username = name;
          public_dh_key = dh;
          public_identity_key = identity;
          signature = signature;
          status = offline;
          chat_ids = [];
        },
      )
      ∷ [];
}

abbrev ann_signature : Bytes
ann_signature = 8 ∷ key_of 7

abbrev bob_signature : Bytes
bob_signature = 10 ∷ key_of 9

-- "/connect 1 80" as it arrives.
abbrev invitation : Message
invitation =
    built 2 (codes "ann")
      ((11 ∷ []) ∷ codes "1" ∷ codes "80" ∷ key_of 7 ∷ (8 ∷ []) ∷ ann_signature ∷ []) command

bob_answer-FitsBody :
    FitsBody (answer_metadata toy (key_of 9) (10 ∷ []) bob_signature) (codes "bob")
unfolding metadata_size
bob_answer-FitsBody = record {
  entries = (omega arith, (omega arith, (omega arith, (omega arith, tt))));
  total = omega arith;
}

connect_receive-peer_receives_example :
    (answer : Bytes) × (connect_receive toy invitation bob ≡ (
      ok tt,
      record (with_peer
          (codes "ann")
          (known_user (codes "ann") (key_of 7) (8 ∷ []) ann_signature)
          bob_service
          bob) { peer_node = send_to_peer 5 answer fresh_node },
    ))
    × (peer_receives toy 7 answer ann ≡ (
      ok tt,
      with_peer
          (codes "bob")
          (known_user (codes "bob") (key_of 9) (10 ∷ []) bob_signature)
          ann_service
          (record ann { fd = 7 }),
    ))
    × Knows toy bob_service ann_service (codes "ann")
    × Knows toy ann_service bob_service (codes "bob")
unfolding get_identity_bytes get_dh_bytes service_sign identity_public_bytes identity_sign
    dh_public_bytes cache_public_key dh_from_public_bytes identity_from_public_bytes lookup insert
    stoi unsigned digits_value Users.register_user Users.new_user Users.set_public_key
    Users.set_public_dh_key Users.set_public_identity_key Users.set_key_signature
connect_receive-peer_receives_example =
    connect_receive-peer_receives toy ann bob invitation
      (known_user (codes "bob") (key_of 9) (10 ∷ []) bob_signature)
      (known_user (codes "ann") (key_of 7) (8 ∷ []) ann_signature) ann_service bob_service
      (record { negative = false; size = 80 }) 7 (codes "1") (codes "80") (8 ∷ []) ann_signature
      (10 ∷ []) bob_signature refl refl refl refl refl refl refl refl bob_answer-FitsBody refl refl
