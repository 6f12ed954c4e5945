-- ===== src/Client/Journey.antt =====
-- The way of a private message from the sender's loop in
-- src/application/dispatching/message_dispatchers/response_handler.cpp over the server's
-- deliver_cipher_message to the reader's src/application/dispatching/message_dispatchers/cipher_handler.cpp.
use my_messenger.Prelude.{
  ℕ, ◌^◌, ◌<◌, ◌≡◌, refl, sym, ap, ◌∙◌, List, [], ◌∷◌, ◌++◌, append-nil, some, length, arith, true,
}
use my_messenger.Prelude.Bytes.{Bytes}
use my_messenger.Prelude.Result.{ok}
use my_messenger.Message.{cipher_message, metadata_size}
use my_messenger.Message.Body.{FitsBody}
use my_messenger.Message.Codec.{serialize, deserialize}
use my_messenger.Message.Compact.{
  received, built, new_message-IsCompact, deserialize-serialize_compact,
}
use my_messenger.Framing.{form_message}
use my_messenger.Sessions
use my_messenger.Users
use my_messenger.Users.{User}
use my_messenger.Server.{ServerContext}
use my_messenger.Server.Commands.{on_tcp_data_received, dispatch, handler_for}
use my_messenger.Server.Delivery.{deliver_cipher_message_forwards}
use my_messenger.Crypto.{OpenSsl, IsLawful}
use my_messenger.Encryption
use my_messenger.Encryption.{
  EncryptionService, service_sign, get_dh_bytes, get_identity_bytes, cache_public_key,
}
use my_messenger.Encryption.Exchange.{Knows, HasGeneratedKey}
use my_messenger.Client.{
  ClientContext, encrypt_for, submit, send_to_server, with_counter, counted, counter_of,
}
use my_messenger.Client.Handlers.{send_queued, handle_cipher}
use my_messenger.Client.Dispatch.{client_receives, client_dispatch, client_handler_for}
use my_messenger.Client.Conversation.{read_or_not, handle_cipher_shows}
use my_messenger.Client.Reach.{dispatched}

-- The sender after a text was sent.
abbrev pub after_sending :
    {o : OpenSsl} → Bytes → Bytes → List Bytes → ClientContext o → ClientContext o
after_sending recipient bytes rest c = record c {
  entropy = rest;
  messages_counter = counted recipient (with_counter recipient c.messages_counter);
  packets = c.packets ++ form_message bytes [] ∷ [];
}

-- The metadata of what the server makes of the message.
abbrev pub keys_of : Bytes → Bytes → User → List Bytes
keys_of recipient username user =
    recipient ∷ username ∷ user.public_dh_key ∷ user.public_identity_key ∷ user.signature ∷ []

sends :
    (o : OpenSsl) (c : ClientContext o) (recipient text iv e : Bytes) (rest : List Bytes)
    → c.entropy ≡ iv ∷ rest
    → Encryption.encrypt_for o c.encryption_service c.my_username recipient text
        (counter_of recipient c.messages_counter)
        (some iv)
      ≡ ok e
    → FitsBody (recipient ∷ c.my_username ∷ []) e
    → send_queued o recipient text c ≡ (
      ok tt,
      after_sending recipient
          (serialize (built c.now e (recipient ∷ c.my_username ∷ []) cipher_message))
          rest
          c,
    )
unfolding send_queued encrypt_for submit send_to_server
sends o c recipient text iv e rest random sealed fits =
    rw (random, encrypt_for)
      (rw
        (
          sealed,
          (new_message-IsCompact c.now e 2 (recipient ∷ c.my_username ∷ []) cipher_message tt
              (omega arith) fits).0,
        )
        refl)

read_back :
    (now : ℕ) (payload : Bytes) (metadata : List Bytes)
    → length metadata < 128
    → FitsBody metadata payload
    → deserialize (serialize (built now payload metadata cipher_message))
      ≡ ok (received (built now payload metadata cipher_message))
read_back now payload metadata few fits =
    let m = built now payload metadata cipher_message in
    ap deserialize (sym (append-nil (serialize m)))
    ∙ deserialize-serialize_compact m []
        (new_message-IsCompact now payload 0 metadata cipher_message tt few fits).1

passes :
    (now from to : ℕ) (sender : User) (username recipient e : Bytes) (s : ServerContext)
    → Sessions.get_username from s.sessions ≡ ok username
    → Sessions.get_fd recipient s.sessions ≡ ok to
    → Users.find_user username s.users ≡ ok sender
    → FitsBody (recipient ∷ username ∷ []) e
    → FitsBody (keys_of recipient username sender) e
    → on_tcp_data_received from
        (serialize (built now e (recipient ∷ username ∷ []) cipher_message))
        s
      ≡ (
        ok true,
        record s {
          fd = from;
          sent =
              s.sent
              ++ (to, serialize (built s.now e (keys_of recipient username sender) cipher_message))
                ∷ [];
        },
      )
unfolding dispatch handler_for
passes now from to sender username recipient e s from_there to_there known fits all_fits =
    let m = built now e (recipient ∷ username ∷ []) cipher_message in
    let s' = record s { fd = from } in
    dispatched (serialize m) (received m) from s
      (read_back now e (recipient ∷ username ∷ []) (omega arith) fits)
    ∙ rw
        ((deliver_cipher_message_forwards from to username sender (received m) s' from_there
          to_there known all_fits).0)
        refl

-- The first two entries fit where all five do.
two_fit :
    (a b x y z payload : Bytes)
    → FitsBody (a ∷ b ∷ x ∷ y ∷ z ∷ []) payload
    → FitsBody (a ∷ b ∷ []) payload
unfolding metadata_size
two_fit a b x y z payload fits = record {
  entries = (fits.entries.0, (fits.entries.1.0, tt));
  total = omega (arith, fits.total);
}

receives :
    (o : OpenSsl) (c after : ClientContext o) (raw payload : Bytes) (metadata : List Bytes)
    (now : ℕ)
    → let m = received (built now payload metadata cipher_message) in
      deserialize raw ≡ ok m
      → handle_cipher o m c ≡ (ok tt, after)
      → client_receives o raw c ≡ (ok tt, after)
unfolding client_receives client_dispatch client_handler_for
receives o c after raw payload metadata now back handled =
    rw (back, client_receives) (rw (handled) refl)

-- A private text on its way from one client over the server to another. OpenSSL keeps its promises,
-- and generated the Diffie-Hellman keys of both; the sender knows the reader's keys and can sign, and the reader can take over the sender's keys; the
-- server has the sender on the one connection and the reader on the other, and the sender's keys and
-- signature; the counter has 64 bits, the text is encrypted with an IV of 12 bytes, and the message
-- with the sender's keys fits the wire format. Then the sender sends one packet and counts it; the
-- server, when that message comes, sends one to the reader's connection and nothing else; and the
-- reader, when that comes, shows the text and counts it exactly if its counter for the sender equals
-- the sender's for the reader, and else shows nothing and counts nothing.
pub send_queued-client_receives :
    (o : OpenSsl) (c reader : ClientContext o) (service : EncryptionService o) (s : ServerContext)
    (from to : ℕ) (user : User) (recipient text iv e : Bytes) (rest : List Bytes)
    → IsLawful o
    → HasGeneratedKey o c.encryption_service
    → HasGeneratedKey o reader.encryption_service
    → Knows o c.encryption_service reader.encryption_service recipient
    → get_identity_bytes o c.encryption_service ≡ ok user.public_identity_key
    → service_sign o c.encryption_service ≡ ok user.signature
    → user.public_dh_key ≡ get_dh_bytes o c.encryption_service
    → cache_public_key o c.my_username
        (get_dh_bytes o c.encryption_service)
        user.public_identity_key
        reader.encryption_service
      ≡ (ok tt, service)
    → c.entropy ≡ iv ∷ rest
    → length iv ≡ 12
    → counter_of recipient c.messages_counter < 2 ^ 64
    → Encryption.encrypt_for o c.encryption_service c.my_username recipient text
        (counter_of recipient c.messages_counter)
        (some iv)
      ≡ ok e
    → Sessions.get_username from s.sessions ≡ ok c.my_username
    → Sessions.get_fd recipient s.sessions ≡ ok to
    → Users.find_user c.my_username s.users ≡ ok user
    → FitsBody (keys_of recipient c.my_username user) e
    → (bytes : Bytes) × (forwarded : Bytes) × (send_queued o recipient text c
        ≡ (ok tt, after_sending recipient bytes rest c))
      × (on_tcp_data_received from bytes s
          ≡ (ok true, record s { fd = from; sent = s.sent ++ (to, forwarded) ∷ [] }))
      × (client_receives o forwarded reader ≡ (
        ok tt,
        read_or_not c.my_username text (counter_of recipient c.messages_counter) service reader,
      ))
send_queued-client_receives o c reader service s from to user recipient text iv e rest lawful
      sender_key own_key knows given signed same_dh cached random twelve small sealed from_there
      to_there known fits =
    let name = c.my_username in
    let metadata = keys_of recipient name user in
    let fits' =
      two_fit recipient name user.public_dh_key user.public_identity_key user.signature e fits in
    let m = received (built s.now e metadata cipher_message) in
    (
      serialize (built c.now e (recipient ∷ name ∷ []) cipher_message),
      serialize (built s.now e metadata cipher_message),
      sends o c recipient text iv e rest random sealed fits',
      passes c.now from to user name recipient e s from_there to_there known fits' fits,
      receives o reader
          (read_or_not name text (counter_of recipient c.messages_counter) service reader)
          (serialize (built s.now e metadata cipher_message)) e metadata s.now
          (read_back s.now e metadata (omega arith) fits)
          (handle_cipher_shows o c.encryption_service service reader m name recipient text iv
            user.public_identity_key user.signature e (counter_of recipient c.messages_counter)
            lawful sender_key own_key knows given signed cached twelve small sealed
            (rw (same_dh) refl) refl),
    )
