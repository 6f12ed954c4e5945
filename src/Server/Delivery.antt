-- ===== src/Server/Delivery.antt =====
-- What the methods of src/application/services/server_application_service.cpp send, and to which
-- connections.
use my_messenger.Prelude.{
  ℕ, ◌≡◌, refl, sym, ap, ◌∙◌, Option, none, some, subst, List, [], ◌∷◌, ◌++◌, map, append-nil,
  append_assoc, if◌then◌else◌, arith, Option-cases, Bool-cases, inl, inr,
}
use mathlib.Core.List.Perm
use mathlib.Core.List.{Perm, filter_map}
use mathlib.Core.Option.{Option-elim}
use my_messenger.Prelude.Bytes.{Bytes, Bytes-eq}
use my_messenger.Prelude.Dict.{lookup}
use my_messenger.Prelude.Result.{ok, err, Result-cases}
use my_messenger.Message.{Message, cipher_message, get_meta, get_payload}
use my_messenger.Message.Responses.{chat_not_found, you_are_not_member, you_need_to_login}
use my_messenger.Message.Codec.{serialize, deserialize}
use my_messenger.Message.Body.{FitsBody}
use my_messenger.Message.Compact.{
  received, built, new_message-IsCompact, deserialize-serialize_compact,
}
use my_messenger.Sessions
use my_messenger.Sessions.{SessionManager, ServiceError}
use my_messenger.Users
use my_messenger.Users.{User}
use my_messenger.Chats
use my_messenger.Chats.{is_member}
use my_messenger.Server.{
  ServerContext, session, send, send_message, deliver_all, posted, send_group_message,
  deliver_cipher_message, forwarded, set_chats,
}

-- The connections of those of the names that have one, in the order of the names.
abbrev pub connections : List Bytes → SessionManager → List ℕ
connections [] s = []
connections (n ∷ ns) s = elim (Sessions.get_fd n s) [
  | err e ↦ connections ns s
  | ok fd ↦ fd ∷ connections ns s
]

abbrev pub copies : Bytes → List ℕ → List (ℕ × Bytes)
copies bytes fds = map (λ fd. (fd, bytes)) fds

deliver_all_sends :
    (members : List Bytes) (m : Message) (s : ServerContext)
    → deliver_all members m s
      ≡ (ok tt, record s { sent = s.sent ++ copies (serialize m) (connections members s.sessions) })
unfolding deliver_all send
deliver_all_sends [] m s = ground (arith, append-nil s.sent)
deliver_all_sends (n ∷ ns) m s = elim (Result-cases (Sessions.get_fd n s.sessions)) [
  | inr (e, p) ↦ ground (arith, deliver_all_sends ns m s)
  | inl (fd, p) ↦ ground (
    arith,
    deliver_all_sends ns m (record s { sent = s.sent ++ (fd, serialize m) ∷ [] }),
    append_assoc s.sent ((fd, serialize m) ∷ []) (copies (serialize m) (connections ns s.sessions)),
  )
]

-- What a group message from the current connection makes the server send.
abbrev pub group_answer :
    (List Bytes → List Bytes) → Bytes → Message → ServerContext → List (ℕ × Bytes)
group_answer listed chat m s = elim (session s) [
  | err e ↦ (s.fd, you_need_to_login) ∷ []
  | ok u ↦ elim (lookup chat s.chats.chats) [
    | none ↦ (s.fd, chat_not_found) ∷ []
    | some c ↦
        if is_member u c
        then copies (serialize m) (connections (listed c.members_id) s.sessions)
        else (s.fd, you_are_not_member) ∷ []
  ]
]

abbrev as_listed : List Bytes → List Bytes
as_listed names = names

sent_in_order :
    (chat : Bytes) (m : Message) (s : ServerContext)
    → let (r, after) = send_group_message chat m s in
      (r ≡ ok tt) × (after.sent ≡ s.sent ++ group_answer as_listed chat m s)
unfolding send_group_message posted send Chats.post_message
sent_in_order chat m s = elim (Result-cases (session s)) [
  | inr (e, p) ↦ ground arith
  | inl (u, p) ↦ elim (Option-cases (lookup chat s.chats.chats)) [
    | inl q ↦ ground arith
    | inr (c, q) ↦ ground (
      arith,
      deliver_all_sends c.members_id m (set_chats (Chats.post_message chat u m s.chats).1 s),
    )
  ]
]

abbrev fd_of : SessionManager → Bytes → Option ℕ
fd_of s n = elim (Sessions.get_fd n s) [ err e ↦ none | ok fd ↦ some fd ]

connections-filter_map :
    (ns : List Bytes) (s : SessionManager) → connections ns s ≡ filter_map (fd_of s) ns
unfolding filter_map Option-elim
connections-filter_map [] s = refl
connections-filter_map (n ∷ ns) s = elim (Result-cases (Sessions.get_fd n s)) [
  | inr (e, p) ↦ ground (arith, p, connections-filter_map ns s)
  | inl (fd, p) ↦ ground (arith, p, connections-filter_map ns s)
]

between {ℓ} : {A : Type ℓ} (xs ys zs ws : List A) → xs ≡ zs → ys ≡ ws → Perm zs ws → Perm xs ys
between xs ys zs ws e f p = subst (λ l. Perm l ys) (sym e) (subst (Perm zs) (sym f) p)

connections-Perm :
    (ns ms : List Bytes) (s : SessionManager)
    → Perm ns ms
    → Perm (connections ns s) (connections ms s)
connections-Perm ns ms s p =
    between (connections ns s) (connections ms s) (filter_map (fd_of s) ns)
      (filter_map (fd_of s) ms) (connections-filter_map ns s) (connections-filter_map ms s)
      (Perm.filter_map (fd_of s) p)

answer-Perm :
    (listed : List Bytes → List Bytes) (chat : Bytes) (m : Message) (s : ServerContext)
    → ((names : List Bytes) → Perm names (listed names))
    → Perm (group_answer as_listed chat m s) (group_answer listed chat m s)
answer-Perm listed chat m s all =
    let one = group_answer as_listed chat m s in
    let other = group_answer listed chat m s in
    elim (Result-cases (session s)) [
      | inr (e, p) ↦
          let reply = (s.fd, you_need_to_login) ∷ [] in
          between one other reply reply (ground (arith, p)) (ground (arith, p)) (Perm.refl reply)
      | inl (u, p) ↦ elim (Option-cases (lookup chat s.chats.chats)) [
        | inl q ↦
            let reply = (s.fd, chat_not_found) ∷ [] in
            between one other reply reply (ground (arith, p, q)) (ground (arith, p, q))
              (Perm.refl reply)
        | inr (c, q) ↦ elim (Bool-cases (is_member u c)) [
          | inr outside ↦
              let reply = (s.fd, you_are_not_member) ∷ [] in
              between one other reply reply (ground (arith, p, q, outside))
                (ground (arith, p, q, outside)) (Perm.refl reply)
          | inl in_chat ↦
              between one other (copies (serialize m) (connections c.members_id s.sessions))
                (copies (serialize m) (connections (listed c.members_id) s.sessions))
                (ground (arith, p, q, in_chat)) (ground (arith, p, q, in_chat))
                (Perm.map (λ fd. (fd, serialize m))
                  (connections-Perm c.members_id (listed c.members_id) s.sessions
                    (all c.members_id)))
        ]
      ]
    ]

-- The members of a chat are a set, which the model and the program list in some order. Sending a group
-- message always succeeds, and however the members are listed, what is sent is this up to the order:
-- one copy to the connection of each member that has one, if the sender is a member; else one error
-- reply to the sender and nothing to anybody else.
pub send_group_message_sends :
    (listed : List Bytes → List Bytes) (chat : Bytes) (m : Message) (s : ServerContext)
    → ((names : List Bytes) → Perm names (listed names))
    → let (r, after) = send_group_message chat m s in
      (r ≡ ok tt)
      × ((fresh : List (ℕ × Bytes)) × (after.sent ≡ s.sent ++ fresh)
          × Perm fresh (group_answer listed chat m s))
send_group_message_sends listed chat m s all =
    let (done, same) = sent_in_order chat m s in
    (done, (group_answer as_listed chat m s, same, answer-Perm listed chat m s all))

-- The metadata of a forwarded message.
abbrev pub with_keys_of : User → Message → List Bytes
with_keys_of sender msg =
    get_meta msg 0
    ∷ get_meta msg 1
    ∷ sender.public_dh_key
    ∷ sender.public_identity_key
    ∷ sender.signature
    ∷ []

-- A cipher message from a connection of a registered user to a user with a session, whose parts fit
-- the wire format, is sent to the connection of that user and nowhere else. The recipient reads a
-- cipher message with the same payload and the same first two entries, whose keys and signature are
-- those that the server has of the sender, whatever the sender wrote there.
pub deliver_cipher_message_forwards :
    (fd to : ℕ) (username : Bytes) (sender : User) (msg : Message) (s : ServerContext)
    → Sessions.get_username fd s.sessions ≡ ok username
    → Sessions.get_fd (get_meta msg 0) s.sessions ≡ ok to
    → Users.find_user username s.users ≡ ok sender
    → FitsBody (with_keys_of sender msg) (get_payload msg)
    → let m = built s.now (get_payload msg) (with_keys_of sender msg) cipher_message in
      (deliver_cipher_message fd msg s
        ≡ (ok tt, record s { sent = s.sent ++ (to, serialize m) ∷ [] }))
      × (deserialize (serialize m) ≡ ok (received m))
unfolding deliver_cipher_message forwarded send_message send
deliver_cipher_message_forwards fd to username sender msg s from there known fits =
    let (b, c) =
      new_message-IsCompact s.now (get_payload msg) 5 (with_keys_of sender msg) cipher_message tt
        (omega arith) fits in
    let m = built s.now (get_payload msg) (with_keys_of sender msg) cipher_message in
    (
      rw (from, there, known, deliver_cipher_message) (rw (b, send_message) refl),
      ap deserialize (sym (append-nil (serialize m))) ∙ deserialize-serialize_compact m [] c,
    )
