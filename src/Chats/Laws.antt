-- ===== src/Chats/Laws.antt =====
-- Membership and the message log after each operation of src/models/chat.cpp and
-- src/application/services/chat_service.cpp.
use Prim.Native.Nat.{min}
use my_messenger.Prelude.{
  Bool-cases, ℕ, ◌-◌, ◌≡◌, refl, none, some, List, [], ◌∷◌, ◌++◌, Bool, false, not, ◌&&◌, ◌||◌,
  ◌==◌, if◌then◌else◌, arith, length, leb, length-drop, take, take-append-drop, inl, inr,
  Option-cases,
}
use my_messenger.Prelude.Bytes.{Bytes, Bytes-eq, bytes_eq_iff}
use my_messenger.Prelude.Dict.{Dict, lookup, lookup-insert}
use my_messenger.Prelude.Result.{ok, err}
use my_messenger.Message.{Message}
use my_messenger.Sessions.{chat_not_found, access_denied, already_member}
use my_messenger.Chats.{
  Chat, ChatService, group, is_private, member, is_member, add_chat_member, without, create_chat,
  add_member, post_message, leave, leave_all, remove_user_from_all_chats, get_recent_message,
  new_chat, add_message,
}

pub member-without :
    (x y : Bytes) (ys : List Bytes)
    → member y (without x ys) ≡ (if x == y then false else member y ys)
unfolding member without
member-without x y [] = ground arith
member-without x y (z ∷ ys) =
    ground (arith, member-without x y ys, bytes_eq_iff z x, bytes_eq_iff z y, bytes_eq_iff x y)

-- Whether `user` is in the chat named `name`; false where there is no such chat.
abbrev pub in_chat : Bytes → Bytes → ChatService → Bool
in_chat name user s = elim (lookup name s.chats) [ none ↦ false | some c ↦ is_member user c ]

lookup-leave_all :
    (u j : Bytes) (m : Dict Bytes Chat)
    → lookup j (leave_all u m) ≡ elim (lookup j m) [ none ↦ none | some c ↦ some (leave u c) ]
unfolding lookup leave_all
lookup-leave_all u j [] = refl
lookup-leave_all u j ((i, c) ∷ m) = ground (arith, lookup-leave_all u j m)

member-leave :
    (u v : Bytes) (c : Chat) → is_member v (leave u c) ≡ (if u == v then false else is_member v c)
unfolding leave
member-leave u v c = ground (arith, member-without u v c.members_id, bytes_eq_iff u v)

-- A user who leaves all chats is in none, and everybody else stays where they were.
pub in_chat-remove_user :
    (u v name : Bytes) (s : ChatService)
    → in_chat name v (remove_user_from_all_chats u s) ≡ (if u == v then false else in_chat name v s)
unfolding remove_user_from_all_chats
in_chat-remove_user u v name s = elim (Option-cases (lookup name s.chats)) [
  | inl e ↦ ground (arith, lookup-leave_all u name s.chats)
  | inr (c, e) ↦ ground (arith, lookup-leave_all u name s.chats, member-leave u v c)
]

-- Creating a chat under a free name makes its creator the only member; under a taken name it is
-- refused. Nobody's membership of another chat changes.
pub in_chat-create_chat :
    (name creator other user : Bytes) (s : ChatService)
    → ((create_chat name creator s).0
        ≡ elim (lookup name s.chats) [ some c ↦ err already_member | none ↦ ok name ])
      × (in_chat other user (create_chat name creator s).1 ≡ elim (lookup name s.chats) [
        | some c ↦ in_chat other user s
        | none ↦ if name == other then creator == user else in_chat other user s
      ])
unfolding create_chat member
in_chat-create_chat name creator other user s = (
  ground arith,
  ground (
    arith,
    lookup-insert name other (add_chat_member creator (new_chat [] name group)).1 s.chats,
    bytes_eq_iff name other,
  ),
)

-- Joining adds the user to that chat and to no other; it is refused, and changes nothing, where the
-- chat is missing or the user is in it. A private chat takes nobody in.
pub in_chat-add_member :
    (chat user other v : Bytes) (s : ChatService)
    → ((add_member chat user s).0 ≡ elim (lookup chat s.chats) [
      | none ↦ err chat_not_found
      | some c ↦ if is_member user c then err already_member else ok tt
    ])
      × (in_chat other v (add_member chat user s).1 ≡ elim (lookup chat s.chats) [
        | none ↦ in_chat other v s
        | some c ↦
            if chat == other
            then in_chat other v s || ((user == v) && not (is_private c.type))
            else in_chat other v s
      ])
unfolding add_member member
in_chat-add_member chat user other v s = elim (Option-cases (lookup chat s.chats)) [
  | inl e ↦ (ground arith, ground arith)
  | inr (c, e) ↦ (
    ground arith,
    ground (
      arith,
      lookup-insert chat other (add_chat_member user c).1 s.chats,
      bytes_eq_iff chat other,
      bytes_eq_iff user v,
    ),
  )
]

-- Posting changes nobody's membership.
pub in_chat-post_message :
    (chat user other v : Bytes) (m : Message) (s : ChatService)
    → in_chat other v (post_message chat user m s).1 ≡ in_chat other v s
unfolding post_message
in_chat-post_message chat user other v m s = elim (Option-cases (lookup chat s.chats)) [
  | inl e ↦ ground arith
  | inr (c, e) ↦
      ground (arith, lookup-insert chat other (add_message m c) s.chats, bytes_eq_iff chat other)
]

-- The message log of a chat; empty where there is no such chat.
abbrev pub log : Bytes → ChatService → List Message
log name s = elim (lookup name s.chats) [ none ↦ [] | some c ↦ c.messages ]

-- A member's message goes to the end of that chat's log and the answer is the list of members; a
-- message of anybody else, or to a missing chat, is refused. No other log changes.
pub log-post_message :
    (chat user other : Bytes) (m : Message) (s : ChatService)
    → ((post_message chat user m s).0 ≡ elim (lookup chat s.chats) [
      | none ↦ err chat_not_found
      | some c ↦ if in_chat chat user s then ok c.members_id else err access_denied
    ])
      × (log other (post_message chat user m s).1
          ≡ (if in_chat chat user s && (chat == other) then log other s ++ m ∷ [] else log other s))
unfolding post_message
log-post_message chat user other m s = elim (Option-cases (lookup chat s.chats)) [
  | inl e ↦ (ground arith, ground arith)
  | inr (c, e) ↦ (
    ground arith,
    ground (arith, lookup-insert chat other (add_message m c) s.chats, bytes_eq_iff chat other),
  )
]

-- The recent messages are the last of the log, in their order, and so many as asked for or as there
-- are.
pub get_recent_message_suffix :
    (count : ℕ) (c : Chat)
    → (take (length c.messages - count) c.messages ++ get_recent_message count c ≡ c.messages)
      × (length (get_recent_message count c) ≡ min count (length c.messages))
unfolding get_recent_message
get_recent_message_suffix count c = elim (Bool-cases (leb (length c.messages) count)) [
  | inl all ↦
      (rw all (let e : length c.messages - count ≡ 0 = ground arith in rw e), rw all (ground arith))
  | inr some_left ↦ (
    rw some_left (take-append-drop _ c.messages),
    rw some_left (ground (arith, length-drop (length c.messages - count) c.messages)),
  )
]
