-- ===== src/Chats.antt =====
-- src/models/chat.cpp (class Chat) and src/application/services/chat_service.cpp (ChatService).
-- The set of members, a std::unordered_set, is a list without repetitions, with a new member in front;
-- the order is unspecified in C++.
pub mod Laws
use my_messenger.Prelude.{
  ℕ, ◌-◌, Option, none, some, List, [], ◌∷◌, ◌++◌, Bool, true, false, ◌||◌, ◌==◌, if◌then◌else◌,
  length, drop, leb,
}
use my_messenger.Prelude.Bytes.{Bytes, Bytes-eq}
use my_messenger.Prelude.Dict.{Dict, lookup, insert, erase}
use my_messenger.Prelude.Result.{Result, ok, err}
use my_messenger.Message.{Message}
use my_messenger.Sessions.{
  ServiceError, ServiceResult, chat_not_found, access_denied, already_member,
}

pub data ChatType : Type 0 where
  private_chat group channel : ChatType

pub record Chat : Type 0 where
  pub id : Bytes
  pub name : Bytes
  pub type : ChatType
  pub members_id : List Bytes
  pub messages : List Message

unfoldable pub new_chat : Bytes → Bytes → ChatType → Chat
new_chat id name type = record { id = id; name = name; type = type; members_id = []; messages = [] }

unfoldable pub add_message : Message → Chat → Chat
add_message msg c = record c { messages = c.messages ++ msg ∷ [] }

-- The last `count` messages.
unfoldable pub get_recent_message : ℕ → Chat → List Message
get_recent_message count c =
    if leb (length c.messages) count
    then c.messages
    else drop (length c.messages - count) c.messages

unfoldable pub member : Bytes → List Bytes → Bool
member x [] = false
member x (y ∷ ys) = y == x || member x ys

abbrev pub is_member : Bytes → Chat → Bool
is_member user_id c = member user_id c.members_id

abbrev pub is_private : ChatType → Bool
is_private private_chat = true
is_private group = false
is_private channel = false

unfoldable pub add_chat_member : Bytes → Chat → Bool × Chat
add_chat_member user_id c =
    if is_private c.type
    then (false, c)
    else if is_member user_id c
    then (false, c)
    else (true, record c { members_id = user_id ∷ c.members_id })

unfoldable pub without : Bytes → List Bytes → List Bytes
without x [] = []
without x (y ∷ ys) = let rest = without x ys in if y == x then rest else y ∷ rest

unfoldable pub remove_member : Bytes → Chat → Bool × Chat
remove_member user_id c =
    if is_member user_id c
    then (true, record c { members_id = without user_id c.members_id })
    else (false, c)

abbrev pub get_members : Chat → List Bytes
get_members c = c.members_id

-- `chat_name_to_id_` is never written, and left out.
pub record ChatService : Type 0 where
  pub chats : Dict Bytes Chat

abbrev pub no_chats : ChatService
no_chats = record { chats = [] }

unfoldable pub create_chat : Bytes → Bytes → ChatService → ServiceResult Bytes × ChatService
unfolding new_chat add_chat_member
create_chat name creator_id s = elim (lookup name s.chats) [
  | some c ↦ (err already_member, s)
  | none ↦ (
    ok name,
    record { chats = insert name (add_chat_member creator_id (new_chat [] name group)).1 s.chats },
  )
]

-- The result of the inner add_member is ignored.
unfoldable pub add_member : Bytes → Bytes → ChatService → ServiceResult (Unit {0}) × ChatService
unfolding add_chat_member
add_member chat_id user_id s = elim (lookup chat_id s.chats) [
  | none ↦ (err chat_not_found, s)
  | some c ↦
      if is_member user_id c
      then (err already_member, s)
      else (ok tt, record { chats = insert chat_id (add_chat_member user_id c).1 s.chats })
]

unfoldable pub post_message :
    Bytes → Bytes → Message → ChatService → ServiceResult (List Bytes) × ChatService
unfolding add_message
post_message chat_id username message s = elim (lookup chat_id s.chats) [
  | none ↦ (err chat_not_found, s)
  | some c ↦
      if is_member username c
      then (ok (get_members c), record { chats = insert chat_id (add_message message c) s.chats })
      else (err access_denied, s)
]

unfoldable pub remove_chat : Bytes → ChatService → ChatService
remove_chat chat_id s = elim (lookup chat_id s.chats) [
  | none ↦ s
  | some c ↦ record { chats = erase chat_id s.chats }
]

unfoldable pub leave : Bytes → Chat → Chat
unfolding remove_member
leave username c = if is_member username c then (remove_member username c).1 else c

unfoldable pub leave_all : Bytes → Dict Bytes Chat → Dict Bytes Chat
leave_all username [] = []
leave_all username ((id, c) ∷ rest) = (id, leave username c) ∷ leave_all username rest

unfoldable pub remove_user_from_all_chats : Bytes → ChatService → ChatService
remove_user_from_all_chats username s = record { chats = leave_all username s.chats }
