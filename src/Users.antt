-- ===== src/Users.antt =====
-- src/models/user.cpp (class User) and src/application/services/user_service.cpp (UserService).
pub mod Laws
use my_messenger.Prelude.{
  ℕ, Option, none, some, List, [], ◌∷◌, ◌++◌, Bool, true, false, ◌||◌, ◌==◌, if◌then◌else◌,
}
use my_messenger.Prelude.Bytes.{Bytes, Bytes-eq}
use my_messenger.Prelude.Dict.{Dict, lookup, insert, erase}
use my_messenger.Prelude.Result.{Result, ok, err}
use my_messenger.Sessions.{ServiceError, ServiceResult, user_not_found, already_exists}

pub data UserStatus : Type 0 where
  online away offline : UserStatus

pub record User : Type 0 where
  pub id : Bytes
  pub username : Bytes
  pub public_dh_key : Bytes
  pub public_identity_key : Bytes
  pub signature : Bytes
  pub status : UserStatus
  pub chat_ids : List Bytes

-- User(id, username)
unfoldable pub new_user : Bytes → Bytes → User
new_user id username = record {
  id = id;
  username = username;
  public_dh_key = [];
  public_identity_key = [];
  signature = [];
  status = offline;
  chat_ids = [];
}

pub set_status : UserStatus → User → User
set_status new_status u = record u { status = new_status }

pub join_chat : Bytes → User → User
join_chat chat_id u = record u { chat_ids = u.chat_ids ++ chat_id ∷ [] }

-- std::find
pub contains : Bytes → List Bytes → Bool
contains x [] = false
contains x (y ∷ ys) = y == x || contains x ys

pub has_chat : Bytes → User → Bool
unfolding contains
has_chat chat_id u = contains chat_id u.chat_ids

-- The two keys are appended to what the user has, and the signature is replaced.
unfoldable pub set_public_dh_key : Bytes → User → User
set_public_dh_key pub_bytes u = record u { public_dh_key = u.public_dh_key ++ pub_bytes }

unfoldable pub set_public_identity_key : Bytes → User → User
set_public_identity_key pub_bytes u = record u {
  public_identity_key = u.public_identity_key ++ pub_bytes;
}

unfoldable pub set_key_signature : Bytes → User → User
set_key_signature bytes u = record u { signature = bytes }

-- `name_to_id_` is never written, and left out.
pub record UserService : Type 0 where
  pub users : Dict Bytes User

abbrev pub no_users : UserService
no_users = record { users = [] }

abbrev with_keys : Bytes → Bytes → Bytes → User → User
with_keys pubkey identity_pub signature u =
    set_key_signature signature (set_public_identity_key identity_pub (set_public_dh_key pubkey u))

unfoldable pub set_public_key : Bytes → Bytes → Bytes → Bytes → UserService → UserService
unfolding set_public_dh_key set_public_identity_key set_key_signature
set_public_key id pubkey identity_pub signature s = elim (lookup id s.users) [
  | none ↦ s
  | some u ↦ record { users = insert id (with_keys pubkey identity_pub signature u) s.users }
]

unfoldable pub register_user :
    Bytes → Bytes → Bytes → Bytes → UserService → ServiceResult Bytes × UserService
unfolding new_user set_public_key
register_user name pubkey identity_pub signature s = elim (lookup name s.users) [
  | some u ↦ (err already_exists, s)
  | none ↦ (
    ok name,
    set_public_key name pubkey identity_pub signature
        (record { users = insert name (new_user [] name) s.users }),
  )
]

-- The pointer that the source returns is read at once, so the user itself is returned.
unfoldable pub find_user : Bytes → UserService → ServiceResult User
find_user id s = elim (lookup id s.users) [ none ↦ err user_not_found | some u ↦ ok u ]

unfoldable pub remove_user : Bytes → UserService → UserService
remove_user id s = elim (lookup id s.users) [
  | none ↦ s
  | some u ↦ record { users = erase id s.users }
]
