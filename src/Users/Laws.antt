-- ===== src/Users/Laws.antt =====
-- What a lookup finds after each operation of src/application/services/user_service.cpp.
use my_messenger.Prelude.{◌≡◌, [], ◌==◌, if◌then◌else◌, arith}
use my_messenger.Prelude.Bytes.{Bytes, Bytes-eq, bytes_eq_iff}
use my_messenger.Prelude.Dict.{insert, lookup-insert, lookup-erase}
use my_messenger.Prelude.Result.{ok, err}
use my_messenger.Sessions.{user_not_found, already_exists}
use my_messenger.Users.{User, UserService, new_user, offline, register_user, find_user, remove_user}

-- The user that a registration stores: with exactly the given keys and signature, offline, in no
-- chat.
abbrev pub registered : Bytes → Bytes → Bytes → Bytes → User
registered name dh identity sig = record {
  id = [];
  username = name;
  public_dh_key = dh;
  public_identity_key = identity;
  signature = sig;
  status = offline;
  chat_ids = [];
}

-- Registration answers with the name and stores the registered user where the name is free, and
-- refuses and changes nothing where it is taken; every other name is found as before.
pub find_user-register_user :
    (name other dh identity sig : Bytes) (s : UserService)
    → ((register_user name dh identity sig s).0
        ≡ elim (find_user name s) [ ok u ↦ err already_exists | err e ↦ ok name ])
      × (find_user other (register_user name dh identity sig s).1 ≡ elim (find_user name s) [
        | ok u ↦ find_user other s
        | err e ↦ if name == other then ok (registered name dh identity sig) else find_user other s
      ])
unfolding register_user find_user
find_user-register_user name other dh identity sig s =
    let fresh = new_user [] name in
    (
      ground arith,
      ground (
        arith,
        lookup-insert name name fresh s.users,
        lookup-insert name other fresh s.users,
        lookup-insert name other (registered name dh identity sig) (insert name fresh s.users),
        bytes_eq_iff name name,
        bytes_eq_iff name other,
      ),
    )

pub find_user-remove_user :
    (name other : Bytes) (s : UserService)
    → find_user other (remove_user name s)
      ≡ (if name == other then err user_not_found else find_user other s)
unfolding find_user remove_user
find_user-remove_user name other s =
    ground (arith, lookup-erase name other s.users, bytes_eq_iff name other)
