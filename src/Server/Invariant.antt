-- ===== src/Server/Invariant.antt =====
-- What every method of src/application/services/server_application_service.cpp keeps of the users,
-- the chats and the sessions.
use my_messenger.Prelude.{ℕ, ◌≡◌, refl, none, Bool, true, false, arith, ℕ-eq}
use my_messenger.Prelude.Bytes.{Bytes, Bytes-eq, bytes_eq_iff}
use my_messenger.Prelude.Dict.{lookup}
use my_messenger.Prelude.Result.{ok, err}
use my_messenger.Message.{Message}
use my_messenger.Sessions.{SessionManager, ServiceError, get_username, get_fd, bind, unbind}
use my_messenger.Sessions.Invariant.{
  IsMirror, no_sessions-IsMirror, bind-IsMirror, unbind-IsMirror, get-bind, get-unbind,
}
use my_messenger.Users.{find_user, register_user, remove_user}
use my_messenger.Users.Laws.{find_user-register_user, find_user-remove_user}
use my_messenger.Chats.{create_chat, add_member, post_message, remove_user_from_all_chats}
use my_messenger.Chats.Laws.{
  in_chat, in_chat-create_chat, in_chat-add_member, in_chat-remove_user, in_chat-post_message,
}
use my_messenger.Server.{Services, no_services}

abbrev pub is_registered : Bytes → Services → Bool
is_registered n v = elim (find_user n v.users) [ ok u ↦ true | err e ↦ false ]

abbrev pub is_bound : Bytes → Services → Bool
is_bound n v = elim (get_fd n v.sessions) [ ok fd ↦ true | err e ↦ false ]

-- The session tables mirror one another, the registered names are those with a session, and only
-- registered names are in a chat.
pub record Inv (v : Services) : Type 0 where
  pub mirror : IsMirror v.sessions
  pub known : (n : Bytes) → is_bound n v ≡ is_registered n v
  pub inside : (c n : Bytes) → in_chat c n v.chats ≡ true → is_registered n v ≡ true

pub no_services-Inv : Inv no_services
unfolding find_user get_fd lookup
no_services-Inv = record { mirror = no_sessions-IsMirror; known = λ n. refl; inside = λ c n h. cc }

no_username :
    (fd : ℕ) (s : SessionManager) (e : ServiceError)
    → get_username fd s ≡ err e
    → lookup fd s.fd_to_name ≡ none
unfolding get_username
no_username fd s e h = ground arith

no_fd :
    (n : Bytes) (s : SessionManager)
    → (elim (get_fd n s) [ ok fd ↦ true | err e ↦ false ]) ≡ false
    → lookup n s.name_to_fd ≡ none
unfolding get_fd
no_fd n s h = ground arith

module _ (v : Services) (inv : Inv v) where
  pub login-Inv :
      (fd : ℕ) (name dh identity sig : Bytes) (e f : ServiceError)
      → get_username fd v.sessions ≡ err e
      → find_user name v.users ≡ err f
      → Inv (record v {
        users = (register_user name dh identity sig v.users).1;
        sessions = bind fd name v.sessions;
      })
  login-Inv fd name dh identity sig e f free fresh = record {
    mirror =
        bind-IsMirror fd name v.sessions inv.mirror (no_username fd v.sessions e free)
          (no_fd name v.sessions (ground (arith, inv.known name)));
    known = λ n. ground (
      arith,
      inv.known n,
      (get-bind fd fd name n v.sessions).1,
      (find_user-register_user name n dh identity sig v.users).1,
    );
    inside = λ c n h.
        ground
          (arith, inv.inside c n h, (find_user-register_user name n dh identity sig v.users).1);
  }

  pub join-Inv :
      (chat name : Bytes)
      → is_registered name v ≡ true
      → Inv (record v { chats = (add_member chat name v.chats).1 })
  join-Inv chat name here = record {
    mirror = inv.mirror;
    known = inv.known;
    inside = λ c n h.
        ground (
          arith,
          inv.inside c n,
          (in_chat-add_member chat name c n v.chats).1,
          bytes_eq_iff name n,
        );
  }

  pub create-Inv :
      (chat name : Bytes)
      → is_registered name v ≡ true
      → Inv (record v { chats = (create_chat chat name v.chats).1 })
  create-Inv chat name here = record {
    mirror = inv.mirror;
    known = inv.known;
    inside = λ c n h.
        ground (
          arith,
          inv.inside c n,
          (in_chat-create_chat chat name c n v.chats).1,
          bytes_eq_iff name n,
        );
  }

  pub post-Inv :
      (chat name : Bytes) (m : Message)
      → Inv (record v { chats = (post_message chat name m v.chats).1 })
  post-Inv chat name m = record {
    mirror = inv.mirror;
    known = inv.known;
    inside = λ c n h. ground (arith, inv.inside c n, in_chat-post_message chat name c n m v.chats);
  }

  pub exit-Inv :
      (fd : ℕ) (name : Bytes)
      → get_username fd v.sessions ≡ ok name
      → Inv (record {
        users = remove_user name v.users;
        chats = remove_user_from_all_chats name v.chats;
        sessions = unbind fd v.sessions;
      })
  exit-Inv fd name bound = record {
    mirror = unbind-IsMirror fd v.sessions inv.mirror;
    known = λ n. ground (
      arith,
      inv.known n,
      (get-unbind fd fd name n v.sessions inv.mirror bound).1,
      find_user-remove_user name n v.users,
    );
    inside = λ c n h. ground (
      arith,
      inv.inside c n,
      in_chat-remove_user name n c v.chats,
      find_user-remove_user name n v.users,
    );
  }

  -- The user of a session is registered.
  pub session-registered :
      (fd : ℕ) (name : Bytes) → get_username fd v.sessions ≡ ok name → is_registered name v ≡ true
  unfolding get_username get_fd
  session-registered fd name h = ground (arith, inv.mirror.forth fd name, inv.known name)
