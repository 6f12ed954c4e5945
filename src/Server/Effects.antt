-- ===== src/Server/Effects.antt =====
-- What each method of src/application/services/server_application_service.cpp does to the services,
-- whether it returns or throws.
use my_messenger.Prelude.{ℕ, ◌≡◌, refl, List, [], ◌∷◌, ◌++◌, if◌then◌else◌, arith, inl, inr}
use my_messenger.Prelude.Bytes.{Bytes, codes, is_empty}
use my_messenger.Prelude.Result.{Result, ok, err, Result-cases}
use my_messenger.Failure.{Failure}
use my_messenger.Message.{Message, get_meta}
use my_messenger.Sessions
use my_messenger.Sessions.{SessionManager, ServiceResult, ServiceError}
use my_messenger.Users
use my_messenger.Chats
use my_messenger.Server.{
  Services, ServerContext, send, send_message, send_text, session, register, welcome, login, joined,
  join_room, created, create_room, deliver_all, posted, send_group_message, deliver_cipher_message,
  send_pubkey, set_sessions, set_users, set_chats, forwarded, pubkey_reply,
}

pub services-send_message :
    (fd : ℕ) (built : Result Failure Message) (s : ServerContext)
    → (send_message fd built s).1.services ≡ s.services
unfolding send_message send
services-send_message fd (ok m) s = refl
services-send_message fd (err e) s = refl

pub services-send_text :
    (fd : ℕ) (body : Bytes) (s : ServerContext) → (send_text fd body s).1.services ≡ s.services
unfolding send_text
services-send_text fd body s = services-send_message fd _ s

pub services-deliver_all :
    (members : List Bytes) (message : Message) (s : ServerContext)
    → (deliver_all members message s).1.services ≡ s.services
unfolding deliver_all send
services-deliver_all [] message s = refl
services-deliver_all (u ∷ us) message s = elim (Result-cases (Sessions.get_fd u s.sessions)) [
  | inl (fd, p) ↦ rw (p, deliver_all) (services-deliver_all us message _)
  | inr (e, p) ↦ rw (p, deliver_all) (services-deliver_all us message s)
]

-- After a login the user is registered and bound, if the connection had no session and the name was
-- free; nothing changes otherwise.
abbrev pub after_login : Bytes → Bytes → Bytes → Bytes → ServerContext → Services
after_login username dh identity sig s = elim (session s) [
  | ok name ↦ s.services
  | err e ↦ elim (Users.find_user username s.users) [
    | ok u ↦ s.services
    | err e ↦ record (s.services) {
      users = (Users.register_user username dh identity sig s.users).1;
      sessions = Sessions.bind s.fd username s.sessions;
    }
  ]
]

pub services-login :
    (username dh identity sig : Bytes) (s : ServerContext)
    → (login username dh identity sig s).1.services ≡ after_login username dh identity sig s
unfolding login register welcome send Users.register_user Users.find_user
services-login username dh identity sig s = ground (
  arith,
  services-send_text s.fd (codes "Hello, " ++ (username ++ codes "!")) (
      set_sessions (Sessions.bind s.fd username s.sessions)
        (set_users (Users.register_user username dh identity sig s.users).1 s)),
)

services-joined :
    (name : Bytes) (r : ServiceResult (Unit {0})) (s : ServerContext)
    → (joined name r s).1.services ≡ s.services
unfolding joined send
services-joined name (err ServiceError.chat_not_found) s = refl
services-joined name (err ServiceError.already_member) s = refl
services-joined name _ s = services-send_text s.fd _ s

services-created :
    (name : Bytes) (r : ServiceResult Bytes) (s : ServerContext)
    → (created name r s).1.services ≡ s.services
unfolding created send
services-created name (err e) s = refl
services-created name (ok n) s = services-send_text s.fd _ s

services-posted :
    (message : Message) (r : ServiceResult (List Bytes)) (s : ServerContext)
    → (posted message r s).1.services ≡ s.services
unfolding posted send
services-posted message (ok members) s = services-deliver_all members message s
services-posted message (err ServiceError.access_denied) s = refl
services-posted message (err ServiceError.chat_not_found) s = refl
services-posted message (err _) s = refl

-- The services after a method that changes the chats only, by `change` for the session's user.
abbrev pub after_chats : (Bytes → Services → Services) → ServerContext → Services
after_chats change s = elim (session s) [
  | err e ↦ s.services
  | ok username ↦ change username s.services
]

pub services-join_room :
    (name : Bytes) (s : ServerContext)
    → (join_room name s).1.services
      ≡ after_chats
          (λ u v.
            if is_empty name then v else record v { chats = (Chats.add_member name u v.chats).1 })
          s
unfolding join_room send
services-join_room name s = elim (Result-cases (session s)) [
  | inl (u, p) ↦ ground (
    arith,
    services-joined name (Chats.add_member name u s.chats).0
        (set_chats (Chats.add_member name u s.chats).1 s),
  )
  | inr (e, p) ↦ ground arith
]

pub services-create_room :
    (name : Bytes) (s : ServerContext)
    → (create_room name s).1.services
      ≡ after_chats
          (λ u v.
            if is_empty name then v else record v { chats = (Chats.create_chat name u v.chats).1 })
          s
unfolding create_room send
services-create_room name s = elim (Result-cases (session s)) [
  | inl (u, p) ↦ ground (
    arith,
    services-created name (Chats.create_chat name u s.chats).0
        (set_chats (Chats.create_chat name u s.chats).1 s),
  )
  | inr (e, p) ↦ ground arith
]

pub services-send_group_message :
    (name : Bytes) (message : Message) (s : ServerContext)
    → (send_group_message name message s).1.services
      ≡ after_chats (λ u v. record v { chats = (Chats.post_message name u message v.chats).1 }) s
unfolding send_group_message send
services-send_group_message name message s = elim (Result-cases (session s)) [
  | inl (u, p) ↦ ground (
    arith,
    services-posted message (Chats.post_message name u message s.chats).0
        (set_chats (Chats.post_message name u message s.chats).1 s),
  )
  | inr (e, p) ↦ ground arith
]

pub services-deliver_cipher_message :
    (fd : ℕ) (msg : Message) (s : ServerContext)
    → (deliver_cipher_message fd msg s).1.services ≡ s.services
unfolding deliver_cipher_message send
services-deliver_cipher_message fd msg s =
    elim (Result-cases (Sessions.get_username fd s.sessions)) [
      | inr (e, p) ↦ ground arith
      | inl (u, p) ↦ elim (Result-cases (Users.find_user u s.users)) [
        | inr (e, q) ↦ ground arith
        | inl (sender, q) ↦ elim (Result-cases (Sessions.get_fd (get_meta msg 0) s.sessions)) [
          | inr (e, r) ↦ ground arith
          | inl (to, r) ↦ ground (arith, services-send_message to (forwarded s.now msg sender) s)
        ]
      ]
    ]

pub services-send_pubkey :
    (username : Bytes) (s : ServerContext) → (send_pubkey username s).1.services ≡ s.services
unfolding send_pubkey send
services-send_pubkey username s = elim (Result-cases (Users.find_user username s.users)) [
  | inr (e, q) ↦ ground arith
  | inl (u, q) ↦ ground (arith, services-send_message s.fd (pubkey_reply s.now username u) s)
]
