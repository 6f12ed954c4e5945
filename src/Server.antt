-- ===== src/Server.antt =====
-- The state of the server (ServerContext of include/application/session/client_context.hpp) and
-- src/application/services/server_application_service.cpp. The pointers that its methods test for
-- null are set once by the constructor of ServerContext and never null, so those tests are left
-- out. `transport_server_->send` queues bytes on a connection; here it adds them to `sent`. The
-- clock is a field, read by the constructors of messages.
pub mod Effects
pub mod Invariant
pub mod Delivery
pub mod Commands
pub mod Reach
pub mod Events
pub mod Loop
pub mod Disconnect
pub mod Service
pub mod Backlog
pub mod Turns
use my_messenger.Prelude.{
  ℕ, Option, none, some, List, [], ◌∷◌, ◌++◌, Bool, true, false, if◌then◌else◌,
}
use my_messenger.Prelude.Bytes.{Bytes, Bytes-eq, codes, is_empty}
use my_messenger.Prelude.Result.{Result, ok, err}
use my_messenger.Prelude.Exec.{Exec, pure, lift, gets, modify, ◌>>=◌, ◌>>◌}
use my_messenger.Failure.{Failure, undefined}
use my_messenger.Message.{
  Message, text, cipher_message, response, new_message, get_meta, get_payload, command_code,
  get_pubkey,
}
use my_messenger.Message.Responses.{
  chat_not_found, user_not_found, you_need_to_login, wrong_command_usage, empty_chat_name,
  chat_already_exists, you_are_already_member, public_key_has_not_set, you_are_logged_in,
  you_are_not_member,
}
use my_messenger.Message.Codec.{serialize}
use my_messenger.Sessions
use my_messenger.Sessions.{SessionManager, ServiceResult, ServiceError}
use my_messenger.Users
use my_messenger.Users.{UserService, User}
use my_messenger.Chats
use my_messenger.Chats.{ChatService}

-- What outlives a command.
pub record Services : Type 0 where
  pub users : UserService
  pub chats : ChatService
  pub sessions : SessionManager

-- `fd` is the connection whose message is being handled.
pub record ServerContext : Type 0 where
  pub services : Services
  pub open services use *
  pub sent : List (ℕ × Bytes)
  pub fd : ℕ
  pub now : ℕ

abbrev pub no_services : Services
no_services = record {
  users = Users.no_users;
  chats = Chats.no_chats;
  sessions = Sessions.no_sessions;
}

abbrev pub Server {ℓ} : Type ℓ → Type ℓ
Server = Exec ServerContext Failure

abbrev pub set_users : UserService → ServerContext → ServerContext
set_users u s = record s { services = record (s.services) { users = u } }

abbrev pub set_chats : ChatService → ServerContext → ServerContext
set_chats c s = record s { services = record (s.services) { chats = c } }

abbrev pub set_sessions : SessionManager → ServerContext → ServerContext
set_sessions m s = record s { services = record (s.services) { sessions = m } }

-- transport_server_->send(fd, bytes)
unfoldable pub send : ℕ → Bytes → Server (Unit {0})
send fd bytes s = (ok tt, record s { sent = s.sent ++ (fd, bytes) ∷ [] })

-- transport_server_->send(fd, serializer_->serialize(message))
unfoldable pub send_message : ℕ → Result Failure Message → Server (Unit {0})
send_message fd built = do m ← lift built; send fd (serialize m)

unfoldable pub send_text : ℕ → Bytes → Server (Unit {0})
send_text fd body s = send_message fd (new_message s.now body 0 [] text) s

-- session_manager_->get_username(*fd_ref_)
abbrev pub session : ServerContext → ServiceResult Bytes
session s = Sessions.get_username s.fd s.sessions

unfoldable pub current_username : ServerContext → Option Bytes
current_username s = elim (session s) [ ok username ↦ some username | err e ↦ none ]

unfoldable pub register : Bytes → Bytes → Bytes → Bytes → Server (ServiceResult Bytes)
register username dh_pubkey identity_pub signature s =
    let (r, users) = Users.register_user username dh_pubkey identity_pub signature s.users in
    (ok r, set_users users s)

unfoldable pub welcome : Bytes → ServiceResult Bytes → Server (Unit {0})
welcome username (err e) s = send s.fd public_key_has_not_set s
welcome username (ok name) s =
    send_text s.fd (codes "Hello, " ++ (username ++ codes "!"))
      (set_sessions (Sessions.bind s.fd username s.sessions) s)

unfoldable pub login : Bytes → Bytes → Bytes → Bytes → Server (Unit {0})
login username dh_pubkey identity_pub signature s = elim (session s) [
  | ok name ↦ send s.fd you_are_logged_in s
  | err e ↦ (do r ← register username dh_pubkey identity_pub signature; welcome username r) s
]

-- Only the two errors that are tested end the method.
unfoldable pub joined : Bytes → ServiceResult (Unit {0}) → Server (Unit {0})
joined chat_name (err ServiceError.chat_not_found) s = send s.fd chat_not_found s
joined chat_name (err ServiceError.already_member) s = send s.fd you_are_already_member s
joined chat_name _ s = send_text s.fd (codes "You joined the room " ++ chat_name) s

unfoldable pub join_room : Bytes → Server (Unit {0})
join_room chat_name s = elim (session s) [
  | err e ↦ send s.fd you_need_to_login s
  | ok username ↦
      if is_empty chat_name
      then send s.fd empty_chat_name s
      else (let (r, chats) = Chats.add_member chat_name username s.chats in
          joined chat_name r (set_chats chats s))
]

unfoldable pub created : Bytes → ServiceResult Bytes → Server (Unit {0})
created chat_name (err e) s = send s.fd chat_already_exists s
created chat_name (ok name) s =
    send_text s.fd (codes "Room " ++ (chat_name ++ codes " was created!")) s

unfoldable pub create_room : Bytes → Server (Unit {0})
create_room chat_name s = elim (session s) [
  | err e ↦ send s.fd you_need_to_login s
  | ok username ↦
      if is_empty chat_name
      then send s.fd empty_chat_name s
      else (let (r, chats) = Chats.create_chat chat_name username s.chats in
          created chat_name r (set_chats chats s))
]

-- for (username : members): a member with no session is passed over.
unfoldable pub deliver_all : List Bytes → Message → Server (Unit {0})
deliver_all [] message s = (ok tt, s)
deliver_all (username ∷ rest) message s =
    let later = deliver_all rest message in
    elim (Sessions.get_fd username s.sessions) [
      | err e ↦ later s
      | ok his_fd ↦ (send his_fd (serialize message) >> later) s
    ]

-- An error that is neither of the two tested would be dereferenced as a value.
unfoldable pub posted : Message → ServiceResult (List Bytes) → Server (Unit {0})
posted message (ok members) s = deliver_all members message s
posted message (err ServiceError.access_denied) s = send s.fd you_are_not_member s
posted message (err ServiceError.chat_not_found) s = send s.fd chat_not_found s
posted message (err e) s = (err undefined, s)

unfoldable pub send_group_message : Bytes → Message → Server (Unit {0})
send_group_message chat_name message s = elim (session s) [
  | err e ↦ send s.fd you_need_to_login s
  | ok username ↦
      let (r, chats) = Chats.post_message chat_name username message s.chats in
      posted message r (set_chats chats s)
]

unfoldable pub disconnect_username : Bytes → Server (Unit {0})
disconnect_username username s = elim (Sessions.get_fd username s.sessions) [
  | err e ↦ (ok tt, s)
  | ok fd ↦ (
    ok tt,
    set_sessions (Sessions.unbind fd s.sessions) (set_users (Users.remove_user username s.users) s),
  )
]

unfoldable pub exit_current_session : Server (Unit {0})
exit_current_session s = elim (session s) [
  | err e ↦ (ok tt, s)
  | ok username ↦ (
    ok tt,
    record s {
      services = record {
        users = Users.remove_user username s.users;
        chats = Chats.remove_user_from_all_chats username s.chats;
        sessions = Sessions.unbind s.fd s.sessions;
      };
    },
  )
]

-- The message that goes to the recipient: the sender's keys replace what the sender wrote there.
unfoldable pub forwarded : ℕ → Message → User → Result Failure Message
forwarded now msg sender =
    new_message now (get_payload msg) 5
      (get_meta msg 0
        ∷ get_meta msg 1
        ∷ sender.public_dh_key
        ∷ sender.public_identity_key
        ∷ sender.signature
        ∷ [])
      cipher_message

-- `fd` is an argument here.
unfoldable pub deliver_cipher_message : ℕ → Message → Server (Unit {0})
deliver_cipher_message fd msg s = elim (Sessions.get_username fd s.sessions) [
  | err e ↦ send fd you_need_to_login s
  | ok username ↦ elim (Sessions.get_fd (get_meta msg 0) s.sessions) [
    | err e ↦ send fd user_not_found s
    | ok recipient_fd ↦ elim (Users.find_user username s.users) [
      | err e ↦ send fd you_need_to_login s
      | ok sender ↦ send_message recipient_fd (forwarded s.now msg sender) s
    ]
  ]
]

unfoldable pub pubkey_reply : ℕ → Bytes → User → Result Failure Message
pubkey_reply now username user =
    new_message now user.public_dh_key 4
      ((command_code get_pubkey ∷ []) ∷ username ∷ user.public_identity_key ∷ user.signature ∷ [])
      response

unfoldable pub send_pubkey : Bytes → Server (Unit {0})
send_pubkey username s =
    if is_empty username
    then send s.fd wrong_command_usage s
    else elim (Users.find_user username s.users) [
      | err e ↦ send s.fd user_not_found s
      | ok user ↦ send_message s.fd (pubkey_reply s.now username user) s
    ]
