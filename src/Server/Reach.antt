-- ===== src/Server/Reach.antt =====
-- The runs of the server: messages, lost connections and the passing of time, in any order, up to
-- an exception that nothing catches (src/application/messaging/messaging_server.cpp).
use my_messenger.Prelude.{
  ℕ, ◌≡◌, sym, subst, [], Bool, ◌==◌, All, ◌||◌, arith, Option-cases, Bool-cases, inl, inr, ℕ-eq,
}
use my_messenger.Prelude.Bytes.{Bytes, Bytes-eq, is_empty, codes}
use my_messenger.Prelude.Dict.{lookup, lookup-All}
use my_messenger.Prelude.Result.{Result, ok, err, Result-cases}
use my_messenger.Failure.{Failure}
use my_messenger.Message.{
  Message, MessageType, text, command, cipher_message, file_start, file_chunk, file_end,
  new_message, get_meta, get_payload, get_type,
}
use my_messenger.Message.Codec.{deserialize}
use my_messenger.Commands.Parser.{make_struct_from_command}
use my_messenger.Sessions.{get_username, get_fd}
use my_messenger.Users.{find_user}
use my_messenger.Server.{
  ServerContext, Server, no_services, session, send, login, create_room, join_room,
  send_group_message, exit_current_session, deliver_cipher_message,
}
use my_messenger.Server.Commands.{
  run_exit, run_login, run_room, run_send, run_join, run_getpub, run_help, run_sendfile, run_text,
  registry, dispatch_command, forward_file, handler_for, caught, handled_by, dispatch,
  on_tcp_data_received, on_disconnect, exit_message, on_client_message,
}
use my_messenger.Server.Effects.{
  after_login, after_chats, services-login, services-join_room, services-create_room,
  services-send_group_message, services-deliver_cipher_message, services-send_pubkey,
  services-send_text,
}
use my_messenger.Server.Invariant.{
  Inv, no_services-Inv, login-Inv, join-Inv, create-Inv, post-Inv, exit-Inv, session-registered,
}

abbrev pub started : ℕ → ServerContext
started now = record { services = no_services; sent = []; fd = 0; now = now }

-- The states that the server can be in after a sequence of events that nothing stopped. Time passes
-- between the events.
pub data Reachable : ServerContext → Type 0 where
  start : (now : ℕ) → Reachable (started now)
  later : (s : ServerContext) (now : ℕ) → Reachable s → Reachable (record s { now = now })
  message :
      (s s' : ServerContext) (fd : ℕ) (raw_data : Bytes) (handled : Bool)
      → Reachable s
      → on_client_message fd raw_data s ≡ (ok handled, s')
      → Reachable s'
  lost :
      (s s' : ServerContext) (fd : ℕ) (handled : Bool)
      → Reachable s
      → on_disconnect fd s ≡ (ok handled, s')
      → Reachable s'

-- What a handler must keep.
KeepsInv : (Message → Server (Unit {0})) → Type 0
KeepsInv handler =
    (msg : Message) (s : ServerContext) → Inv s.services → Inv (handler msg s).1.services

login_keeps :
    (n dh id sig : Bytes) (s : ServerContext)
    → Inv s.services
    → Inv (login n dh id sig s).1.services
login_keeps n dh id sig s inv = rw (services-login n dh id sig s) (elim (Result-cases (session s)) [
  | inl (u, p) ↦ rw (p, after_login) inv
  | inr (e, p) ↦ elim (Result-cases (find_user n s.users)) [
    | inl (u, q) ↦ rw (p, q, after_login) inv
    | inr (f, q) ↦ rw (p, q, after_login) (login-Inv s.services inv s.fd n dh id sig e f p q)
  ]
])

room_keeps :
    (name : Bytes) (s : ServerContext) → Inv s.services → Inv (create_room name s).1.services
room_keeps name s inv = rw (services-create_room name s) (elim (Result-cases (session s)) [
  | inr (e, p) ↦ rw (p, after_chats) inv
  | inl (u, p) ↦ elim (Bool-cases (is_empty name)) [
    | inl q ↦ rw (p, q, after_chats) inv
    | inr q ↦
        rw (p, q, after_chats)
          (create-Inv s.services inv name u (session-registered s.services inv s.fd u p))
  ]
])

join_keeps : (name : Bytes) (s : ServerContext) → Inv s.services → Inv (join_room name s).1.services
join_keeps name s inv = rw (services-join_room name s) (elim (Result-cases (session s)) [
  | inr (e, p) ↦ rw (p, after_chats) inv
  | inl (u, p) ↦ elim (Bool-cases (is_empty name)) [
    | inl q ↦ rw (p, q, after_chats) inv
    | inr q ↦
        rw (p, q, after_chats)
          (join-Inv s.services inv name u (session-registered s.services inv s.fd u p))
  ]
])

post_keeps :
    (name : Bytes) (m : Message) (s : ServerContext)
    → Inv s.services
    → Inv (send_group_message name m s).1.services
post_keeps name m s inv =
    rw (services-send_group_message name m s) (elim (Result-cases (session s)) [
      | inr (e, p) ↦ rw (p, after_chats) inv
      | inl (u, p) ↦ rw (p, after_chats) (post-Inv s.services inv name u m)
    ])

send_keeps : KeepsInv run_send
unfolding KeepsInv run_send
send_keeps msg s inv = elim (Result-cases (new_message s.now (get_payload msg) 0 [] text)) [
  | inr (e, p) ↦ rw (p, run_send) inv
  | inl (built, p) ↦ rw (p, run_send) (post_keeps (get_meta msg 1) built s inv)
]

exit_keeps : KeepsInv run_exit
unfolding KeepsInv run_exit exit_current_session
exit_keeps msg s inv = elim (Result-cases (session s)) [
  | inr (e, p) ↦ rw (p, run_exit, exit_current_session) inv
  | inl (u, p) ↦ rw (p, run_exit, exit_current_session) (exit-Inv s.services inv s.fd u p)
]

registry_keeps : All (λ entry. KeepsInv entry.1) registry
unfolding KeepsInv run_login run_room run_join run_getpub run_help run_sendfile
registry_keeps = (
  exit_keeps,
  (
    (λ msg s inv.
        login_keeps (get_meta msg 1) (get_meta msg 2) (get_meta msg 3) (get_meta msg 4) s inv),
    (
      (λ msg s inv. room_keeps (get_meta msg 1) s inv),
      (
        send_keeps,
        (
          (λ msg s inv. join_keeps (get_meta msg 1) s inv),
          (
            (λ msg s inv. subst Inv (sym (services-send_pubkey (get_meta msg 1) s)) inv),
            (
              (λ msg s inv. inv),
              ((λ msg s inv. subst Inv (sym (services-send_text s.fd _ s)) inv), tt),
            ),
          ),
        ),
      ),
    ),
  ),
)

dispatch_command_keeps : KeepsInv dispatch_command
unfolding KeepsInv dispatch_command
dispatch_command_keeps msg s inv =
    elim (Option-cases (lookup (make_struct_from_command msg).name registry)) [
      | inl p ↦ rw (p, dispatch_command) inv
      | inr (h, p) ↦
          rw (p, dispatch_command) (lookup-All KeepsInv _ registry h registry_keeps p msg s inv)
    ]

forward_keeps : KeepsInv forward_file
unfolding KeepsInv forward_file send
forward_keeps msg s inv = elim (Result-cases (get_fd (get_meta msg 0) s.sessions)) [
  | inl (fd, p) ↦ rw (p, forward_file) inv
  | inr (e, p) ↦ rw (p, forward_file) inv
]

caught_keeps :
    (r : Result Failure (Unit {0}) × ServerContext) → Inv r.1.services → Inv (caught r).1.services
caught_keeps (ok u, s) inv = inv
caught_keeps (err e, s) inv = inv

handler_keeps :
    (t : MessageType) (msg : Message) (s : ServerContext)
    → Inv s.services
    → Inv (handled_by (handler_for t) msg s).1.services
unfolding handler_for KeepsInv run_text
handler_keeps text msg s inv = inv
handler_keeps command msg s inv = caught_keeps _ (dispatch_command_keeps msg s inv)
handler_keeps cipher_message msg s inv =
    caught_keeps (deliver_cipher_message s.fd msg s)
      (rw (services-deliver_cipher_message s.fd msg s) inv)
handler_keeps file_start msg s inv = caught_keeps _ (forward_keeps msg s inv)
handler_keeps file_chunk msg s inv = caught_keeps _ (forward_keeps msg s inv)
handler_keeps file_end msg s inv = caught_keeps _ (forward_keeps msg s inv)
handler_keeps _ msg s inv = inv

pub dispatch-Inv :
    (msg : Message) (s : ServerContext) → Inv s.services → Inv (dispatch msg s).1.services
unfolding dispatch
dispatch-Inv msg s inv = handler_keeps (get_type msg) msg s inv

client_keeps :
    (fd : ℕ) (raw_data : Bytes) (s : ServerContext)
    → Inv s.services
    → Inv (on_client_message fd raw_data s).1.services
unfolding on_client_message on_tcp_data_received
client_keeps fd raw_data s inv =
    elim (Bool-cases (is_empty raw_data || raw_data == codes "/exit")) [
      | inl p ↦ rw (p, on_client_message) inv
      | inr p ↦ elim (Result-cases (deserialize raw_data)) [
        | inr (e, q) ↦ rw (p, q, on_client_message, on_tcp_data_received) inv
        | inl (msg, q) ↦
            rw (p, q, on_client_message, on_tcp_data_received)
              (dispatch-Inv msg (record s { fd = fd }) inv)
      ]
    ]

lost_keeps : (fd : ℕ) (s : ServerContext) → Inv s.services → Inv (on_disconnect fd s).1.services
unfolding on_disconnect
lost_keeps fd s inv = elim (Result-cases (exit_message s.now)) [
  | inr (e, q) ↦ rw (q, on_disconnect) inv
  | inl (msg, q) ↦ rw (q, on_disconnect) (dispatch-Inv msg (record s { fd = fd }) inv)
]

-- In every state that the server can reach, the two session tables mirror one another, a name has a
-- session exactly when it is registered, and only registered names are in a chat.
pub Reachable-Inv : (s : ServerContext) → Reachable s → Inv s.services
Reachable-Inv _ (start now) = no_services-Inv
Reachable-Inv _ (later s now r) = Reachable-Inv s r
Reachable-Inv _ (message s s' fd raw_data handled r h) =
    subst (λ p. Inv p.1.services) h (client_keeps fd raw_data s (Reachable-Inv s r))
Reachable-Inv _ (lost s s' fd handled r h) =
    subst (λ p. Inv p.1.services) h (lost_keeps fd s (Reachable-Inv s r))

-- In every state that the server can reach, two connections with the same user name are one
-- connection.
pub one_connection_per_user :
    (s : ServerContext) (fd fd' : ℕ) (n : Bytes)
    → Reachable s
    → get_username fd s.sessions ≡ ok n
    → get_username fd' s.sessions ≡ ok n
    → fd ≡ fd'
unfolding get_username
one_connection_per_user s fd fd' n r h h' =
    let inv = Reachable-Inv s r in ground (arith, inv.mirror.forth fd n, inv.mirror.forth fd' n)
