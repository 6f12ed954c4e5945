-- ===== src/Server/Disconnect.antt =====
-- What the callback of a lost connection of src/application/messaging/messaging_server.cpp leaves.
use my_messenger.Prelude.{ℕ, ◌≡◌, refl, true, false, if◌then◌else◌, ◌==◌, inl, inr, ℕ-eq}
use my_messenger.Prelude.Bytes.{Bytes, Bytes-eq}
use my_messenger.Prelude.Dict.{lookup}
use my_messenger.Prelude.Result.{ok, err, Result-cases}
use my_messenger.Message.{
  new_message, compute_serialized_size, metadata_size, command_code, command_of_code,
}
use my_messenger.Commands.Parser.{make_struct_from_command, command_name}
use my_messenger.Sessions.{get_username, get_fd, user_not_found}
use my_messenger.Sessions.Invariant.{get-unbind}
use my_messenger.Users.{find_user}
use my_messenger.Users.Laws.{find_user-remove_user}
use my_messenger.Chats.Laws.{in_chat, in_chat-remove_user}
use my_messenger.Server.{ServerContext, exit_current_session}
use my_messenger.Server.Commands.{
  run_exit, dispatch_command, handler_for, dispatch, on_disconnect, exit_message,
}
use my_messenger.Server.Reach.{Reachable, Reachable-Inv}

-- The message that the callback builds runs the command "exit" on the connection.
pub on_disconnect_exits :
    (fd : ℕ) (s : ServerContext)
    → on_disconnect fd s ≡ (ok true, (exit_current_session (record s { fd = fd })).1)
unfolding on_disconnect exit_message new_message compute_serialized_size metadata_size command_code
    dispatch handler_for dispatch_command make_struct_from_command command_name command_of_code
    lookup run_exit exit_current_session
on_disconnect_exits fd s = elim (Result-cases (get_username fd s.sessions)) [
  | inl (n, p) ↦ rw (p, exit_current_session) refl
  | inr (e, p) ↦ rw (p, exit_current_session) refl
]

-- In a state that the server can reach, where a connection belongs to the user n, the loss of that
-- connection is handled, and then: neither the connection nor the name has a session any more, the
-- user is not registered, and is in no chat; every other user and connection is as before.
pub on_disconnect_forgets :
    (s : ServerContext) (fd fd' : ℕ) (n n' chat : Bytes)
    → Reachable s
    → get_username fd s.sessions ≡ ok n
    → let (r, after) = on_disconnect fd s in
      (r ≡ ok true)
      × (get_username fd' after.sessions
          ≡ (if fd == fd' then err user_not_found else get_username fd' s.sessions))
      × (get_fd n' after.sessions ≡ (if n == n' then err user_not_found else get_fd n' s.sessions))
      × (find_user n' after.users ≡ (if n == n' then err user_not_found else find_user n' s.users))
      × (in_chat chat n' after.chats ≡ (if n == n' then false else in_chat chat n' s.chats))
unfolding exit_current_session
on_disconnect_forgets s fd fd' n n' chat r h =
    let inv = Reachable-Inv s r in
    let (a, b) = get-unbind fd fd' n n' s.sessions inv.mirror h in
    rw (on_disconnect_exits fd s) (
      rw (h, exit_current_session)
        (refl, a, b, find_user-remove_user n n' s.users, in_chat-remove_user n n' chat s.chats))
