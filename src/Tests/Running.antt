-- ===== src/Tests/Running.antt =====
-- Runs of the server of src/application/messaging/messaging_server.cpp.
use my_messenger.Prelude.{ℕ, ◌≡◌, refl, List, [], ◌∷◌, ◌++◌, true, false, ℕ-eq}
use mathlib.Core.List.Perm
use mathlib.Core.List.{Perm}
use my_messenger.Prelude.Bytes.{Bytes, Bytes-eq, codes}
use my_messenger.Prelude.Dict.{lookup, insert}
use my_messenger.Prelude.Result.{ok, err}
use my_messenger.Message.{
  Message, text, metadata_size, new_message, compute_serialized_size, command_of_code, type_code,
  type_of_code,
}
use my_messenger.Message.Compact.{built}
use my_messenger.Message.Codec.{
  serialize, deserialize, read_format, read_compact, read_body, read_metadata, write_compact,
  write_body, write_metadata, write_entry,
}
use my_messenger.Wire.{read_u8, read_u16, read_u32, read_bytes, write_u32}
use my_messenger.Commands.Parser.{make_struct_from_command, command_name}
use my_messenger.Sessions
use my_messenger.Sessions.{get_username, get_fd, bind}
use my_messenger.Chats
use my_messenger.Chats.{ChatType}
use my_messenger.Users
use my_messenger.Users.{User, find_user, register_user}
use my_messenger.Users.Laws.{registered}
use my_messenger.Chats.Laws.{in_chat}
use my_messenger.Server.{
  ServerContext, send, send_text, send_message, login, register, welcome, send_group_message,
}
use my_messenger.Server.Commands.{
  on_client_message, on_tcp_data_received, on_disconnect, dispatch, handler_for, dispatch_command,
  run_login,
}
use my_messenger.Server.Invariant.{Inv}
use my_messenger.Server.Reach.{
  Reachable, started, start, message, Reachable-Inv, one_connection_per_user,
}
use my_messenger.Server.Disconnect.{on_disconnect_forgets}
use my_messenger.Server.Delivery.{send_group_message_sends}

-- What the client of Ann sends to log in.
abbrev login_bytes : Bytes
login_bytes =
    1 ∷ 5 ∷ 0 ∷ 1 ∷ 2 ∷ 0 ∷ 3 ∷ 97 ∷ 110 ∷ 110 ∷ 0 ∷ 1 ∷ 7 ∷ 0 ∷ 1 ∷ 8 ∷ 0 ∷ 1 ∷ 9 ∷ 0 ∷ 0 ∷ 0 ∷ 0
    ∷ []

abbrev ann_user : User
ann_user = registered (codes "ann") (7 ∷ []) (8 ∷ []) (9 ∷ [])

-- The server after that message came on connection 4.
abbrev after_ann : ServerContext
after_ann = record {
  services = record {
    users = record { users = (codes "ann", ann_user) ∷ [] };
    chats = Chats.no_chats;
    sessions = record { fd_to_name = (4, codes "ann") ∷ []; name_to_fd = (codes "ann", 4) ∷ [] };
  };
  sent = (4, 0 ∷ 0 ∷ 0 ∷ 0 ∷ 0 ∷ 11 ∷ codes "Hello, ann!") ∷ [];
  fd = 4;
  now = 5;
}

ann_logs_in : on_client_message 4 login_bytes (started 5) ≡ (ok true, after_ann)
unfolding on_client_message on_tcp_data_received deserialize read_format read_compact read_body
    read_metadata read_u16 read_bytes read_u32 read_u8 compute_serialized_size metadata_size
    dispatch handler_for type_of_code dispatch_command lookup insert make_struct_from_command
    command_name command_of_code run_login login register welcome send_text send_message send
    new_message serialize write_compact write_body write_metadata write_entry write_u32 get_username
    register_user bind type_code Users.new_user Users.set_public_key Users.set_public_dh_key
    Users.set_public_identity_key Users.set_key_signature find_user
ann_logs_in = refl

ann_Reachable : Reachable after_ann
ann_Reachable = message (started 5) after_ann 4 login_bytes true (start 5) ann_logs_in

Reachable-Inv_example : Inv after_ann.services
Reachable-Inv_example = Reachable-Inv after_ann ann_Reachable

one_connection_per_user_example : 4 ≡ after_ann.fd
unfolding get_username lookup
one_connection_per_user_example =
    one_connection_per_user after_ann 4 4 (codes "ann") ann_Reachable refl refl

on_disconnect_forgets_example :
    let (r, after) = on_disconnect 4 after_ann in
    (r ≡ ok true)
    × (get_username 4 after.sessions ≡ err Sessions.user_not_found)
    × (get_fd (codes "ann") after.sessions ≡ err Sessions.user_not_found)
    × (find_user (codes "ann") after.users ≡ err Sessions.user_not_found)
    × (in_chat (codes "hall") (codes "ann") after.chats ≡ false)
unfolding get_username lookup
on_disconnect_forgets_example =
    on_disconnect_forgets after_ann 4 4 (codes "ann") (codes "ann") (codes "hall") ann_Reachable
      refl

abbrev hello : Message
hello = built 6 (codes "hello") [] text

-- Ann made a room and Bob, who has left, is still counted as a member.
abbrev in_hall : ServerContext
in_hall = record after_ann {
  services = record (after_ann.services) {
    chats = record {
      chats =
          (
            codes "hall",
            record {
              id = codes "hall";
              name = codes "hall";
              type = ChatType.group;
              members_id = codes "bob" ∷ codes "ann" ∷ [];
              messages = [];
            },
          )
          ∷ [];
    };
  };
}

send_group_message_sends_example :
    let (r, after) = send_group_message (codes "hall") hello in_hall in
    (r ≡ ok tt)
    × ((fresh : List (ℕ × Bytes)) × (after.sent ≡ in_hall.sent ++ fresh)
        × Perm fresh ((4, serialize hello) ∷ []))
unfolding get_username get_fd lookup Chats.member
send_group_message_sends_example =
    send_group_message_sends (λ names. names) (codes "hall") hello in_hall
      (λ names. Perm.refl names)
