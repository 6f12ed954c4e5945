-- ===== src/Client/Reach.antt =====
-- A command that a client sends (src/application/commands/impl) runs on the server.
use my_messenger.Prelude.{
  ℕ, ◌^◌, ◌<◌, ◌≡◌, refl, sym, ap, ◌∙◌, List, [], ◌∷◌, ◌++◌, append-nil, length, Bool, arith,
}
use my_messenger.Prelude.Bytes.{Bytes}
use my_messenger.Prelude.Dict.{lookup}
use my_messenger.Prelude.Result.{Result, ok}
use my_messenger.Failure.{Failure}
use my_messenger.Message.{
  Message, command, command_code, command_of_code, get_meta, metadata_size, compute_serialized_size,
  insert_metadata, set_payload,
}
use my_messenger.Message.Body.{FitsBody}
use my_messenger.Message.Codec.{serialize, deserialize}
use my_messenger.Message.Compact.{
  received, built, new_message-IsCompact, deserialize-serialize_compact,
}
use my_messenger.Commands.Parser.{
  make_command_from_struct, insert_all, command_type, command_name, make_struct_from_command,
}
use my_messenger.Framing.{form_message}
use my_messenger.Crypto.{OpenSsl}
use my_messenger.Encryption.{service_sign, get_dh_bytes, get_identity_bytes}
use my_messenger.Server.{ServerContext, Server, login, create_room, join_room}
use my_messenger.Server.Commands.{
  caught, on_tcp_data_received, dispatch, handler_for, dispatch_command, run_login, run_room,
  run_join,
}
use my_messenger.Client.{
  ClientContext, client_login, client_room, client_join, submit, send_to_server, login_message,
  room_message, join_message,
}

-- The server after a method ran on a connection, with the exceptions swallowed.
abbrev pub ran : Server (Unit {0}) → ℕ → ServerContext → Result Failure Bool × ServerContext
ran method fd s = let (handled, s) = caught (method (record s { fd = fd })) in (ok handled, s)

pub dispatched :
    (raw : Bytes) (m : Message) (fd : ℕ) (s : ServerContext)
    → deserialize raw ≡ ok m
    → on_tcp_data_received fd raw s
      ≡ (let (handled, s) = dispatch m (record s { fd = fd }) in (ok handled, s))
unfolding on_tcp_data_received
dispatched raw m fd s h = rw (h, on_tcp_data_received) refl

-- A message that the constructor can build is read from its bytes and dispatched.
received_and_dispatched :
    (now : ℕ) (payload : Bytes) (metadata : List Bytes) (fd : ℕ) (s : ServerContext)
    → length metadata < 128
    → FitsBody metadata payload
    → on_tcp_data_received fd (serialize (built now payload metadata command)) s ≡ (
        let (handled, s) =
          dispatch (received (built now payload metadata command)) (record s { fd = fd }) in
        (ok handled, s))
received_and_dispatched now payload metadata fd s few fits =
    let m = built now payload metadata command in
    let c = (new_message-IsCompact now payload 0 metadata command tt few fits).1 in
    dispatched (serialize m) (received m) fd s
      (ap deserialize (sym (append-nil (serialize m))) ∙ deserialize-serialize_compact m [] c)

one_argument_fits :
    (code : ℕ) (name : Bytes) → length name < 2 ^ 16 → FitsBody ((code ∷ []) ∷ name ∷ []) name
unfolding metadata_size
one_argument_fits code name short = record {
  entries = (omega arith, (short, tt));
  total = omega arith;
}

join_message-built :
    (o : OpenSsl) (now : ℕ) (name : Bytes)
    → length name < 2 ^ 16
    → join_message o now name ≡ ok (built now name ((4 ∷ []) ∷ name ∷ []) command)
unfolding join_message make_command_from_struct insert_all insert_metadata set_payload
    compute_serialized_size metadata_size command_type command_code lookup
join_message-built o now name short = ground arith

-- A client that joins a room with a name of fewer than 2^16 bytes sends one packet, a frame whose
-- message makes the server run join_room with that name on the connection it came from.
pub client_join-join_room :
    (o : OpenSsl) (msg : Message) (c : ClientContext o) (fd : ℕ) (s : ServerContext)
    → length (get_meta msg 1) < 2 ^ 16
    → (bytes : Bytes) × (client_join o msg c
        ≡ (ok tt, record c { packets = c.packets ++ form_message bytes [] ∷ [] }))
      × (on_tcp_data_received fd bytes s ≡ ran (join_room (get_meta msg 1)) fd s)
unfolding client_join submit send_to_server dispatch handler_for dispatch_command run_join
    make_struct_from_command command_of_code command_name lookup
client_join-join_room o msg c fd s short =
    let name = get_meta msg 1 in
    (
      serialize (built c.now name ((4 ∷ []) ∷ name ∷ []) command),
      rw (join_message-built o c.now name short) refl,
      received_and_dispatched c.now name ((4 ∷ []) ∷ name ∷ []) fd s (omega arith)
          (one_argument_fits 4 name short),
    )

room_message-built :
    (o : OpenSsl) (now : ℕ) (name : Bytes)
    → length name < 2 ^ 16
    → room_message o now name ≡ ok (built now name ((3 ∷ []) ∷ name ∷ []) command)
unfolding room_message make_command_from_struct insert_all insert_metadata set_payload
    compute_serialized_size metadata_size command_type command_code lookup
room_message-built o now name short = ground arith

-- A client whose user makes a room with a name of fewer than 2^16 bytes sends one packet, a frame
-- whose message makes the server run create_room with that name on the connection it came from.
pub client_room-create_room :
    (o : OpenSsl) (msg : Message) (c : ClientContext o) (fd : ℕ) (s : ServerContext)
    → length (get_meta msg 1) < 2 ^ 16
    → (bytes : Bytes) × (client_room o msg c
        ≡ (ok tt, record c { packets = c.packets ++ form_message bytes [] ∷ [] }))
      × (on_tcp_data_received fd bytes s ≡ ran (create_room (get_meta msg 1)) fd s)
unfolding client_room submit send_to_server dispatch handler_for dispatch_command run_room
    make_struct_from_command command_of_code command_name lookup
client_room-create_room o msg c fd s short =
    let name = get_meta msg 1 in
    (
      serialize (built c.now name ((3 ∷ []) ∷ name ∷ []) command),
      rw (room_message-built o c.now name short) refl,
      received_and_dispatched c.now name ((3 ∷ []) ∷ name ∷ []) fd s (omega arith)
          (one_argument_fits 3 name short),
    )

abbrev pub login_metadata : Bytes → Bytes → Bytes → Bytes → List Bytes
login_metadata username dh identity signature = (2 ∷ []) ∷ username ∷ dh ∷ identity ∷ signature ∷ []

login_message-built :
    (o : OpenSsl) (now : ℕ) (username dh identity signature : Bytes)
    → FitsBody (login_metadata username dh identity signature) signature
    → login_message o now username dh identity signature
      ≡ ok (built now signature (login_metadata username dh identity signature) command)
unfolding login_message make_command_from_struct insert_all insert_metadata set_payload
    compute_serialized_size metadata_size command_type command_code lookup
login_message-built o now username dh identity signature fits = ground (arith, fits.total)

-- A client that logs in under a name, where it can give its identity key and sign, and the name,
-- the keys and the signature fit the wire format, takes that name over and sends one packet, a
-- frame whose message makes the server run login with that name, the client's keys and its
-- signature on the connection it came from.
pub client_login-login :
    (o : OpenSsl) (msg : Message) (c : ClientContext o) (identity signature : Bytes) (fd : ℕ)
    (s : ServerContext)
    → get_identity_bytes o c.encryption_service ≡ ok identity
    → service_sign o c.encryption_service ≡ ok signature
    → FitsBody
        (login_metadata (get_meta msg 1) (get_dh_bytes o c.encryption_service) identity signature)
        signature
    → (bytes : Bytes) × (client_login o msg c ≡ (
      ok tt,
      record c { my_username = get_meta msg 1; packets = c.packets ++ form_message bytes [] ∷ [] },
    ))
      × (on_tcp_data_received fd bytes s
          ≡ ran
              (login (get_meta msg 1) (get_dh_bytes o c.encryption_service) identity signature)
              fd
              s)
unfolding client_login submit send_to_server dispatch handler_for dispatch_command run_login
    make_struct_from_command command_of_code command_name lookup
client_login-login o msg c identity signature fd s known signed fits =
    let name = get_meta msg 1 in
    let dh = get_dh_bytes o c.encryption_service in
    let metadata = login_metadata name dh identity signature in
    (
      serialize (built c.now signature metadata command),
      rw (known, signed, login_message-built o c.now name dh identity signature fits) refl,
      received_and_dispatched c.now signature metadata fd s (omega arith) fits,
    )
