-- ===== src/Client/Login.antt =====
-- The way of /login from the line (src/protocol/parser.cpp) over the client's commands to the server.
use my_messenger.Prelude.{ℕ, ◌^◌, ◌<◌, ◌≡◌, refl, ap, ◌∙◌, [], ◌∷◌, ◌++◌, length, true, arith}
use my_messenger.Prelude.Bytes.{Bytes, Bytes-eq, codes}
use my_messenger.Prelude.Dict.{lookup}
use my_messenger.Prelude.Result.{ok}
use my_messenger.Message.{
  Message, command, command_code, command_of_code, metadata_size, compute_serialized_size,
  insert_metadata, set_payload,
}
use my_messenger.Message.Body.{FitsBody}
use my_messenger.Message.Compact.{built}
use my_messenger.Commands.Parser.{
  parse, make_command_from_struct, insert_all, command_type, command_name, make_struct_from_command,
}
use my_messenger.Commands.Words.{IsWord}
use my_messenger.Commands.Matching
use my_messenger.Commands.Matching.{parse_line-typed}
use my_messenger.Framing.{form_message}
use my_messenger.Crypto.{OpenSsl}
use my_messenger.Encryption.{service_sign, get_dh_bytes, get_identity_bytes}
use my_messenger.Server.{ServerContext, login}
use my_messenger.Server.Commands.{on_tcp_data_received}
use my_messenger.Client.{ClientContext, client_login}
use my_messenger.Client.Dispatch.{client_dispatch, client_handler_for, client_command}
use my_messenger.Client.Reach.{ran, login_metadata, client_login-login}

abbrev pub login_line : Bytes → Bytes
login_line name = codes "/login " ++ name

abbrev pub typed_login : ℕ → Bytes → Message
typed_login now name = built now name ((2 ∷ []) ∷ name ∷ []) command

typed_login-made :
    (now : ℕ) (name : Bytes)
    → length name < 2 ^ 16
    → make_command_from_struct now (record { name = codes "login"; args = name ∷ [] })
      ≡ ok (typed_login now name)
unfolding make_command_from_struct insert_all insert_metadata set_payload compute_serialized_size
    metadata_size command_type command_code lookup
typed_login-made now name short = ground arith

pub parse-login_line :
    (now : ℕ) (name : Bytes)
    → IsWord name
    → length name < 2 ^ 16
    → parse now (login_line name) ≡ ok (typed_login now name)
unfolding parse
parse-login_line now name word short =
    ap (make_command_from_struct now) (
      parse_line-typed (Matching.Line.login name)
        ((refl, (refl, (refl, (refl, (refl, (refl, tt)))))), (word, tt)))
    ∙ typed_login-made now name short

-- The client after the login was sent.
abbrev pub logged_in : {o : OpenSsl} → Bytes → Bytes → ClientContext o → ClientContext o
logged_in name bytes c = record c {
  my_username = name;
  packets = c.packets ++ form_message bytes [] ∷ [];
}

dispatched_login :
    (o : OpenSsl) (now : ℕ) (name : Bytes) (c after : ClientContext o)
    → client_login o (typed_login now name) c ≡ (ok tt, after)
    → client_dispatch o (typed_login now name) c ≡ (true, after)
unfolding client_dispatch client_handler_for client_command make_struct_from_command command_of_code
    command_name lookup
dispatched_login o now name c after e = ground (arith, e)

-- A user types /login and one word of fewer than 2^16 bytes. Where the client can give its identity
-- key and sign, and the name, the keys and the signature fit the wire format, it takes the name over
-- and sends one packet, whose message makes the server run login with that name, the client's keys
-- and its signature on the connection it came from.
pub client_dispatch-login :
    (o : OpenSsl) (c : ClientContext o) (name identity signature : Bytes) (fd : ℕ)
    (s : ServerContext)
    → IsWord name
    → length name < 2 ^ 16
    → get_identity_bytes o c.encryption_service ≡ ok identity
    → service_sign o c.encryption_service ≡ ok signature
    → FitsBody
        (login_metadata name (get_dh_bytes o c.encryption_service) identity signature)
        signature
    → (bytes : Bytes) × (parse c.now (login_line name) ≡ ok (typed_login c.now name))
      × (client_dispatch o (typed_login c.now name) c ≡ (true, logged_in name bytes c))
      × (on_tcp_data_received fd bytes s
          ≡ ran (login name (get_dh_bytes o c.encryption_service) identity signature) fd s)
client_dispatch-login o c name identity signature fd s word short known signed fits =
    let (bytes, sent, run) =
      client_login-login o (typed_login c.now name) c identity signature fd s known signed fits in
    (
      bytes,
      parse-login_line c.now name word short,
      dispatched_login o c.now name c (logged_in name bytes c) sent,
      run,
    )
