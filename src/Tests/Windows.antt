-- ===== src/Tests/Windows.antt =====
-- Lines that are typed into the window, and what comes to a client's loop.
use my_messenger.Prelude.{
  ℕ, ◌≡◌, refl, [], ◌∷◌, ◌++◌, true, false, none, some, List, arith, ap, sym, ◌∙◌, append-nil,
}
use my_messenger.Prelude.Bytes.{Bytes, codes, is_empty}
use my_messenger.Prelude.Result.{ok}
use my_messenger.Wire.{write_u32}
use my_messenger.Message.{Message, text, set_payload, compute_serialized_size, metadata_size}
use my_messenger.Message.Codec.{serialize, deserialize, write_compact, write_body, write_metadata}
use my_messenger.Message.Body.{FitsBody}
use my_messenger.Message.Compact.{
  built, received, new_message-IsCompact, deserialize-serialize_compact,
}
use my_messenger.Commands.Parser.{parse, stamped}
use my_messenger.Framing.RoundTrip.{FitsFrame}
use my_messenger.Framing.Stream.{frames, concat}
use my_messenger.Transport.Socket.{Socket, ClientCalls, tcp, setup_connection}
use my_messenger.Server.Events.{unfinished}
use my_messenger.Client.{ClientContext}
use my_messenger.Client.Handlers.{handle_text, ui_callback}
use my_messenger.Client.Dispatch.{client_dispatch, client_handler_for}
use my_messenger.Client.Events.{connect, run_event_loop}
use my_messenger.Client.Events.Arrivals.{
  all_served, served, arrival, given, blocked, kept, hang_up, node, run_event_loop-Serves,
}
use my_messenger.Client.Events.Refused.{setup_connection-run_event_loop}
use my_messenger.Ui.{QtStrings, Gui, process_events}
use my_messenger.Ui.Answers.{all_obeyed, obeyed}
use my_messenger.Ui.Typing.{IsUnicode, type_all, process_events-type_all}
use my_messenger.Crypto.Keys.{identity_public_bytes, identity_sign, dh_public_bytes}
use my_messenger.Encryption.{get_identity_bytes, get_dh_bytes, service_sign}
use my_messenger.Server.{login}
use my_messenger.Server.Commands.{on_tcp_data_received}
use my_messenger.Server.Reach.{started}
use my_messenger.Client.Reach.{ran, login_metadata}
use my_messenger.Ui.{handle_login}
use my_messenger.Ui.Login.{IsPrefixing, chatting, handle_login-login}
use my_messenger.Tests.Toy.{toy, key_of, client_of, ann_service}

-- Strings of bytes, without blanks to trim.
abbrev plain : QtStrings
plain = record {
  QString = Bytes;
  to_std = λ s. s;
  from_std = λ s. s;
  trimmed = λ s. s;
  is_empty = is_empty;
  escaped = λ s. s;
  prefixed = λ a s. a ++ s;
  suffixed = λ s a. s ++ a;
}

plain-IsUnicode : IsUnicode plain
plain-IsUnicode = record { kept = λ s. refl }

abbrev ann : ClientContext toy
ann = client_of (codes "ann") ann_service

abbrev window : Gui plain toy
window = record {
  login_open = false;
  status = [];
  chat = some [];
  input_field = [];
  queue = [];
  app = ann;
}

-- A text of this size, as it is parsed.
abbrev parsed_text : ℕ → Bytes → Message
parsed_text size content = record (stamped 3 text) {
  payload = content;
  header = record ((stamped 3 text).header) { size = size };
}

abbrev hi_text : Message
hi_text = parsed_text 8 (codes "hi")

abbrev you_text : Message
you_text = parsed_text 9 (codes "you")

process_events-type_all_example :
    process_events plain toy 5 (type_all plain toy (codes "hi" ∷ codes "you" ∷ []) window) ≡ (
      ok tt,
      record window {
        chat = some (
            record { content = codes "hi"; outgoing = true }
            ∷ record { content = codes "you"; outgoing = true }
            ∷ record { content = codes "hi"; outgoing = false }
            ∷ record { content = codes "you"; outgoing = false }
            ∷ []);
        app = record ann { shown = codes "hi" ∷ codes "you" ∷ [] };
      },
    )
unfolding parse set_payload compute_serialized_size metadata_size client_dispatch client_handler_for
    handle_text ui_callback
process_events-type_all_example =
    process_events-type_all plain toy (codes "hi" ∷ codes "you" ∷ []) [] window
      (record ann { shown = codes "hi" ∷ codes "you" ∷ [] }) (codes "hi" ∷ codes "you" ∷ [])
      plain-IsUnicode (refl, (refl, tt)) refl
      (obeyed {msg = hi_text} refl (obeyed {msg = you_text} refl all_obeyed))

abbrev greeting : Message
greeting = built 3 (codes "yo") [] text

greeting-FitsBody : FitsBody [] (codes "yo")
unfolding metadata_size
greeting-FitsBody = record { entries = tt; total = omega arith }

greeting_read : deserialize (serialize greeting) ≡ ok (received greeting)
greeting_read =
    ap deserialize (sym (append-nil (serialize greeting)))
    ∙ deserialize-serialize_compact greeting []
        (new_message-IsCompact 3 (codes "yo") 0 [] text tt (omega arith) greeting-FitsBody).1

abbrev greeted : ClientContext toy
greeted = record ann { shown = codes "yo" ∷ codes "yo" ∷ [] }

abbrev two_greetings : List Bytes
two_greetings = serialize greeting ∷ serialize greeting ∷ []

greeting_fits : FitsFrame (serialize greeting)
unfolding serialize write_compact write_body write_metadata write_u32
greeting_fits = omega arith

-- The whole in one arrival.
run_event_loop-Serves_example :
    run_event_loop toy
      (arrival (blocked (codes "lost"))
        ∷ arrival (given (frames two_greetings))
        ∷ hang_up (arrival (given []))
        ∷ arrival (given (codes "late"))
        ∷ [])
      (node toy [] true false ann)
    ≡ (ok true, node toy [] false true (record greeted { connected = false }))
unfolding kept concat client_dispatch client_handler_for handle_text ui_callback
run_event_loop-Serves_example =
    run_event_loop-Serves toy two_greetings
      (blocked (codes "lost") ∷ given (frames two_greetings) ∷ []) false ann greeted
      (arrival (given [])) (arrival (given (codes "late")) ∷ [])
      (greeting_fits, (greeting_fits, tt)) (append-nil (frames two_greetings))
      (served refl greeting_read (served refl greeting_read (all_served refl)))

abbrev refused_call : ClientCalls
refused_call = record { socket = some 3; address_taken = true; refused = some 111 }

abbrev new_socket : Socket
new_socket = record { type = tcp; fd = none; inner = record { fd = none; opened = [] } }

setup_connection-run_event_loop_example :
    let (code, s') = setup_connection refused_call new_socket in
    let (r, n') =
      connect toy code s'.fd unfinished
        (node toy [] false false (record ann { connected = false })) in
    (r ≡ ok false) × (run_event_loop toy (arrival (given (codes "hi")) ∷ []) n' ≡ (ok false, n'))
setup_connection-run_event_loop_example =
    setup_connection-run_event_loop toy refused_call new_socket 3 110
      (node toy [] false false (record ann { connected = false })) unfinished
      (arrival (given (codes "hi")) ∷ []) refl refl refl refl refl refl

plain-IsPrefixing : IsPrefixing plain
plain-IsPrefixing = record { prefixed_bytes = λ literal s ascii. refl }

abbrev login_window : Gui plain toy
login_window = record window { login_open = true; chat = none; app = client_of [] ann_service }

abbrev ann_signature : Bytes
ann_signature = 8 ∷ key_of 7

ann-FitsBody :
    FitsBody (login_metadata (codes "ann") (key_of 7) (8 ∷ []) ann_signature) ann_signature
unfolding metadata_size
ann-FitsBody = record {
  entries = (omega arith, (omega arith, (omega arith, (omega arith, (omega arith, tt)))));
  total = omega arith;
}

handle_login-login_example :
    (bytes : Bytes) × (process_events plain toy 2
        (handle_login plain toy (codes "ann") login_window)
      ≡ (ok tt, chatting plain toy (codes "ann") bytes login_window))
    × (on_tcp_data_received 4 bytes (started 5)
        ≡ ran (login (codes "ann") (key_of 7) (8 ∷ []) ann_signature) 4 (started 5))
unfolding get_identity_bytes get_dh_bytes service_sign identity_public_bytes identity_sign
    dh_public_bytes
handle_login-login_example =
    handle_login-login plain toy (codes "ann") login_window (8 ∷ []) ann_signature 4 (started 5)
      plain-IsPrefixing refl (refl, (refl, (refl, tt))) (omega arith) refl refl refl ann-FitsBody
