-- ===== src/Ui/Login.antt =====
-- src/ui/login_window.cpp with src/application/runtime/runtime.cpp: from the nickname that is typed to
-- the user on the server.
use my_messenger.Prelude.{
  ℕ, ◌^◌, ◌<◌, ◌≡◌, refl, sym, ap, ◌∙◌, List, [], ◌∷◌, ◌++◌, append-nil, drop, drop-append, length,
  false, some, arith, All,
}
use my_messenger.Prelude.Bytes.{Bytes, codes}
use my_messenger.Prelude.Result.{ok}
use my_messenger.Message.Body.{FitsBody}
use my_messenger.Commands.Words.{IsWord}
use my_messenger.Crypto.{OpenSsl}
use my_messenger.Encryption.{service_sign, get_dh_bytes, get_identity_bytes}
use my_messenger.Server.{ServerContext, login}
use my_messenger.Server.Commands.{on_tcp_data_received}
use my_messenger.Client.Reach.{ran, login_metadata}
use my_messenger.Client.Login.{login_line, typed_login, logged_in, client_dispatch-login}
use my_messenger.Ui.{
  QtStrings, to_client, Gui, handle_login, login_success, append_bubble, process_events, run_slot,
  client_slot,
}
use my_messenger.Ui.Answers.{bubble, client_slot-line}

-- What the manual of Qt says of the + of a literal and a string: where the literal is ASCII, the UTF-8
-- of the sum is the literal and then that of the string.
pub record IsPrefixing (qt : QtStrings) : Type 0 where
  pub prefixed_bytes :
      (literal : Bytes) (s : qt.QString)
      → All (λ c. c < 128) literal
      → qt.to_std (qt.prefixed literal s) ≡ literal ++ qt.to_std s

nothing_new : (shown : List Bytes) → drop (length shown) shown ≡ []
nothing_new shown = ap (drop (length shown)) (sym (append-nil shown)) ∙ drop-append shown []

module _ (qt : QtStrings) (o : OpenSsl) where
  abbrev pub welcome : qt.QString → qt.QString
  welcome nickname = qt.suffixed (qt.prefixed (codes "Welcome, ") nickname) (codes "!")

  -- The windows after the command was sent.
  abbrev pub chatting : qt.QString → Bytes → Gui qt o → Gui qt o
  chatting nickname bytes g = record g {
    login_open = false;
    chat = some (bubble qt o false (welcome nickname) ∷ []);
    input_field = qt.from_std [];
    queue = [];
    app = logged_in (qt.to_std nickname) bytes g.app;
  }

  -- The windows before the command was sent.
  abbrev opened : qt.QString → Gui qt o → Gui qt o
  opened nickname g = record g {
    login_open = false;
    chat = some (bubble qt o false (welcome nickname) ∷ []);
    input_field = qt.from_std [];
    queue = [];
  }

  opens_chat :
      (typed : qt.QString) (g : Gui qt o)
      → qt.is_empty (qt.trimmed typed) ≡ false
      → g.queue ≡ []
      → handle_login qt o typed g ≡ record (opened (qt.trimmed typed) g) {
        queue = to_client (qt.prefixed (codes "/login ") (qt.trimmed typed)) ∷ [];
      }
  unfolding handle_login login_success append_bubble
  opens_chat typed g written idle = ground (arith, written, idle)

  login_ascii : All (λ c. c < 128) (codes "/login ")
  login_ascii = (
    omega arith,
    (omega arith, (omega arith, (omega arith, (omega arith, (omega arith, (omega arith, tt)))))),
  )

  -- One call waits, and nothing after it.
  processed :
      (typed : qt.QString) (g after : Gui qt o)
      → g.queue ≡ []
      → after.queue ≡ []
      → client_slot qt o typed g ≡ (ok tt, after)
      → process_events qt o 2 (record g { queue = to_client typed ∷ [] }) ≡ (ok tt, after)
  unfolding process_events run_slot
  processed typed g after none_before none_after e =
      let same : record g { queue = [] } ≡ g = ap (λ q. record g { queue = q }) (sym none_before) in
      ground (arith, same, none_after, e)

  -- A nickname of one word with fewer than 2^16 bytes is typed into the login window, while nothing
  -- waits. Where the client can give its identity key and sign, and the name, the keys and the
  -- signature fit the wire format, the login window closes and the chat window welcomes the user; when
  -- the event loop of the windows has come to rest, the client has the name and has sent one packet,
  -- whose message makes the server run login with that name, the client's keys and its signature on
  -- the connection it came from.
  pub handle_login-login :
      (typed : qt.QString) (g : Gui qt o) (identity signature : Bytes) (fd : ℕ) (s : ServerContext)
      → IsPrefixing qt
      → qt.is_empty (qt.trimmed typed) ≡ false
      → IsWord (qt.to_std (qt.trimmed typed))
      → length (qt.to_std (qt.trimmed typed)) < 2 ^ 16
      → g.queue ≡ []
      → get_identity_bytes o g.app.encryption_service ≡ ok identity
      → service_sign o g.app.encryption_service ≡ ok signature
      → FitsBody
          (login_metadata
            (qt.to_std (qt.trimmed typed))
            (get_dh_bytes o g.app.encryption_service)
            identity
            signature)
          signature
      → (bytes : Bytes) × (process_events qt o 2 (handle_login qt o typed g)
          ≡ (ok tt, chatting (qt.trimmed typed) bytes g))
        × (on_tcp_data_received fd bytes s
            ≡ ran
                (login
                  (qt.to_std (qt.trimmed typed))
                  (get_dh_bytes o g.app.encryption_service)
                  identity
                  signature)
                fd
                s)
  handle_login-login typed g identity signature fd s prefixing written word short idle known signed
        fits =
      let nickname = qt.trimmed typed in
      let name = qt.to_std nickname in
      let (bytes, read, sent, run) =
        client_dispatch-login o g.app name identity signature fd s word short known signed fits in
      let shown = record (chatting nickname bytes g) { app = g.app } in
      let slot =
        client_slot-line qt o (qt.prefixed (codes "/login ") nickname) (login_line name)
          (typed_login g.app.now name) shown
          (prefixing.prefixed_bytes (codes "/login ") nickname login_ascii) read in
      let slot_done : client_slot qt o (qt.prefixed (codes "/login ") nickname) shown
          ≡ (ok tt, chatting nickname bytes g) =
        slot ∙ rw (sent) (rw (nothing_new g.app.shown) refl) in
      (
        bytes,
        ap (process_events qt o 2) (opens_chat typed g written idle)
            ∙ processed (qt.prefixed (codes "/login ") nickname) shown (chatting nickname bytes g)
                refl refl slot_done,
        run,
      )
