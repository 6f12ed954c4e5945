-- ===== src/Client/Events.antt =====
-- The client's event loop: class Client of src/transport/client.cpp and ClientHandler of
-- src/transport/handling.cpp, with MessagingClient's callback for what arrives. The socket's
-- descriptor is not -1 while `connected` of ClientContext holds. What the socket and OpenSSL answer
-- is an argument. The loop has no descriptor but the socket's and that of its eventfd, so what one
-- epoll_wait gives is one event of the socket at most.
pub mod Arrivals
pub mod Refused
use my_messenger.Prelude.{
  ℕ, zero, suc, not, Bool, true, false, ◌||◌, ◌&&◌, List, [], ◌∷◌, ◌++◌, length, if◌then◌else◌,
  Option, none, some,
}
use my_messenger.Prelude.Bytes.{Bytes}
use my_messenger.Prelude.Result.{Result, ok, err}
use my_messenger.Prelude.Exec.{Exec, modify, ◌>>◌}
use my_messenger.Failure.{Failure, undefined, out_of_fuel}
use my_messenger.Framing.{has_message_in_buffer, extract_message}
use my_messenger.Transport.{
  Signed, nonnegative, minus_suc, ReceiveResult, received, would_block, closed, error,
}
use my_messenger.Server.Events.{Handshake, tls_handshake}
use my_messenger.Crypto.{OpenSsl}
use my_messenger.Client.{ClientContext, client_disconnect}
use my_messenger.Client.Dispatch.{client_receives}

-- `watched`: the event loop has the descriptor; `context_freed`: ssl_ctx_ is null. `handshake_done` is that of the TLS wrapper.
pub record ClientNode (o : OpenSsl) : Type 0 where
  pub app : ClientContext o
  pub handshake_done : Bool
  pub recv_buffer : Bytes
  pub watched : Bool
  pub context_freed : Bool

abbrev pub ClientLoop {ℓ} : OpenSsl → Type ℓ → Type ℓ
ClientLoop o = Exec (ClientNode o) Failure

-- The flags of an event, and what the calls of the system and of OpenSSL answer if they are made.
pub record ClientEvent : Type 0 where
  pub hung_up : Bool
  pub readable : Bool
  pub writable : Bool
  pub accepted : Handshake
  pub result : ReceiveResult

abbrev pub is_some : Option ℕ → Bool
is_some none = false
is_some (some fd) = true

module _ (o : OpenSsl) where
  abbrev pub with_connected : Bool → ClientNode o → ClientNode o
  with_connected on n = record n { app = record n.app { connected = on } }

  -- Client::connect, with the code and the descriptor that setup_connection gives, and what
  -- SSL_connect answers. A TLS wrapper needs an SSL_CTX that is still there.
  unfoldable pub connect : Signed → Option ℕ → Handshake → ClientLoop o Bool
  connect (minus_suc k) fd answer n = (ok false, with_connected (is_some fd) n)
  connect (nonnegative k) fd answer n =
      let n = record (with_connected (is_some fd) n) { watched = true } in
      if n.context_freed then (err undefined, n) else elim (tls_handshake answer false) [
        | err e ↦ (err e, n)
        | ok done ↦ (ok true, record n { handshake_done = done })
      ]

  -- Client::disconnect
  unfoldable pub disconnect : ClientNode o → ClientNode o
  disconnect n = record n {
    app = (client_disconnect o n.app).1;
    watched = if n.app.connected then false else n.watched;
    context_freed = true;
  }

  -- The node after the application, which may have called Client::disconnect.
  abbrev pub after_application : ClientContext o → ClientNode o → ClientNode o
  after_application app n =
      if n.app.connected && not app.connected
      then record n { app = app; watched = false; context_freed = true }
      else record n { app = app }

  -- on_data_callback, which MessagingClient sets to its on_tcp_data_received.
  unfoldable pub on_data_callback : Bytes → ClientLoop o (Unit {0})
  on_data_callback raw_bytes n =
      let (r, app) = client_receives o raw_bytes n.app in (r, after_application app n)

  -- The loop of on_server_message. An exception of the callback leaves the rest in the buffer.
  unfoldable pub take_messages : ℕ → ClientLoop o (Unit {0})
  take_messages zero n = (err out_of_fuel, n)
  take_messages (suc fuel) n = elim (has_message_in_buffer n.recv_buffer) [
    | false ↦ (ok tt, n)
    | true ↦ elim (extract_message n.recv_buffer) [
      | err e ↦ (err e, n)
      | ok (raw_bytes, left) ↦
          (on_data_callback raw_bytes >> take_messages fuel) (record n { recv_buffer = left })
    ]
  ]

  -- The framer of a client, which the code never makes, is taken to be there, as the server's is.
  -- Only what came with the status OK is kept; on_disconnected, called where the other end has
  -- closed, writes to the log.
  unfoldable pub on_server_message : ReceiveResult → ClientLoop o (Unit {0})
  on_server_message result n = elim result.status [
    | received ↦
        let n = record n { recv_buffer = n.recv_buffer ++ result.content } in
        take_messages (suc (length n.recv_buffer)) n
    | would_block ↦ (ok tt, n)
    | closed ↦ (ok tt, n)
    | error ↦ (ok tt, n)
  ]

  -- ClientHandler::handle_event
  unfoldable pub handle_event : ClientEvent → ClientLoop o (Unit {0})
  handle_event event n = elim n.handshake_done [
    | false ↦
        if event.readable || event.writable
        then (elim (tls_handshake event.accepted false) [
          | err e ↦ (err e, n)
          | ok done ↦ (ok tt, record n { handshake_done = done })
        ])
        else (ok tt, n)
    | true ↦ elim event.hung_up [
      | true ↦ (ok tt, disconnect n)
      | false ↦ elim event.readable [ true ↦ on_server_message event.result n | false ↦ (ok tt, n) ]
    ]
  ]

  -- EventLoop::run_once for one event: a descriptor that it does not have has no handler.
  unfoldable pub run_once : ClientEvent → ClientLoop o (Unit {0})
  run_once event n = elim n.watched [ false ↦ (ok tt, n) | true ↦ handle_event event n ]

  -- Client::run_event_loop for the events that come; `true`: the loop has ended, `false`: it waits.
  unfoldable pub run_event_loop : List ClientEvent → ClientLoop o Bool
  run_event_loop [] n = (ok (not n.app.connected), n)
  run_event_loop (event ∷ events) n = elim n.app.connected [
    | false ↦ (ok true, n)
    | true ↦ (run_once event >> run_event_loop events) n
  ]
