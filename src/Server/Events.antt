-- ===== src/Server/Events.antt =====
-- The server's event loop: ServerHandler of src/transport/handling.cpp and class Server of
-- src/transport/server.cpp, over ConnectionManager. What recv, send and the TLS handshake of the
-- system and of OpenSSL answer is an argument.
use my_messenger.Prelude.{
  ℕ, Bool, true, false, ◌||◌, List, [], ◌∷◌, length, drop, if◌then◌else◌, none, some, ℕ-eq,
}
use my_messenger.Prelude.Bytes.{Bytes}
use my_messenger.Prelude.Dict.{Dict, lookup, insert, erase, has}
use my_messenger.Prelude.Result.{Result, ok, err}
use my_messenger.Prelude.Exec.{Exec, modify, ◌>>◌}
use my_messenger.Failure.{Failure, undefined, handshake_failed}
use my_messenger.Transport.{
  ClientConnection, ConnectionManager, new_connection, add_connection, remove_connection,
  get_connection, send_to_buffer, Sent, ReceiveResult, flush, try_receive, has_complete_message,
  take_message,
}
use my_messenger.Server.{ServerContext, Server}
use my_messenger.Server.Commands.{on_client_message, on_disconnect}

-- `clients` are those of the handler, which are weak pointers to the connections; `watched` are the
-- descriptors of the event loop, each with whether it waits to write; `handshakes` is
-- handshake_done_ of each TLS wrapper.
pub record ServerNode : Type 0 where
  pub context : ServerContext
  pub connections : ConnectionManager
  pub clients : Dict ℕ (Unit {0})
  pub watched : Dict ℕ Bool
  pub handshakes : Dict ℕ Bool

abbrev pub ServerLoop {ℓ} : Type ℓ → Type ℓ
ServerLoop = Exec ServerNode Failure

-- enable_write and disable_write
abbrev pub wait_to_write : ℕ → Bool → ServerNode → ServerNode
wait_to_write fd on n = elim (lookup fd n.watched) [
  | none ↦ n
  | some old ↦ record n { watched = insert fd on n.watched }
]

-- Server::send for each of what the application sends.
unfoldable pub send_all : List (ℕ × Bytes) → ServerNode → ServerNode
send_all [] n = n
send_all ((fd, raw_data) ∷ rest) n =
    send_all rest
      (wait_to_write fd true (record n { connections = send_to_buffer fd raw_data n.connections }))

-- A callback of the application, with what it sent put on the connections.
unfoldable pub calling {ℓ} : {A : Type ℓ} → Server A → ServerLoop (Unit {0})
calling callback n =
    let (r, context) = callback n.context in
    (
      elim r [ err e ↦ err e | ok a ↦ ok tt ],
      send_all (drop (length n.context.sent) context.sent) (record n { context = context }),
    )

-- What SSL_accept with SSL_get_error says.
pub data Handshake : Type 0 where
  finished unfinished refused : Handshake

-- handshake_done_ after ServerTLSWrapper::tls_handshake.
abbrev pub tls_handshake : Handshake → Bool → Result Failure Bool
tls_handshake finished done = ok true
tls_handshake unfinished done = ok done
tls_handshake refused done = err handshake_failed

-- The constructor of the TLS wrapper tries the handshake and may throw.
unfoldable pub on_client_connected : ℕ → Handshake → ServerLoop (Unit {0})
on_client_connected fd accepted n =
    let n = record n {
      connections = add_connection fd new_connection n.connections;
      clients = insert fd tt n.clients;
      watched = insert fd true n.watched;
    } in
    elim (tls_handshake accepted false) [
      | err e ↦ (err e, n)
      | ok done ↦ (ok tt, record n { handshakes = insert fd done n.handshakes })
    ]

unfoldable pub remove_client : ℕ → ServerNode → ServerNode
remove_client fd n = if has fd n.clients then record n { clients = erase fd n.clients } else n

unfoldable pub on_client_disconnected : ℕ → ServerLoop (Unit {0})
on_client_disconnected fd n =
    (calling (on_disconnect fd)
        >> modify (λ n. record n {
          connections = remove_connection fd n.connections;
          handshakes = erase fd n.handshakes;
        }))
      (record n { watched = erase fd n.watched })

-- `answer` and `errno` are those of the call of SSL_write.
unfoldable pub on_client_writable : ℕ → Sent → ℕ → ServerNode → ServerNode
on_client_writable fd answer errno n = elim (get_connection fd n.connections) [
  | none ↦ n
  | some conn ↦
      let (done, conn) = flush answer errno conn in
      let n = record n { connections = insert fd conn n.connections } in
      if done then wait_to_write fd false n else n
]

-- The flags of an event, and what the calls of the system and of OpenSSL answer if they are made.
pub record ServerEvent : Type 0 where
  pub hung_up : Bool
  pub readable : Bool
  pub writable : Bool
  pub accepted : Handshake
  pub result : ReceiveResult
  pub answer : Sent
  pub errno : ℕ

unfoldable pub client_writable : ℕ → ServerEvent → ServerLoop (Unit {0})
client_writable fd event n =
    if event.writable
    then (if has fd n.clients
        then (ok tt, on_client_writable fd event.answer event.errno n)
        else (ok tt, n))
    else (ok tt, n)

-- One message is taken of what has come. Where there is none, the function returns.
unfoldable pub client_readable : ℕ → ServerEvent → ClientConnection → ServerLoop (Unit {0})
client_readable fd event conn n =
    let (alive, conn) = try_receive event.result conn in
    elim alive [
      | false ↦
          (on_client_disconnected fd >> client_writable fd event)
            (remove_client fd (record n { connections = insert fd conn n.connections }))
      | true ↦ elim (has_complete_message conn) [
        | false ↦ (ok tt, record n { connections = insert fd conn n.connections })
        | true ↦ elim (take_message conn) [
          | err e ↦ (err e, record n { connections = insert fd conn n.connections })
          | ok (message, conn) ↦
              (calling (on_client_message fd message) >> client_writable fd event)
                (record n { connections = insert fd conn n.connections })
        ]
      ]
    ]

-- A connection that a weak pointer no longer leads to is followed all the same.
unfoldable pub client_event : ℕ → ServerEvent → ServerLoop (Unit {0})
client_event fd event n = elim event.readable [
  | false ↦ client_writable fd event n
  | true ↦
      if has fd n.clients
      then (elim (get_connection fd n.connections) [
        | none ↦ (err undefined, n)
        | some conn ↦ client_readable fd event conn n
      ])
      else (ok tt, n)
]

-- ServerHandler::handle_event. A descriptor without a TLS wrapper is followed through a null pointer.
unfoldable pub handle_event : ℕ → ServerEvent → ServerLoop (Unit {0})
handle_event fd event n = elim event.hung_up [
  | true ↦ on_client_disconnected fd (remove_client fd n)
  | false ↦ elim (lookup fd n.handshakes) [
    | none ↦ (err undefined, n)
    | some true ↦ client_event fd event n
    | some false ↦
        if event.readable || event.writable
        then (elim (tls_handshake event.accepted false) [
          | err e ↦ (err e, n)
          | ok done ↦ (ok tt, record n { handshakes = insert fd done n.handshakes })
        ])
        else (ok tt, n)
  ]
]

-- EventLoop::run_once for one event: a descriptor that was removed has no handler.
unfoldable pub run_once : ℕ → ServerEvent → ServerLoop (Unit {0})
run_once fd event n = if has fd n.watched then handle_event fd event n else (ok tt, n)
