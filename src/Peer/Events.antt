-- ===== src/Peer/Events.antt =====
-- PeerEventHandler::handle_event of src/transport/handling.cpp. on_data_callback is an argument.
use my_messenger.Prelude.{ℕ, zero, suc, Bool, true, false, if◌then◌else◌, none, some, ℕ-eq, length}
use my_messenger.Prelude.Bytes.{Bytes}
use my_messenger.Prelude.Dict.{lookup, insert, has}
use my_messenger.Prelude.Result.{ok, err}
use my_messenger.Prelude.Exec.{◌>>◌}
use my_messenger.Failure.{undefined, out_of_fuel}
use my_messenger.Transport.{
  ClientConnection, Sent, ReceiveResult, try_receive, has_complete_message, take_message,
}
use my_messenger.Peer.{
  PeerNode, PeerSession, Node, disconnected, call, remove_peer, disconnect_from_peer,
  on_peer_writable,
}

-- The flags of an event, and what the calls of recv and send answer if they are made.
pub record PeerEvent : Type 0 where
  pub hung_up : Bool
  pub readable : Bool
  pub writable : Bool
  pub result : ReceiveResult
  pub answer : Sent
  pub errno : ℕ

abbrev pub with_buffers : ℕ → ClientConnection → PeerSession → PeerNode → PeerNode
with_buffers fd buffers session n = record n {
  by_fd = insert fd (record session { buffers = buffers }) n.by_fd;
}

-- disconnect_from_peer, whose answer is not looked at
abbrev pub disconnecting : ℕ → Node (Unit {0})
disconnecting fd n =
    let (r, n) = disconnect_from_peer fd n in (elim r [ err e ↦ err e | ok code ↦ ok tt ], n)

module _ (on_data_callback : ℕ → Bytes → Node (Unit {0})) where
  -- while (has_complete_message()) on_data_callback(fd, extract_message())
  unfoldable pub hand_over : ℕ → ℕ → Node (Unit {0})
  hand_over zero fd n = (err out_of_fuel, n)
  hand_over (suc fuel) fd n = elim (lookup fd n.by_fd) [
    | none ↦ (err undefined, n)
    | some session ↦ elim (has_complete_message session.buffers) [
      | false ↦ (ok tt, n)
      | true ↦ elim (take_message session.buffers) [
        | err e ↦ (err e, n)
        | ok (message, buffers) ↦
            (on_data_callback fd message >> hand_over fuel fd) (with_buffers fd buffers session n)
      ]
    ]
  ]

  unfoldable pub handle_writable : ℕ → PeerEvent → Node (Unit {0})
  handle_writable fd event n =
      if event.writable then on_peer_writable fd event.answer event.errno n else (ok tt, n)

  -- A session that failed is disconnected through an iterator that remove_peer has made invalid.
  unfoldable pub handle_readable : ℕ → PeerEvent → PeerSession → Node (Unit {0})
  handle_readable fd event session n =
      let (alive, buffers) = try_receive event.result session.buffers in
      elim alive [
        | true ↦
            (hand_over (suc (length buffers.recv_buffer)) fd >> handle_writable fd event)
              (with_buffers fd buffers session n)
        | false ↦ (err undefined, remove_peer fd (with_buffers fd buffers session n))
      ]

  unfoldable pub handle_event : ℕ → PeerEvent → Node (Unit {0})
  handle_event fd event n = elim event.hung_up [
    | true ↦ disconnecting fd (remove_peer fd n)
    | false ↦ elim event.readable [
      | false ↦ handle_writable fd event n
      | true ↦
          if has fd n.peers
          then (elim (lookup fd n.by_fd) [
            | none ↦ (ok tt, call (disconnected fd) (remove_peer fd n))
            | some session ↦ handle_readable fd event session n
          ])
          else (ok tt, n)
    ]
  ]

  -- EventLoop::run_once for one event: a descriptor that was removed has no handler.
  unfoldable pub run_once : ℕ → PeerEvent → Node (Unit {0})
  run_once fd event n = if has fd n.watched then handle_event fd event n else (ok tt, n)
