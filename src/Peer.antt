-- ===== src/Peer.antt =====
-- src/transport/peer.cpp: a node that peers connect to, with PeerEventHandler of
-- src/transport/handling.cpp. What recv and send of the system answer is an argument. Printing is
-- left out, and so is the mutex of the handler: it is held in every method.
pub mod Events
pub mod Linked
pub mod Ending
pub mod Runs
pub mod Numbers
pub mod Commands
pub mod Exchange
pub mod Service
pub mod Callback
use my_messenger.Prelude.{
  ℕ, zero, suc, ◌≡◌, List, [], ◌∷◌, ◌++◌, Bool, true, false, ◌||◌, nat_eq, if◌then◌else◌, Option,
  none, some, ℕ-eq, length,
}
use my_messenger.Prelude.Bytes.{Bytes, Bytes-eq}
use my_messenger.Prelude.Dict.{Dict, lookup, insert, erase, has}
use my_messenger.Prelude.Result.{Result, ok, err, or_throw}
use my_messenger.Prelude.Exec.{Exec, lift, modify, pure, gets, ◌>>=◌, ◌>>◌}
use my_messenger.Failure.{Failure, undefined, out_of_fuel}
use my_messenger.Transport.{
  ClientConnection, new_connection, queue_send, flush, Sent, ReceiveResult, try_receive,
  has_complete_message, take_message,
}

-- PeerSession: the address as text, and the two buffers.
pub record PeerSession : Type 0 where
  pub ip : Bytes
  pub buffers : ClientConnection

-- PeerNode with its registry_. `peers` are those of the handler, which are weak pointers to the
-- sessions of `by_fd`; `watched` are the descriptors of the event loop, each with whether it waits
-- to write; `calls` are those of on_peer_connected
-- and on_peer_disconnected, which are taken to be set.
pub data PeerCall : Type 0 where
  connected disconnected : ℕ → PeerCall

pub record PeerNode : Type 0 where
  pub by_fd : Dict ℕ PeerSession
  pub by_ip : Dict Bytes ℕ
  pub peers : Dict ℕ (Unit {0})
  pub watched : Dict ℕ Bool
  pub running : Bool
  pub calls : List PeerCall

abbrev pub Node {ℓ} : Type ℓ → Type ℓ
Node = Exec PeerNode Failure

abbrev pub fresh_node : PeerNode
fresh_node = record { by_fd = []; by_ip = []; peers = []; watched = []; running = true; calls = [] }

abbrev pub call : PeerCall → PeerNode → PeerNode
call c n = record n { calls = n.calls ++ c ∷ [] }

-- event_loop_->add_fd, remove_fd, enable_write and disable_write
abbrev pub add_fd : ℕ → PeerNode → PeerNode
add_fd fd n = record n { watched = insert fd false n.watched }

abbrev pub remove_fd : ℕ → PeerNode → PeerNode
remove_fd fd n = record n { watched = erase fd n.watched }

abbrev pub wait_to_write : ℕ → Bool → PeerNode → PeerNode
wait_to_write fd on n = elim (lookup fd n.watched) [
  | none ↦ n
  | some old ↦ record n { watched = insert fd on n.watched }
]

unfoldable pub add_peer : ℕ → PeerNode → PeerNode
add_peer fd n = record n { peers = insert fd tt n.peers }

unfoldable pub remove_peer : ℕ → PeerNode → PeerNode
remove_peer fd n = if has fd n.peers then record n { peers = erase fd n.peers } else n

-- A descriptor that is registered is refused. The answer is the code's.
unfoldable pub register_peer_connection : ℕ → PeerSession → PeerNode → ℕ × PeerNode
register_peer_connection fd session n =
    if has fd n.by_fd
    then (1, n)
    else let n = call (connected fd) (add_fd fd (add_peer fd n)) in
      (0, record n { by_ip = insert session.ip fd n.by_ip; by_fd = insert fd session n.by_fd })

-- `opened` is the descriptor of the new connection, `none` where it could not be made.
unfoldable pub connect_to_peer : Bytes → Option ℕ → PeerNode → ℕ × PeerNode
connect_to_peer peer_ip none n = (0, n)
connect_to_peer peer_ip (some fd) n =
    (fd, (register_peer_connection fd (record { ip = peer_ip; buffers = new_connection }) n).1)

abbrev pub queued : Bytes → PeerSession → PeerSession
queued content session = record session { buffers = queue_send content session.buffers }

unfoldable pub send_to_peer : ℕ → Bytes → PeerNode → PeerNode
send_to_peer fd content n = elim (lookup fd n.by_fd) [
  | none ↦ n
  | some session ↦
      wait_to_write fd true (record n { by_fd = insert fd (queued content session) n.by_fd })
]

unfoldable pub broadcast_to : List (ℕ × PeerSession) → Bytes → PeerNode → PeerNode
broadcast_to [] content n = n
broadcast_to ((fd, session) ∷ rest) content n =
    broadcast_to rest content (send_to_peer fd content n)

unfoldable pub broadcast : Bytes → PeerNode → PeerNode
broadcast content n = broadcast_to n.by_fd content n

-- An unknown descriptor makes an entry with a null pointer, which is then followed.
unfoldable pub disconnect_from_peer : ℕ → PeerNode → Result Failure ℕ × PeerNode
disconnect_from_peer fd n = elim (lookup fd n.by_fd) [
  | none ↦ (err undefined, n)
  | some session ↦
      if has session.ip n.by_ip
      then (
        ok 0,
        (let n = remove_peer fd (remove_fd fd n) in
            call (disconnected fd)
              (record n { by_fd = erase fd n.by_fd; by_ip = erase session.ip n.by_ip })),
      )
      else (ok 1, n)
]

unfoldable pub disconnect_all : List (ℕ × PeerSession) → Node (Unit {0})
disconnect_all [] n = (ok tt, n)
disconnect_all ((fd, session) ∷ rest) n =
    let others = disconnect_all rest in (do disconnect_from_peer fd; others) n

-- The destructor of the node calls it too.
unfoldable pub stop : Node (Unit {0})
stop n =
    if n.running
    then (do disconnect_all n.by_fd; modify (λ n. record n { running = false; peers = [] })) n
    else (ok tt, n)

-- on_peer_writable: `answer` and `errno` are those of the call of ::send.
unfoldable pub on_peer_writable : ℕ → Sent → ℕ → Node (Unit {0})
on_peer_writable fd answer errno n = elim (lookup fd n.by_fd) [
  | none ↦ (err undefined, n)
  | some session ↦
      let (done, buffers) = flush answer errno session.buffers in
      let n = record n { by_fd = insert fd (record session { buffers = buffers }) n.by_fd } in
      (ok tt, if done then wait_to_write fd false n else n)
]
