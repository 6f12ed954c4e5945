-- ===== src/Queue.antt =====
-- src/application/messaging/message_queue.cpp: the ring buffer LockFreeQueue<OutgoingMessage, 4096>
-- and class MessageQueue. One thread at a time: MessageQueue holds its mutex in every method.
pub mod Fifo
use my_messenger.Prelude.{
  ℕ, ◌+◌, ◌%◌, Bool, true, false, [], nat_eq, if◌then◌else◌, Option, none, some, ℕ-eq,
}
use my_messenger.Prelude.Bytes.{Bytes, Bytes-eq}
use my_messenger.Prelude.Dict.{Dict, lookup, insert}

-- The template argument.
abbrev pub ring_size : ℕ
ring_size = 4096

-- The std::array, by index. An element is the bytes of an OutgoingMessage.
pub record LockFreeQueue : Type 0 where
  pub buffer : ℕ → Bytes
  pub head : ℕ
  pub tail : ℕ

abbrev pub new_queue : LockFreeQueue
new_queue = record { buffer = λ index. []; head = 0; tail = 0 }

-- buffer[at] = item
abbrev pub stored : ℕ → Bytes → (ℕ → Bytes) → ℕ → Bytes
stored at item buffer index = if nat_eq at index then item else buffer index

unfoldable pub push : Bytes → LockFreeQueue → Bool × LockFreeQueue
push item q =
    let t_next = (q.tail + 1) % ring_size in
    if nat_eq t_next q.head
    then (false, q)
    else (true, record q { buffer = stored q.tail item q.buffer; tail = t_next })

unfoldable pub pop : LockFreeQueue → Option Bytes × LockFreeQueue
pop q =
    if nat_eq q.head q.tail
    then (none, q)
    else (some (q.buffer q.head), record q { head = (q.head + 1) % ring_size })

abbrev pub MessageQueue : Type 0
MessageQueue = Dict Bytes LockFreeQueue

-- A new recipient gets an empty ring; the answer of the ring is not looked at.
unfoldable pub push_for : Bytes → Bytes → MessageQueue → MessageQueue
push_for recipient bytes queues = elim (lookup recipient queues) [
  | none ↦ insert recipient (push bytes new_queue).1 queues
  | some q ↦ insert recipient (push bytes q).1 queues
]

unfoldable pub find_pending : Bytes → MessageQueue → Option Bytes × MessageQueue
find_pending recipient queues = elim (lookup recipient queues) [
  | none ↦ (none, queues)
  | some q ↦ (let (message, q) = pop q in (message, insert recipient q queues))
]
