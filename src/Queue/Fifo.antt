-- ===== src/Queue/Fifo.antt =====
-- The ring buffer of src/application/messaging/message_queue.cpp is a queue of bounded length.
use my_messenger.Prelude.{
  ℕ, ◌+◌, ◌%◌, ◌<◌, ◌≡◌, refl, true, false, nat_eq, nat_eq_iff, if◌then◌else◌, Option, none, some,
  arith, List, [], ◌∷◌, ◌++◌, length, length-append, ltb, ℕ-eq, Bool-cases, inl, inr, drop, ap,
}
use my_messenger.Prelude.Bytes.{Bytes}
use my_messenger.Queue.{LockFreeQueue, push, pop, stored, new_queue}

-- The elements from an index on, around the ring.
abbrev pub Stands : (ℕ → Bytes) → ℕ → List Bytes → Type 0
Stands buffer at [] = Unit
Stands buffer at (x ∷ xs) = (buffer at ≡ x) × Stands buffer ((at + 1) % 4096) xs

-- The ring holds these elements, the oldest first.
pub record Holds (q : LockFreeQueue) (xs : List Bytes) : Type 0 where
  pub head : q.head < 4096
  pub tail : q.tail ≡ (q.head + length xs) % 4096
  pub room : length xs < 4096
  pub elements : Stands q.buffer q.head xs

pub new_queue-Holds : Holds new_queue []
new_queue-Holds = record { head = omega arith; tail = refl; room = omega arith; elements = tt }

Stands-stored :
    (buffer : ℕ → Bytes) (item : Bytes) (at end_ : ℕ) (xs : List Bytes)
    → at < 4096
    → length xs < 4096
    → end_ ≡ (at + length xs) % 4096
    → Stands buffer at xs
    → Stands (stored end_ item buffer) at (xs ++ item ∷ [])
Stands-stored buffer item at end_ [] small room e s = (ground (arith, nat_eq_iff end_ at), tt)
Stands-stored buffer item at end_ (x ∷ xs) small room e (here, there) =
    let apart : nat_eq end_ at ≡ false = ground (arith, nat_eq_iff end_ at) in
    (
      ground (arith, here, apart),
      Stands-stored buffer item ((at + 1) % 4096) end_ xs (omega arith) (omega arith) (omega arith)
          there,
    )

-- A push on a ring that holds fewer than 4095 elements succeeds and adds the element behind the
-- others; on one that holds 4095 it is refused and changes nothing.
pub push-Holds :
    (q : LockFreeQueue) (xs : List Bytes) (item : Bytes)
    → Holds q xs
    → ((push item q).0 ≡ ltb (length xs) 4095)
      × Holds (push item q).1 (if ltb (length xs) 4095 then xs ++ item ∷ [] else xs)
unfolding push
push-Holds q xs item h = elim (Bool-cases (nat_eq ((q.tail + 1) % 4096) q.head)) [
  | inl full ↦
      let all : ltb (length xs) 4095 ≡ false =
        ground (arith, h.tail, h.room, h.head, nat_eq_iff ((q.tail + 1) % 4096) q.head) in
      rw (full, all, push) (refl, h)
  | inr free ↦
      let fewer : ltb (length xs) 4095 ≡ true =
        ground (arith, h.tail, h.room, h.head, nat_eq_iff ((q.tail + 1) % 4096) q.head) in
      rw (free, fewer, push)
        (
          refl,
          record {
            head = h.head;
            tail = omega (arith, h.tail, length-append xs (item ∷ []));
            room = ground (arith, fewer, length-append xs (item ∷ []));
            elements = Stands-stored q.buffer item q.head q.tail xs h.head h.room h.tail h.elements;
          },
        )
]

abbrev pub oldest : List Bytes → Option Bytes
oldest [] = none
oldest (x ∷ xs) = some x

-- A pop gives the oldest element and leaves the others in their order; on a ring that holds nothing
-- it gives nothing and leaves nothing.
pub pop-Holds :
    (q : LockFreeQueue) (xs : List Bytes)
    → Holds q xs
    → ((pop q).0 ≡ oldest xs) × Holds (pop q).1 (drop 1 xs)
unfolding pop
pop-Holds q [] h =
    let e : nat_eq q.head q.tail ≡ true =
      ground (arith, h.tail, h.head, nat_eq_iff q.head q.tail) in
    rw (e, pop) (refl, h)
pop-Holds q (x ∷ xs) h =
    let e : nat_eq q.head q.tail ≡ false =
      ground (arith, h.tail, h.head, h.room, nat_eq_iff q.head q.tail) in
    rw (e, pop)
      (
        ap some h.elements.0,
        record {
          head = omega arith;
          tail = omega (arith, h.tail);
          room = omega (arith, h.room);
          elements = h.elements.1;
        },
      )
