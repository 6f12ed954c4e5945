-- ===== src/Client/Pending.antt =====
-- The loop of src/application/dispatching/message_dispatchers/response_handler.cpp over the texts
-- that wait for a recipient's keys.
use my_messenger.Prelude.{
  ℕ, zero, suc, ◌<◌, ◌≡◌, refl, List, [], ◌∷◌, some, length, arith, List-cases, inl, inr,
}
use my_messenger.Prelude.Bytes.{Bytes, Bytes-eq, bytes_eq_iff}
use my_messenger.Prelude.Dict.{lookup, insert, lookup-insert}
use my_messenger.Prelude.Result.{ok, Result-cases}
use my_messenger.Prelude.Exec.{◌>>◌}
use my_messenger.Message.{new_message, cipher_message}
use my_messenger.Crypto.{OpenSsl}
use my_messenger.Queue.{LockFreeQueue, MessageQueue, pop, find_pending}
use my_messenger.Queue.Fifo.{Holds, oldest, pop-Holds}
use my_messenger.Client.{
  ClientContext, Client, encrypt_for, submit, send_to_server, counter_of, with_counter,
}
use my_messenger.Client.Handlers.{send_queued, send_pending}

abbrev pub with_mq : {o : OpenSsl} → MessageQueue → ClientContext o → ClientContext o
with_mq mq c = record c { mq = mq }

find_pending-Holds :
    (username : Bytes) (xs : List Bytes) (q : LockFreeQueue) (mq : MessageQueue)
    → Holds q xs
    → lookup username mq ≡ some q
    → find_pending username mq ≡ (oldest xs, insert username (pop q).1 mq)
unfolding find_pending
find_pending-Holds username xs q mq holds there =
    rw (there, find_pending) (rw ((pop-Holds q xs holds).0) refl)

module _ (o : OpenSsl) where
  -- The texts of a list, one after the other.
  unfoldable pub send_each : Bytes → List Bytes → Client o (Unit {0})
  send_each username [] c = (ok tt, c)
  send_each username (bytes ∷ rest) c =
      let later = send_each username rest in (send_queued o username bytes >> later) c

  encrypt_for-with_mq :
      (sender username text : Bytes) (n : ℕ) (mq : MessageQueue) (c : ClientContext o)
      → encrypt_for o sender username text n (with_mq mq c)
        ≡ (let (r, after) = encrypt_for o sender username text n c in (r, with_mq mq after))
  unfolding encrypt_for
  encrypt_for-with_mq sender username text n mq c = elim (List-cases c.entropy) [
    | inl p ↦ rw (p, encrypt_for) refl
    | inr (iv, rest, p) ↦ rw (p, encrypt_for) refl
  ]

  -- The queues play no part in sending a text.
  send_queued-with_mq :
      (username bytes : Bytes) (mq : MessageQueue) (c : ClientContext o)
      → send_queued o username bytes (with_mq mq c)
        ≡ (let (r, after) = send_queued o username bytes c in (r, with_mq mq after))
  unfolding send_queued submit send_to_server
  send_queued-with_mq username bytes mq c =
      let n = counter_of username c.messages_counter in
      let c' = record c { messages_counter = with_counter username c.messages_counter } in
      let e = encrypt_for-with_mq c.my_username username bytes n mq c' in
      elim (Result-cases (encrypt_for o c.my_username username bytes n c').0) [
        | inr (f, p) ↦ rw (e, p) refl
        | inl (ciphertext, p) ↦
            elim (Result-cases
              (new_message c.now ciphertext 2 (username ∷ c.my_username ∷ []) cipher_message)) [
                | inr (f, q) ↦ rw (e, p, q) refl
                | inl (m, q) ↦ rw (e, p, q) refl
              ]
      ]

  pending_step :
      (fuel : ℕ) (username x : Bytes) (mq : MessageQueue) (c : ClientContext o)
      → find_pending username c.mq ≡ (some x, mq)
      → send_pending o (suc fuel) username c
        ≡ (send_queued o username x >> send_pending o fuel username) (with_mq mq c)
  unfolding send_pending
  pending_step fuel username x mq c found = rw (found, send_pending) (rw (found) refl)

  -- On a ring that holds some texts, with fuel for more of them, the loop ends, and but for the
  -- queues it is sending these texts in their order.
  pub send_pending-send_each :
      (fuel : ℕ) (username : Bytes) (xs : List Bytes) (q : LockFreeQueue) (c : ClientContext o)
      → length xs < fuel
      → Holds q xs
      → lookup username c.mq ≡ some q
      → (let (r, after) = send_pending o fuel username c in (r, with_mq [] after))
        ≡ send_each username xs (with_mq [] c)
  unfolding send_each send_pending
  send_pending-send_each zero username xs q c more holds there = elim more [ ]
  send_pending-send_each (suc fuel) username [] q c more holds there =
      rw (find_pending-Holds username [] q c.mq holds there, send_pending) refl
  send_pending-send_each (suc fuel) username (x ∷ xs) q c more holds there =
      let mq = insert username (pop q).1 c.mq in
      let next = send_queued o username x c in
      let popped : lookup username mq ≡ some (pop q).1 =
        ground
          (arith, lookup-insert username username (pop q).1 c.mq, bytes_eq_iff username username) in
      let there_after =
        send_pending-send_each fuel username xs (pop q).1 (with_mq mq next.1) (omega arith)
          (pop-Holds q (x ∷ xs) holds).1 popped in
      let step =
        pending_step fuel username x mq c
          (find_pending-Holds username (x ∷ xs) q c.mq holds there) in
      let one = send_queued-with_mq username x mq c in
      let same = send_queued-with_mq username x [] c in
      elim (Result-cases next.0) [
        | inr (e, p) ↦ rw (step, one, same, p) refl
        | inl (u, p) ↦ rw (step, one, same, p) there_after
      ]
