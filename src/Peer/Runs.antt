-- ===== src/Peer/Runs.antt =====
-- The runs of a node of src/transport/peer.cpp: whatever is called, and whatever events come.
use my_messenger.Prelude.{
  ℕ, zero, suc, ◌≡◌, refl, sym, subst, Option, some, ℕ-eq, Option-cases, Bool-cases, inl, inr,
  arith, length,
}
use my_messenger.Prelude.Bytes.{Bytes}
use my_messenger.Prelude.Dict.{lookup, has}
use my_messenger.Prelude.Result.{ok, err, Result-cases}
use my_messenger.Prelude.Exec.{◌>>◌}
use my_messenger.Failure.{undefined}
use my_messenger.Transport.{try_receive, has_complete_message, take_message}
use my_messenger.Peer.{
  PeerNode, PeerSession, Node, fresh_node, remove_peer, register_peer_connection, connect_to_peer,
  send_to_peer, broadcast, disconnect_from_peer, stop, on_peer_writable,
}
use my_messenger.Peer.Events.{
  PeerEvent, with_buffers, disconnecting, hand_over, handle_writable, handle_readable, handle_event,
  run_once,
}
use my_messenger.Peer.Linked.{
  IsLinked, fresh_node-IsLinked, registered, made_connection, sent_to, broadcasted, updated,
}
use my_messenger.Peer.Ending.{removed_peer, ended_connection, stopped, write_to_peer}

-- What a piece of code must keep.
abbrev pub Keeps : Node (Unit {0}) → Type 0
Keeps run = (n : PeerNode) → IsLinked n → IsLinked (run n).1

then-Keeps : (first later : Node (Unit {0})) → Keeps first → Keeps later → Keeps (first >> later)
then-Keeps first later a b n l = elim (Result-cases (first n).0) [
  | inl (u, p) ↦
      let e : (first >> later) n ≡ later (first n).1 = rw (p) refl in
      subst (λ r. IsLinked r.1) (sym e) (b (first n).1 (a n l))
  | inr (f, p) ↦
      let e : (first >> later) n ≡ (err f, (first n).1) = rw (p) refl in
      subst (λ r. IsLinked r.1) (sym e) (a n l)
]

module _ (on_data_callback : ℕ → Bytes → Node (Unit {0}))
    (keeps : (fd : ℕ) (message : Bytes) → Keeps (on_data_callback fd message)) where
  handing_over : (fuel fd : ℕ) → Keeps (hand_over on_data_callback fuel fd)
  unfolding hand_over
  handing_over zero fd n l = l
  handing_over (suc fuel) fd n l = elim (Option-cases (lookup fd n.by_fd)) [
    | inl p ↦
        let e : hand_over on_data_callback (suc fuel) fd n ≡ (err undefined, n) =
          ground (arith, p) in
        subst (λ r. IsLinked r.1) (sym e) l
    | inr (session, p) ↦ elim (Bool-cases (has_complete_message session.buffers)) [
      | inr q ↦
          let e : hand_over on_data_callback (suc fuel) fd n ≡ (ok tt, n) = ground (arith, p, q) in
          subst (λ r. IsLinked r.1) (sym e) l
      | inl q ↦ elim (Result-cases (take_message session.buffers)) [
        | inr (f, t) ↦
            let e : hand_over on_data_callback (suc fuel) fd n ≡ (err f, n) =
              ground (arith, p, q, t) in
            subst (λ r. IsLinked r.1) (sym e) l
        | inl ((message, buffers), t) ↦
            let after = with_buffers fd buffers session n in
            let e : hand_over on_data_callback (suc fuel) fd n
                ≡ (on_data_callback fd message >> hand_over on_data_callback fuel fd) after =
              rw (p, q, t, hand_over) refl in
            subst (λ r. IsLinked r.1) (sym e)
              (then-Keeps (on_data_callback fd message) (hand_over on_data_callback fuel fd)
                (keeps fd message) (handing_over fuel fd) after
                (updated n fd session (record session { buffers = buffers }) p refl l))
      ]
    ]
  ]

  writing : (fd : ℕ) (event : PeerEvent) → Keeps (handle_writable on_data_callback fd event)
  unfolding handle_writable
  writing fd event n l = elim (Bool-cases event.writable) [
    | inl p ↦
        let e : handle_writable on_data_callback fd event n
            ≡ on_peer_writable fd event.answer event.errno n =
          ground (arith, p) in
        subst (λ r. IsLinked r.1) (sym e) (write_to_peer n fd event.answer event.errno l)
    | inr p ↦
        let e : handle_writable on_data_callback fd event n ≡ (ok tt, n) = ground (arith, p) in
        subst (λ r. IsLinked r.1) (sym e) l
  ]

  reading :
      (fd : ℕ) (event : PeerEvent) (session : PeerSession) (n : PeerNode)
      → lookup fd n.by_fd ≡ some session
      → IsLinked n
      → IsLinked (handle_readable on_data_callback fd event session n).1
  unfolding handle_readable
  reading fd event session n there l =
      let got = try_receive event.result session.buffers in
      let after = with_buffers fd got.1 session n in
      let k = updated n fd session (record session { buffers = got.1 }) there refl l in
      let more = hand_over on_data_callback (suc (length got.1.recv_buffer)) fd in
      elim (Bool-cases got.0) [
        | inl p ↦
            let e : handle_readable on_data_callback fd event session n
                ≡ (more >> handle_writable on_data_callback fd event) after =
              rw (p, handle_readable) refl in
            subst (λ r. IsLinked r.1) (sym e)
              (then-Keeps more (handle_writable on_data_callback fd event)
                (handing_over (suc (length got.1.recv_buffer)) fd) (writing fd event) after k)
        | inr p ↦
            let e : handle_readable on_data_callback fd event session n
                ≡ (err undefined, remove_peer fd after) =
              rw (p, handle_readable) refl in
            subst (λ r. IsLinked r.1) (sym e) (removed_peer after fd k)
      ]

  handling : (fd : ℕ) (event : PeerEvent) → Keeps (handle_event on_data_callback fd event)
  unfolding handle_event
  handling fd event n l = elim (Bool-cases event.hung_up) [
    | inl p ↦
        let e : handle_event on_data_callback fd event n ≡ disconnecting fd (remove_peer fd n) =
          rw (p) refl in
        subst (λ r. IsLinked r.1) (sym e)
          (ended_connection (remove_peer fd n) fd (removed_peer n fd l))
    | inr p ↦ elim (Bool-cases event.readable) [
      | inr q ↦
          let e : handle_event on_data_callback fd event n
              ≡ handle_writable on_data_callback fd event n =
            ground (arith, p, q) in
          subst (λ r. IsLinked r.1) (sym e) (writing fd event n l)
      | inl q ↦ elim (Option-cases (lookup fd n.peers)) [
        | inl none_there ↦
            let e : handle_event on_data_callback fd event n ≡ (ok tt, n) =
              ground (arith, p, q, none_there) in
            subst (λ r. IsLinked r.1) (sym e) l
        | inr (u, known) ↦
            let (session, there) = l.handled fd u known in
            let e : handle_event on_data_callback fd event n
                ≡ handle_readable on_data_callback fd event session n =
              ground (arith, p, q, known, there) in
            subst (λ r. IsLinked r.1) (sym e) (reading fd event session n there l)
      ]
    ]
  ]

  happening : (fd : ℕ) (event : PeerEvent) → Keeps (run_once on_data_callback fd event)
  unfolding run_once
  happening fd event n l = elim (Bool-cases (has fd n.watched)) [
    | inl p ↦
        let e : run_once on_data_callback fd event n ≡ handle_event on_data_callback fd event n =
          ground (arith, p) in
        subst (λ r. IsLinked r.1) (sym e) (handling fd event n l)
    | inr p ↦
        let e : run_once on_data_callback fd event n ≡ (ok tt, n) = ground (arith, p) in
        subst (λ r. IsLinked r.1) (sym e) l
  ]

-- The nodes that come of a fresh one by calls and events in any order.
pub data Reached (on_data_callback : ℕ → Bytes → Node (Unit {0})) : PeerNode → Type 0 where
  fresh : Reached on_data_callback fresh_node
  accepted :
      (n : PeerNode) (fd : ℕ) (session : PeerSession)
      → Reached on_data_callback n
      → Reached on_data_callback (register_peer_connection fd session n).1
  connected_to :
      (n : PeerNode) (ip : Bytes) (opened : Option ℕ)
      → Reached on_data_callback n
      → Reached on_data_callback (connect_to_peer ip opened n).1
  sending :
      (n : PeerNode) (fd : ℕ) (content : Bytes)
      → Reached on_data_callback n
      → Reached on_data_callback (send_to_peer fd content n)
  sending_all :
      (n : PeerNode) (content : Bytes)
      → Reached on_data_callback n
      → Reached on_data_callback (broadcast content n)
  leaving :
      (n : PeerNode) (fd : ℕ)
      → Reached on_data_callback n
      → Reached on_data_callback (disconnect_from_peer fd n).1
  stopping : (n : PeerNode) → Reached on_data_callback n → Reached on_data_callback (stop n).1
  polled :
      (n : PeerNode) (fd : ℕ) (event : PeerEvent)
      → Reached on_data_callback n
      → Reached on_data_callback (run_once on_data_callback fd event n).1

-- Whatever connections, messages, disconnections and events a node has seen, in any order, and as
-- long as the callback for received messages keeps it so: each address it knows leads to a session
-- with that address, and each descriptor that its handler or its event loop knows has a session.
pub Reached-IsLinked :
    (on_data_callback : ℕ → Bytes → Node (Unit {0}))
    (keeps : (fd : ℕ) (message : Bytes) → Keeps (on_data_callback fd message)) (n : PeerNode)
    → Reached on_data_callback n
    → IsLinked n
unfolding broadcast
Reached-IsLinked cb keeps n fresh = fresh_node-IsLinked
Reached-IsLinked cb keeps n (accepted m fd session r) =
    registered m fd session (Reached-IsLinked cb keeps m r)
Reached-IsLinked cb keeps n (connected_to m ip opened r) =
    made_connection m ip opened (Reached-IsLinked cb keeps m r)
Reached-IsLinked cb keeps n (sending m fd content r) =
    sent_to m fd content (Reached-IsLinked cb keeps m r)
Reached-IsLinked cb keeps n (sending_all m content r) =
    broadcasted m.by_fd content m (Reached-IsLinked cb keeps m r)
Reached-IsLinked cb keeps n (leaving m fd r) = ended_connection m fd (Reached-IsLinked cb keeps m r)
Reached-IsLinked cb keeps n (stopping m r) = stopped m (Reached-IsLinked cb keeps m r)
Reached-IsLinked cb keeps n (polled m fd event r) =
    happening cb keeps fd event m (Reached-IsLinked cb keeps m r)
