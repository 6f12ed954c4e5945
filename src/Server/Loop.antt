-- ===== src/Server/Loop.antt =====
-- The event loop of src/transport/server.cpp does to the application nothing but hand it messages and
-- lost connections.
use my_messenger.Prelude.{
  ℕ, ◌≡◌, refl, sym, subst, ap, ◌∙◌, List, [], ◌∷◌, Bool, true, false, ◌||◌, ℕ-eq, Option-cases,
  Bool-cases, inl, inr, arith, length, drop,
}
use my_messenger.Prelude.Bytes.{Bytes}
use my_messenger.Prelude.Dict.{lookup, insert, has, erase}
use my_messenger.Prelude.Result.{Result, ok, err, Result-cases}
use my_messenger.Prelude.Exec.{◌>>◌, modify}
use my_messenger.Failure.{Failure}
use my_messenger.Transport.{
  ClientConnection, get_connection, try_receive, has_complete_message, take_message, flush,
  remove_connection,
}
use my_messenger.Server.{ServerContext, Server}
use my_messenger.Server.Commands.{on_client_message, on_disconnect}
use my_messenger.Server.Reach.{started, Reachable, later, message, lost, start}
use my_messenger.Server.Events.{
  ServerNode, ServerLoop, ServerEvent, Handshake, tls_handshake, wait_to_write, send_all, calling,
  on_client_connected, remove_client, on_client_disconnected, on_client_writable, client_writable,
  client_readable, client_event, handle_event, run_once,
}

-- What a piece of code that throws nothing must keep.
abbrev pub KeepsReachable : ServerLoop (Unit {0}) → Type 0
KeepsReachable run =
    (n n' : ServerNode) → Reachable n.context → run n ≡ (ok tt, n') → Reachable n'.context

then_keeps :
    (first next : ServerLoop (Unit {0}))
    → KeepsReachable first
    → KeepsReachable next
    → KeepsReachable (first >> next)
then_keeps first next a b n n' r h = elim (Result-cases (first n).0) [
  | inl (u, p) ↦
      let e : first n ≡ (ok tt, (first n).1) = ground (arith, p) in
      let f : next (first n).1 ≡ (ok tt, n') = ground (arith, p, h) in
      b (first n).1 n' (a n (first n).1 r e) f
  | inr (x, p) ↦
      let no : ◌≡◌ {A = Result Failure (Unit {0})} (err x) (ok tt) = ground (arith, p, h) in cc
]

context-wait_to_write :
    (fd : ℕ) (on : Bool) (n : ServerNode) → (wait_to_write fd on n).context ≡ n.context
context-wait_to_write fd on n = elim (Option-cases (lookup fd n.watched)) [
  | inl p ↦ ground (arith, p)
  | inr (old, p) ↦ ground (arith, p)
]

context-send_all :
    (sends : List (ℕ × Bytes)) (n : ServerNode) → (send_all sends n).context ≡ n.context
unfolding send_all
context-send_all [] n = refl
context-send_all ((fd, raw_data) ∷ rest) n =
    context-send_all rest _ ∙ context-wait_to_write fd true _

calling_keeps {ℓ} :
    {A : Type ℓ} (callback : Server A)
    → ((s s' : ServerContext) (a : A) → Reachable s → callback s ≡ (ok a, s') → Reachable s')
    → KeepsReachable (calling callback)
unfolding calling
calling_keeps callback keeps n n' r h = elim (Result-cases (callback n.context).0) [
  | inr (x, p) ↦
      let no : ◌≡◌ {A = Result Failure (Unit {0})} (err x) (ok tt) = ground (arith, p, h) in cc
  | inl (a, p) ↦
      let s = (callback n.context).1 in
      let e : callback n.context ≡ (ok a, s) = ground (arith, p) in
      let f : send_all (drop (length n.context.sent) s.sent) (record n { context = s }) ≡ n' =
        ground (arith, p, h) in
      subst Reachable
        (sym (context-send_all (drop (length n.context.sent) s.sent) (record n { context = s }))
          ∙ ap (λ m. m.context) f)
        (keeps n.context s a r e)
]

context-remove_client : (fd : ℕ) (n : ServerNode) → (remove_client fd n).context ≡ n.context
unfolding remove_client
context-remove_client fd n = elim (Bool-cases (has fd n.clients)) [
  | inl p ↦ rw (p) refl
  | inr p ↦ rw (p) refl
]

disconnected_keeps : (fd : ℕ) → KeepsReachable (on_client_disconnected fd)
unfolding on_client_disconnected
disconnected_keeps fd n n' r h =
    then_keeps (calling (on_disconnect fd))
      (modify (λ n. record n {
        connections = remove_connection fd n.connections;
        handshakes = erase fd n.handshakes;
      }))
      (calling_keeps (on_disconnect fd) (λ s s' handled q e. lost s s' fd handled q e))
      (λ m m' q e. subst Reachable (ap (λ p. p.1.context) e) q)
      (record n { watched = erase fd n.watched }) n' r h

context-on_client_writable :
    (fd : ℕ) (event : ServerEvent) (n : ServerNode)
    → (on_client_writable fd event.answer event.errno n).context ≡ n.context
unfolding on_client_writable
context-on_client_writable fd event n = elim (Option-cases (get_connection fd n.connections)) [
  | inl p ↦ ground (arith, p)
  | inr (conn, p) ↦
      let sending = flush event.answer event.errno conn in
      let after = record n { connections = insert fd sending.1 n.connections } in
      elim (Bool-cases sending.0) [
        | inl q ↦
            let e : on_client_writable fd event.answer event.errno n
                ≡ wait_to_write fd false after =
              rw (p, on_client_writable) (rw (q) refl) in
            ap (λ m. m.context) e ∙ context-wait_to_write fd false after
        | inr q ↦
            let e : on_client_writable fd event.answer event.errno n ≡ after =
              rw (p, on_client_writable) (rw (q) refl) in
            ap (λ m. m.context) e
      ]
]

-- A run that leaves the application alone.
quiet :
    (run : ServerLoop (Unit {0})) (n n' : ServerNode)
    → (run n).1.context ≡ n.context
    → Reachable n.context
    → run n ≡ (ok tt, n')
    → Reachable n'.context
quiet run n n' same r h = subst Reachable (sym same ∙ ap (λ p. p.1.context) h) r

writable_keeps : (fd : ℕ) (event : ServerEvent) → KeepsReachable (client_writable fd event)
unfolding client_writable
writable_keeps fd event n n' r h =
    quiet (client_writable fd event) n n'
      (elim (Bool-cases event.writable) [
        | inr p ↦ rw (p) refl
        | inl p ↦ elim (Bool-cases (has fd n.clients)) [
          | inl q ↦ ground (arith, p, q, context-on_client_writable fd event n)
          | inr q ↦ ground (arith, p, q)
        ]
      ])
      r h

readable_keeps :
    (fd : ℕ) (event : ServerEvent) (conn : ClientConnection)
    → KeepsReachable (client_readable fd event conn)
unfolding client_readable
readable_keeps fd event conn n n' r h =
    let got = try_receive event.result conn in
    let after = record n { connections = insert fd got.1 n.connections } in
    elim (Bool-cases got.0) [
      | inr p ↦
          let e : client_readable fd event conn n
              ≡ (on_client_disconnected fd >> client_writable fd event) (remove_client fd after) =
            rw (p, client_readable) refl in
          then_keeps (on_client_disconnected fd) (client_writable fd event) (disconnected_keeps fd)
            (writable_keeps fd event) (remove_client fd after) n'
            (subst Reachable (sym (context-remove_client fd after)) r) (sym e ∙ h)
      | inl p ↦ elim (Bool-cases (has_complete_message got.1)) [
        | inr q ↦
            let e : client_readable fd event conn n ≡ (ok tt, after) =
              rw (p, q, client_readable) refl in
            quiet (client_readable fd event conn) n n' (ap (λ m. m.1.context) e) r h
        | inl q ↦ elim (Result-cases (take_message got.1)) [
          | inr (x, t) ↦
              let e : client_readable fd event conn n ≡ (err x, after) =
                rw (p, q, t, client_readable) refl in
              quiet (client_readable fd event conn) n n' (ap (λ m. m.1.context) e) r h
          | inl ((raw, left), t) ↦
              let next = record n { connections = insert fd left n.connections } in
              let e : client_readable fd event conn n
                  ≡ (calling (on_client_message fd raw) >> client_writable fd event) next =
                rw (p, q, t, client_readable) refl in
              then_keeps (calling (on_client_message fd raw)) (client_writable fd event)
                (calling_keeps (on_client_message fd raw)
                  (λ s s' handled k e. message s s' fd raw handled k e))
                (writable_keeps fd event) next n' r (sym e ∙ h)
        ]
      ]
    ]

event_keeps : (fd : ℕ) (event : ServerEvent) → KeepsReachable (client_event fd event)
unfolding client_event
event_keeps fd event n n' r h = elim (Bool-cases event.readable) [
  | inr p ↦
      let e : client_event fd event n ≡ client_writable fd event n = ground (arith, p) in
      writable_keeps fd event n n' r (sym e ∙ h)
  | inl p ↦ elim (Bool-cases (has fd n.clients)) [
    | inr q ↦ quiet (client_event fd event) n n' (ground (arith, p, q)) r h
    | inl q ↦ elim (Option-cases (get_connection fd n.connections)) [
      | inl t ↦ quiet (client_event fd event) n n' (ground (arith, p, q, t)) r h
      | inr (conn, t) ↦
          let e : client_event fd event n ≡ client_readable fd event conn n =
            ground (arith, p, q, t) in
          readable_keeps fd event conn n n' r (sym e ∙ h)
    ]
  ]
]

handle_keeps : (fd : ℕ) (event : ServerEvent) → KeepsReachable (handle_event fd event)
unfolding handle_event
handle_keeps fd event n n' r h = elim (Bool-cases event.hung_up) [
  | inl p ↦
      let e : handle_event fd event n ≡ on_client_disconnected fd (remove_client fd n) =
        ground (arith, p) in
      disconnected_keeps fd (remove_client fd n) n'
        (subst Reachable (sym (context-remove_client fd n)) r) (sym e ∙ h)
  | inr p ↦ elim (Option-cases (lookup fd n.handshakes)) [
    | inl q ↦ quiet (handle_event fd event) n n' (ground (arith, p, q)) r h
    | inr (true, q) ↦
        let e : handle_event fd event n ≡ client_event fd event n = ground (arith, p, q) in
        event_keeps fd event n n' r (sym e ∙ h)
    | inr (false, q) ↦ elim (Bool-cases (event.readable || event.writable)) [
      | inr t ↦ quiet (handle_event fd event) n n' (ground (arith, p, q, t)) r h
      | inl t ↦ elim (Result-cases (tls_handshake event.accepted false)) [
        | inl (done, k) ↦ quiet (handle_event fd event) n n' (ground (arith, p, q, t, k)) r h
        | inr (x, k) ↦ quiet (handle_event fd event) n n' (ground (arith, p, q, t, k)) r h
      ]
    ]
  ]
]

connected_keeps : (fd : ℕ) (accepted : Handshake) → KeepsReachable (on_client_connected fd accepted)
unfolding on_client_connected
connected_keeps fd accepted n n' r h =
    quiet (on_client_connected fd accepted) n n'
      (elim (Result-cases (tls_handshake accepted false)) [
        | inl (done, k) ↦ ground (arith, k)
        | inr (x, k) ↦ ground (arith, k)
      ])
      r h

polled_keeps : (fd : ℕ) (event : ServerEvent) → KeepsReachable (run_once fd event)
unfolding run_once
polled_keeps fd event n n' r h = elim (Bool-cases (has fd n.watched)) [
  | inr p ↦ quiet (run_once fd event) n n' (ground (arith, p)) r h
  | inl p ↦
      let e : run_once fd event n ≡ handle_event fd event n = ground (arith, p) in
      handle_keeps fd event n n' r (sym e ∙ h)
]

abbrev pub listening : ℕ → ServerNode
listening now = record {
  context = started now;
  connections = [];
  clients = [];
  watched = [];
  handshakes = [];
}

-- The event loop after connections and events in any order that nothing stopped. Time passes between
-- the events.
pub data Served : ServerNode → Type 0 where
  begun : (now : ℕ) → Served (listening now)
  waited :
      (n : ServerNode) (now : ℕ)
      → Served n
      → Served (record n { context = record (n.context) { now = now } })
  accepted :
      (n n' : ServerNode) (fd : ℕ) (handshake : Handshake)
      → Served n
      → on_client_connected fd handshake n ≡ (ok tt, n')
      → Served n'
  polled :
      (n n' : ServerNode) (fd : ℕ) (event : ServerEvent)
      → Served n
      → run_once fd event n ≡ (ok tt, n')
      → Served n'

-- Whatever connections and events the event loop of the server has seen, in any order, as long as
-- nothing was thrown out of it: the application is in a state to which messages and lost connections
-- alone can bring it. So what holds of all those states holds while the loop runs.
pub Served-Reachable : (n : ServerNode) → Served n → Reachable n.context
Served-Reachable n (begun now) = start now
Served-Reachable n (waited m now s) = later m.context now (Served-Reachable m s)
Served-Reachable n (accepted m _ fd handshake s h) =
    connected_keeps fd handshake m n (Served-Reachable m s) h
Served-Reachable n (polled m _ fd event s h) = polled_keeps fd event m n (Served-Reachable m s) h
