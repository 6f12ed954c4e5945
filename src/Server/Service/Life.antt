-- ===== src/Server/Service/Life.antt =====
-- src/transport/server.cpp: what holds of the server from its start to its end.
use my_messenger.Prelude.{
  ℕ, Bool, true, false, List, [], ◌∷◌, ◌++◌, Option, none, some, ◌≡◌, refl, sym, ap, ◌∙◌, subst,
  arith, Option-cases, Bool-cases, inl, inr,
}
use my_messenger.Prelude.Bytes.{Bytes}
use my_messenger.Prelude.Result.{Result, ok, err, Result-cases}
use my_messenger.Prelude.Exec.{Exec, ◌>>◌}
use my_messenger.Failure.{Failure}
use my_messenger.Transport.Socket.{
  Socket, RawSocket, SocketType, tcp, udp, ServerCalls, server_of, tcp_server, udp_server,
  setup_server,
}
use my_messenger.Server.Invariant.{Inv}
use my_messenger.Server.Reach.{Reachable, Reachable-Inv}
use my_messenger.Server.Events.{ServerNode, Handshake}
use my_messenger.Server.Loop.{Served, begun, waited, accepted, polled, listening, Served-Reachable}
use my_messenger.Server.Service.{
  Service, start, stop, tcp_accept, accept_event, LoopEvent, incoming, of_client, wakeup, passed,
  stopped, serve, serve_all, run_event_loop,
}

-- Before its start.
abbrev pub idle : ℕ → Socket → Service
idle now socket = record {
  node = listening now;
  socket = socket;
  running = false;
  listener = none;
  woken = false;
}

node-start : (ip : Bytes) (calls : ServerCalls) (v : Service) → (start ip calls v).1.node ≡ v.node
unfolding start
node-start ip calls v = ground (arith, Result-cases (setup_server ip calls v.socket).0)

accept_event-Served :
    (readable : Bool) (answer : Option ℕ) (handshake : Handshake) (n n' : ServerNode)
    → Served n
    → accept_event readable answer handshake n ≡ (ok tt, n')
    → Served n'
unfolding accept_event tcp_accept
accept_event-Served false answer handshake n n' s h = subst Served (ap (λ p. p.1) h) s
accept_event-Served true none handshake n n' s h = subst Served (ap (λ p. p.1) h) s
accept_event-Served true (some fd) handshake n n' s h = accepted n n' fd handshake s h

serve-Served :
    (event : LoopEvent) (v v' : Service)
    → Served v.node
    → serve event v ≡ (ok tt, v')
    → Served v'.node
unfolding serve stop
serve-Served (incoming readable answer handshake) v v' s h = elim (Option-cases v.listener) [
  | inl p ↦ subst Served (ground (arith, p)) s
  | inr (fd, p) ↦ accept_event-Served readable answer handshake v.node v'.node s (ground (arith, p))
]
serve-Served (of_client fd event) v v' s h = polled v.node v'.node fd event s (ground (arith))
serve-Served wakeup v v' s h = subst Served (ap (λ p. p.1.node) h) s
serve-Served (passed now) v v' s h = subst Served (ap (λ p. p.1.node) h) (waited v.node now s)
serve-Served stopped v v' s h = subst Served (ground (arith, Bool-cases v.running)) s

-- What comes of one step and then of others, where nothing was thrown.
then_ok {ℓ} :
    {A : Type ℓ} (first : Exec Service Failure (Unit {0})) (later : Exec Service Failure A)
    (v v' : Service) (a : A)
    → (first >> later) v ≡ (ok a, v')
    → (first v ≡ (ok tt, (first v).1)) × (later (first v).1 ≡ (ok a, v'))
then_ok first later v v' a h = elim (Result-cases (first v).0) [
  | inl (u, p) ↦ (ground (arith, p), ground (arith, p, h))
  | inr (e, p) ↦ let no : ◌≡◌ {A = Result Failure _} (err e) (ok a) = ground (arith, p, h) in cc
]

serve_all-Served :
    (batch : List LoopEvent) (v v' : Service)
    → Served v.node
    → serve_all batch v ≡ (ok tt, v')
    → Served v'.node
unfolding serve_all
serve_all-Served [] v v' s h = subst Served (ap (λ p. p.1.node) h) s
serve_all-Served (event ∷ batch) v v' s h =
    let (now, later) = then_ok (serve event) (serve_all batch) v v' tt h in
    serve_all-Served batch (serve event v).1 v' (serve-Served event v (serve event v).1 s now) later

run_event_loop-Served :
    (batches : List (List LoopEvent)) (v v' : Service) (ended : Bool)
    → Served v.node
    → run_event_loop batches v ≡ (ok ended, v')
    → Served v'.node
unfolding run_event_loop
run_event_loop-Served [] v v' ended s h = subst Served (ap (λ p. p.1.node) h) s
run_event_loop-Served (batch ∷ batches) v v' ended s h = elim (Bool-cases v.running) [
  | inr p ↦ subst Served (ground (arith, p)) s
  | inl p ↦
      let (now, later) =
        then_ok (serve_all batch) (run_event_loop batches) v v' ended (ground (arith, p, h)) in
      run_event_loop-Served batches (serve_all batch v).1 v' ended
        (serve_all-Served batch v (serve_all batch v).1 s now) later
]

-- A server is started, whether or not it gets a socket, and its loop sees connections, events of
-- clients, time and stops in any order and any batches, with nothing thrown out of it. Then the application is in a
-- state that messages and lost connections lead to, and its services agree with one another.
pub start-run_event_loop :
    (ip : Bytes) (calls : ServerCalls) (now : ℕ) (socket : Socket) (batches : List (List LoopEvent))
    (v v' : Service) (ended : Bool)
    → start ip calls (idle now socket) ≡ (ok tt, v)
    → run_event_loop batches v ≡ (ok ended, v')
    → Served v'.node × Reachable v'.node.context × Inv v'.node.context.services
start-run_event_loop ip calls now socket batches v v' ended begins runs =
    let node_is : listening now ≡ v.node =
      sym (node-start ip calls (idle now socket)) ∙ ap (λ p. p.1.node) begins in
    let served = run_event_loop-Served batches v v' ended (subst Served node_is (begun now)) runs in
    let reached = Served-Reachable v'.node served in
    (served, reached, Reachable-Inv v'.node.context reached)

-- A loop that has been stopped is over.
ended_loop :
    (batches : List (List LoopEvent)) (v : Service)
    → v.running ≡ false
    → run_event_loop batches v ≡ (ok true, v)
unfolding run_event_loop
ended_loop [] v down = ground (arith, down)
ended_loop (batch ∷ batches) v down = ground (arith, down)

serve_down :
    (event : LoopEvent) (v : Service) → v.running ≡ false → (serve event v).1.running ≡ false
unfolding serve stop
serve_down (incoming readable answer handshake) v down = elim (Option-cases v.listener) [
  | inl p ↦ ground (arith, p, down)
  | inr (fd, p) ↦ ground (arith, p, down)
]
serve_down (of_client fd event) v down = down
serve_down wakeup v down = down
serve_down (passed now) v down = down
serve_down stopped v down = ground (arith, down)

serve_all_down :
    (batch : List LoopEvent) (v v' : Service)
    → v.running ≡ false
    → serve_all batch v ≡ (ok tt, v')
    → v'.running ≡ false
unfolding serve_all
serve_all_down [] v v' down h = sym (ap (λ p. p.1.running) h) ∙ down
serve_all_down (event ∷ batch) v v' down h =
    let (now, later) = then_ok (serve event) (serve_all batch) v v' tt h in
    serve_all_down batch (serve event v).1 v' (serve_down event v down) later

-- A batch with a stop in it leaves the server stopped.
batch_stops :
    (first rest : List LoopEvent) (v v' : Service)
    → serve_all (first ++ stopped ∷ rest) v ≡ (ok tt, v')
    → v'.running ≡ false
unfolding serve_all
batch_stops [] rest v v' h =
    let (now, later) = then_ok (serve stopped) (serve_all rest) v v' tt h in
    serve_all_down rest (serve stopped v).1 v' (stop_down v) later
  where
    stop_down : (v : Service) → (serve stopped v).1.running ≡ false
    stop_down v = unfold serve stop in ground (arith, Bool-cases v.running)
batch_stops (event ∷ first) rest v v' h =
    let (now, later) = then_ok (serve event) (serve_all (first ++ stopped ∷ rest)) v v' tt h in
    batch_stops first rest (serve event v).1 v' later

loop_then :
    (before after : List (List LoopEvent)) (v v' : Service)
    → run_event_loop before v ≡ (ok false, v')
    → run_event_loop (before ++ after) v ≡ run_event_loop after v'
unfolding run_event_loop
loop_then [] after v v' h = ap (run_event_loop after) (ap (λ p. p.1) h)
loop_then (batch ∷ before) after v v' h = elim (Bool-cases v.running) [
  | inr p ↦ absurd (ground (arith, p))
  | inl p ↦
      let (now, later) =
        then_ok (serve_all batch) (run_event_loop before) v v' false (ground (arith, p, h)) in
      let rest = loop_then before after (serve_all batch v).1 v' later in
      ground (arith, p, now, rest)
]

waiting_runs :
    (batches : List (List LoopEvent)) (v v' : Service)
    → run_event_loop batches v ≡ (ok false, v')
    → v'.running ≡ true
unfolding run_event_loop
waiting_runs [] v v' h = ground (arith, Bool-cases v.running)
waiting_runs (batch ∷ batches) v v' h = elim (Bool-cases v.running) [
  | inr p ↦ absurd (ground (arith, p))
  | inl p ↦
      let (now, later) =
        then_ok (serve_all batch) (run_event_loop batches) v v' false (ground (arith, p, h)) in
      waiting_runs batches (serve_all batch v).1 v' later
]

-- A loop has seen some batches of events and still waits. A stop that comes then wakes the event loop.
-- Where the next batch has a stop anywhere in it and nothing is thrown, the whole batch is still served,
-- and then the loop ends: the server does not run, and no batch after that changes anything.
pub run_event_loop-stop :
    (before after : List (List LoopEvent)) (first rest : List LoopEvent) (v v' v'' : Service)
    → run_event_loop before v ≡ (ok false, v')
    → serve_all (first ++ stopped ∷ rest) v' ≡ (ok tt, v'')
    → (run_event_loop (before ++ (first ++ stopped ∷ rest) ∷ after) v ≡ (ok true, v''))
      × (v''.running ≡ false)
      × ((stop v').woken ≡ true)
unfolding run_event_loop stop
run_event_loop-stop before after first rest v v' v'' runs batch =
    let up = waiting_runs before v v' runs in
    let down = batch_stops first rest v' v'' batch in
    let over = ended_loop after v'' down in
    (
      loop_then before ((first ++ stopped ∷ rest) ∷ after) v v' runs
          ∙ ground (arith, up, batch, over),
      down,
      ground (arith, up),
    )

without_socket :
    (type : SocketType) (ip : Bytes) (calls : ServerCalls) (inner : RawSocket)
    → calls.socket ≡ none
    → server_of type ip calls inner ≡ (ok tt, record inner { fd = none })
unfolding tcp_server udp_server
without_socket tcp ip calls inner failed = ground (arith, failed)
without_socket udp ip calls inner failed = ground (arith, failed)

not_started :
    (ip : Bytes) (calls : ServerCalls) (now : ℕ) (socket : Socket)
    → calls.socket ≡ none
    → start ip calls (idle now socket) ≡ (
      ok tt,
      record (idle now socket) {
        socket = record socket { inner = record socket.inner { fd = none }; fd = none };
      },
    )
unfolding start setup_server
not_started ip calls now socket failed =
    let e = without_socket socket.type ip calls socket.inner failed in ground (arith, e)

-- Where ::socket fails, start reports nothing, and the loop ends at once without serving anybody.
pub start_without_socket :
    (ip : Bytes) (calls : ServerCalls) (now : ℕ) (socket : Socket) (batches : List (List LoopEvent))
    → calls.socket ≡ none
    → let (r, v) = start ip calls (idle now socket) in
      (r ≡ ok tt) × (run_event_loop batches v ≡ (ok true, v))
start_without_socket ip calls now socket batches failed =
    rw (not_started ip calls now socket failed) (refl, ended_loop batches _ refl)
