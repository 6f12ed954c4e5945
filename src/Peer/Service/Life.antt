-- ===== src/Peer/Service/Life.antt =====
-- src/transport/peer.cpp: the maps of a node agree from its start on, however its loop ends.
use my_messenger.Prelude.{
  ℕ, Bool, true, false, List, [], ◌∷◌, Option, none, some, ◌≡◌, sym, subst, arith, Option-cases,
  Bool-cases, inl, inr,
}
use my_messenger.Prelude.Bytes.{Bytes}
use my_messenger.Prelude.Result.{ok, err, Result-cases}
use my_messenger.Transport.Socket.{Socket, ServerCalls, setup_server, any_address}
use my_messenger.Peer.{PeerNode, Node, fresh_node}
use my_messenger.Peer.Linked.{IsLinked}
use my_messenger.Peer.Runs.{Keeps, Reached, fresh, accepted, polled, stopping, Reached-IsLinked}
use my_messenger.Peer.Service.{
  PeerService, silent_node, start_listening, peer_tcp_accept, accept_peer, PeerLoopEvent, knocking,
  of_peer, halted, serve_peer, serve_peers, run_event_loop,
}

-- Before it listens.
abbrev pub silent : Socket → PeerService
silent socket = record { node = silent_node; listening_socket = socket; listener = none }

node-start_listening :
    (calls : ServerCalls) (socket : Socket) (v : PeerService)
    → start_listening calls (silent socket) ≡ (ok tt, v)
    → fresh_node ≡ v.node
unfolding start_listening
node-start_listening calls socket v h =
    elim (Result-cases (setup_server any_address calls socket).0) [
      | inr (e, p) ↦ absurd (ground (arith, p))
      | inl (u, p) ↦ elim (Option-cases (setup_server any_address calls socket).1.fd) [
        | inl q ↦ absurd (ground (arith, p, q))
        | inr (fd, q) ↦ ground (arith, p, q)
      ]
    ]

module _ (cb : ℕ → Bytes → Node (Unit {0})) where
  accept_peer-Reached :
      (readable : Bool) (answer : Option (ℕ × Bytes)) (n : PeerNode)
      → Reached cb n
      → Reached cb (accept_peer readable answer n)
  unfolding accept_peer peer_tcp_accept
  accept_peer-Reached false answer n r = r
  accept_peer-Reached true none n r = r
  accept_peer-Reached true (some (fd, ip)) n r = accepted n fd _ r

  serve_peer-Reached :
      (event : PeerLoopEvent) (v : PeerService)
      → Reached cb v.node
      → Reached cb (serve_peer cb event v).1.node
  unfolding serve_peer
  serve_peer-Reached (knocking readable answer) v r = elim (Option-cases v.listener) [
    | inl p ↦ rw (p) r
    | inr (fd, p) ↦ rw (p) (accept_peer-Reached readable answer v.node r)
  ]
  serve_peer-Reached (of_peer fd event) v r = polled v.node fd event r
  serve_peer-Reached halted v r = stopping v.node r

  serve_peers-Reached :
      (batch : List PeerLoopEvent) (v : PeerService)
      → Reached cb v.node
      → Reached cb (serve_peers cb batch v).1.node
  unfolding serve_peers
  serve_peers-Reached [] v r = r
  serve_peers-Reached (event ∷ batch) v r =
      let after = serve_peer cb event v in
      let step = serve_peer-Reached event v r in
      elim (Result-cases after.0) [
        | inr (bad, q) ↦
            let e : serve_peers cb (event ∷ batch) v ≡ (err bad, after.1) = ground (arith, q) in
            subst (λ x. Reached cb x.1.node) (sym e) step
        | inl (u, q) ↦
            let e : serve_peers cb (event ∷ batch) v ≡ serve_peers cb batch after.1 =
              ground (arith, q) in
            subst (λ x. Reached cb x.1.node) (sym e) (serve_peers-Reached batch after.1 step)
      ]

  run_event_loop-Reached :
      (batches : List (List PeerLoopEvent)) (v : PeerService)
      → Reached cb v.node
      → Reached cb (run_event_loop cb batches v).1.node
  unfolding run_event_loop
  run_event_loop-Reached [] v r = r
  run_event_loop-Reached (batch ∷ batches) v r =
      let after = serve_peers cb batch v in
      let step = serve_peers-Reached batch v r in
      elim (Bool-cases v.node.running) [
        | inr p ↦
            let e : run_event_loop cb (batch ∷ batches) v ≡ (ok true, v) = ground (arith, p) in
            subst (λ x. Reached cb x.1.node) (sym e) r
        | inl p ↦ elim (Result-cases after.0) [
          | inr (bad, q) ↦
              let e : run_event_loop cb (batch ∷ batches) v ≡ (err bad, after.1) =
                ground (arith, p, q) in
              subst (λ x. Reached cb x.1.node) (sym e) step
          | inl (u, q) ↦
              let e : run_event_loop cb (batch ∷ batches) v ≡ run_event_loop cb batches after.1 =
                ground (arith, p, q) in
              subst (λ x. Reached cb x.1.node) (sym e) (run_event_loop-Reached batches after.1 step)
        ]
      ]

  -- A node listens, and its loop sees connections, events of peers and stops in any order and any
  -- batches, whether or not something is thrown out of it in the end. As long as the callback for
  -- received messages, a function of the descriptor, the message and the node, keeps it so, each address that the node knows leads to a session with that address,
  -- and each descriptor that its handler knows, or its event loop has for that handler, has a session.
  pub start_listening-IsLinked :
      (keeps : (fd : ℕ) (message : Bytes) → Keeps (cb fd message)) (calls : ServerCalls)
      (socket : Socket) (batches : List (List PeerLoopEvent)) (v : PeerService)
      → start_listening calls (silent socket) ≡ (ok tt, v)
      → IsLinked (run_event_loop cb batches v).1.node
  start_listening-IsLinked keeps calls socket batches v listens =
      Reached-IsLinked cb keeps (run_event_loop cb batches v).1.node (
        run_event_loop-Reached batches v
          (subst (Reached cb) (node-start_listening calls socket v listens) fresh))
