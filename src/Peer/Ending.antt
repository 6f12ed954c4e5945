-- ===== src/Peer/Ending.antt =====
-- Peers that leave a node of src/transport/peer.cpp, and what is sent to them.
use my_messenger.Prelude.{
  ℕ, ◌≡◌, refl, sym, ap, ◌∙◌, subst, List, [], ◌∷◌, true, false, none, some, ℕ-eq, ◌==◌,
  Option-cases, Bool-cases, inl, inr, arith,
}
use my_messenger.Prelude.Bytes.{Bytes, Bytes-eq, bytes_eq_iff}
use my_messenger.Prelude.Dict.{Dict, lookup, erase, has, lookup-erase}
use my_messenger.Prelude.Result.{ok, err, Result-cases}
use my_messenger.Failure.{undefined}
use my_messenger.Transport.{Sent, flush}
use my_messenger.Peer.{
  PeerNode, PeerSession, call, wait_to_write, remove_peer, disconnected, disconnect_from_peer,
  disconnect_all, stop, on_peer_writable,
}
use my_messenger.Peer.Events.{with_buffers}
use my_messenger.Peer.Linked.{IsLinked, same_fd, same_ip, rewatched, updated}

pub removed_peer : (n : PeerNode) (fd : ℕ) → IsLinked n → IsLinked (remove_peer fd n)
unfolding remove_peer
removed_peer n fd l = elim (Option-cases (lookup fd n.peers)) [
  | inl p ↦ let e : remove_peer fd n ≡ n = ground (arith, p) in subst IsLinked (sym e) l
  | inr (u, p) ↦
      let e : remove_peer fd n ≡ record n { peers = erase fd n.peers } = ground (arith, p) in
      subst IsLinked (sym e) (record {
        addressed = l.addressed;
        handled = λ other v h. l.handled other v (ground (arith, lookup-erase fd other n.peers, h));
        watched = l.watched;
      })
]

-- What remains of a node without one descriptor and its address.
abbrev pub without_session : ℕ → Bytes → Dict ℕ (Unit {0}) → PeerNode → PeerNode
without_session fd ip peers n = call (disconnected fd) (record n {
  by_fd = erase fd n.by_fd;
  by_ip = erase ip n.by_ip;
  peers = peers;
  watched = erase fd n.watched;
})

kept_session :
    (fd other : ℕ) (m : Dict ℕ PeerSession)
    → (fd == other) ≡ false
    → (session : PeerSession) × (lookup other m ≡ some session)
    → (session : PeerSession) × (lookup other (erase fd m) ≡ some session)
kept_session fd other m p (session, h) = (session, ground (arith, lookup-erase fd other m, h))

ended :
    (n : PeerNode) (fd : ℕ) (session : PeerSession) (peers : Dict ℕ (Unit {0}))
    → lookup fd n.by_fd ≡ some session
    → ((other : ℕ) (u : Unit {0})
        → lookup other peers ≡ some u
        → ((fd == other) ≡ false) × (lookup other n.peers ≡ some u))
    → IsLinked n
    → IsLinked (without_session fd session.ip peers n)
ended n fd session peers there others l = record {
  addressed = λ ip other h. elim (Bool-cases (session.ip == ip)) [
    | inl q ↦
        let no : none ≡ some other = ground (arith, lookup-erase session.ip ip n.by_ip, h) in cc
    | inr q ↦
        let (s, found, its) =
          l.addressed ip other (ground (arith, lookup-erase session.ip ip n.by_ip, h)) in
        elim (Bool-cases (fd == other)) [
          | inl r ↦
              let same =
                same_ip fd other session session s ip n (same_fd fd other r) there found refl its in
              let no : true ≡ false = ground (arith, bytes_eq_iff session.ip ip, same) in cc
          | inr r ↦ (s, ground (arith, lookup-erase fd other n.by_fd, found), its)
        ]
  ];
  handled = λ other u h.
      kept_session fd other n.by_fd (others other u h).0 (l.handled other u (others other u h).1);
  watched = λ other on h. elim (Bool-cases (fd == other)) [
    | inl q ↦ let no : none ≡ some on = ground (arith, lookup-erase fd other n.watched, h) in cc
    | inr q ↦
        kept_session fd other n.by_fd q
          (l.watched other on (ground (arith, lookup-erase fd other n.watched, h)))
  ];
}

-- What becomes of a node when a peer is disconnected that has an address.
disconnected_node :
    (n : PeerNode) (fd : ℕ) (session : PeerSession)
    → lookup fd n.by_fd ≡ some session
    → has session.ip n.by_ip ≡ true
    → IsLinked n
    → IsLinked (disconnect_from_peer fd n).1
unfolding disconnect_from_peer remove_peer
disconnected_node n fd session there addressed l = elim (Option-cases (lookup fd n.peers)) [
  | inl p ↦
      let e : disconnect_from_peer fd n ≡ (ok 0, without_session fd session.ip n.peers n) =
        ground (arith, there, addressed, p) in
      subst (λ r. IsLinked r.1) (sym e)
        (ended n fd session n.peers there
          (λ other u h. elim (Bool-cases (fd == other)) [
            | inl q ↦
                let no : none ≡ some u =
                  sym p ∙ (ap (λ k. lookup k n.peers) (same_fd fd other q) ∙ h) in
                cc
            | inr q ↦ (q, h)
          ])
          l)
  | inr (v, p) ↦
      let e : disconnect_from_peer fd n
          ≡ (ok 0, without_session fd session.ip (erase fd n.peers) n) =
        ground (arith, there, addressed, p) in
      subst (λ r. IsLinked r.1) (sym e)
        (ended n fd session (erase fd n.peers) there
          (λ other u h. elim (Bool-cases (fd == other)) [
            | inl q ↦
                let no : none ≡ some u = ground (arith, lookup-erase fd other n.peers, h) in cc
            | inr q ↦ (q, ground (arith, lookup-erase fd other n.peers, h))
          ])
          l)
]

pub ended_connection : (n : PeerNode) (fd : ℕ) → IsLinked n → IsLinked (disconnect_from_peer fd n).1
unfolding disconnect_from_peer
ended_connection n fd l = elim (Option-cases (lookup fd n.by_fd)) [
  | inl p ↦
      let e : disconnect_from_peer fd n ≡ (err undefined, n) = ground (arith, p) in
      subst (λ r. IsLinked r.1) (sym e) l
  | inr (session, p) ↦ elim (Bool-cases (has session.ip n.by_ip)) [
    | inl q ↦ disconnected_node n fd session p q l
    | inr q ↦
        let e : disconnect_from_peer fd n ≡ (ok 1, n) = ground (arith, p, q) in
        subst (λ r. IsLinked r.1) (sym e) l
  ]
]

stopped_all :
    (sessions : List (ℕ × PeerSession)) (n : PeerNode)
    → IsLinked n
    → IsLinked (disconnect_all sessions n).1
unfolding disconnect_all
stopped_all [] n l = l
stopped_all ((fd, session) ∷ rest) n l = elim (Result-cases (disconnect_from_peer fd n).0) [
  | inl (code, p) ↦
      let e : disconnect_all ((fd, session) ∷ rest) n
          ≡ disconnect_all rest (disconnect_from_peer fd n).1 =
        rw (p) refl in
      subst (λ r. IsLinked r.1) (sym e)
        (stopped_all rest (disconnect_from_peer fd n).1 (ended_connection n fd l))
  | inr (f, p) ↦
      let e : disconnect_all ((fd, session) ∷ rest) n ≡ (err f, (disconnect_from_peer fd n).1) =
        rw (p) refl in
      subst (λ r. IsLinked r.1) (sym e) (ended_connection n fd l)
]

pub stopped : (n : PeerNode) → IsLinked n → IsLinked (stop n).1
unfolding stop lookup
stopped n l = elim (Bool-cases n.running) [
  | inr p ↦ let e : stop n ≡ (ok tt, n) = ground (arith, p) in subst (λ r. IsLinked r.1) (sym e) l
  | inl p ↦
      let after = disconnect_all n.by_fd n in
      let k = stopped_all n.by_fd n l in
      elim (Result-cases after.0) [
        | inl (u, q) ↦
            let e : stop n ≡ (ok tt, record (after.1) { running = false; peers = [] }) =
              ground (arith, p, q) in
            subst (λ r. IsLinked r.1) (sym e)
              (record { addressed = k.addressed; handled = λ other v h. cc; watched = k.watched })
        | inr (f, q) ↦
            let e : stop n ≡ (err f, after.1) = ground (arith, p, q) in
            subst (λ r. IsLinked r.1) (sym e) k
      ]
]

pub write_to_peer :
    (n : PeerNode) (fd : ℕ) (answer : Sent) (errno : ℕ)
    → IsLinked n
    → IsLinked (on_peer_writable fd answer errno n).1
unfolding on_peer_writable
write_to_peer n fd answer errno l = elim (Option-cases (lookup fd n.by_fd)) [
  | inl p ↦
      let e : on_peer_writable fd answer errno n ≡ (err undefined, n) = ground (arith, p) in
      subst (λ r. IsLinked r.1) (sym e) l
  | inr (session, p) ↦
      let sending = flush answer errno session.buffers in
      let after = with_buffers fd sending.1 session n in
      let k = updated n fd session (record session { buffers = sending.1 }) p refl l in
      elim (Bool-cases sending.0) [
        | inl q ↦
            let e : on_peer_writable fd answer errno n ≡ (ok tt, wait_to_write fd false after) =
              ground (arith, p, q) in
            subst (λ r. IsLinked r.1) (sym e) (rewatched after fd false k)
        | inr q ↦
            let e : on_peer_writable fd answer errno n ≡ (ok tt, after) = ground (arith, p, q) in
            subst (λ r. IsLinked r.1) (sym e) k
      ]
]
