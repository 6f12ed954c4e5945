-- ===== src/Peer/Linked.antt =====
-- The maps of a node of src/transport/peer.cpp agree with one another, whatever happens to it.
use my_messenger.Prelude.{
  ℕ, ◌≡◌, refl, sym, ap, ◌∙◌, subst, List, [], ◌∷◌, Bool, true, false, Option, none, some, ℕ-eq,
  ◌==◌, Option-cases, Bool-cases, inl, inr, arith, nat_eq_iff,
}
use my_messenger.Prelude.Bytes.{Bytes, Bytes-eq, bytes_eq_iff}
use my_messenger.Prelude.Dict.{Dict, lookup, insert, lookup-insert}
use my_messenger.Peer.{
  PeerNode, PeerSession, fresh_node, call, add_fd, wait_to_write, add_peer, connected,
  register_peer_connection, connect_to_peer, send_to_peer, queued, broadcast_to,
}

-- `fd` has a session.
abbrev pub HasSession : ℕ → PeerNode → Type 0
HasSession fd n = (session : PeerSession) × (lookup fd n.by_fd ≡ some session)

-- An address leads to a session with that address, and the handler, and the event loop for that
-- handler, know of no descriptor without a session. The listening socket has a handler of its own.
pub record IsLinked (n : PeerNode) : Type 0 where
  pub addressed :
      (ip : Bytes) (fd : ℕ)
      → lookup ip n.by_ip ≡ some fd
      → (session : PeerSession) × (lookup fd n.by_fd ≡ some session) × (session.ip ≡ ip)
  pub handled : (fd : ℕ) (u : Unit {0}) → lookup fd n.peers ≡ some u → HasSession fd n
  pub watched : (fd : ℕ) (on : Bool) → lookup fd n.watched ≡ some on → HasSession fd n

pub fresh_node-IsLinked : IsLinked fresh_node
unfolding lookup
fresh_node-IsLinked = record {
  addressed = λ ip fd h. cc;
  handled = λ fd u h. cc;
  watched = λ fd on h. cc;
}

pub same_fd : (fd other : ℕ) → (fd == other) ≡ true → fd ≡ other
same_fd fd other h = ground (arith, nat_eq_iff fd other)

inserted_session :
    (fd other : ℕ) (s : PeerSession) (m : Dict ℕ PeerSession)
    → (session : PeerSession) × (lookup other m ≡ some session)
    → (session : PeerSession) × (lookup other (insert fd s m) ≡ some session)
inserted_session fd other s m (session, h) = elim (Bool-cases (fd == other)) [
  | inl p ↦ (s, ground (arith, lookup-insert fd other s m))
  | inr p ↦ (session, ground (arith, lookup-insert fd other s m, h))
]

pub same_ip :
    (fd other : ℕ) (old s session : PeerSession) (ip : Bytes) (n : PeerNode)
    → fd ≡ other
    → lookup fd n.by_fd ≡ some old
    → lookup other n.by_fd ≡ some session
    → old.ip ≡ s.ip
    → session.ip ≡ ip
    → s.ip ≡ ip
same_ip fd other old s session ip n e there found same its =
    let one : some old ≡ some session = sym there ∙ (ap (λ k. lookup k n.by_fd) e ∙ found) in
    sym same ∙ (ap (λ r. elim r [ none ↦ [] | some x ↦ x.ip ]) one ∙ its)

-- A session may change but for its address.
pub updated :
    (n : PeerNode) (fd : ℕ) (old s : PeerSession)
    → lookup fd n.by_fd ≡ some old
    → old.ip ≡ s.ip
    → IsLinked n
    → IsLinked (record n { by_fd = insert fd s n.by_fd })
updated n fd old s there same l = record {
  addressed = λ ip other h.
      let (session, found, its) = l.addressed ip other h in
      elim (Bool-cases (fd == other)) [
        | inl p ↦ (
          s,
          ground (arith, lookup-insert fd other s n.by_fd),
          same_ip fd other old s session ip n (same_fd fd other p) there found same its,
        )
        | inr p ↦ (session, ground (arith, lookup-insert fd other s n.by_fd, found), its)
      ];
  handled = λ other u h. inserted_session fd other s n.by_fd (l.handled other u h);
  watched = λ other on h. inserted_session fd other s n.by_fd (l.watched other on h);
}

pub rewatched : (n : PeerNode) (fd : ℕ) (on : Bool) → IsLinked n → IsLinked (wait_to_write fd on n)
rewatched n fd on l = elim (Option-cases (lookup fd n.watched)) [
  | inl p ↦ let e : wait_to_write fd on n ≡ n = ground (arith, p) in subst IsLinked (sym e) l
  | inr (old, p) ↦
      let e : wait_to_write fd on n ≡ record n { watched = insert fd on n.watched } =
        ground (arith, p) in
      subst IsLinked (sym e) (record {
        addressed = l.addressed;
        handled = l.handled;
        watched = λ other on' h. elim (Bool-cases (fd == other)) [
          | inl q ↦
              l.watched other old
                (subst (λ k. lookup k n.watched ≡ some old) (same_fd fd other q) p)
          | inr q ↦ l.watched other on' (ground (arith, lookup-insert fd other on n.watched, h))
        ];
      })
]

-- The node with a new session.
abbrev pub with_session : ℕ → PeerSession → PeerNode → PeerNode
with_session fd session n =
    let n = call (connected fd) (add_fd fd (add_peer fd n)) in
    record n { by_ip = insert session.ip fd n.by_ip; by_fd = insert fd session n.by_fd }

new_session :
    (n : PeerNode) (fd : ℕ) (session : PeerSession)
    → lookup fd n.by_fd ≡ none
    → IsLinked n
    → IsLinked (with_session fd session n)
unfolding add_peer
new_session n fd session fresh l = record {
  addressed = λ ip other h. elim (Bool-cases (session.ip == ip)) [
    | inl q ↦
        let e : some fd ≡ some other = ground (arith, lookup-insert session.ip ip fd n.by_ip, h) in
        (
          session,
          ground (arith, e, lookup-insert fd other session n.by_fd, nat_eq_iff fd other),
          ground (arith, bytes_eq_iff session.ip ip),
        )
    | inr q ↦
        let old : lookup ip n.by_ip ≡ some other =
          ground (arith, lookup-insert session.ip ip fd n.by_ip, h) in
        let (s, found, its) = l.addressed ip other old in
        elim (Bool-cases (fd == other)) [
          | inl r ↦
              let no : none ≡ some s =
                sym fresh ∙ (ap (λ k. lookup k n.by_fd) (same_fd fd other r) ∙ found) in
              cc
          | inr r ↦ (s, ground (arith, lookup-insert fd other session n.by_fd, found), its)
        ]
  ];
  handled = λ other u h. elim (Bool-cases (fd == other)) [
    | inl q ↦ (session, ground (arith, lookup-insert fd other session n.by_fd))
    | inr q ↦
        inserted_session fd other session n.by_fd
          (l.handled other u (ground (arith, lookup-insert fd other tt n.peers, h)))
  ];
  watched = λ other on h. elim (Bool-cases (fd == other)) [
    | inl q ↦ (session, ground (arith, lookup-insert fd other session n.by_fd))
    | inr q ↦
        inserted_session fd other session n.by_fd
          (l.watched other on (ground (arith, lookup-insert fd other false n.watched, h)))
  ];
}

pub registered :
    (n : PeerNode) (fd : ℕ) (session : PeerSession)
    → IsLinked n
    → IsLinked (register_peer_connection fd session n).1
unfolding register_peer_connection
registered n fd session l = elim (Option-cases (lookup fd n.by_fd)) [
  | inr (old, p) ↦
      let e : register_peer_connection fd session n ≡ (1, n) = ground (arith, p) in
      subst (λ r. IsLinked r.1) (sym e) l
  | inl p ↦
      let e : register_peer_connection fd session n ≡ (0, with_session fd session n) =
        ground (arith, p) in
      subst (λ r. IsLinked r.1) (sym e) (new_session n fd session p l)
]

pub made_connection :
    (n : PeerNode) (ip : Bytes) (opened : Option ℕ)
    → IsLinked n
    → IsLinked (connect_to_peer ip opened n).1
unfolding connect_to_peer
made_connection n ip none l = l
made_connection n ip (some fd) l = registered n fd _ l

pub sent_to :
    (n : PeerNode) (fd : ℕ) (content : Bytes) → IsLinked n → IsLinked (send_to_peer fd content n)
unfolding send_to_peer
sent_to n fd content l = elim (Option-cases (lookup fd n.by_fd)) [
  | inl p ↦ let e : send_to_peer fd content n ≡ n = ground (arith, p) in subst IsLinked (sym e) l
  | inr (session, p) ↦
      let after = record n { by_fd = insert fd (queued content session) n.by_fd } in
      let e : send_to_peer fd content n ≡ wait_to_write fd true after = ground (arith, p) in
      subst IsLinked (sym e)
        (rewatched after fd true (updated n fd session (queued content session) p refl l))
]

pub broadcasted :
    (receivers : List (ℕ × PeerSession)) (content : Bytes) (n : PeerNode)
    → IsLinked n
    → IsLinked (broadcast_to receivers content n)
unfolding broadcast_to
broadcasted [] content n l = l
broadcasted ((fd, session) ∷ rest) content n l =
    broadcasted rest content (send_to_peer fd content n) (sent_to n fd content l)
