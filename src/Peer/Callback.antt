-- ===== src/Peer/Callback.antt =====
-- src/application/messaging/messaging_peer.cpp: the callback for received messages, as the node sees it.
use my_messenger.Prelude.{
  ℕ, [], ◌∷◌, ◌≡◌, sym, ap, subst, none, some, Option-cases, Bool-cases, List-cases, inl, inr,
  arith, All, ◌==◌,
}
use my_messenger.Prelude.Bytes.{Bytes, Bytes-eq}
use my_messenger.Prelude.Dict.{Dict, lookup}
use my_messenger.Prelude.Result.{Result, ok, err, Result-cases}
use my_messenger.Prelude.Exec.{lift, ◌>>=◌, ◌>>◌, bind_result}
use my_messenger.Failure.{Failure}
use my_messenger.Commands.Parser.{make_struct_from_command}
use my_messenger.Message.{
  CommandType, connect, text, command, response, cipher_message, file_start, file_chunk, file_end,
  Message, MessageType, command_of_code, get_meta, get_payload, get_type,
}
use my_messenger.Message.Codec.{serialize, deserialize}
use my_messenger.Crypto.{OpenSsl}
use my_messenger.Sessions
use my_messenger.Users
use my_messenger.Users.{UserService}
use my_messenger.Encryption.{service_sign, get_identity_bytes}
use my_messenger.Peer.Numbers.{stoi}
use my_messenger.Peer.{Node}
use my_messenger.Peer.Linked.{IsLinked, sent_to}
use my_messenger.Peer.Runs.{Keeps}
use my_messenger.Peer.Commands.{
  PeerContext, Peering, submit_to, peer_receives, receiving_handler, dispatch_receiving,
  peer_caught, peer_handled, cache_peer_key, take_peer, connect_answer, connect_receive,
  disconnect_receive, login_receive, nothing_done, receiving_registry, peer_command, cipher_receive,
  response_receive,
}

module _ (o : OpenSsl) where
  -- on_data_callback, for a node whose application is otherwise in the state `c`.
  abbrev pub received_by : PeerContext o → ℕ → Bytes → Node (Unit {0})
  received_by c fd raw n =
      let (r, after) = peer_receives o fd raw (record c { peer_node = n }) in (r, after.peer_node)

  -- What a piece of the application keeps of the node.
  abbrev KeepsLinked {ℓ} : {A : Type ℓ} → Peering o A → Type 0
  KeepsLinked run = (c : PeerContext o) → IsLinked c.peer_node → IsLinked (run c).1.peer_node

  rest_keeps {ℓ κ} :
      {A : Type ℓ} {B : Type κ} (given : Result Failure A × PeerContext o) (later : A → Peering o B)
      → ((a : A) → KeepsLinked (later a))
      → IsLinked given.1.peer_node
      → IsLinked (bind_result given later).1.peer_node
  rest_keeps (ok x, c) later b l = b x c l
  rest_keeps (err e, c) later b l = l

  lift_keeps {ℓ κ} :
      {A : Type ℓ} {B : Type κ} (r : Result Failure A) (later : A → Peering o B)
      → ((a : A) → KeepsLinked (later a))
      → KeepsLinked (lift r >>= later)
  lift_keeps (ok a) later b c l = b a c l
  lift_keeps (err e) later b c l = l

  submit_keeps : (fd : ℕ) (built : Result Failure Message) → KeepsLinked (submit_to o fd built)
  unfolding submit_to
  submit_keeps fd (ok m) c l = sent_to c.peer_node fd (serialize m) l
  submit_keeps fd (err e) c l = l

  caught_keeps :
      (given : Result Failure (Unit {0}) × PeerContext o)
      → IsLinked given.1.peer_node
      → IsLinked (peer_caught o given).1.peer_node
  caught_keeps (ok u, c) l = l
  caught_keeps (err e, c) l = l

  cache_keeps : (name dh identity : Bytes) → KeepsLinked (cache_peer_key o name dh identity)
  unfolding cache_peer_key
  cache_keeps name dh identity c l = l

  take_keeps :
      (name dh identity signature : Bytes) (answer : Peering o (Unit {0}))
      → KeepsLinked answer
      → KeepsLinked (take_peer o name dh identity signature answer)
  unfolding take_peer
  take_keeps name dh identity signature answer a c l =
      elim (Result-cases (Users.register_user name dh identity signature c.user_service).0) [
        | inl (u, p) ↦
            let next = record c {
              user_service = (Users.register_user name dh identity signature c.user_service).1;
              session_manager = Sessions.bind c.fd name c.session_manager;
            } in
            let e : take_peer o name dh identity signature answer c
                ≡ (cache_peer_key o name dh identity >> answer) next =
              ground (arith, p) in
            subst (λ r. IsLinked r.1.peer_node) (sym e)
              (rest_keeps (cache_peer_key o name dh identity next) (λ _. answer) (λ _. a)
                (cache_keeps name dh identity next l))
        | inr (x, p) ↦
            let e : take_peer o name dh identity signature answer c ≡ (ok tt, c) =
              ground (arith, p) in
            subst (λ r. IsLinked r.1.peer_node) (sym e) l
      ]

  answer_keeps : KeepsLinked (connect_answer o)
  unfolding connect_answer
  answer_keeps c l =
      lift_keeps (get_identity_bytes o c.encryption_service) _
        (λ identity.
          lift_keeps (service_sign o c.encryption_service) _ (λ signature. submit_keeps c.fd _))
        c l

  connect_keeps : (msg : Message) → KeepsLinked (connect_receive o msg)
  unfolding connect_receive
  connect_keeps msg c l =
      lift_keeps (stoi (get_meta msg 2)) _
        (λ port. take_keeps _ _ _ _ (connect_answer o) answer_keeps) c l

  login_keeps : (msg : Message) → KeepsLinked (login_receive o msg)
  unfolding login_receive
  login_keeps msg c l =
      lift_keeps (get_identity_bytes o c.encryption_service) _
        (λ identity.
          lift_keeps (service_sign o c.encryption_service) _ (λ signature. submit_keeps c.fd _))
        c l

  disconnect_keeps : (msg : Message) → KeepsLinked (disconnect_receive o msg)
  unfolding disconnect_receive
  disconnect_keeps msg c l = elim (Result-cases (Sessions.get_username c.fd c.session_manager)) [
    | inl (name, p) ↦ rw (p, disconnect_receive) l
    | inr (e, p) ↦ rw (p, disconnect_receive) l
  ]

  nothing_keeps : (msg : Message) → KeepsLinked (nothing_done o msg)
  unfolding nothing_done
  nothing_keeps msg c l = l

  cipher_keeps : (msg : Message) → KeepsLinked (cipher_receive o msg)
  unfolding cipher_receive
  cipher_keeps msg c l = l

  abbrev answered : CommandType → Message → Peering o (Unit {0})
  answered kind msg c = elim kind [
    | connect ↦
        take_peer o (get_payload msg) (get_meta msg 1) (get_meta msg 2) (get_meta msg 3)
          (λ c. (ok tt, c)) c
    | _ ↦ (ok tt, c)
  ]

  answered_keeps : (kind : CommandType) (msg : Message) → KeepsLinked (answered kind msg)
  answered_keeps connect msg c l =
      take_keeps (get_payload msg) (get_meta msg 1) (get_meta msg 2) (get_meta msg 3)
        (λ c. (ok tt, c)) (λ c l. l) c l
  answered_keeps _ msg c l = l

  response_keeps : (msg : Message) → KeepsLinked (response_receive o msg)
  unfolding response_receive
  response_keeps msg c l = elim (List-cases (get_meta msg 0)) [
    | inl p ↦ rw (p, response_receive) l
    | inr (code, rest, p) ↦ rw (p, response_receive) (answered_keeps (command_of_code code) msg c l)
  ]

  the_same {ℓ} : {A : Type ℓ} (a b : A) → some a ≡ some b → a ≡ b
  the_same a b h = ap (λ x. elim x [ none ↦ a | some y ↦ y ]) h

  -- A command of a registry keeps what all its commands keep.
  entry_keeps :
      (registry : Dict Bytes (Message → Peering o (Unit {0}))) (msg : Message) (name : Bytes)
      (handler : Message → Peering o (Unit {0}))
      → All (λ entry. KeepsLinked (entry.1 msg)) registry
      → lookup name registry ≡ some handler
      → KeepsLinked (handler msg)
  unfolding lookup
  entry_keeps [] msg name handler all h = absurd cc
  entry_keeps ((first, value) ∷ rest) msg name handler (a, all) h =
      elim (Bool-cases (first == name)) [
        | inl p ↦
            let e : some value ≡ some handler = ground (arith, p, h) in
            subst (λ f. KeepsLinked (f msg)) (the_same value handler e) a
        | inr p ↦ entry_keeps rest msg name handler all (ground (arith, p, h))
      ]

  command_keeps : (msg : Message) → KeepsLinked (peer_command o (receiving_registry o) msg)
  unfolding peer_command
  command_keeps msg c l =
      elim (Option-cases (lookup (make_struct_from_command msg).name (receiving_registry o))) [
        | inl p ↦ rw (p, peer_command) l
        | inr (handler, p) ↦
            rw (p, peer_command)
              (entry_keeps (receiving_registry o) msg (make_struct_from_command msg).name handler
                (
                  nothing_keeps msg,
                  (
                    connect_keeps msg,
                    (disconnect_keeps msg, (nothing_keeps msg, (login_keeps msg, tt))),
                  ),
                )
                p c l)
      ]

  handler_keeps :
      (type : MessageType) (msg : Message) (c : PeerContext o)
      → IsLinked c.peer_node
      → IsLinked (peer_handled o (receiving_handler o type) msg c).1.peer_node
  unfolding receiving_handler nothing_done
  handler_keeps text msg c l = nothing_keeps msg c l
  handler_keeps command msg c l = caught_keeps _ (command_keeps msg c l)
  handler_keeps response msg c l = caught_keeps _ (response_keeps msg c l)
  handler_keeps cipher_message msg c l = caught_keeps _ (cipher_keeps msg c l)
  handler_keeps file_start msg c l = nothing_keeps msg c l
  handler_keeps file_chunk msg c l = nothing_keeps msg c l
  handler_keeps file_end msg c l = nothing_keeps msg c l
  handler_keeps _ msg c l = l

  -- Whatever else the state of the application is, and whatever bytes come, the callback keeps the node
  -- linked.
  pub received_by-Keeps : (c : PeerContext o) (fd : ℕ) (raw : Bytes) → Keeps (received_by c fd raw)
  unfolding peer_receives dispatch_receiving
  received_by-Keeps c fd raw n l = elim (Result-cases (deserialize raw)) [
    | inr (e, p) ↦ rw (p, received_by, peer_receives) l
    | inl (msg, p) ↦
        rw (p, received_by, peer_receives)
          (handler_keeps (get_type msg) msg (record c { peer_node = n; fd = fd }) l)
  ]
