-- ===== src/Client/Events/Arrivals.antt =====
-- src/transport/client.cpp: what the client's loop makes of the server's bytes, however they are cut.
use my_messenger.Prelude.{
  ℕ, zero, suc, Bool, true, false, List, [], ◌∷◌, ◌++◌, ◌≡◌, refl, ap, subst, ◌∙◌, map, length,
  Option, none, some, Option-cases, Bool-cases, inl, inr, arith, All,
}
use my_messenger.Prelude.Bytes.{Bytes}
use my_messenger.Prelude.Result.{Result, ok, err, Result-cases}
use my_messenger.Failure.{Failure}
use my_messenger.Message.{Message}
use my_messenger.Message.Codec.{deserialize}
use my_messenger.Framing.{has_message_in_buffer, extract_message, drain_loop, drain, feed, prepend}
use my_messenger.Framing.RoundTrip.{FitsFrame}
use my_messenger.Framing.Stream.{frames, concat, feed-frames}
use my_messenger.Transport.{ReceiveResult, received, would_block}
use my_messenger.Server.Events.{unfinished}
use my_messenger.Crypto.{OpenSsl}
use my_messenger.Client.{ClientContext, client_disconnect}
use my_messenger.Client.Dispatch.{client_receives, client_dispatch}
use my_messenger.Client.Events.{
  ClientNode, ClientEvent, take_messages, on_data_callback, on_server_message, handle_event,
  disconnect, run_once, run_event_loop,
}

-- What receive has answered: some bytes with the status OK, or with WOULDBLOCK.
pub data Arrival : Type 0 where
  given : Bytes → Arrival
  blocked : Bytes → Arrival

abbrev pub result_of : Arrival → ReceiveResult
result_of (given bytes) = record { status = received; content = bytes; error_code = 0 }
result_of (blocked bytes) = record { status = would_block; content = bytes; error_code = 0 }

-- An event for it, with no other flag.
abbrev pub arrival : Arrival → ClientEvent
arrival arrived = record {
  hung_up = false;
  readable = true;
  writable = false;
  accepted = unfinished;
  result = result_of arrived;
}

-- The bytes that came with the status OK.
unfoldable pub kept : List Arrival → List Bytes
kept [] = []
kept (given bytes ∷ arrivals) = bytes ∷ kept arrivals
kept (blocked bytes ∷ arrivals) = kept arrivals

-- An event for a connection that is hung up, whatever else it says.
abbrev pub hang_up : ClientEvent → ClientEvent
hang_up event = record event { hung_up = true }

prepend-ok :
    (ms messages : List Bytes) (left : Bytes) (x : Option (Result Failure (List Bytes × Bytes)))
    → prepend ms x ≡ some (ok (messages, left))
    → (more : List Bytes) × (x ≡ some (ok (more, left))) × (messages ≡ ms ++ more)
prepend-ok ms messages left none e = absurd cc
prepend-ok ms messages left (some (err bad)) e = absurd (ground arith)
prepend-ok ms messages left (some (ok (more, rest))) e = (more, ground arith, ground arith)

module _ (o : OpenSsl) where
  -- The messages are dispatched one after the other; each is well formed, and finds the connection
  -- up.
  pub data Serves : List Bytes → ClientContext o → ClientContext o → Type 0 where
    all_served : {c : ClientContext o} → c.connected ≡ true → Serves [] c c
    served :
        {raw : Bytes} {msg : Message} {ms : List Bytes} {c c' : ClientContext o}
        → c.connected ≡ true
        → deserialize raw ≡ ok msg
        → Serves ms (client_dispatch o msg c).1 c'
        → Serves (raw ∷ ms) c c'

  -- A node past its handshake.
  abbrev pub node : Bytes → Bool → Bool → ClientContext o → ClientNode o
  node buffer watched freed c = record {
    app = c;
    handshake_done = true;
    recv_buffer = buffer;
    watched = watched;
    context_freed = freed;
  }

  served_none : {ms : List Bytes} {c c' : ClientContext o} → Serves ms c c' → ms ≡ [] → c ≡ c'
  served_none (all_served up) e = refl
  served_none (served up read later) e = absurd cc

  served_first :
      {ms : List Bytes} {c c' : ClientContext o} (first : Bytes) (more : List Bytes)
      → Serves ms c c'
      → ms ≡ first ∷ more
      → (msg : Message) × (deserialize first ≡ ok msg) × Serves more (client_dispatch o msg c).1 c'
  served_first first more (all_served up) e = absurd cc
  served_first first more (served {raw} {msg} {ms} {c} {c'} up read later) e =
      let same : first ≡ raw = cc in
      let rest : ms ≡ more = cc in
      (
        msg,
        ap deserialize same ∙ read,
        subst (λ l. Serves l (client_dispatch o msg c).1 c') rest later,
      )

  served_up : {ms : List Bytes} {c c' : ClientContext o} → Serves ms c c' → c.connected ≡ true
  served_up (all_served up) = up
  served_up (served up read later) = up

  -- The messages of a first and of a second part.
  served_parts :
      (first : List Bytes) {ms second : List Bytes} {c c' : ClientContext o}
      → Serves ms c c'
      → ms ≡ first ++ second
      → (mid : ClientContext o) × Serves first c mid × Serves second mid c'
  served_parts [] {ms} {second} {c} {c'} all e =
      (c, all_served (served_up all), subst (λ l. Serves l c c') e all)
  served_parts (raw ∷ first) {ms} {second} {c} {c'} all e =
      let (msg, read, later) = served_first raw (first ++ second) all e in
      let (mid, one, two) = served_parts first later refl in
      (mid, served (served_up all) read one, two)

  received_one :
      (raw : Bytes) (msg : Message) (n : ClientNode o)
      → deserialize raw ≡ ok msg
      → (client_dispatch o msg n.app).1.connected ≡ true
      → on_data_callback o raw n ≡ (ok tt, record n { app = (client_dispatch o msg n.app).1 })
  unfolding on_data_callback client_receives
  received_one raw msg n read up = ground (arith, read, up, Bool-cases n.app.connected)

  -- The loop with the callback, where the loop alone takes the messages out.
  drained :
      (fuel : ℕ) (buffer : Bytes) (ms : List Bytes) (left : Bytes) (freed : Bool)
      (c c' : ClientContext o)
      → drain_loop fuel buffer ≡ some (ok (ms, left))
      → Serves ms c c'
      → take_messages o fuel (node buffer true freed c) ≡ (ok tt, node left true freed c')
  unfolding drain_loop take_messages
  drained zero buffer ms left freed c c' e all = absurd cc
  drained (suc fuel) buffer ms left freed c c' e all =
      elim (Bool-cases (has_message_in_buffer buffer)) [
        | inr wait ↦
            let none_taken : ms ≡ [] = ground (arith, wait) in
            let same : left ≡ buffer = ground (arith, wait) in
            let still : c ≡ c' = served_none all none_taken in ground (arith, wait, same, still)
        | inl has ↦ elim (Result-cases (extract_message buffer)) [
          | inr (bad, p) ↦ absurd (ground (arith, has, p))
          | inl ((raw, rest), p) ↦
              let taken : prepend (raw ∷ []) (drain_loop fuel rest) ≡ some (ok (ms, left)) =
                ground (arith, has, p) in
              let (more, q, split) = prepend-ok (raw ∷ []) ms left (drain_loop fuel rest) taken in
              let (msg, read, later) = served_first raw more all split in
              let one = received_one raw msg (node rest true freed c) read (served_up later) in
              let next = drained fuel rest more left freed (client_dispatch o msg c).1 c' q later in
              ground (arith, has, p, one, next)
        ]
      ]

  arrived :
      (buffer chunk : Bytes) (ms : List Bytes) (left : Bytes) (freed : Bool)
      (c c' : ClientContext o)
      → drain (buffer ++ chunk) ≡ some (ok (ms, left))
      → Serves ms c c'
      → handle_event o (arrival (given chunk)) (node buffer true freed c)
        ≡ (ok tt, node left true freed c')
  unfolding drain handle_event on_server_message
  arrived buffer chunk ms left freed c c' e all =
      drained (suc (length (buffer ++ chunk))) (buffer ++ chunk) ms left freed c c' e all

  passed_over :
      (bytes buffer : Bytes) (freed : Bool) (c : ClientContext o)
      → handle_event o (arrival (blocked bytes)) (node buffer true freed c)
        ≡ (ok tt, node buffer true freed c)
  unfolding handle_event on_server_message
  passed_over bytes buffer freed c = refl

  run_step :
      (event : ClientEvent) (events : List ClientEvent) (n n' : ClientNode o)
      → n.app.connected ≡ true
      → n.watched ≡ true
      → handle_event o event n ≡ (ok tt, n')
      → run_event_loop o (event ∷ events) n ≡ run_event_loop o events n'
  unfolding run_event_loop run_once
  run_step event events n n' up known e = ground (arith, up, known, e)

  served_end : {ms : List Bytes} {c c' : ClientContext o} → Serves ms c c' → c'.connected ≡ true
  served_end (all_served up) = up
  served_end (served up read later) = served_end later

  ended :
      (events : List ClientEvent) (n : ClientNode o)
      → n.app.connected ≡ false
      → run_event_loop o events n ≡ (ok true, n)
  unfolding run_event_loop
  ended [] n down = ground (arith, down)
  ended (event ∷ events) n down = ground (arith, down)

  -- What the loop does with the events after those that bring the chunks is left open.
  fed :
      (arrivals : List Arrival) (buffer : Bytes) (ms : List Bytes) (left : Bytes) (freed : Bool)
      (c c' : ClientContext o) (events : List ClientEvent)
      → feed buffer (kept arrivals) ≡ some (ok (ms, left))
      → Serves ms c c'
      → run_event_loop o (map arrival arrivals ++ events) (node buffer true freed c)
        ≡ run_event_loop o events (node left true freed c')
  unfolding feed kept
  fed [] buffer ms left freed c c' events e all =
      let none_taken : ms ≡ [] = ground arith in
      let same : buffer ≡ left = ground arith in
      let still : c ≡ c' = served_none all none_taken in rw (same, still) refl
  fed (blocked bytes ∷ arrivals) buffer ms left freed c c' events e all =
      run_step (arrival (blocked bytes)) (map arrival arrivals ++ events) (node buffer true freed c)
        (node buffer true freed c) (served_up all) refl (passed_over bytes buffer freed c)
      ∙ fed arrivals buffer ms left freed c c' events e all
  fed (given chunk ∷ arrivals) buffer ms left freed c c' events e all =
      elim (Option-cases (drain (buffer ++ chunk))) [
        | inl p ↦ absurd (ground (arith, p))
        | inr (err bad, p) ↦ absurd (ground (arith, p))
        | inr (ok (first, rest), p) ↦
            let later : prepend first (feed rest (kept arrivals)) ≡ some (ok (ms, left)) =
              ground (arith, p) in
            let (more, q, split) = prepend-ok first ms left (feed rest (kept arrivals)) later in
            let (mid, one, two) = served_parts first all split in
            let now = arrived buffer chunk first rest freed c mid p one in
            let next = fed arrivals rest more left freed mid c' events q two in
            run_step (arrival (given chunk)) (map arrival arrivals ++ events)
              (node buffer true freed c) (node rest true freed mid) (served_up all) refl now
            ∙ next
      ]

  -- The client is past its handshake, its receive buffer is empty, and receive answers OK or WOULDBLOCK
  -- each time, with any bytes. Those that come with OK, which are all that the client keeps, are
  -- together a sequence of messages, each shorter than 2^32 - 4 and behind its length, cut in any way;
  -- what comes with WOULDBLOCK, as where a frame of the transport is split across reads, is lost. If each
  -- message is well formed and finds the connection up, the loop dispatches them all, one after the
  -- other in their order; and when the connection is hung up after that, whatever the event says
  -- besides and whatever comes later, the loop ends, with the client disconnected and nothing else
  -- done.
  pub run_event_loop-Serves :
      (ms : List Bytes) (arrivals : List Arrival) (freed : Bool) (c c' : ClientContext o)
      (last : ClientEvent) (later : List ClientEvent)
      → All FitsFrame ms
      → concat (kept arrivals) ≡ frames ms
      → Serves ms c c'
      → run_event_loop o (map arrival arrivals ++ hang_up last ∷ later) (node [] true freed c)
        ≡ (ok true, node [] false true (record c' { connected = false }))
  unfolding handle_event disconnect client_disconnect
  run_event_loop-Serves ms arrivals freed c c' last later fits cut all =
      fed arrivals [] ms [] freed c c' (hang_up last ∷ later)
        (feed-frames ms (kept arrivals) fits cut) all
      ∙ run_step (hang_up last) later (node [] true freed c')
          (node [] false true (record c' { connected = false })) (served_end all) refl
          (ground (arith, served_end all))
      ∙ ended later (node [] false true (record c' { connected = false })) refl
