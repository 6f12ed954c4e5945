-- ===== src/Framing/Stream.antt =====
-- The receive loop over FramerMessage (src/protocol/framing.cpp), as Client::on_server_message and
-- PeerEventHandler::handle_event run it: the messages do not depend on how the stream is cut.
use my_messenger.Prelude.{
  ℕ, zero, suc, ◌-◌, ◌%◌, ◌^◌, ◌<◌, ◌≤◌, ◌≡◌, refl, sym, ap, ◌∙◌, true, false, List, [], ◌∷◌, ◌++◌,
  length, length-append, drop, take-append_le, drop-append_le, Bool-cases, Option-cases, inl, inr,
  Option, none, some, append_assoc, append-nil, arith, All,
}
use my_messenger.Prelude.Bytes.{Bytes}
use my_messenger.Prelude.Result.{Result, ok}
use my_messenger.Failure.{Failure}
use my_messenger.Wire.{read_u32, write_u32}
use my_messenger.Wire.Laws.{read_u32-length, length-write_u32}
use my_messenger.Framing.{
  has_message_in_buffer, extract_message, length_prefix, drain_loop, drain, feed, prepend,
}
use my_messenger.Framing.RoundTrip.{
  frame, FitsFrame, has_message-frame, extract_message-frame, prefix-frame,
  extract_message_complete,
}

-- The bytes of a sequence of messages.
unfoldable pub frames : List Bytes → Bytes
frames [] = []
frames (m ∷ ms) = frame m ++ frames ms

-- More bytes change neither the message nor the test.
pub prefix-append :
    (buffer more rest : Bytes) (len : ℕ)
    → length_prefix buffer ≡ some (len, rest)
    → length_prefix (buffer ++ more) ≡ some (len, rest ++ more)
unfolding read_u32
prefix-append (a ∷ b ∷ c ∷ d ∷ buffer) more rest len h = ground arith
prefix-append _ more rest len h = cc

extract_message-append :
    (buffer more message rest : Bytes)
    → extract_message buffer ≡ ok (message, rest)
    → extract_message (buffer ++ more) ≡ ok (message, rest ++ more)
unfolding extract_message
extract_message-append buffer more message rest h = elim (Option-cases (length_prefix buffer)) [
  | inl e ↦ ground arith
  | inr ((len, tail), e) ↦ ground (
    arith,
    prefix-append buffer more tail len e,
    length-append tail more,
    take-append_le len tail more,
    drop-append_le len tail more,
  )
]

-- Where the buffer begins a framed message and what follows it, and the test says that a message is
-- there, that message is taken out.
pub first_message :
    (buffer more m tail : Bytes)
    → FitsFrame m
    → buffer ++ more ≡ frame m ++ tail
    → has_message_in_buffer buffer ≡ true
    → (rest : Bytes) × (extract_message buffer ≡ ok (m, rest)) × (rest ++ more ≡ tail)
first_message buffer more m tail fits e has = elim (Option-cases (length_prefix buffer)) [
  | inl p ↦ absurd (no_prefix p)
  | inr ((len, t), p) ↦
      let whole : length_prefix (buffer ++ more) ≡ some (length m, m ++ tail) =
        rw e (prefix-frame m tail fits) in
      let same : len ≡ length m = ground (arith, whole, prefix-append buffer more t len p) in
      let got = extract_message_complete buffer t len p (complete t len p (omega arith)) in
      let all : extract_message (buffer ++ more) ≡ ok (m, tail) =
        rw e (extract_message-frame m tail fits) in
      let both = extract_message-append buffer more _ _ got in
      (drop len t, ground (arith, all, both, got), ground (arith, all, both))
]
  where
    no_prefix : length_prefix buffer ≡ none → ⊥
    no_prefix p = unfold has_message_in_buffer in ground (arith, p, has)

    complete :
        (t : Bytes) (len : ℕ)
        → length_prefix buffer ≡ some (len, t)
        → len < 2 ^ 32 - 4
        → len ≤ length t
    complete t len p small =
        unfold has_message_in_buffer in ground (arith, p, has, read_u32-length buffer t len p)

drain_stop :
    (fuel : ℕ) (buffer : Bytes)
    → has_message_in_buffer buffer ≡ false
    → drain_loop (suc fuel) buffer ≡ some (ok ([], buffer))
unfolding drain_loop
drain_stop fuel buffer h = ground arith

drain_step :
    (fuel : ℕ) (buffer message rest : Bytes)
    → has_message_in_buffer buffer ≡ true
    → extract_message buffer ≡ ok (message, rest)
    → drain_loop (suc fuel) buffer ≡ prepend (message ∷ []) (drain_loop fuel rest)
unfolding drain_loop
drain_step fuel buffer message rest has got = ground arith

-- After the loop on the beginning of a stream: messages that were handed over, messages to come,
-- and a buffer that begins the latter and holds no whole message.
record Progress (ms : List Bytes) (more : Bytes) (r : Option (Result Failure (List Bytes × Bytes)))
    : Type 0 where
  done : List Bytes
  todo : List Bytes
  left : Bytes
  result : r ≡ some (ok (done, left))
  all : done ++ todo ≡ ms
  rest : left ++ more ≡ frames todo
  waiting : has_message_in_buffer left ≡ false

has_message-nil : has_message_in_buffer [] ≡ false
unfolding has_message_in_buffer
has_message-nil = refl

-- Taking a message out leaves a shorter buffer.
shorter :
    (buffer more m tail rest : Bytes)
    → buffer ++ more ≡ frame m ++ tail
    → rest ++ more ≡ tail
    → length rest < length buffer
shorter buffer more m tail rest e f = omega (
  arith,
  ap length e,
  ap length f,
  length-append buffer more,
  length-append (frame m) tail,
  length-append (write_u32 (length m % 2 ^ 32)) m,
  length-append rest more,
  length-write_u32 (length m % 2 ^ 32),
)

drain_loop-Progress :
    (ms : List Bytes) (fuel : ℕ) (buffer more : Bytes)
    → All FitsFrame ms
    → buffer ++ more ≡ frames ms
    → length buffer < fuel
    → Progress ms more (drain_loop fuel buffer)
unfolding frames
drain_loop-Progress [] zero buffer more fits e h = absurd (omega arith)
drain_loop-Progress (m ∷ ms) zero buffer more fits e h = absurd (omega arith)
drain_loop-Progress [] (suc fuel) [] more fits e h = record {
  done = [];
  todo = [];
  left = [];
  result = drain_stop fuel [] has_message-nil;
  all = refl;
  rest = e;
  waiting = has_message-nil;
}
drain_loop-Progress [] (suc fuel) (b ∷ buffer) more fits e h = cc
drain_loop-Progress (m ∷ ms) (suc fuel) buffer more (f, fs) e h =
    elim (Bool-cases (has_message_in_buffer buffer)) [
      | inl has ↦
          let (rest, got, tail) = first_message buffer more m (frames ms) f e has in
          let p =
            drain_loop-Progress ms fuel rest more fs tail
              (omega (arith, shorter buffer more m (frames ms) rest e tail)) in
          record {
            done = m ∷ p.done;
            todo = p.todo;
            left = p.left;
            result = drain_step fuel buffer m rest has got ∙ ap (prepend (m ∷ [])) p.result;
            all = ap (◌∷◌ m) p.all;
            rest = p.rest;
            waiting = p.waiting;
          }
      | inr wait ↦ record {
        done = [];
        todo = m ∷ ms;
        left = buffer;
        result = drain_stop fuel buffer wait;
        all = refl;
        rest = e;
        waiting = wait;
      }
    ]

unfoldable pub concat : List Bytes → Bytes
concat [] = []
concat (c ∷ cs) = c ++ concat cs

-- A buffer that is the whole of what is to come and holds no message is empty.
waiting-nil :
    (todo : List Bytes) (left : Bytes)
    → All FitsFrame todo
    → left ≡ frames todo
    → has_message_in_buffer left ≡ false
    → (left ≡ []) × (todo ≡ [])
unfolding frames
waiting-nil [] left fits e h = (e, refl)
waiting-nil (m ∷ ms) left (f, fs) e h = cc (rw (← e) at (has_message-frame m (frames ms) f))

All-append_right {ℓ κ} :
    {A : Type ℓ} (P : A → Type κ) (xs ys zs : List A) → xs ++ ys ≡ zs → All P zs → All P ys
All-append_right P [] ys zs e h = rw e h
All-append_right P (x ∷ xs) ys [] e h = cc
All-append_right P (x ∷ xs) ys (z ∷ zs) e h = All-append_right P xs ys zs (cc) h.1

drain_run : (buffer : Bytes) → drain buffer ≡ drain_loop (suc (length buffer)) buffer
unfolding drain
drain_run buffer = refl

feed_step :
    (buffer chunk : Bytes) (chunks messages : List Bytes) (left : Bytes)
    → drain (buffer ++ chunk) ≡ some (ok (messages, left))
    → feed buffer (chunk ∷ chunks) ≡ prepend messages (feed left chunks)
unfolding feed
feed_step buffer chunk chunks messages left e = ground arith

feed-frames_from :
    (chunks : List Bytes) (ms : List Bytes) (buffer : Bytes)
    → All FitsFrame ms
    → has_message_in_buffer buffer ≡ false
    → buffer ++ concat chunks ≡ frames ms
    → feed buffer chunks ≡ some (ok (ms, []))
unfolding feed concat
feed-frames_from [] ms buffer fits h e =
    let done = waiting-nil ms buffer fits (sym (append-nil buffer) ∙ e) h in cc (done.0, done.1)
feed-frames_from (c ∷ cs) ms buffer fits h e =
    let p =
      drain_loop-Progress ms (suc (length (buffer ++ c))) (buffer ++ c) (concat cs) fits
        (append_assoc buffer c (concat cs) ∙ e) (omega arith) in
    let later =
      feed-frames_from cs p.todo p.left (All-append_right FitsFrame p.done p.todo ms p.all fits)
        p.waiting p.rest in
    feed_step buffer c cs p.done p.left (drain_run (buffer ++ c) ∙ p.result)
    ∙ ap (prepend p.done) later
    ∙ ap (λ l. some (ok (l, []))) p.all

-- However the bytes of a sequence of messages, each shorter than 2^32 - 4, are cut into arrivals,
-- the receive loop hands over exactly those messages in their order and ends with an empty buffer.
pub feed-frames :
    (ms chunks : List Bytes)
    → All FitsFrame ms
    → concat chunks ≡ frames ms
    → feed [] chunks ≡ some (ok (ms, []))
feed-frames ms chunks fits e = feed-frames_from chunks ms [] fits has_message-nil e
