-- ===== src/Transport/Wire.antt =====
-- What is queued on one connection arrives on the other, through the transport of
-- src/transport/transport.cpp and the connections of src/transport/connection.cpp.
use my_messenger.Prelude.{
  ℕ, ◌+◌, ◌-◌, ◌%◌, ◌^◌, ◌<◌, ◌≡◌, refl, sym, ap, ◌∙◌, subst, true, false, List, [], ◌∷◌, ◌++◌,
  length, length-append, append-nil, append_assoc, map, if◌then◌else◌, Option, none, some, arith,
  Option-cases, Bool-cases, inl, inr,
}
use my_messenger.Prelude.Bytes.{Bytes}
use my_messenger.Prelude.Result.{Result, ok, err}
use my_messenger.Failure.{Failure}
use my_messenger.Wire.{write_u32}
use my_messenger.Wire.Laws.{read_u32-length}
use my_messenger.Framing.{length_prefix, has_message_in_buffer, extract_message, form_message}
use my_messenger.Framing.RoundTrip.{
  frame, FitsFrame, prefix-frame, has_message-frame, extract_message-frame,
}
use my_messenger.Framing.Stream.{concat, first_message, prefix-append}
use my_messenger.Transport.{
  extract_complete_message, Recv, chunk, again, received, would_block, ReceiveResult, receive_loop,
  receive, transport_bytes, ClientConnection, new_connection, queue_send, try_receive,
  has_complete_message, take_message,
}

abbrev pub taken : Result Failure (Bytes × Bytes) → Option (Bytes × Bytes)
taken (ok got) = some got
taken (err e) = none

-- On a buffer whose prefix is below 2^32 - 4, extract_complete_message does what the test and the
-- extraction of FramerMessage do together.
pub extract_complete_message-framer :
    (buffer rest : Bytes) (len : ℕ)
    → length_prefix buffer ≡ some (len, rest)
    → len < 2 ^ 32 - 4
    → extract_complete_message buffer
      ≡ (if has_message_in_buffer buffer then taken (extract_message buffer) else none)
unfolding extract_complete_message has_message_in_buffer extract_message
extract_complete_message-framer buffer rest len e small =
    ground (arith, read_u32-length buffer rest len e)

-- A part of what begins with a frame gives nothing before the frame is whole.
not_yet :
    (buffer more m tail : Bytes)
    → FitsFrame m
    → buffer ++ more ≡ frame m ++ tail
    → has_message_in_buffer buffer ≡ false
    → extract_complete_message buffer ≡ none
not_yet buffer more m tail fits e has = elim (Option-cases (length_prefix buffer)) [
  | inl p ↦ unfold extract_complete_message in ground (arith, p)
  | inr ((len, t), p) ↦
      let whole : length_prefix (buffer ++ more) ≡ some (length m, m ++ tail) =
        rw e (prefix-frame m tail fits) in
      let small : len < 2 ^ 32 - 4 = ground (arith, whole, prefix-append buffer more t len p) in
      extract_complete_message-framer buffer t len p small ∙ ground (arith, has)
]

now :
    (buffer more m tail : Bytes)
    → FitsFrame m
    → buffer ++ more ≡ frame m ++ tail
    → has_message_in_buffer buffer ≡ true
    → (left : Bytes) × (extract_complete_message buffer ≡ some (m, left))
now buffer more m tail fits e has = elim (Option-cases (length_prefix buffer)) [
  | inl p ↦ absurd (unfold has_message_in_buffer in ground (arith, p, has))
  | inr ((len, t), p) ↦
      let whole : length_prefix (buffer ++ more) ≡ some (length m, m ++ tail) =
        rw e (prefix-frame m tail fits) in
      let small : len < 2 ^ 32 - 4 = ground (arith, whole, prefix-append buffer more t len p) in
      let (left, got, same) = first_message buffer more m tail fits e has in
      (left, extract_complete_message-framer buffer t len p small ∙ ground (arith, has, got))
]

abbrev pub got_message : Bytes → ReceiveResult
got_message m = record { status = received; content = m; error_code = 0 }

receive_loop_gets :
    (chunks : List Bytes) (acc m tail : Bytes) (answers : List Recv)
    → FitsFrame m
    → has_message_in_buffer acc ≡ false
    → acc ++ concat chunks ≡ frame m ++ tail
    → (left : Bytes) × (more : List Recv) × (receive_loop acc (map chunk chunks ++ answers)
        ≡ some (got_message m, left, more))
unfolding receive_loop concat
receive_loop_gets [] acc m tail answers fits has e =
    absurd (ground (arith, has, append-nil acc, has_message-frame m tail fits))
receive_loop_gets (c ∷ cs) acc m tail answers fits has e =
    let all : (acc ++ c) ++ concat cs ≡ frame m ++ tail = append_assoc acc c (concat cs) ∙ e in
    elim (Bool-cases (has_message_in_buffer (acc ++ c))) [
      | inl there ↦
          let (left, got) = now (acc ++ c) (concat cs) m tail fits all there in
          (left, map chunk cs ++ answers, ground (arith, got))
      | inr missing ↦
          let (left, more, got) = receive_loop_gets cs (acc ++ c) m tail answers fits missing all in
          (left, more, ground (arith, got, not_yet (acc ++ c) (concat cs) m tail fits all missing))
    ]

-- A byte stream begins with the frame of a message shorter than 2^32 - 4, and the system gives it to
-- successive calls of recv cut in any way, with no EAGAIN, error or end of the stream between. Then a
-- call of TCPTransport::receive ends with that message and no error, whatever the accumulation buffer
-- held before.
pub receive-transport_bytes :
    (chunks : List Bytes) (before m tail : Bytes) (answers : List Recv)
    → length m < 2 ^ 32 - 4
    → concat chunks ≡ transport_bytes m ++ tail
    → (left : Bytes) × (more : List Recv) × (receive before (map chunk chunks ++ answers)
        ≡ some (record { status = received; content = m; error_code = 0 }, left, more))
unfolding receive transport_bytes has_message_in_buffer
receive-transport_bytes chunks before m tail answers fits e =
    receive_loop_gets chunks [] m tail answers fits refl e

-- A part that is shorter than the frame is no whole message.
too_short :
    (buffer more m tail : Bytes)
    → FitsFrame m
    → buffer ++ more ≡ frame m ++ tail
    → length buffer < 4 + length m
    → has_message_in_buffer buffer ≡ false
unfolding has_message_in_buffer
too_short buffer more m tail fits e short = elim (Option-cases (length_prefix buffer)) [
  | inl p ↦ ground (arith, p)
  | inr ((len, t), p) ↦
      let whole : length_prefix (buffer ++ more) ≡ some (length m, m ++ tail) =
        rw e (prefix-frame m tail fits) in
      let same : len ≡ length m = ground (arith, whole, prefix-append buffer more t len p) in
      ground (arith, p, same, read_u32-length buffer t len p)
]

receive_loop_blocks :
    (chunks : List Bytes) (acc more m tail : Bytes) (answers : List Recv)
    → FitsFrame m
    → (acc ++ concat chunks) ++ more ≡ frame m ++ tail
    → length (acc ++ concat chunks) < 4 + length m
    → receive_loop acc (map chunk chunks ++ again ∷ answers)
      ≡ some (
        record { status = would_block; content = acc ++ concat chunks; error_code = 0 },
        acc ++ concat chunks,
        answers,
      )
unfolding receive_loop concat
receive_loop_blocks [] acc more m tail answers fits e part = ground (arith, append-nil acc)
receive_loop_blocks (c ∷ cs) acc more m tail answers fits e part =
    let split : acc ++ (c ++ concat cs) ≡ (acc ++ c) ++ concat cs =
      sym (append_assoc acc c (concat cs)) in
    let all : ((acc ++ c) ++ concat cs) ++ more ≡ frame m ++ tail =
      ap (λ b. b ++ more) (sym split) ∙ e in
    let whole : (acc ++ c) ++ (concat cs ++ more) ≡ frame m ++ tail =
      sym (append_assoc (acc ++ c) (concat cs) more) ∙ all in
    let still : length ((acc ++ c) ++ concat cs) < 4 + length m =
      omega (arith, part, ap length split) in
    let later = receive_loop_blocks cs (acc ++ c) more m tail answers fits all still in
    let before : length (acc ++ c) < 4 + length m =
      omega (arith, still, length-append (acc ++ c) (concat cs)) in
    let missing = too_short (acc ++ c) (concat cs ++ more) m tail fits whole before in
    let nothing = not_yet (acc ++ c) (concat cs ++ more) m tail fits whole missing in
    ground (arith, nothing, later, split)

-- A byte stream begins with the frame of a message shorter than 2^32 - 4, and recv gives a part of it
-- that is not yet the whole frame, cut in any way, and then EAGAIN. Then TCPTransport::receive answers
-- WOULDBLOCK with the bytes of the part, its four bytes of length included; the next call starts anew
-- behind them, whatever it is given.
pub receive-again :
    (chunks : List Bytes) (before more m tail : Bytes) (answers : List Recv)
    → length m < 2 ^ 32 - 4
    → concat chunks ++ more ≡ transport_bytes m ++ tail
    → length (concat chunks) < 4 + length m
    → (receive before (map chunk chunks ++ again ∷ answers)
        ≡ some (
          record { status = would_block; content = concat chunks; error_code = 0 },
          concat chunks,
          answers,
        ))
      × (receive (concat chunks) answers ≡ receive [] answers)
unfolding receive transport_bytes
receive-again chunks before more m tail answers fits e part =
    (receive_loop_blocks chunks [] more m tail answers fits e part, refl)

-- What is queued on a fresh connection, fewer than 2^32 - 8 bytes, and goes out in one send, arrives
-- where recv gives no EAGAIN before it is whole: however else the system cuts up the stream that begins
-- with it, the receiver's try_receive succeeds,
-- then there is a complete message, which is what was queued, and the buffer is empty again.
pub queue_send-arrives :
    (content tail before : Bytes) (chunks : List Bytes) (answers : List Recv)
    → length content < 2 ^ 32 - 8
    → concat chunks ≡ transport_bytes (queue_send content new_connection).send_buffer ++ tail
    → (result : ReceiveResult) × (left : Bytes) × (more : List Recv) × (c : ClientConnection)
      × (receive before (map chunk chunks ++ answers) ≡ some (result, left, more))
      × (try_receive result new_connection ≡ (true, c))
      × (has_complete_message c ≡ true)
      × (take_message c ≡ ok (content, new_connection))
unfolding queue_send form_message try_receive has_complete_message take_message
queue_send-arrives content tail before chunks answers small e =
    let short : length content < 2 ^ 32 - 4 = omega arith in
    let (left, more, got) =
      receive-transport_bytes chunks before (frame content) tail answers
        (omega (
          arith,
          length-append (write_u32 (length content % 2 ^ 32)) content,
          length_prefix_bytes (length content % 2 ^ 32),
        ))
        e in
    (
      got_message (frame content),
      left,
      more,
      record { recv_buffer = frame content; send_buffer = [] },
      got,
      refl,
      subst (λ b. has_message_in_buffer b ≡ true) (append-nil (frame content))
          (has_message-frame content [] short),
      rw
          (subst (λ b. extract_message b ≡ ok (content, [])) (append-nil (frame content))
            (extract_message-frame content [] short))
          refl,
    )
  where
    length_prefix_bytes : (n : ℕ) → length (write_u32 n) ≡ 4
    length_prefix_bytes n = unfold write_u32 in refl
