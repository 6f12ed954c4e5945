-- ===== src/Framing/Overflow.antt =====
-- has_message_in_buffer of src/protocol/framing.cpp adds 4 to the length prefix in 32 bits.
use my_messenger.Prelude.{
  ℕ, ◌+◌, ◌-◌, ◌^◌, ◌<◌, ◌≤◌, ◌≡◌, true, length, take, drop, length-take, length-drop, arith, some,
}
use my_messenger.Prelude.Bytes.{Bytes}
use my_messenger.Prelude.Result.{ok, err}
use my_messenger.Failure.{undefined}
use my_messenger.Wire.Laws.{read_u32-length}
use my_messenger.Framing.{has_message_in_buffer, extract_message, length_prefix}

-- For a prefix below 2^32 - 4 the test can be trusted: where it reports a message, a message is given
-- back, it is as long as the prefix says, and with the prefix and what is left it is as long as the
-- buffer.
pub extract_message_safe :
    (buffer rest : Bytes) (len : ℕ)
    → length_prefix buffer ≡ some (len, rest)
    → len < 2 ^ 32 - 4
    → has_message_in_buffer buffer ≡ true
    → (message : Bytes) × (left : Bytes) × (extract_message buffer ≡ ok (message, left))
      × (length message ≡ len)
      × (length buffer ≡ 4 + len + length left)
unfolding has_message_in_buffer extract_message
extract_message_safe buffer rest len e small h =
    let counted = read_u32-length buffer rest len e in
    (
      take len rest,
      drop len rest,
      ground arith,
      ground (arith, length-take len rest),
      ground (arith, length-drop len rest),
    )

-- For a prefix of 2^32 - 4 or more the test wraps: any buffer with such a prefix that holds less
-- than the prefix says is reported to hold a message, and taking it out reads past the end.
pub has_message_wraps :
    (buffer rest : Bytes) (len : ℕ)
    → length_prefix buffer ≡ some (len, rest)
    → 2 ^ 32 - 4 ≤ len
    → len < 2 ^ 32
    → length rest < len
    → (has_message_in_buffer buffer ≡ true) × (extract_message buffer ≡ err undefined)
unfolding has_message_in_buffer extract_message
has_message_wraps buffer rest len e big word short =
    ground (arith, read_u32-length buffer rest len e)
