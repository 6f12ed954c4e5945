-- ===== src/Message/Extended.antt =====
-- The extended format of the Serializer in src/models/message.cpp: what is written is read back.
use Prim.Native.Nat.{bit_and, bit_or}
use my_messenger.Prelude.{
  ℕ, suc, ◌-◌, ◌%◌, ◌^◌, ◌<◌, ◌≤◌, ◌≡◌, ap, ◌∙◌, true, false, ◌∷◌, ◌++◌, some, length,
  length-append, nat_eq, append_assoc, arith,
}
use my_messenger.Prelude.Bytes.{Bytes}
use my_messenger.Prelude.Result.{ok}
use my_messenger.Wire.{write_u32, read_u8}
use my_messenger.Wire.Laws.{
  read_u32-write_u32, read_u64-write_u64, read_bytes-append, length-write_u32,
}
use my_messenger.Message.{Message, type_code}
use my_messenger.Message.Body.{FitsBody, IsWireType, type_of_code-type_code, read_body-write_body}
use my_messenger.Message.Bits.{extended_bit, version_bits}
use my_messenger.Message.Codec.{
  write_body, write_short, write_envelope, write_extended, serialize, read_envelope, read_extended,
  deserialize, use_extended_format, extended_format_flag,
}

-- A message that goes out in the extended format and fits it.
pub record IsExtended (m : Message) : Type 0 where
  pub type : IsWireType m.header.type
  pub some_version : 0 < m.header.protocol_version
  pub version : m.header.protocol_version < 128
  pub extended : use_extended_format m ≡ true
  pub flags : m.envelope.flags < 2 ^ 32
  pub timestamp : m.header.timestamp < 2 ^ 64
  pub sequence_number : m.envelope.sequence_number < 2 ^ 64
  pub sender : length m.envelope.sender < 256
  pub recipient : length m.envelope.recipient < 256
  pub counted : m.metalen ≡ length m.metadata
  pub few : m.metalen < 256
  pub fits : FitsBody m.metadata m.payload

-- What the receiver of `n` bytes has: the length field is filled from `n`.
abbrev pub received : ℕ → Message → Message
received n m = record m { header = record (m.header) { size = (n - 2) % 2 ^ 32; checksum = 0 } }

read_short :
    (s rest : Bytes) → length s < 256 → read_u8 (write_short s ++ rest) ≡ some (length s, s ++ rest)
unfolding read_u8 write_short
read_short s rest h = ap (λ n. some (n, s ++ rest)) (omega arith)

envelope_assoc :
    (m : Message) (tail rest : Bytes)
    → write_envelope m tail ++ rest ≡ write_envelope m (tail ++ rest)
unfolding write_envelope
envelope_assoc m tail rest = simp append_assoc

read_envelope-write_envelope :
    (m : Message) (rest : Bytes)
    → IsExtended m
    → read_envelope (write_envelope m rest) ≡ ok (m.header.timestamp, m.envelope, rest)
unfolding read_envelope write_envelope
read_envelope-write_envelope m rest x = rw (
  read_u32-write_u32 m.envelope.flags _ x.flags,
  read_u64-write_u64 m.header.timestamp _ x.timestamp,
  read_short m.envelope.sender _ x.sender,
  read_bytes-append m.envelope.sender _,
  read_short m.envelope.recipient _ x.recipient,
  read_bytes-append m.envelope.recipient _,
  read_u64-write_u64 m.envelope.sequence_number _ x.sequence_number,
  read_u32-write_u32 m.envelope.flags _ x.flags,
)

abbrev tail_bytes : Message → Bytes → Bytes
tail_bytes m rest = m.metalen ∷ (write_body m.metadata m.payload ++ rest)

read_extended-write_extended :
    (n : ℕ) (m : Message) (rest : Bytes)
    → IsExtended m
    → read_extended n
        (type_code m.header.type % 256)
        (bit_or 0x80 (bit_and m.header.protocol_version 0x7f))
        (write_envelope m (tail_bytes m rest))
      ≡ ok (received n m)
unfolding read_extended read_u8
read_extended-write_extended n m rest x =
    let nonzero : nat_eq m.header.protocol_version 0 ≡ false = ground (arith, x.some_version) in
    rw
      (
        version_bits m.header.protocol_version x.version,
        nonzero,
        read_envelope-write_envelope m _ x,
      )
      (rw
        (
          x.counted,
          read_body-write_body m.metadata m.payload rest x.fits,
          type_of_code-type_code m.header.type x.type,
        )
        (cc))

length-write_envelope : (m : Message) (rest : Bytes) → 4 ≤ length (write_envelope m rest)
unfolding write_envelope
length-write_envelope m rest =
    omega (arith, length-append (write_u32 m.envelope.flags) _, length-write_u32 m.envelope.flags)

format_extended :
    (code second : ℕ) (tail : Bytes)
    → 4 ≤ length tail
    → nat_eq (bit_and second extended_format_flag) 0 ≡ false
    → deserialize (code ∷ second ∷ tail) ≡ read_extended (suc (suc (length tail))) code second tail
unfolding deserialize
format_extended code second tail h set = ground arith

-- A message with an envelope or another version than 1, whose fields fit the format (a version of
-- 1 to 127, names of fewer than 256 bytes, fewer than 256 metadata entries of fewer than 2^16 bytes
-- each, fewer than 2^32 bytes of metadata and payload), is read back from its bytes, whatever
-- follows them, with all its fields but the checksum, which is 0, and the length field, which is
-- the number of bytes received less two, as a 32-bit number.
pub deserialize-serialize_extended :
    (m : Message) (rest : Bytes)
    → IsExtended m
    → deserialize (serialize m ++ rest) ≡ ok (received (length (serialize m ++ rest)) m)
unfolding serialize write_extended
deserialize-serialize_extended m rest x =
    let tail = write_envelope m (tail_bytes m rest) in
    rw (x.extended, envelope_assoc m (m.metalen ∷ write_body m.metadata m.payload) rest)
      (format_extended _ _ tail (length-write_envelope m _) (extended_bit _ x.version)
        ∙ read_extended-write_extended (suc (suc (length tail))) m rest x)
