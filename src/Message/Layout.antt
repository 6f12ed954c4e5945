-- ===== src/Message/Layout.antt =====
-- The two formats of a message in Serializer::deserialize of src/models/message.cpp: what stands where.
use Prim.Native.Nat.{bit_and}
use my_messenger.Prelude.{nat_eq, ℕ, ◌≡◌, true, false, List, [], ◌∷◌, ◌++◌, length, some, Option}
use my_messenger.Prelude.Bytes.{Bytes}
use my_messenger.Wire.{read_u8, read_u16, read_u32, read_u64}
use my_messenger.Message.{Message, MessageEnvelope, empty_envelope}
use my_messenger.Message.Codec.{extended_format_flag}

-- How a number is read off the front of the bytes.
abbrev pub Reads : Type 0
Reads = Bytes → Option (ℕ × Bytes)

-- A number in front of the bytes is the length of a part, and the whole part follows it, then `rest`.
abbrev pub IsBehindLength : Reads → Bytes → Bytes → Bytes → Type 0
IsBehindLength read raw part rest = read raw ≡ some (length part, part ++ rest)

-- The entries of the metadata one after the other, each behind 16 bits of length.
unfoldable pub HasEntries : Bytes → List Bytes → Bytes → Type 0
HasEntries raw [] rest = raw ≡ rest
HasEntries raw (m ∷ ms) rest =
    (after : Bytes) × IsBehindLength read_u16 raw m after × HasEntries after ms rest

-- The metadata, and then the payload behind 32 bits of length.
pub record HasBody (raw : Bytes) (metadata : List Bytes) (payload : Bytes) : Type 0 where
  pub behind_metadata : Bytes
  pub behind_payload : Bytes
  pub metadata_there : HasEntries raw metadata behind_metadata
  pub payload_there : IsBehindLength read_u32 behind_metadata payload behind_payload

-- The flags, the time, the sender and the recipient each behind 8 bits of length, the number in
-- sequence and the flags again.
pub record HasEnvelope (raw : Bytes) (timestamp : ℕ) (e : MessageEnvelope) (rest : Bytes)
    : Type 0 where
  pub first_flags : ℕ
  pub behind_flags : Bytes
  pub behind_time : Bytes
  pub behind_sender : Bytes
  pub behind_recipient : Bytes
  pub behind_number : Bytes
  pub flags_there : read_u32 raw ≡ some (first_flags, behind_flags)
  pub time_there : read_u64 behind_flags ≡ some (timestamp, behind_time)
  pub sender_there : IsBehindLength read_u8 behind_time e.sender behind_sender
  pub recipient_there : IsBehindLength read_u8 behind_sender e.recipient behind_recipient
  pub number_there : read_u64 behind_recipient ≡ some (e.sequence_number, behind_number)
  pub last_flags_there : read_u32 behind_number ≡ some (e.flags, rest)

-- What follows the first two bytes in the compact format, where the second is the count.
pub record IsCompactInput (second : ℕ) (raw : Bytes) (m : Message) : Type 0 where
  pub compact_flag : nat_eq (bit_and second extended_format_flag) 0 ≡ true
  pub count_first : length m.metadata ≡ second
  pub body : HasBody raw m.metadata m.payload
  pub no_envelope : m.envelope ≡ empty_envelope

-- What follows them in the extended format, where the second is the version with a flag.
pub record IsExtendedInput (second : ℕ) (raw : Bytes) (m : Message) : Type 0 where
  pub extended_flag : nat_eq (bit_and second extended_format_flag) 0 ≡ false
  pub version : m.header.protocol_version ≡ bit_and second 0x7f
  pub behind_envelope : Bytes
  pub behind_count : Bytes
  pub envelope : HasEnvelope raw m.header.timestamp m.envelope behind_envelope
  pub count_there : read_u8 behind_envelope ≡ some (length m.metadata, behind_count)
  pub body : HasBody behind_count m.metadata m.payload
