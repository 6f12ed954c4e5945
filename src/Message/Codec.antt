-- ===== src/Message/Codec.antt =====
-- The class Serializer of src/models/message.cpp: the compact and the extended wire format.
-- `reserve` has no effect on the value and is left out. The two formats write and read their
-- metadata and payload by the same code, which stands here once.
use Prim.Native.Nat.{bit_and, bit_or}
use my_messenger.Prelude.{
  ℕ, zero, suc, ◌+◌, ◌-◌, ◌/◌, ◌%◌, ◌^◌, Bool, not, ◌||◌, List, [], ◌∷◌, ◌++◌, length, ltb, nat_eq,
  if◌then◌else◌,
}
use my_messenger.Prelude.Bytes.{Bytes, is_empty}
use my_messenger.Prelude.Result.{Result, ok, err, ◌>>=◌, or_throw}
use my_messenger.Failure.{
  Failure, too_short, metadata_length_missing, metadata_out_of_bounds, payload_length_missing,
  payload_out_of_bounds, unsupported_version, flags_missing, timestamp_missing,
  sender_length_missing, sender_out_of_bounds, recipient_length_missing, recipient_out_of_bounds,
  sequence_missing, envelope_flags_missing, metadata_count_missing,
}
use my_messenger.Wire.{write_u32, write_u64, read_u8, read_u16, read_u32, read_u64, read_bytes}
use my_messenger.Message.{
  Message, MessageEnvelope, type_code, type_of_code, protocol_version, empty_envelope,
  compute_serialized_size,
}

abbrev pub extended_format_flag : ℕ
extended_format_flag = 0x80

abbrev pub use_extended_format : Message → Bool
use_extended_format m =
    not (is_empty m.envelope.sender)
    || not (is_empty m.envelope.recipient)
    || not (nat_eq m.envelope.sequence_number 0)
    || not (nat_eq m.envelope.flags 0)
    || not (nat_eq m.header.protocol_version protocol_version)

-- uint16_t len = m.size(); then its two bytes, then the entry
unfoldable pub write_entry : Bytes → Bytes
write_entry m = let len = length m % 2 ^ 16 in (len / 2 ^ 8 % 256) ∷ (len % 256) ∷ m

unfoldable pub write_metadata : List Bytes → Bytes
write_metadata [] = []
write_metadata (m ∷ ms) = write_entry m ++ write_metadata ms

unfoldable pub write_body : List Bytes → Bytes → Bytes
write_body metadata payload =
    write_metadata metadata ++ (write_u32 (length payload % 2 ^ 32) ++ payload)

unfoldable pub write_compact : Message → Bytes
write_compact m = (type_code m.header.type % 256) ∷ m.metalen ∷ write_body m.metadata m.payload

-- A length byte and the bytes.
unfoldable pub write_short : Bytes → Bytes
write_short s = (length s % 256) ∷ s

unfoldable pub write_envelope : Message → Bytes → Bytes
write_envelope m rest =
    write_u32 m.envelope.flags
    ++ (write_u64 m.header.timestamp
        ++ (write_short m.envelope.sender
            ++ (write_short m.envelope.recipient
                ++ (write_u64 m.envelope.sequence_number ++ (write_u32 m.envelope.flags ++ rest)))))

unfoldable pub write_extended : Message → Bytes
write_extended m =
    (type_code m.header.type % 256)
    ∷ bit_or extended_format_flag (bit_and m.header.protocol_version 0x7f)
    ∷ write_envelope m (m.metalen ∷ write_body m.metadata m.payload)

unfoldable pub serialize : Message → Bytes
serialize m = if use_extended_format m then write_extended m else write_compact m

-- for (i = 0; i < metalen; ++i)
unfoldable pub read_metadata : ℕ → Bytes → Result Failure (List Bytes × Bytes)
read_metadata zero rest = ok ([], rest)
read_metadata (suc n) rest = do
  (len, rest) ← or_throw (read_u16 rest) metadata_length_missing
  (m, rest) ← or_throw (read_bytes len rest) metadata_out_of_bounds
  (ms, rest) ← read_metadata n rest
  ok (m ∷ ms, rest)

unfoldable pub read_body : ℕ → Bytes → Result Failure (List Bytes × Bytes)
read_body metalen rest = do
  (metadata, rest) ← read_metadata metalen rest
  (plen, rest) ← or_throw (read_u32 rest) payload_length_missing
  (payload, rest) ← or_throw (read_bytes plen rest) payload_out_of_bounds
  ok (metadata, payload)

unfoldable pub read_compact : ℕ → ℕ → Bytes → Result Failure Message
read_compact code second rest = do
  (metadata, payload) ← read_body second rest
  size ← compute_serialized_size second metadata payload
  ok (record {
    header = record {
      type = type_of_code code;
      size = size;
      checksum = 0;
      timestamp = 0;
      protocol_version = protocol_version;
    };
    metalen = second;
    envelope = empty_envelope;
    metadata = metadata;
    payload = payload;
  })

-- The flags are read twice, and the second reading stays.
unfoldable pub read_envelope : Bytes → Result Failure (ℕ × MessageEnvelope × Bytes)
read_envelope rest = do
  (flags, rest) ← or_throw (read_u32 rest) flags_missing
  (timestamp, rest) ← or_throw (read_u64 rest) timestamp_missing
  (sender_len, rest) ← or_throw (read_u8 rest) sender_length_missing
  (sender, rest) ← or_throw (read_bytes sender_len rest) sender_out_of_bounds
  (recipient_len, rest) ← or_throw (read_u8 rest) recipient_length_missing
  (recipient, rest) ← or_throw (read_bytes recipient_len rest) recipient_out_of_bounds
  (sequence_number, rest) ← or_throw (read_u64 rest) sequence_missing
  (flags, rest) ← or_throw (read_u32 rest) envelope_flags_missing
  ok (
    timestamp,
    record {
      sender = sender;
      recipient = recipient;
      sequence_number = sequence_number;
      flags = flags;
    },
    rest,
  )

-- `raw_size - 2` is cast to uint32_t; the caller has tested that raw_size is 6 at least.
unfoldable pub read_extended : ℕ → ℕ → ℕ → Bytes → Result Failure Message
read_extended raw_size code second rest =
    let version = bit_and second 0x7f in
    if nat_eq version 0 then err unsupported_version else do
      (timestamp, envelope, rest) ← read_envelope rest
      (metalen, rest) ← or_throw (read_u8 rest) metadata_count_missing
      (metadata, payload) ← read_body metalen rest
      ok (record {
        header = record {
          type = type_of_code code;
          size = (raw_size - 2) % 2 ^ 32;
          checksum = 0;
          timestamp = timestamp;
          protocol_version = version;
        };
        metalen = metalen;
        envelope = envelope;
        metadata = metadata;
        payload = payload;
      })

unfoldable pub read_format : Bytes → Result Failure Message
read_format (code ∷ second ∷ rest) =
    if nat_eq (bit_and second extended_format_flag) 0
    then read_compact code second rest
    else read_extended (2 + length rest) code second rest
read_format _ = err too_short

unfoldable pub deserialize : Bytes → Result Failure Message
unfolding read_format
deserialize raw = if ltb (length raw) 6 then err too_short else read_format raw
