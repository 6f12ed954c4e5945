-- ===== src/Message/Compact.antt =====
-- The compact format of the Serializer in src/models/message.cpp: what is written is read back.

use my_messenger.Prelude.{
  ℕ, ◌+◌, ◌%◌, ◌<◌, ◌≡◌, refl, List, ◌++◌, length, length-append, arith, le→ltb_false,
}
use my_messenger.Prelude.Bytes.{Bytes}
use my_messenger.Prelude.Result.{ok}
use my_messenger.Message.{
  Message, MessageType, type_code, metadata_size, empty_envelope, new_message, protocol_version,
}
use my_messenger.Message.Body.{
  FitsBody, IsWireType, type_of_code-type_code, read_body-write_body, length-write_body,
  compute_serialized_size-ok,
}
use my_messenger.Message.Bits.{compact_bit}
use my_messenger.Message.Codec.{write_body, write_compact, serialize, read_compact, deserialize}

-- A message that goes out in the compact format and fits it.
pub record IsCompact (m : Message) : Type 0 where
  pub type : IsWireType m.header.type
  pub version : m.header.protocol_version ≡ 1
  pub envelope : m.envelope ≡ empty_envelope
  pub counted : m.metalen ≡ length m.metadata
  pub few : m.metalen < 128
  pub fits : FitsBody m.metadata m.payload

-- What the receiver of a compact message has: the format carries no timestamp and no checksum.
abbrev pub received : Message → Message
received m = record m {
  header = record (m.header) {
    size = 2 + metadata_size m.metadata + 4 + length m.payload;
    checksum = 0;
    timestamp = 0;
  };
}

pub serialize-IsCompact : (m : Message) → IsCompact m → serialize m ≡ write_compact m
unfolding serialize
serialize-IsCompact m c = rw (c.envelope, c.version)

read_compact-write_body :
    (m : Message) (rest : Bytes)
    → IsCompact m
    → read_compact
        (type_code m.header.type % 256)
        m.metalen
        (write_body m.metadata m.payload ++ rest)
      ≡ ok (received m)
unfolding read_compact
read_compact-write_body m rest c =
    rw
      (
        c.counted,
        read_body-write_body m.metadata m.payload rest c.fits,
        compute_serialized_size-ok m.metadata m.payload c.fits,
        type_of_code-type_code m.header.type c.type,
      )
      (cc (c.version, c.envelope))

-- A message without envelope, of version 1, with fewer than 128 metadata entries of fewer than
-- 2^16 bytes each and fewer than 2^32 bytes in all, is read back from its bytes, whatever follows
-- them, with its type, metadata and payload; the timestamp and the checksum are 0, and the length
-- field is the number of bytes written.
pub deserialize-serialize_compact :
    (m : Message) (rest : Bytes) → IsCompact m → deserialize (serialize m ++ rest) ≡ ok (received m)
unfolding deserialize write_compact
deserialize-serialize_compact m rest c =
    rw
      (
        serialize-IsCompact m c,
        le→ltb_false (length (write_compact m ++ rest)) 6 (
            omega (
              arith,
              length-append (write_body m.metadata m.payload) rest,
              length-write_body m.metadata m.payload,
            )),
      )
      (rw (compact_bit m.metalen c.few) (read_compact-write_body m rest c))

-- The message that the constructor builds.
abbrev pub built : ℕ → Bytes → List Bytes → MessageType → Message
built now payload metadata type = record {
  header = record {
    type = type;
    size = 2 + metadata_size metadata + 4 + length payload;
    checksum = 0;
    timestamp = now;
    protocol_version = protocol_version;
  };
  metalen = length metadata;
  envelope = empty_envelope;
  metadata = metadata;
  payload = payload;
}

pub new_message-IsCompact :
    (now : ℕ) (payload : Bytes) (k : ℕ) (metadata : List Bytes) (type : MessageType)
    → IsWireType type
    → length metadata < 128
    → FitsBody metadata payload
    → (new_message now payload k metadata type ≡ ok (built now payload metadata type))
      × IsCompact (built now payload metadata type)
unfolding new_message
new_message-IsCompact now payload k metadata type wire few fits =
    let small : length metadata % 256 ≡ length metadata = omega arith in
    (
      rw (small, compute_serialized_size-ok metadata payload fits) refl,
      record {
        type = wire;
        version = refl;
        envelope = refl;
        counted = refl;
        few = few;
        fits = fits;
      },
    )
