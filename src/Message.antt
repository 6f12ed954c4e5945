-- ===== src/Message.antt =====
-- include/models/message.hpp and the class Message of src/models/message.cpp. The system clock
-- enters as the argument `now` of the constructor.
pub mod Responses
pub mod Codec
pub mod Body
mod Bits
pub mod Compact
pub mod Extended
pub mod Faults
pub mod Invariant
pub mod Reader
pub mod Layout
use my_messenger.Prelude.{
  ℕ, suc, ◌+◌, ◌-◌, ◌%◌, ◌^◌, Bool, ◌&&◌, List, [], ◌∷◌, ◌++◌, length, get_or, ltb, nat_eq,
  if◌then◌else◌,
}
use my_messenger.Prelude.Bytes.{Bytes}
use my_messenger.Prelude.Result.{Result, ok, err, ◌>>=◌}
use my_messenger.Failure.{Failure, malformed_count, message_too_large}

-- `unlisted b` is the value of static_cast<MessageType>(b) where no enumerator has the value b.
pub data MessageType : Type 0 where
  text command hand_shake cipher_message response file_start file_chunk file_end : MessageType
  unlisted : ℕ → MessageType

unfoldable pub type_code : MessageType → ℕ
type_code text = 0x00
type_code command = 0x01
type_code hand_shake = 0x02
type_code cipher_message = 0x03
type_code response = 0x04
type_code file_start = 0x05
type_code file_chunk = 0x06
type_code file_end = 0x07
type_code (unlisted b) = b

unfoldable pub type_of_code : ℕ → MessageType
type_of_code b =
    if nat_eq b 0x00
    then text
    else if nat_eq b 0x01
    then command
    else if nat_eq b 0x02
    then hand_shake
    else if nat_eq b 0x03
    then cipher_message
    else if nat_eq b 0x04
    then response
    else if nat_eq b 0x05
    then file_start
    else if nat_eq b 0x06
    then file_chunk
    else if nat_eq b 0x07
    then file_end
    else unlisted b

pub data CommandType : Type 0 where
  send login make_room join get_pubkey get_username get_id private_message : CommandType
  send_file help connect disconnect exit unknown : CommandType
  unlisted : ℕ → CommandType

unfoldable pub command_code : CommandType → ℕ
command_code send = 0x01
command_code login = 0x02
command_code make_room = 0x03
command_code join = 0x04
command_code get_pubkey = 0x05
command_code get_username = 0x06
command_code get_id = 0x07
command_code private_message = 0x08
command_code send_file = 0x09
command_code help = 0x0a
command_code connect = 0x0b
command_code disconnect = 0x0c
command_code exit = 0xfe
command_code unknown = 0xff
command_code (unlisted b) = b

unfoldable pub command_of_code : ℕ → CommandType
command_of_code b =
    if nat_eq b 0x01
    then send
    else if nat_eq b 0x02
    then login
    else if nat_eq b 0x03
    then make_room
    else if nat_eq b 0x04
    then join
    else if nat_eq b 0x05
    then get_pubkey
    else if nat_eq b 0x06
    then get_username
    else if nat_eq b 0x07
    then get_id
    else if nat_eq b 0x08
    then private_message
    else if nat_eq b 0x09
    then send_file
    else if nat_eq b 0x0a
    then help
    else if nat_eq b 0x0b
    then connect
    else if nat_eq b 0x0c
    then disconnect
    else if nat_eq b 0xfe
    then exit
    else if nat_eq b 0xff
    then unknown
    else unlisted b

pub record MessageHeader : Type 0 where
  pub type : MessageType
  pub size : ℕ
  pub checksum : ℕ
  pub timestamp : ℕ
  pub protocol_version : ℕ

pub record MessageEnvelope : Type 0 where
  pub sender : Bytes
  pub recipient : Bytes
  pub sequence_number : ℕ
  pub flags : ℕ

-- `header.size` is the field `length` of the header.
pub record Message : Type 0 where
  pub header : MessageHeader
  pub metalen : ℕ
  pub envelope : MessageEnvelope
  pub metadata : List Bytes
  pub payload : Bytes

abbrev pub protocol_version : ℕ
protocol_version = 1

abbrev pub empty_envelope : MessageEnvelope
empty_envelope = record { sender = []; recipient = []; sequence_number = 0; flags = 0 }

-- Message()
abbrev pub default_message : Message
default_message = record {
  header = record { type = text; size = 0; checksum = 0; timestamp = 0; protocol_version = 1 };
  metalen = 0;
  envelope = empty_envelope;
  metadata = [];
  payload = [];
}

unfoldable pub metadata_size : List Bytes → ℕ
metadata_size [] = 0
metadata_size (m ∷ ms) = 2 + length m + metadata_size ms

-- The total is a uint64_t.
unfoldable pub compute_serialized_size : ℕ → List Bytes → Bytes → Result Failure ℕ
compute_serialized_size metalen metadata payload =
    let total = (2 + metadata_size metadata + 4 + length payload) % 2 ^ 64 in
    if nat_eq metalen (length metadata)
    then (if ltb (2 ^ 32 - 1) total then err message_too_large else ok total)
    else err malformed_count

-- Both constructors with arguments; the given `metalen_` is overwritten.
unfoldable pub new_message : ℕ → Bytes → ℕ → List Bytes → MessageType → Result Failure Message
new_message now payload metalen_ metadata type = do
  let metalen = length metadata % 256
  size ← compute_serialized_size metalen metadata payload
  ok (record {
    header = record {
      type = type;
      size = size;
      checksum = 0;
      timestamp = now;
      protocol_version = protocol_version;
    };
    metalen = metalen;
    envelope = empty_envelope;
    metadata = metadata;
    payload = payload;
  })

abbrev pub get_type : Message → MessageType
get_type m = m.header.type

unfoldable pub set_payload : Message → Bytes → Result Failure Message
set_payload m new_payload = do
  size ← compute_serialized_size m.metalen m.metadata new_payload
  ok (record m { payload = new_payload; header = record (m.header) { size = size } })

abbrev pub get_payload : Message → Bytes
get_payload m = m.payload

-- An index past the end gives the static empty vector.
abbrev pub get_meta : Message → ℕ → Bytes
get_meta m index = get_or m.metadata index []

abbrev pub meta_count : Message → ℕ
meta_count m = length m.metadata

unfoldable pub insert_metadata : Message → Bytes → Result Failure Message
insert_metadata m meta = do
  let metadata = m.metadata ++ meta ∷ []
  let metalen = length metadata % 256
  size ← compute_serialized_size metalen metadata m.payload
  ok (record m {
    metadata = metadata;
    metalen = metalen;
    header = record (m.header) { size = size };
  })

pub validate : Message → Bool
validate m =
    nat_eq m.header.protocol_version protocol_version && nat_eq m.metalen (length m.metadata)

pub update_checksum : Message → Message
update_checksum m = record m { header = record (m.header) { checksum = 0 } }
