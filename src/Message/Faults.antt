-- ===== src/Message/Faults.antt =====
-- Messages that the compact format of src/models/message.cpp cannot carry.

use my_messenger.Prelude.{◌≡◌, ◌++◌, length-append, arith}
use my_messenger.Prelude.Bytes.{Bytes}
use my_messenger.Prelude.Result.{err}
use my_messenger.Failure.{unsupported_version}
use my_messenger.Message.{Message, empty_envelope}
use my_messenger.Message.Body.{length-write_body}
use my_messenger.Message.Codec.{
  write_body, write_compact, serialize, read_format, read_extended, deserialize,
}

-- A message without envelope, of version 1, with 128 metadata entries is always written in the
-- compact format and always refused by the reader as of an unsupported version: the count 128 is
-- the format bit.
pub deserialize-serialize_128 :
    (m : Message) (rest : Bytes)
    → m.envelope ≡ empty_envelope
    → m.header.protocol_version ≡ 1
    → m.metalen ≡ 128
    → deserialize (serialize m ++ rest) ≡ err unsupported_version
unfolding deserialize serialize write_compact read_format read_extended
deserialize-serialize_128 m rest e v n =
    rw (e, v)
      (rw n (
        ground (
          arith,
          length-append (write_body m.metadata m.payload) rest,
          length-write_body m.metadata m.payload,
        )))
