-- ===== src/Message/Invariant.antt =====
-- src/models/message.cpp: the count and the length field of class Message.
use my_messenger.Prelude.{ℕ, ◌+◌, ◌%◌, ◌^◌, ◌<◌, ◌≤◌, ◌≡◌, ◌⊎◌, List, length, arith}
use my_messenger.Prelude.Bytes.{Bytes}
use my_messenger.Prelude.Result.{ok, err}
use my_messenger.Failure.{malformed_count, message_too_large}
use my_messenger.Message.{
  Message, MessageType, metadata_size, compute_serialized_size, new_message, set_payload,
  insert_metadata,
}

abbrev serialized_size : Message → ℕ
serialized_size m = 2 + metadata_size m.metadata + 4 + length m.payload

-- The count and the length field agree with the contents, and fit a byte and 32 bits.
record IsSized (m : Message) : Type 0 where
  counted : m.metalen ≡ length m.metadata
  sized : m.header.size ≡ serialized_size m % 2 ^ 64
  small : m.header.size < 2 ^ 32

-- Whatever the arguments, a message that a constructor returns is sized.
new_message-IsSized :
    (now : ℕ) (payload : Bytes) (metalen : ℕ) (metadata : List Bytes) (type : MessageType)
    (m : Message)
    → new_message now payload metalen metadata type ≡ ok m
    → IsSized m
unfolding new_message compute_serialized_size
new_message-IsSized now payload metalen metadata type m h = ground arith

-- So is a message whose payload was replaced.
set_payload-IsSized :
    (m m' : Message) (payload : Bytes) → set_payload m payload ≡ ok m' → IsSized m'
unfolding set_payload compute_serialized_size
set_payload-IsSized m m' payload h = ground arith

-- After an insertion that did not throw, whatever the message was before, the count is the number
-- of the metadata entries, and the length field is the size of the message and fits 32 bits.
insert_metadata-IsSized :
    (m m' : Message) (meta : Bytes) → insert_metadata m meta ≡ ok m' → IsSized m'
unfolding insert_metadata compute_serialized_size
insert_metadata-IsSized m m' meta h = ground arith

-- Where the size is below 2^64, the constructors throw exactly when there are more than 255
-- metadata entries or the size does not fit 32 bits, and return a message otherwise.
new_message_fails :
    (now : ℕ) (payload : Bytes) (metalen : ℕ) (metadata : List Bytes) (type : MessageType)
    → 2 + metadata_size metadata + 4 + length payload < 2 ^ 64
    → ((255 < length metadata)
        × (new_message now payload metalen metadata type ≡ err malformed_count))
      ⊎ ((length metadata ≤ 255)
          × (2 ^ 32 ≤ 2 + metadata_size metadata + 4 + length payload)
          × (new_message now payload metalen metadata type ≡ err message_too_large))
      ⊎ ((length metadata ≤ 255)
          × (2 + metadata_size metadata + 4 + length payload < 2 ^ 32)
          × ((m : Message) × (new_message now payload metalen metadata type ≡ ok m)))
unfolding new_message compute_serialized_size
new_message_fails now payload metalen metadata type h = ground arith
