-- ===== src/Tests/Messages.antt =====
-- Messages of src/models/message.cpp.
use my_messenger.Prelude.{ℕ, zero, suc, ◌⊎◌, ◌≡◌, refl, List, [], ◌∷◌, ◌++◌, length, arith}
use my_messenger.Prelude.Bytes.{Bytes, codes}
use my_messenger.Prelude.Result.{ok, err}
use my_messenger.Failure.{unsupported_version}
use my_messenger.Message.{Message, type_of_code, text, metadata_size}
use my_messenger.Message.Codec.{serialize, deserialize}
use my_messenger.Message.Body.{FitsBody}
use my_messenger.Message.Compact
use my_messenger.Message.Compact.{
  IsCompact, built, new_message-IsCompact, deserialize-serialize_compact,
}
use my_messenger.Message.Extended
use my_messenger.Message.Extended.{IsExtended, deserialize-serialize_extended}
use my_messenger.Message.Faults.{deserialize-serialize_128}
use my_messenger.Message.Layout.{IsCompactInput, IsExtendedInput}
use my_messenger.Message.Reader.{deserialize-IsLaidOut}

abbrev note : Message
note = built 7 (codes "hi") (codes "room" ∷ (codes "x" ∷ [])) text

note-FitsBody : FitsBody (codes "room" ∷ (codes "x" ∷ [])) (codes "hi")
unfolding metadata_size
note-FitsBody = record { entries = (omega arith, (omega arith, tt)); total = omega arith }

note-IsCompact : IsCompact note
note-IsCompact =
    (new_message-IsCompact 7 (codes "hi") 2 (codes "room" ∷ (codes "x" ∷ [])) text tt (omega arith)
      note-FitsBody).1

deserialize-serialize_compact_example :
    deserialize (serialize note ++ 9 ∷ []) ≡ ok (Compact.received note)
deserialize-serialize_compact_example = deserialize-serialize_compact note (9 ∷ []) note-IsCompact

abbrev letter : Message
letter = record note {
  envelope = record {
    sender = codes "ann";
    recipient = codes "bob";
    flags = 3;
    sequence_number = 12;
  };
}

letter-IsExtended : IsExtended letter
letter-IsExtended = record {
  type = tt;
  some_version = omega arith;
  version = omega arith;
  extended = refl;
  flags = omega arith;
  timestamp = omega arith;
  sequence_number = omega arith;
  sender = omega arith;
  recipient = omega arith;
  counted = refl;
  few = omega arith;
  fits = note-FitsBody;
}

deserialize-serialize_extended_example :
    deserialize (serialize letter ++ [])
    ≡ ok (Extended.received (length (serialize letter ++ [])) letter)
deserialize-serialize_extended_example = deserialize-serialize_extended letter [] letter-IsExtended

abbrev repeated : ℕ → List Bytes
repeated zero = []
repeated (suc n) = codes "m" ∷ repeated n

abbrev crowded : Message
crowded = built 0 [] (repeated 128) text

deserialize-serialize_128_example : deserialize (serialize crowded ++ []) ≡ err unsupported_version
deserialize-serialize_128_example = deserialize-serialize_128 crowded [] refl refl refl

deserialize-IsLaidOut_example :
    (code : ℕ) × (second : ℕ) × (rest : Bytes) × (serialize note ++ 9 ∷ [] ≡ code ∷ second ∷ rest)
    × ((Compact.received note).metalen ≡ length note.metadata)
    × (note.header.type ≡ type_of_code code)
    × (IsCompactInput second rest (Compact.received note)
        ⊎ IsExtendedInput second rest (Compact.received note))
deserialize-IsLaidOut_example =
    deserialize-IsLaidOut (serialize note ++ 9 ∷ []) (Compact.received note)
      (deserialize-serialize_compact note (9 ∷ []) note-IsCompact)
