-- ===== src/Commands/RoundTrip.antt =====
-- Parser::make_command_from_struct and Parser::make_struct_from_command of src/protocol/parser.cpp
-- undo one another, also over the wire.
use my_messenger.Prelude.{
  ℕ, ◌<◌, ◌≡◌, refl, sym, ap, ◌∙◌, List, [], ◌∷◌, ◌++◌, none, some, arith, length, append-nil,
  append_assoc, inl, inr,
}
use my_messenger.Prelude.Bytes.{Bytes, codes, Bytes-eq}
use my_messenger.Prelude.Dict.{lookup}
use my_messenger.Prelude.Result.{ok, Result-cases}
use my_messenger.Message.{
  Message, CommandType, unlisted, command, unknown, command_code, command_of_code, insert_metadata,
  set_payload, compute_serialized_size, empty_envelope,
}
use my_messenger.Message.Codec.{serialize, deserialize}
use my_messenger.Message.Body.{FitsBody}
use my_messenger.Message.Compact.{IsCompact, received, deserialize-serialize_compact}
use my_messenger.Commands.Parser.{
  ParsedCommand, command_name, command_type, command_types_map, make_command_from_struct,
  make_struct_from_command, insert_all, stamped, back_or_empty,
}

-- Everything but the metadata, the count and the length field.
record Same (m m' : Message) : Type 0 where
  type : m'.header.type ≡ m.header.type
  version : m'.header.protocol_version ≡ m.header.protocol_version
  envelope : m'.envelope ≡ m.envelope

insert_metadata_keeps :
    (m m' : Message) (arg : Bytes)
    → insert_metadata m arg ≡ ok m'
    → (m'.metadata ≡ m.metadata ++ arg ∷ []) × (m'.metalen ≡ length m'.metadata) × Same m m'
unfolding insert_metadata compute_serialized_size
insert_metadata_keeps m m' arg h = ground arith

insert_all_keeps :
    (args : List Bytes) (m m' : Message)
    → m.metalen ≡ length m.metadata
    → insert_all m args ≡ ok m'
    → (m'.metadata ≡ m.metadata ++ args) × (m'.metalen ≡ length m'.metadata) × Same m m'
unfolding insert_all
insert_all_keeps [] m m' c h = ground (arith, append-nil m.metadata)
insert_all_keeps (a ∷ args) m m' c h = elim (Result-cases (insert_metadata m a)) [
  | inr (e, p) ↦ ground arith
  | inl (n, p) ↦
      let (l, c', s) = insert_metadata_keeps m n a p in
      ground (arith, insert_all_keeps args n m' c', append_assoc m.metadata (a ∷ []) args)
]

set_payload_keeps :
    (m m' : Message) (p : Bytes)
    → set_payload m p ≡ ok m'
    → (m'.metadata ≡ m.metadata) × (m'.payload ≡ p) × (m'.metalen ≡ m.metalen) × Same m m'
unfolding set_payload compute_serialized_size
set_payload_keeps m m' p h = ground arith

-- A command that was built holds its code and its arguments, and the last argument as its payload.
pub make_command_keeps :
    (now : ℕ) (cmd : ParsedCommand) (m : Message)
    → make_command_from_struct now cmd ≡ ok m
    → (m.metadata ≡ (command_code (command_type cmd.name) ∷ []) ∷ cmd.args)
      × (m.payload ≡ back_or_empty cmd.args)
      × (m.metalen ≡ length m.metadata)
      × (m.header.type ≡ command)
      × (m.header.protocol_version ≡ 1)
      × (m.envelope ≡ empty_envelope)
unfolding make_command_from_struct
make_command_keeps now cmd m h =
    elim (Result-cases
      (insert_metadata (stamped now command) (command_code (command_type cmd.name) ∷ []))) [
        | inr (e, p) ↦ ground arith
        | inl (n, p) ↦ elim (Result-cases (insert_all n cmd.args)) [
          | inr (e, q) ↦ ground arith
          | inl (n', q) ↦
              let (l, c, s) =
                insert_metadata_keeps (stamped now command) n
                  (command_code (command_type cmd.name) ∷ []) p in
              let (l', c', s') = insert_all_keeps cmd.args n n' c q in
              ground (arith, set_payload_keeps n' m (back_or_empty cmd.args))
        ]
      ]

-- The names that the tables know.
abbrev pub IsKnown : Bytes → Type 0
IsKnown name = command_name (command_type name) ≡ some name

code_of_known :
    (t : CommandType) (name : Bytes)
    → command_name t ≡ some name
    → command_of_code (command_code t) ≡ t
unfolding command_name command_of_code command_code
code_of_known (unlisted b) name h = cc
code_of_known _ name h = refl

struct_of_metadata :
    (t : CommandType) (args : List Bytes) (m : Message)
    → m.metadata ≡ (command_code t ∷ []) ∷ args
    → make_struct_from_command m ≡ record {
      name = elim (command_name (command_of_code (command_code t))) [
        | none ↦ codes "unknown"
        | some name ↦ name
      ];
      args = args;
    }
unfolding make_struct_from_command
struct_of_metadata t args m h = ap (λ l. make_struct_from_command (record m { metadata = l })) h

-- A command under a name of the tables that was built into a message is read back from the message,
-- name and arguments.
pub make_struct-make_command :
    (now : ℕ) (cmd : ParsedCommand) (m : Message)
    → IsKnown cmd.name
    → make_command_from_struct now cmd ≡ ok m
    → make_struct_from_command m ≡ cmd
make_struct-make_command now cmd m known h =
    struct_of_metadata (command_type cmd.name) cmd.args m (make_command_keeps now cmd m h).0
    ∙ rw (code_of_known (command_type cmd.name) cmd.name known, known) refl

unknown_type : (name : Bytes) → lookup name command_types_map ≡ none → command_type name ≡ unknown
unfolding command_type
unknown_type name h = ground arith

-- A name outside the tables comes back as "unknown", with the same arguments.
pub make_struct-unknown :
    (now : ℕ) (cmd : ParsedCommand) (m : Message)
    → lookup cmd.name command_types_map ≡ none
    → make_command_from_struct now cmd ≡ ok m
    → make_struct_from_command m ≡ record { name = codes "unknown"; args = cmd.args }
unfolding command_name command_code command_of_code
make_struct-unknown now cmd m outside h =
    struct_of_metadata (command_type cmd.name) cmd.args m (make_command_keeps now cmd m h).0
    ∙ rw (unknown_type cmd.name outside) refl

-- A command under a name of the tables that was built, written to the wire and read from it, whose
-- arguments fit the wire format (fewer than 127 of fewer than 2^16 bytes each, fewer than 2^32
-- bytes in all), is the same command on the other side.
pub command_over_wire :
    (now : ℕ) (cmd : ParsedCommand) (m : Message)
    → IsKnown cmd.name
    → make_command_from_struct now cmd ≡ ok m
    → length cmd.args < 127
    → FitsBody m.metadata m.payload
    → (m' : Message) × (deserialize (serialize m) ≡ ok m') × (make_struct_from_command m' ≡ cmd)
command_over_wire now cmd m known h few fits =
    let (metadata, payload, counted, type, version, envelope) = make_command_keeps now cmd m h in
    let compact : IsCompact m = record {
      type = rw type tt;
      version = version;
      envelope = envelope;
      counted = counted;
      few = omega (arith, ap length metadata);
      fits = fits;
    } in
    (
      received m,
      ap deserialize (sym (append-nil (serialize m))) ∙ deserialize-serialize_compact m [] compact,
      unfold make_struct_from_command in make_struct-make_command now cmd m known h,
    )
