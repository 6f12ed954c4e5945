-- ===== src/Tests/Lines.antt =====
-- Lines for src/protocol/parser.cpp.
use my_messenger.Prelude.{◌≡◌, refl, [], ◌∷◌, arith}
use my_messenger.Prelude.Bytes.{codes}
use my_messenger.Prelude.Dict.{lookup}
use my_messenger.Prelude.Result.{ok}
use my_messenger.Message.{
  Message, command, metadata_size, insert_metadata, set_payload, compute_serialized_size,
  command_code,
}
use my_messenger.Message.Codec.{serialize, deserialize}
use my_messenger.Message.Compact.{built}
use my_messenger.Message.Body.{FitsBody}
use my_messenger.Commands.Pattern.{split_tokens, join_tail}
use my_messenger.Commands.Parser.{
  ParsedCommand, command_name, command_type, make_command_from_struct, make_struct_from_command,
  insert_all, parse_line,
}
use my_messenger.Commands.Words.{split_tokens-spaced}
use my_messenger.Commands.Matching.{Line, parse_line-typed}
use my_messenger.Commands.RoundTrip.{command_over_wire}

split_tokens-spaced_example :
    (split_tokens (codes "one two") ≡ codes "one" ∷ (codes "two" ∷ []))
    × (join_tail [] (split_tokens (codes "one two")) ≡ codes "one two")
split_tokens-spaced_example =
    split_tokens-spaced (codes "one") (codes "two" ∷ [])
      ((refl, (refl, (refl, tt))), ((refl, (refl, (refl, tt))), tt))

abbrev shout : Line
shout = Line.send (codes "hall") (codes "hi") (codes "all" ∷ [])

parse_line-typed_example :
    parse_line (codes "/send hall hi all")
    ≡ record { name = codes "send"; args = codes "hall" ∷ (codes "hi all" ∷ []) }
parse_line-typed_example = parse_line-typed shout (
  (refl, (refl, (refl, (refl, (refl, tt))))),
  ((refl, (refl, (refl, (refl, tt)))), ((refl, (refl, tt)), ((refl, (refl, (refl, tt))), tt))),
)

abbrev join_hall : ParsedCommand
join_hall = record { name = codes "join"; args = codes "hall" ∷ [] }

abbrev join_hall_message : Message
join_hall_message = built 3 (codes "hall") ((4 ∷ []) ∷ codes "hall" ∷ []) command

join_hall-FitsBody : FitsBody ((4 ∷ []) ∷ codes "hall" ∷ []) (codes "hall")
unfolding metadata_size
join_hall-FitsBody = record { entries = (omega arith, (omega arith, tt)); total = omega arith }

command_over_wire_example :
    (m' : Message) × (deserialize (serialize join_hall_message) ≡ ok m')
    × (make_struct_from_command m' ≡ join_hall)
unfolding make_command_from_struct insert_metadata insert_all set_payload compute_serialized_size
    metadata_size command_type command_name command_code lookup
command_over_wire_example =
    command_over_wire 3 join_hall join_hall_message refl refl (omega arith) join_hall-FitsBody
