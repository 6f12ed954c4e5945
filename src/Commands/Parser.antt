-- ===== src/Commands/Parser.antt =====
-- src/protocol/parser.cpp (class Parser). The clock is the argument `now`.
use my_messenger.Prelude.{
  ℕ, List, [], ◌∷◌, ◌++◌, Bool, ◌||◌, Option, none, some, nat_eq, leb, ◌&&◌, drop, if◌then◌else◌,
}
use my_messenger.Prelude.Bytes.{Bytes, Bytes-eq, codes, is_empty}
use my_messenger.Prelude.Dict.{Dict, lookup}
use my_messenger.Prelude.Result.{Result, ok, ◌>>=◌}
use my_messenger.Failure.{Failure}
use my_messenger.Message.{
  Message, MessageType, text, command, CommandType, login, make_room, join, send, private_message,
  get_pubkey, send_file, connect, disconnect, exit, unknown, command_code, command_of_code,
  default_message, protocol_version, set_payload, insert_metadata, get_meta,
}
use my_messenger.Commands.Pattern.{match_line, starts_with}
use my_messenger.Commands.Catalog.{command_matcher}

pub record ParsedCommand : Type 0 where
  pub name : Bytes
  pub args : List Bytes

abbrev pub no_command : ParsedCommand
no_command = record { name = []; args = [] }

abbrev pub command_types_map : Dict Bytes CommandType
command_types_map =
    (codes "login", login)
    ∷ (codes "room", make_room)
    ∷ (codes "join", join)
    ∷ (codes "send", send)
    ∷ (codes "connect", connect)
    ∷ (codes "disconnect", disconnect)
    ∷ (codes "pmess", private_message)
    ∷ (codes "getpub", get_pubkey)
    ∷ (codes "sendfile", send_file)
    ∷ (codes "exit", exit)
    ∷ []

-- command_names_map().find(type); `none` is the end of the map.
unfoldable pub command_name : CommandType → Option Bytes
command_name login = some (codes "login")
command_name make_room = some (codes "room")
command_name join = some (codes "join")
command_name send = some (codes "send")
command_name private_message = some (codes "pmess")
command_name get_pubkey = some (codes "getpub")
command_name send_file = some (codes "sendfile")
command_name connect = some (codes "connect")
command_name disconnect = some (codes "disconnect")
command_name exit = some (codes "exit")
command_name _ = none

unfoldable pub command_type : Bytes → CommandType
command_type name = elim (lookup name command_types_map) [ none ↦ unknown | some type ↦ type ]

abbrev pub stamped : ℕ → MessageType → Message
stamped now type = record default_message {
  header = record {
    type = type;
    size = 0;
    checksum = 0;
    timestamp = now;
    protocol_version = protocol_version;
  };
}

unfoldable pub insert_all : Message → List Bytes → Result Failure Message
insert_all m [] = ok m
insert_all m (arg ∷ args) = do m ← insert_metadata m arg; insert_all m args

-- args.back(), or no bytes
abbrev pub back_or_empty : List Bytes → Bytes
back_or_empty [] = []
back_or_empty (a ∷ []) = a
back_or_empty (a ∷ b ∷ rest) = back_or_empty (b ∷ rest)

unfoldable pub make_command_from_struct : ℕ → ParsedCommand → Result Failure Message
make_command_from_struct now cmd = do
  m ← insert_metadata (stamped now command) (command_code (command_type cmd.name) ∷ [])
  m ← insert_all m cmd.args
  set_payload m (back_or_empty cmd.args)

-- isspace in the "C" locale
abbrev pub is_space : ℕ → Bool
is_space c = nat_eq c 0x20 || (leb 0x09 c && leb c 0x0d)

-- The words that `ss >> token` reads one after another.
unfoldable pub words_from : Bytes → Bytes → List Bytes
words_from cur [] = if is_empty cur then [] else cur ∷ []
words_from cur (c ∷ cs) =
    let closed = words_from [] cs in
    let longer = words_from (cur ++ c ∷ []) cs in
    if is_space c then (if is_empty cur then closed else cur ∷ closed) else longer

abbrev pub command_of_words : List Bytes → ParsedCommand
command_of_words [] = no_command
command_of_words (first ∷ tokens) = record {
  name = if starts_with first 0x2f || starts_with first 0x24 then drop 1 first else first;
  args = tokens;
}

-- All tokens but the last, then the last, are all tokens.
unfoldable pub parse_line : Bytes → ParsedCommand
parse_line line =
    if is_empty line
    then no_command
    else let m = match_line command_matcher line in
      if m.matched
      then record { name = m.command_name; args = m.captures }
      else command_of_words (words_from [] line)

unfoldable pub parse : ℕ → Bytes → Result Failure Message
parse now message =
    if is_empty message
    then ok default_message
    else if starts_with message 0x2f
    then make_command_from_struct now (parse_line message)
    else set_payload (stamped now text) message

unfoldable pub make_struct_from_command : Message → ParsedCommand
make_struct_from_command msg = elim (get_meta msg 0) [
  | [] ↦ record { name = codes "unknown"; args = [] }
  | code ∷ rest ↦ record {
    name = elim (command_name (command_of_code code)) [ none ↦ codes "unknown" | some name ↦ name ];
    args = drop 1 msg.metadata;
  }
]
