-- ===== src/Commands/Matching.antt =====
-- Every command of the catalog (src/application/commands/command_catalog.cpp), typed with words,
-- is recognised by Parser::parse_line (src/protocol/parser.cpp).
use my_messenger.Prelude.{◌≡◌, refl, ap, List, [], ◌∷◌, true, All}
use my_messenger.Prelude.Bytes.{Bytes, codes}
use my_messenger.Commands.Pattern.{
  match_line, match_first, try_match, match_tokens, split_tokens, split_from, compile_pattern,
  compile_tokens, compile_token, CommandPattern, PatternToken, CommandMatch, literal, capture,
  tail_capture,
}
use my_messenger.Commands.Catalog.{command_matcher, add_patterns}
use my_messenger.Commands.Parser.{ParsedCommand, parse_line}
use my_messenger.Commands.Words.{IsWord, spaced, split_tokens-spaced, join_tail-spaced}

-- What a user types, as the catalog has it.
pub data Line : Type 0 where
  login room join getpub disconnect : Bytes → Line
  send pmess : Bytes → Bytes → List Bytes → Line
  sendfile : Bytes → Bytes → Line
  connect : Bytes → Bytes → Bytes → Bytes → Bytes → Line
  exit help : Line

-- The words of the line.
abbrev pub typed : Line → List Bytes
typed (login username) = codes "/login" ∷ username ∷ []
typed (room name) = codes "/room" ∷ name ∷ []
typed (join name) = codes "/join" ∷ name ∷ []
typed (getpub username) = codes "/getpub" ∷ username ∷ []
typed (disconnect username) = codes "/disconnect" ∷ username ∷ []
typed (send chat w ws) = codes "/send" ∷ chat ∷ w ∷ ws
typed (pmess recipient w ws) = codes "/pmess" ∷ recipient ∷ w ∷ ws
typed (sendfile recipient filename) = codes "/sendfile" ∷ recipient ∷ filename ∷ []
typed (connect ip port dh identity sig) = codes "/connect" ∷ ip ∷ port ∷ dh ∷ identity ∷ sig ∷ []
typed exit = codes "/exit" ∷ []
typed help = codes "/help" ∷ []

-- What is meant by it: the rest of a message is one argument.
abbrev pub meant : Line → ParsedCommand
meant (login username) = record { name = codes "login"; args = username ∷ [] }
meant (room name) = record { name = codes "room"; args = name ∷ [] }
meant (join name) = record { name = codes "join"; args = name ∷ [] }
meant (getpub username) = record { name = codes "getpub"; args = username ∷ [] }
meant (disconnect username) = record { name = codes "disconnect"; args = username ∷ [] }
meant (send chat w ws) = record { name = codes "send"; args = chat ∷ spaced (w ∷ ws) ∷ [] }
meant (pmess recipient w ws) = record {
  name = codes "pmess";
  args = recipient ∷ spaced (w ∷ ws) ∷ [];
}
meant (sendfile recipient filename) = record {
  name = codes "sendfile";
  args = recipient ∷ filename ∷ [];
}
meant (connect ip port dh identity sig) = record {
  name = codes "connect";
  args = ip ∷ port ∷ dh ∷ identity ∷ sig ∷ [];
}
meant exit = record { name = codes "exit"; args = [] }
meant help = record { name = codes "help"; args = [] }

-- The three kinds of token.
abbrev lit : Bytes → PatternToken
lit v = record { kind = literal; value = v }

abbrev cap : Bytes → PatternToken
cap v = record { kind = capture; value = v }

abbrev tail : Bytes → PatternToken
tail v = record { kind = tail_capture; value = v }

abbrev entry : Bytes → Bytes → List PatternToken → CommandPattern
entry name template tokens = record {
  command_name = name;
  template_text = template;
  tokens = tokens;
}

-- The catalog as it is compiled. The name of a tail capture keeps one of its dots; it is not used.
abbrev compiled : List CommandPattern
compiled =
    entry (codes "login") (codes "/login {username}")
      (lit (codes "/login") ∷ cap (codes "username") ∷ [])
    ∷ entry (codes "room") (codes "/room {name}") (lit (codes "/room") ∷ cap (codes "name") ∷ [])
    ∷ entry (codes "join") (codes "/join {name}") (lit (codes "/join") ∷ cap (codes "name") ∷ [])
    ∷ entry (codes "send") (codes "/send {chat} {message...}")
        (lit (codes "/send") ∷ cap (codes "chat") ∷ tail (codes "message.") ∷ [])
    ∷ entry (codes "pmess") (codes "/pmess {recipient} {message...}")
        (lit (codes "/pmess") ∷ cap (codes "recipient") ∷ tail (codes "message.") ∷ [])
    ∷ entry (codes "getpub") (codes "/getpub {username}")
        (lit (codes "/getpub") ∷ cap (codes "username") ∷ [])
    ∷ entry (codes "sendfile") (codes "/sendfile {recipient} {filename}")
        (lit (codes "/sendfile") ∷ cap (codes "recipient") ∷ cap (codes "filename") ∷ [])
    ∷ entry (codes "connect") (codes "/connect {ip} {port} {dh} {identity} {sig}") (
        lit (codes "/connect")
        ∷ cap (codes "ip")
        ∷ cap (codes "port")
        ∷ cap (codes "dh")
        ∷ cap (codes "identity")
        ∷ cap (codes "sig")
        ∷ [])
    ∷ entry (codes "disconnect") (codes "/disconnect {username}")
        (lit (codes "/disconnect") ∷ cap (codes "username") ∷ [])
    ∷ entry (codes "exit") (codes "/exit") (lit (codes "/exit") ∷ [])
    ∷ entry (codes "help") (codes "/help") (lit (codes "/help") ∷ [])
    ∷ []

compiled_catalog : command_matcher ≡ compiled
unfolding command_matcher add_patterns compile_pattern compile_tokens compile_token split_tokens
    split_from
compiled_catalog = refl

abbrev found : ParsedCommand → CommandMatch
found cmd = record { matched = true; command_name = cmd.name; captures = cmd.args }

match_typed : (l : Line) → All IsWord (typed l) → match_first compiled (typed l) ≡ found (meant l)
unfolding match_first try_match match_tokens
match_typed (login username) h = refl
match_typed (room name) h = refl
match_typed (join name) h = refl
match_typed (getpub username) h = refl
match_typed (disconnect username) h = refl
match_typed (send chat w ws) h =
    ap (λ t. found (record { name = codes "send"; args = chat ∷ t ∷ [] }))
      (join_tail-spaced w ws h.1.1)
match_typed (pmess recipient w ws) h =
    ap (λ t. found (record { name = codes "pmess"; args = recipient ∷ t ∷ [] }))
      (join_tail-spaced w ws h.1.1)
match_typed (sendfile recipient filename) h = refl
match_typed (connect ip port dh identity sig) h = refl
match_typed exit h = refl
match_typed help h = refl

-- A line that begins with a byte is not empty.
parse_found :
    (w : Bytes) (ws : List Bytes) (cmd : ParsedCommand)
    → All IsWord (w ∷ ws)
    → match_first compiled (w ∷ ws) ≡ found cmd
    → parse_line (spaced (w ∷ ws)) ≡ cmd
unfolding parse_line match_line
parse_found [] ws cmd h m = absurd h.0
parse_found (c ∷ w) [] cmd h m = rw (compiled_catalog, (split_tokens-spaced (c ∷ w) [] h).0, m)
parse_found (c ∷ w) (v ∷ ws) cmd h m =
    rw (compiled_catalog, (split_tokens-spaced (c ∷ w) (v ∷ ws) h).0, m)

-- A line of words typed for a command of the catalog is parsed into that command's name and its
-- arguments, the rest of a message as one argument with its words as they were typed.
pub parse_line-typed : (l : Line) → All IsWord (typed l) → parse_line (spaced (typed l)) ≡ meant l
parse_line-typed (login username) h = parse_found _ _ _ h (match_typed (login username) h)
parse_line-typed (room name) h = parse_found _ _ _ h (match_typed (room name) h)
parse_line-typed (join name) h = parse_found _ _ _ h (match_typed (join name) h)
parse_line-typed (getpub username) h = parse_found _ _ _ h (match_typed (getpub username) h)
parse_line-typed (disconnect username) h = parse_found _ _ _ h (match_typed (disconnect username) h)
parse_line-typed (send chat w ws) h = parse_found _ _ _ h (match_typed (send chat w ws) h)
parse_line-typed (pmess recipient w ws) h =
    parse_found _ _ _ h (match_typed (pmess recipient w ws) h)
parse_line-typed (sendfile recipient filename) h =
    parse_found _ _ _ h (match_typed (sendfile recipient filename) h)
parse_line-typed (connect ip port dh identity sig) h =
    parse_found _ _ _ h (match_typed (connect ip port dh identity sig) h)
parse_line-typed exit h = parse_found _ _ _ h (match_typed exit h)
parse_line-typed help h = parse_found _ _ _ h (match_typed help h)
