-- ===== src/Commands/Catalog.antt =====
-- src/application/commands/command_catalog.cpp, and the patterns that the constructor of Parser
-- (src/protocol/parser.cpp) compiles from it.
use my_messenger.Prelude.{List, [], ◌∷◌}
use my_messenger.Prelude.Bytes.{Bytes, codes}
use my_messenger.Commands.Pattern.{CommandPattern, compile_pattern}

-- The name and the template of each entry; the source gives every entry no tokens.
abbrev pub default_command_catalog : List (Bytes × Bytes)
default_command_catalog =
    (codes "login", codes "/login {username}")
    ∷ (codes "room", codes "/room {name}")
    ∷ (codes "join", codes "/join {name}")
    ∷ (codes "send", codes "/send {chat} {message...}")
    ∷ (codes "pmess", codes "/pmess {recipient} {message...}")
    ∷ (codes "getpub", codes "/getpub {username}")
    ∷ (codes "sendfile", codes "/sendfile {recipient} {filename}")
    ∷ (codes "connect", codes "/connect {ip} {port} {dh} {identity} {sig}")
    ∷ (codes "disconnect", codes "/disconnect {username}")
    ∷ (codes "exit", codes "/exit")
    ∷ (codes "help", codes "/help")
    ∷ []

-- add_pattern for each entry
unfoldable pub add_patterns : List (Bytes × Bytes) → List CommandPattern
add_patterns [] = []
add_patterns ((name, template) ∷ rest) = compile_pattern name template ∷ add_patterns rest

unfoldable pub command_matcher : List CommandPattern
command_matcher = add_patterns default_command_catalog
