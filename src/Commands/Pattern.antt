-- ===== src/Commands/Pattern.antt =====
-- include/application/commands/command_pattern.hpp and
-- src/application/commands/command_pattern_matcher.cpp.
use my_messenger.Prelude.{
  ℕ, ◌-◌, List, [], ◌∷◌, ◌++◌, Bool, true, false, ◌&&◌, leb, nat_eq, length, take, drop,
  if◌then◌else◌,
}
use my_messenger.Prelude.Bytes.{Bytes, codes, is_empty, bytes_eq}

pub data PatternTokenKind : Type 0 where
  literal capture tail_capture : PatternTokenKind

pub record PatternToken : Type 0 where
  pub kind : PatternTokenKind
  pub value : Bytes

pub record CommandPattern : Type 0 where
  pub command_name : Bytes
  pub template_text : Bytes
  pub tokens : List PatternToken

pub record CommandMatch : Type 0 where
  pub matched : Bool
  pub command_name : Bytes
  pub captures : List Bytes

abbrev pub space : ℕ
space = 0x20

abbrev pub no_match : CommandMatch
no_match = record { matched = false; command_name = []; captures = [] }

-- `cur` is the token being read; the last one is kept even where it is empty.
unfoldable pub split_from : Bytes → Bytes → List Bytes
split_from cur [] = cur ∷ []
split_from cur (c ∷ text) =
    let closed = split_from [] text in
    let longer = split_from (cur ++ c ∷ []) text in
    if nat_eq c space then (if is_empty cur then closed else cur ∷ closed) else longer

unfoldable pub split_tokens : Bytes → List Bytes
split_tokens text = split_from [] text

abbrev pub ends_with : Bytes → Bytes → Bool
ends_with s suffix =
    leb (length suffix) (length s) && bytes_eq (drop (length s - length suffix) s) suffix

abbrev pub starts_with : Bytes → ℕ → Bool
starts_with [] c = false
starts_with (b ∷ s) c = nat_eq b c

-- s.substr(1, n)
abbrev pub substr_1 : Bytes → ℕ → Bytes
substr_1 s n = take n (drop 1 s)

unfoldable pub compile_token : Bytes → PatternToken
compile_token token =
    if ends_with token (codes "...}")
    then record { kind = tail_capture; value = substr_1 token (length token - 4) }
    else if starts_with token 0x7b
    then record { kind = capture; value = substr_1 token (length token - 2) }
    else record { kind = literal; value = token }

unfoldable pub compile_tokens : List Bytes → List PatternToken
compile_tokens [] = []
compile_tokens (t ∷ ts) = compile_token t ∷ compile_tokens ts

unfoldable pub compile_pattern : Bytes → Bytes → CommandPattern
compile_pattern command_name template_text = record {
  command_name = command_name;
  template_text = template_text;
  tokens = compile_tokens (split_tokens template_text);
}

-- The tokens from `ii` on, joined by single spaces.
unfoldable pub join_tail : Bytes → List Bytes → Bytes
join_tail tail [] = tail
join_tail tail (t ∷ ts) = join_tail ((if is_empty tail then tail else tail ++ space ∷ []) ++ t) ts

-- `name` is `pattern.command_name`; the lists are what `pi` and `ii` have not passed.
unfoldable pub match_tokens : Bytes → List PatternToken → List Bytes → List Bytes → CommandMatch
match_tokens name [] [] captures = record {
  matched = true;
  command_name = name;
  captures = captures;
}
match_tokens name [] (i ∷ input) captures = record {
  matched = false;
  command_name = [];
  captures = captures;
}
match_tokens name (p ∷ pattern) [] captures = elim p.kind [
  | literal ↦ no_match
  | capture ↦ no_match
  | tail_capture ↦
      if is_empty pattern
      then record { matched = true; command_name = name; captures = captures ++ [] ∷ [] }
      else no_match
]
match_tokens name (p ∷ pattern) (i ∷ input) captures = elim p.kind [
  | literal ↦ elim (bytes_eq i p.value) [
    | true ↦ match_tokens name pattern input captures
    | false ↦ no_match
  ]
  | capture ↦ match_tokens name pattern input (captures ++ i ∷ [])
  | tail_capture ↦
      if is_empty pattern
      then record {
        matched = true;
        command_name = name;
        captures = captures ++ join_tail [] (i ∷ input) ∷ [];
      }
      else no_match
]

unfoldable pub try_match : CommandPattern → List Bytes → CommandMatch
try_match pattern input_tokens = match_tokens pattern.command_name pattern.tokens input_tokens []

unfoldable pub match_first : List CommandPattern → List Bytes → CommandMatch
match_first [] tokens = no_match
match_first (p ∷ patterns) tokens =
    let m = try_match p tokens in if m.matched then m else match_first patterns tokens

-- CommandPatternMatcher::match
unfoldable pub match_line : List CommandPattern → Bytes → CommandMatch
match_line patterns input = match_first patterns (split_tokens input)
