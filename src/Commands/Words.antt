-- ===== src/Commands/Words.antt =====
-- CommandPatternMatcher::split_tokens and the joining of a tail capture
-- (src/application/commands/command_pattern_matcher.cpp) on lines made of words.
use my_messenger.Prelude.{
  ℕ, ◌≡◌, refl, sym, ap, ◌∙◌, List, [], ◌∷◌, ◌++◌, false, nat_eq, append-nil, append_assoc, All,
}
use my_messenger.Prelude.Bytes.{Bytes}
use my_messenger.Commands.Pattern.{space, split_from, split_tokens, join_tail}

abbrev pub NoSpace : Bytes → Type 0
NoSpace = All (λ c. nat_eq c space ≡ false)

-- A word has at least one byte and no space.
abbrev pub IsWord : Bytes → Type 0
IsWord [] = ⊥
IsWord (c ∷ cs) = NoSpace (c ∷ cs)

-- Words with one space between neighbours.
abbrev pub spaced : List Bytes → Bytes
spaced [] = []
spaced (w ∷ []) = w
spaced (w ∷ v ∷ ws) = w ++ (space ∷ spaced (v ∷ ws))

split_word :
    (cur w rest : Bytes) → NoSpace w → split_from cur (w ++ rest) ≡ split_from (cur ++ w) rest
unfolding split_from
split_word cur [] rest h = rw (append-nil cur)
split_word cur (c ∷ w) rest (h, hs) =
    rw (h, split_from)
      (split_word (cur ++ c ∷ []) w rest hs
        ∙ ap (λ l. split_from l rest) (append_assoc cur (c ∷ []) w))

split_space : (w rest : Bytes) → IsWord w → split_from w (space ∷ rest) ≡ w ∷ split_from [] rest
unfolding split_from
split_space [] rest h = absurd h
split_space (c ∷ w) rest h = refl

IsWord-NoSpace : (w : Bytes) → IsWord w → NoSpace w
IsWord-NoSpace [] h = absurd h
IsWord-NoSpace (c ∷ w) h = h

split_last : (w : Bytes) → IsWord w → split_from [] w ≡ w ∷ []
unfolding split_from
split_last w h = ap (split_from []) (sym (append-nil w)) ∙ split_word [] w [] (IsWord-NoSpace w h)

split_spaced :
    (w : Bytes) (ws : List Bytes) → All IsWord (w ∷ ws) → split_from [] (spaced (w ∷ ws)) ≡ w ∷ ws
split_spaced w [] (h, hs) = split_last w h
split_spaced w (v ∷ ws) (h, hs) =
    split_word [] w (space ∷ spaced (v ∷ ws)) (IsWord-NoSpace w h)
    ∙ split_space w (spaced (v ∷ ws)) h
    ∙ ap (◌∷◌ w) (split_spaced v ws hs)

join_tail-append :
    (c : ℕ) (acc v : Bytes) (ws : List Bytes)
    → join_tail (c ∷ acc) (v ∷ ws) ≡ (c ∷ acc) ++ (space ∷ spaced (v ∷ ws))
unfolding join_tail
join_tail-append c acc v [] = append_assoc (c ∷ acc) (space ∷ []) v
join_tail-append c acc v (u ∷ ws) =
    join_tail-append c ((acc ++ space ∷ []) ++ v) u ws ∙ simp append_assoc

pub join_tail-spaced :
    (w : Bytes) (ws : List Bytes) → All IsWord (w ∷ ws) → join_tail [] (w ∷ ws) ≡ spaced (w ∷ ws)
unfolding join_tail
join_tail-spaced [] ws h = absurd h.0
join_tail-spaced (c ∷ w) [] h = refl
join_tail-spaced (c ∷ w) (v ∷ ws) h = join_tail-append c w v ws

-- Words joined by single spaces are split into the same words, and joining the words again, as a
-- tail capture does, gives the line back.
pub split_tokens-spaced :
    (w : Bytes) (ws : List Bytes)
    → All IsWord (w ∷ ws)
    → (split_tokens (spaced (w ∷ ws)) ≡ w ∷ ws)
      × (join_tail [] (split_tokens (spaced (w ∷ ws))) ≡ spaced (w ∷ ws))
unfolding split_tokens
split_tokens-spaced w ws h =
    (split_spaced w ws h, rw (split_spaced w ws h) (join_tail-spaced w ws h))
