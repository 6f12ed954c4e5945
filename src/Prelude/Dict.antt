-- ===== src/Prelude/Dict.antt =====
-- `std::unordered_map`, as an association list. The
-- order of iteration is unspecified in C++; no theorem depends on it.
use mathlib.Core.Path.{◌≡◌, refl, subst}
use mathlib.Core.Bool.{Bool, true, false}
use mathlib.Core.Option.{Option, none, some}
use mathlib.Core.List.{List, [], ◌∷◌}
use native.Mathlib.Omega.{arith}
use my_messenger.Prelude.Tests.{Eq, ◌==◌, if◌then◌else◌, Bool-cases}
use my_messenger.Prelude.Lists.{All}
use mathlib.Core.Logic.{inl, inr}

abbrev pub Dict {ℓ κ} : Type ℓ → Type κ → Type (ℓ ⊔ κ)
Dict K V = List (K × V)

module _ {ℓ κ} {K : Type ℓ} {V : Type κ} ⦃e : Eq K⦄ where
  -- m.find(k)
  unfoldable pub lookup : K → Dict K V → Option V
  lookup key [] = none
  lookup key ((first, value) ∷ rest) = if first == key then some value else lookup key rest

  -- m.find(k) != m.end()
  abbrev pub has : K → Dict K V → Bool
  has key entries = elim (lookup key entries) [ none ↦ false | some value ↦ true ]

  -- m.erase(k)
  unfoldable pub erase : K → Dict K V → Dict K V
  erase key [] = []
  erase key ((first, value) ∷ rest) =
      let others = erase key rest in if first == key then others else (first, value) ∷ others

  pub lookup-erase :
      (key other : K) (entries : Dict K V)
      → lookup other (erase key entries) ≡ (if key == other then none else lookup other entries)
  unfolding lookup erase
  lookup-erase key other [] = ground arith
  lookup-erase key other ((first, value) ∷ rest) = ground (
    arith,
    e.same_iff key other,
    e.same_iff first key,
    e.same_iff first other,
    lookup-erase key other rest,
  )

  -- m[k] = v
  unfoldable pub insert : K → V → Dict K V → Dict K V
  insert key value [] = (key, value) ∷ []
  insert key value ((first, old) ∷ rest) =
      if first == key then (first, value) ∷ rest else (first, old) ∷ insert key value rest

  pub lookup-insert :
      (key other : K) (value : V) (entries : Dict K V)
      → lookup other (insert key value entries)
        ≡ (if key == other then some value else lookup other entries)
  unfolding lookup insert
  lookup-insert key other value [] = refl
  lookup-insert key other value ((first, old) ∷ rest) = ground (
    arith,
    e.same_iff key other,
    e.same_iff first key,
    e.same_iff first other,
    lookup-insert key other value rest,
  )

  -- What holds of all values holds of one that was found.
  pub lookup-All {κ'} :
      (P : V → Type κ') (k : K) (m : Dict K V) (v : V)
      → All (λ p. P p.1) m
      → lookup k m ≡ some v
      → P v
  unfolding lookup
  lookup-All P k [] v all h = cc
  lookup-All P k ((j, w) ∷ m) v (here, there) h = elim (Bool-cases (j == k)) [
    | inl p ↦ subst P (ground arith) here
    | inr p ↦ lookup-All P k m v there (ground arith)
  ]
