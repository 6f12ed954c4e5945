-- ===== src/Crypto/Handles/Balance.antt =====
-- src/infrastructure/crypto/identity_key.cpp: the balance of references taken, held, freed and lost.
use my_messenger.Prelude.{
  ℕ, zero, suc, ◌+◌, Bool, true, false, Option, none, some, List, [], ◌∷◌, ◌++◌, ◌≡◌, ◌≢◌, refl, ap,
  subst, get_elem?, set, nat_eq, arith, Option-cases, inl, inr,
}
use my_messenger.Prelude.Result.{Result, ok, err}
use my_messenger.Failure.{Failure, undefined}
use my_messenger.Crypto.Handles.{
  Pointer, uninitialised, null, pkey, KeyStore, value_of, pointer, pkey_of,
}

abbrev pub tally : Bool → ℕ
tally true = 1
tally false = 0

abbrev pub count : ℕ → List ℕ → ℕ
count k [] = 0
count k (x ∷ xs) = tally (nat_eq k x) + count k xs

-- 1 where the pointer is the key `k`.
abbrev pub holds : ℕ → Pointer → ℕ
holds k uninitialised = 0
holds k null = 0
holds k (pkey x) = tally (nat_eq k x)

-- The number of objects that hold the key.
abbrev pub holders : ℕ → List Pointer → ℕ
holders k [] = 0
holders k (p ∷ ps) = holds k p + holders k ps

abbrev pub keys_of : Option Pointer → List ℕ
keys_of none = []
keys_of (some uninitialised) = []
keys_of (some null) = []
keys_of (some (pkey k)) = k ∷ []

-- The key of an object that a copy assignment writes over: that of `this`, where the other one has a
-- key.
abbrev pub written_over : ℕ → Result Failure (Option ℕ) → KeyStore → List ℕ
written_over this (err e) s = []
written_over this (ok none) s = []
written_over this (ok (some k)) s = keys_of (get_elem? s.objects this)

pub holders-construct :
    (k : ℕ) (ps : List Pointer) (p : Pointer) → holders k (ps ++ p ∷ []) ≡ holders k ps + holds k p
holders-construct k [] p = omega arith
holders-construct k (x ∷ ps) p = omega (arith, holders-construct k ps p)

pub holders-set :
    (k : ℕ) (ps : List Pointer) (i : ℕ) (old p : Pointer)
    → get_elem? ps i ≡ some old
    → holders k (set ps i p) + holds k old ≡ holders k ps + holds k p
holders-set k [] i old p e = absurd cc
holders-set k (x ∷ ps) zero old p e = let same : x ≡ old = cc in rw same (omega arith)
holders-set k (x ∷ ps) (suc i) old p e = omega (arith, holders-set k ps i old p e)

pub get_elem?-set_other :
    (ps : List Pointer) (i j : ℕ) (p : Pointer) → i ≢ j → get_elem? (set ps i p) j ≡ get_elem? ps j
get_elem?-set_other [] i j p ne = refl
get_elem?-set_other (x ∷ ps) zero zero p ne = absurd (ne refl)
get_elem?-set_other (x ∷ ps) zero (suc j) p ne = refl
get_elem?-set_other (x ∷ ps) (suc i) zero p ne = refl
get_elem?-set_other (x ∷ ps) (suc i) (suc j) p ne =
    get_elem?-set_other ps i j p (λ e. ne (ap suc e))

value_of-pointer :
    (slot : Pointer) (held : Option ℕ) → value_of slot ≡ ok held → slot ≡ pointer held
value_of-pointer uninitialised held e =
    let no : ◌≡◌ {A = Result Failure (Option ℕ)} (err undefined) (ok held) = e in absurd cc
value_of-pointer null none e = refl
value_of-pointer null (some k) e = absurd cc
value_of-pointer (pkey x) none e = absurd cc
value_of-pointer (pkey x) (some k) e = let same : x ≡ k = cc in rw same refl

pub pkey_of-slot :
    (i : ℕ) (s : KeyStore) (held : Option ℕ)
    → pkey_of i s ≡ ok held
    → get_elem? s.objects i ≡ some (pointer held)
unfolding pkey_of
pkey_of-slot i s held e = elim (Option-cases (get_elem? s.objects i)) [
  | inl p ↦ absurd (ground (arith, p))
  | inr (slot, p) ↦
      let q : value_of slot ≡ ok held = ground (arith, p) in
      subst (λ x. get_elem? s.objects i ≡ some x) (value_of-pointer slot held q) p
]

-- Whose references the taken ones are.
abbrev pub Balanced : List ℕ → KeyStore → Type 0
Balanced lost s = (k : ℕ) → count k s.freed + holders k s.objects + count k lost ≡ count k s.taken
