-- ===== src/Crypto/Handles/Steps.antt =====
-- src/infrastructure/crypto/identity_key.cpp: what each operation does to the balance of references.
use my_messenger.Prelude.{
  ℕ, ◌+◌, Option, none, some, List, ◌++◌, ◌≡◌, ◌≢◌, refl, ◌∙◌, subst, get_elem?, set, nat_eq, arith,
  Option-cases, Bool-cases, inl, inr,
}
use my_messenger.Prelude.Result.{ok, Result-cases}
use my_messenger.Crypto.Handles.{
  Pointer, uninitialised, null, pkey, KeyStore, pointer, pkey_of, construct, point, up_ref,
  and_freed, free, generate, copy_construct, dh_copy_construct, copy_assign, move_construct,
  move_assign, destroy,
}
use my_messenger.Crypto.Handles.Balance.{
  count, holds, holders, keys_of, written_over, Balanced, holders-construct, holders-set,
  get_elem?-set_other, pkey_of-slot,
}

pub construct-Balanced :
    (lost : List ℕ) (s : KeyStore) (p : Pointer)
    → ((k : ℕ) → holds k p ≡ 0)
    → Balanced lost s
    → Balanced lost (construct p s)
construct-Balanced lost s p empty h k = omega (arith, holders-construct k s.objects p, empty k, h k)

pub generate-Balanced :
    (lost : List ℕ) (s : KeyStore) (x : ℕ) → Balanced lost s → Balanced lost (generate x s)
unfolding generate
generate-Balanced lost s x h k = omega (arith, holders-construct k s.objects (pkey x), h k)

pub copy_construct-Balanced :
    (lost : List ℕ) (s s' : KeyStore) (other : ℕ)
    → Balanced lost s
    → copy_construct other s ≡ ok s'
    → Balanced lost s'
unfolding copy_construct
copy_construct-Balanced lost s s' other h e = elim (Result-cases (pkey_of other s)) [
  | inr (bad, p) ↦ absurd (ground (arith, p))
  | inl (none, p) ↦
      let q : construct uninitialised s ≡ s' = ground (arith, p) in
      subst (Balanced lost) q (construct-Balanced lost s uninitialised (λ k. refl) h)
  | inl (some x, p) ↦
      let q : construct (pkey x) (up_ref x s) ≡ s' = ground (arith, p) in
      subst (Balanced lost) q (λ k. omega (arith, holders-construct k s.objects (pkey x), h k))
]

pub dh_copy_construct-Balanced :
    (lost : List ℕ) (s s' : KeyStore) (other : ℕ)
    → Balanced lost s
    → dh_copy_construct other s ≡ ok s'
    → Balanced lost s'
unfolding dh_copy_construct
dh_copy_construct-Balanced lost s s' other h e = elim (Result-cases (pkey_of other s)) [
  | inr (bad, p) ↦ absurd (ground (arith, p))
  | inl (none, p) ↦
      let q : construct null s ≡ s' = ground (arith, p) in
      subst (Balanced lost) q (construct-Balanced lost s null (λ k. refl) h)
  | inl (some x, p) ↦
      let q : construct (pkey x) (up_ref x s) ≡ s' = ground (arith, p) in
      subst (Balanced lost) q (λ k. omega (arith, holders-construct k s.objects (pkey x), h k))
]

-- Pointing an object elsewhere, in the number of those that hold a key.
holders-point :
    (s : KeyStore) (i : ℕ) (held : Option ℕ) (p : Pointer) (k : ℕ)
    → pkey_of i s ≡ ok held
    → holders k (set s.objects i p) + holds k (pointer held) ≡ holders k s.objects + holds k p
holders-point s i held p k e = holders-set k s.objects i (pointer held) p (pkey_of-slot i s held e)

count-and_freed :
    (k : ℕ) (held : Option ℕ) (freed : List ℕ)
    → count k (and_freed held freed) ≡ holds k (pointer held) + count k freed
count-and_freed k none freed = omega arith
count-and_freed k (some x) freed = omega arith

pub destroy-Balanced :
    (lost : List ℕ) (s s' : KeyStore) (this : ℕ)
    → Balanced lost s
    → destroy this s ≡ ok s'
    → Balanced lost s'
unfolding destroy
destroy-Balanced lost s s' this h e = elim (Result-cases (pkey_of this s)) [
  | inr (bad, p) ↦ absurd (ground (arith, p))
  | inl (own, p) ↦
      let q : point this uninitialised (free own s) ≡ s' = ground (arith, p) in
      subst (Balanced lost) q (λ k.
        omega
          (arith, h k, holders-point s this own uninitialised k p, count-and_freed k own s.freed))
]

pub move_construct-Balanced :
    (lost : List ℕ) (s s' : KeyStore) (other : ℕ)
    → Balanced lost s
    → move_construct other s ≡ ok s'
    → Balanced lost s'
unfolding move_construct
move_construct-Balanced lost s s' other h e = elim (Result-cases (pkey_of other s)) [
  | inr (bad, p) ↦ absurd (ground (arith, p))
  | inl (held, p) ↦
      let q : construct (pointer held) (point other null s) ≡ s' = ground (arith, p) in
      subst (Balanced lost) q (λ k. omega (
        arith,
        h k,
        holders-point s other held null k p,
        holders-construct k (set s.objects other null) (pointer held),
      ))
]

-- Between two objects, the key moves and the old one is freed.
moved-Balanced :
    (lost : List ℕ) (s : KeyStore) (this other : ℕ) (own held : Option ℕ)
    → this ≢ other
    → Balanced lost s
    → pkey_of this s ≡ ok own
    → pkey_of other s ≡ ok held
    → Balanced lost (point other null (point this (pointer held) (free own s)))
moved-Balanced lost s this other own held ne h p q k =
    let still : get_elem? (set s.objects this (pointer held)) other ≡ some (pointer held) =
      get_elem?-set_other s.objects this other (pointer held) ne ∙ pkey_of-slot other s held q in
    omega (
      arith,
      h k,
      holders-point s this own (pointer held) k p,
      holders-set k (set s.objects this (pointer held)) other (pointer held) null still,
      count-and_freed k own s.freed,
    )

pub move_assign-Balanced :
    (lost : List ℕ) (s s' : KeyStore) (this other : ℕ)
    → Balanced lost s
    → move_assign this other s ≡ ok s'
    → Balanced lost s'
unfolding move_assign
move_assign-Balanced lost s s' this other h e = elim (Bool-cases (nat_eq this other)) [
  | inl same ↦ let q : s ≡ s' = ground (arith, same) in subst (Balanced lost) q h
  | inr differ ↦ elim (Result-cases (pkey_of this s)) [
    | inr (bad, p) ↦ absurd (ground (arith, p, differ))
    | inl (own, p) ↦ elim (Result-cases (pkey_of other s)) [
      | inr (bad, r) ↦ absurd (ground (arith, p, differ, r))
      | inl (held, r) ↦
          let q : point other null (point this (pointer held) (free own s)) ≡ s' =
            ground (arith, p, differ, r) in
          let apart : this ≢ other = λ e. absurd (ground (arith, differ, e)) in
          subst (Balanced lost) q (moved-Balanced lost s this other own held apart h p r)
    ]
  ]
]

-- Pointing an object at a further reference loses the key it had.
written_over-Balanced :
    (lost : List ℕ) (s : KeyStore) (this x : ℕ) (old : Pointer)
    → Balanced lost s
    → get_elem? s.objects this ≡ some old
    → Balanced (keys_of (some old) ++ lost) (point this (pkey x) (up_ref x s))
written_over-Balanced lost s this x uninitialised h p k =
    omega (arith, h k, holders-set k s.objects this uninitialised (pkey x) p)
written_over-Balanced lost s this x null h p k =
    omega (arith, h k, holders-set k s.objects this null (pkey x) p)
written_over-Balanced lost s this x (pkey old) h p k =
    omega (arith, h k, holders-set k s.objects this (pkey old) (pkey x) p)

pub copy_assign-Balanced :
    (lost : List ℕ) (s s' : KeyStore) (this other : ℕ)
    → Balanced lost s
    → get_elem? s.objects this ≢ none
    → copy_assign this other s ≡ ok s'
    → Balanced (written_over this (pkey_of other s) s ++ lost) s'
unfolding copy_assign
copy_assign-Balanced lost s s' this other h there e = elim (Result-cases (pkey_of other s)) [
  | inr (bad, p) ↦ absurd (ground (arith, p))
  | inl (none, p) ↦ let q : s ≡ s' = ground (arith, p) in rw p (subst (Balanced lost) q h)
  | inl (some x, p) ↦ elim (Option-cases (get_elem? s.objects this)) [
    | inl gone ↦ absurd (there gone)
    | inr (old, r) ↦
        let q : point this (pkey x) (up_ref x s) ≡ s' = ground (arith, p) in
        rw (p, r)
          (subst (Balanced (keys_of (some old) ++ lost)) q
            (written_over-Balanced lost s this x old h r))
  ]
]
