-- ===== src/Crypto/Handles/Reach.antt =====
-- src/infrastructure/crypto/identity_key.cpp: runs of the operations on key objects, and that no
-- object is left with a key that is gone.
use my_messenger.Prelude.{
  ℕ, zero, suc, ◌<◌, none, some, List, [], ◌∷◌, ◌++◌, ◌≡◌, ◌≢◌, refl, get_elem?, arith,
}
use my_messenger.Prelude.Result.{ok}
use my_messenger.Crypto.Handles.{
  Pointer, uninitialised, null, pkey, KeyStore, no_keys, pkey_of, construct, generate,
  copy_construct, dh_copy_construct, copy_assign, move_construct, move_assign, destroy,
}
use my_messenger.Crypto.Handles.Balance.{count, holders, written_over, Balanced, pkey_of-slot}
use my_messenger.Crypto.Handles.Steps.{
  construct-Balanced, generate-Balanced, copy_construct-Balanced, dh_copy_construct-Balanced,
  copy_assign-Balanced, move_construct-Balanced, move_assign-Balanced, destroy-Balanced,
}

-- What runs of the operations lead to, with the keys written over. An operation with undefined
-- behaviour leads nowhere.
pub data Reached : List ℕ → KeyStore → Type 0 where
  started : Reached [] no_keys
  declared :
      {lost : List ℕ} {s : KeyStore} → Reached lost s → Reached lost (construct uninitialised s)
  defaulted : {lost : List ℕ} {s : KeyStore} → Reached lost s → Reached lost (construct null s)
  generated : {lost : List ℕ} {s : KeyStore} (k : ℕ) → Reached lost s → Reached lost (generate k s)
  copy_constructed :
      {lost : List ℕ} {s s' : KeyStore} (other : ℕ)
      → Reached lost s
      → copy_construct other s ≡ ok s'
      → Reached lost s'
  dh_copy_constructed :
      {lost : List ℕ} {s s' : KeyStore} (other : ℕ)
      → Reached lost s
      → dh_copy_construct other s ≡ ok s'
      → Reached lost s'
  copy_assigned :
      {lost : List ℕ} {s s' : KeyStore} (this other : ℕ)
      → Reached lost s
      → get_elem? s.objects this ≢ none
      → copy_assign this other s ≡ ok s'
      → Reached (written_over this (pkey_of other s) s ++ lost) s'
  move_constructed :
      {lost : List ℕ} {s s' : KeyStore} (other : ℕ)
      → Reached lost s
      → move_construct other s ≡ ok s'
      → Reached lost s'
  move_assigned :
      {lost : List ℕ} {s s' : KeyStore} (this other : ℕ)
      → Reached lost s
      → move_assign this other s ≡ ok s'
      → Reached lost s'
  destroyed :
      {lost : List ℕ} {s s' : KeyStore} (this : ℕ)
      → Reached lost s
      → destroy this s ≡ ok s'
      → Reached lost s'

-- In each store that operations reach, every reference that the code took to a key was either freed,
-- or is held by one of the objects, or was lost where a copy assignment wrote over the object that
-- held it.
pub Reached-Balanced : {lost : List ℕ} {s : KeyStore} → Reached lost s → Balanced lost s
Reached-Balanced started = λ k. refl
Reached-Balanced (declared {lost} {s} r) =
    construct-Balanced lost s uninitialised (λ k. refl) (Reached-Balanced r)
Reached-Balanced (defaulted {lost} {s} r) =
    construct-Balanced lost s null (λ k. refl) (Reached-Balanced r)
Reached-Balanced (generated {lost} {s} x r) = generate-Balanced lost s x (Reached-Balanced r)
Reached-Balanced (copy_constructed {lost} {s} {s'} other r e) =
    copy_construct-Balanced lost s s' other (Reached-Balanced r) e
Reached-Balanced (dh_copy_constructed {lost} {s} {s'} other r e) =
    dh_copy_construct-Balanced lost s s' other (Reached-Balanced r) e
Reached-Balanced (copy_assigned {lost} {s} {s'} this other r there e) =
    copy_assign-Balanced lost s s' this other (Reached-Balanced r) there e
Reached-Balanced (move_constructed {lost} {s} {s'} other r e) =
    move_construct-Balanced lost s s' other (Reached-Balanced r) e
Reached-Balanced (move_assigned {lost} {s} {s'} this other r e) =
    move_assign-Balanced lost s s' this other (Reached-Balanced r) e
Reached-Balanced (destroyed {lost} {s} {s'} this r e) =
    destroy-Balanced lost s s' this (Reached-Balanced r) e

holders-get_elem? :
    (k : ℕ) (ps : List Pointer) (i : ℕ) → get_elem? ps i ≡ some (pkey k) → 0 < holders k ps
holders-get_elem? k [] i e = absurd cc
holders-get_elem? k (p ∷ ps) zero e = let same : p ≡ pkey k = cc in rw same (ground arith)
holders-get_elem? k (p ∷ ps) (suc i) e = omega (arith, holders-get_elem? k ps i e)

-- A key that an object holds has been freed fewer times than it was taken, in each store that
-- operations reach: no object is left with a key that is gone.
pub held_key_lives :
    {lost : List ℕ} {s : KeyStore} (i k : ℕ)
    → Reached lost s
    → pkey_of i s ≡ ok (some k)
    → count k s.freed < count k s.taken
held_key_lives {lost} {s} i k r e =
    omega
      (arith, Reached-Balanced r k, holders-get_elem? k s.objects i (pkey_of-slot i s (some k) e))
