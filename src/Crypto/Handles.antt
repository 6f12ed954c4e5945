-- ===== src/Crypto/Handles.antt =====
-- src/infrastructure/crypto/identity_key.cpp: the life of the objects of class IdentityKey, which
-- share an EVP_PKEY by its reference count, and those of class DH_Key, whose constructors, assignments
-- and destructor have the same bodies, but whose pointer is null before the body runs.
pub mod Balance
pub mod Steps
pub mod Reach
use my_messenger.Prelude.{
  ℕ, zero, suc, Option, none, some, List, [], ◌∷◌, ◌++◌, ◌≡◌, get_elem?, set, nat_eq, if◌then◌else◌,
}
use my_messenger.Prelude.Result.{Result, ok, err, or_throw, ◌>>=◌}
use my_messenger.Failure.{Failure, undefined}

-- The member pkey_. `uninitialised`: the storage has no value, since the object was declared
-- without an initialiser or has been destroyed.
pub data Pointer : Type 0 where
  uninitialised null : Pointer
  pkey : ℕ → Pointer

-- `taken` has an entry for each reference that the code was given, by the call that made the key or
-- by EVP_PKEY_up_ref, and `freed` one for each call of EVP_PKEY_free.
pub record KeyStore : Type 0 where
  pub objects : List Pointer
  pub taken : List ℕ
  pub freed : List ℕ

abbrev pub no_keys : KeyStore
no_keys = record { objects = []; taken = []; freed = [] }

-- Reading a pointer without a value is undefined.
abbrev pub value_of : Pointer → Result Failure (Option ℕ)
value_of uninitialised = err undefined
value_of null = ok none
value_of (pkey k) = ok (some k)

abbrev pub pointer : Option ℕ → Pointer
pointer none = null
pointer (some k) = pkey k

unfoldable pub pkey_of : ℕ → KeyStore → Result Failure (Option ℕ)
pkey_of i s = do slot ← or_throw (get_elem? s.objects i) undefined; value_of slot

-- A new object, whose number is that of the objects before it.
abbrev pub construct : Pointer → KeyStore → KeyStore
construct p s = record s { objects = s.objects ++ p ∷ [] }

abbrev pub point : ℕ → Pointer → KeyStore → KeyStore
point i p s = record s { objects = set s.objects i p }

abbrev pub up_ref : ℕ → KeyStore → KeyStore
up_ref k s = record s { taken = k ∷ s.taken }

abbrev pub and_freed : Option ℕ → List ℕ → List ℕ
and_freed none freed = freed
and_freed (some k) freed = k ∷ freed

-- EVP_PKEY_free where the pointer is not null.
abbrev pub free : Option ℕ → KeyStore → KeyStore
free held s = record s { freed = and_freed held s.freed }

-- IdentityKey::generate where each call succeeds; the keys made of raw bytes are given so too.
unfoldable pub generate : ℕ → KeyStore → KeyStore
generate k s = construct (pkey k) (up_ref k s)

-- The copy of a null key is left without a value.
unfoldable pub copy_construct : ℕ → KeyStore → Result Failure KeyStore
copy_construct other s = do
  held ← pkey_of other s
  elim held [
    | none ↦ ok (construct uninitialised s)
    | some k ↦ ok (construct (pkey k) (up_ref k s))
  ]

unfoldable pub dh_copy_construct : ℕ → KeyStore → Result Failure KeyStore
dh_copy_construct other s = do
  held ← pkey_of other s
  elim held [ none ↦ ok (construct null s) | some k ↦ ok (construct (pkey k) (up_ref k s)) ]

-- The key that the object had is not freed, and it stays where the other key is null.
unfoldable pub copy_assign : ℕ → ℕ → KeyStore → Result Failure KeyStore
copy_assign this other s = do
  held ← pkey_of other s
  elim held [ none ↦ ok s | some k ↦ ok (point this (pkey k) (up_ref k s)) ]

unfoldable pub move_construct : ℕ → KeyStore → Result Failure KeyStore
move_construct other s = do
  held ← pkey_of other s
  ok (construct (pointer held) (point other null s))

unfoldable pub move_assign : ℕ → ℕ → KeyStore → Result Failure KeyStore
move_assign this other s = if nat_eq this other then ok s else do
  own ← pkey_of this s
  held ← pkey_of other s
  ok (point other null (point this (pointer held) (free own s)))

-- The destructor.
unfoldable pub destroy : ℕ → KeyStore → Result Failure KeyStore
destroy this s = do own ← pkey_of this s; ok (point this uninitialised (free own s))
