-- ===== src/Tests/Keys.antt =====
-- Key objects that come and go, and starts of a client with and without its key file.
use my_messenger.Prelude.{
  ◌≡◌, ◌<◌, refl, [], ◌∷◌, Option, none, some, length, nat_eq, nat_eq_iff, if◌then◌else◌, arith, ap,
  ◌≢◌, sym,
}
use my_messenger.Prelude.Bytes.{Bytes}
use my_messenger.Prelude.Result.{ok, err}
use my_messenger.Prelude.Dict.{lookup}
use my_messenger.Failure.{bad_private_key}
use my_messenger.Crypto.Keys.{identity_public_bytes}
use my_messenger.Crypto.Handles.{
  KeyStore, no_keys, pkey_of, generate, copy_assign, destroy, uninitialised, pkey,
}
use my_messenger.Crypto.Handles.Balance.{Balanced, count}
use my_messenger.Crypto.Handles.Reach.{
  Reached, started, generated, copy_assigned, destroyed, Reached-Balanced, held_key_lives,
}
use my_messenger.Encryption.Startup.{PrivateKeys, Disk, stopped, set_key}
use my_messenger.Encryption.Startup.Restart.{IsRestoring, set_key-set_key, set_key-truncated}
use my_messenger.Tests.Toy.{toy, key_of}

-- Two keys; the object of the first takes over the second, and is destroyed.
abbrev two_keys : KeyStore
two_keys = generate 9 (generate 7 no_keys)

abbrev overwritten : KeyStore
overwritten = record { objects = pkey 9 ∷ pkey 9 ∷ []; taken = 9 ∷ 9 ∷ 7 ∷ []; freed = [] }

abbrev one_gone : KeyStore
one_gone = record { objects = uninitialised ∷ pkey 9 ∷ []; taken = 9 ∷ 9 ∷ 7 ∷ []; freed = 9 ∷ [] }

one_gone-Reached : Reached (7 ∷ []) one_gone
unfolding generate copy_assign destroy pkey_of
one_gone-Reached =
    destroyed {s = overwritten} 0
      (copy_assigned {s = two_keys} 0 1 (generated 9 (generated 7 started)) (λ e. cc) refl) refl

Reached-Balanced_example : Balanced (7 ∷ []) one_gone
Reached-Balanced_example = Reached-Balanced one_gone-Reached

held_key_lives_example : count 9 one_gone.freed < count 9 one_gone.taken
unfolding pkey_of
held_key_lives_example = held_key_lives 1 9 one_gone-Reached refl

-- A private key is the key, if that has 32 bytes.
abbrev raw_or_none : Bytes → Option Bytes
raw_or_none b = if nat_eq (length b) 32 then some b else none

abbrev toy_private : PrivateKeys toy
toy_private = record { raw_private_key = raw_or_none; ed25519_private = raw_or_none }

raw : (k b : Bytes) → raw_or_none k ≡ some b → (length b ≡ 32) × (k ≡ b)
raw k b e = (ground (arith, nat_eq_iff (length k) 32), ground arith)

raw_again : (b : Bytes) → length b ≡ 32 → raw_or_none b ≡ some b
raw_again b e = ground (arith, nat_eq_iff (length b) 32)

other_raw : (b : Bytes) → length b ≢ 32 → raw_or_none b ≡ none
other_raw b ne = ground (arith, ne, nat_eq_iff (length b) 32)

abbrev toy-IsRestoring : IsRestoring toy toy_private
toy-IsRestoring = record {
  IsEd25519 = λ k. Unit;
  private_length = λ k b u e. (raw k b e).0;
  other_length = other_raw;
  restores = λ k b u e. (b, raw_again b (raw k b e).0, ap (λ x. some x) (sym (raw k b e).1));
}

set_key-set_key_example :
    (k' : Bytes) × (disk : Disk) × (set_key toy toy_private
        (some (key_of 1))
        (some (key_of 2))
        (some 32)
        (stopped toy [])
      ≡ (ok tt, record { dh_key = some (key_of 1); identity_key = some (key_of 2); disk = disk }))
    × (set_key toy toy_private (some (key_of 3)) none none (stopped toy disk)
        ≡ (ok tt, record { dh_key = some (key_of 3); identity_key = some k'; disk = disk }))
    × (identity_public_bytes toy k' ≡ identity_public_bytes toy (key_of 2))
unfolding lookup
set_key-set_key_example =
    set_key-set_key toy toy_private toy-IsRestoring (key_of 1) (key_of 3) (key_of 2) (key_of 2) 32
      none none (stopped toy []) refl tt refl (omega arith)

set_key-truncated_example :
    (disk : Disk) × (set_key toy toy_private
        (some (key_of 1))
        (some (key_of 2))
        (some 10)
        (stopped toy [])
      ≡ (ok tt, record { dh_key = some (key_of 1); identity_key = some (key_of 2); disk = disk }))
    × (set_key toy toy_private (some (key_of 3)) none none (stopped toy disk) ≡ (
      err bad_private_key,
      record { dh_key = some (key_of 3); identity_key = none; disk = disk },
    ))
unfolding lookup
set_key-truncated_example =
    set_key-truncated toy toy_private toy-IsRestoring (key_of 1) (key_of 3) (key_of 2) (key_of 2) 10
      none none (stopped toy []) refl tt refl (omega arith)
