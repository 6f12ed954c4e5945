-- ===== src/Crypto/Kdf.antt =====
-- include/infrastructure/crypto/KDF.hpp (class HKDF).
use my_messenger.Prelude.{
  ℕ, ◌≡◌, refl, [], ◌∷◌, ◌++◌, Bool, true, false, ltb, if◌then◌else◌, arith, Bool-cases, inl, inr,
}
use my_messenger.Prelude.Bytes.{Bytes, codes}
use my_messenger.Prelude.Result.{Result, or_throw}
use my_messenger.Failure.{Failure, hkdf_failed}
use my_messenger.Crypto.{OpenSsl}

-- std::vector's operator<
unfoldable pub bytes_less : Bytes → Bytes → Bool
bytes_less [] [] = false
bytes_less [] (b ∷ bs) = true
bytes_less (a ∷ as') [] = false
bytes_less (a ∷ as') (b ∷ bs) =
    let rest = bytes_less as' bs in if ltb a b then true else if ltb b a then false else rest

-- The two names, the smaller first.
unfoldable pub messaging_salt : Bytes → Bytes → Bytes
messaging_salt sender_id receiver_id =
    if bytes_less sender_id receiver_id then sender_id ++ receiver_id else receiver_id ++ sender_id

module _ (o : OpenSsl) where
  unfoldable pub hkdf_derive : Bytes → Bytes → Bytes → ℕ → Result Failure Bytes
  hkdf_derive ikm salt info output_len =
      or_throw (o.hkdf_sha256 ikm salt info output_len) hkdf_failed

  unfoldable pub derive_for_messaging : Bytes → Bytes → Bytes → Bytes → Result Failure Bytes
  derive_for_messaging shared_secret sender_id receiver_id purpose =
      hkdf_derive shared_secret (messaging_salt sender_id receiver_id)
        (codes "messaging-key-" ++ purpose) 32

less_asym : (a b : Bytes) → bytes_less a b ≡ true → bytes_less b a ≡ false
unfolding bytes_less
less_asym [] [] h = refl
less_asym [] (b ∷ bs) h = refl
less_asym (a ∷ as') [] h = cc
less_asym (a ∷ as') (b ∷ bs) h = ground (arith, less_asym as' bs)

less_total : (a b : Bytes) → bytes_less a b ≡ false → bytes_less b a ≡ false → a ≡ b
unfolding bytes_less
less_total [] [] h k = refl
less_total [] (b ∷ bs) h k = cc
less_total (a ∷ as') [] h k = cc
less_total (a ∷ as') (b ∷ bs) h k = ground (arith, less_total as' bs)

-- Whoever of the two computes it, the salt is the same.
pub messaging_salt_comm : (a b : Bytes) → messaging_salt a b ≡ messaging_salt b a
unfolding messaging_salt
messaging_salt_comm a b = elim (Bool-cases (bytes_less a b)) [
  | inl p ↦ ground (arith, less_asym a b p)
  | inr p ↦ elim (Bool-cases (bytes_less b a)) [
    | inl q ↦ ground arith
    | inr q ↦ rw (less_total a b p q) refl
  ]
]
