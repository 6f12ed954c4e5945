-- ===== src/Crypto.antt =====
-- The calls of OpenSSL that src/infrastructure/crypto makes, over an unknown type of keys, and what
-- the manual pages of OpenSSL promise of them. `none` is a call that failed.
pub mod Keys
pub mod Kdf
pub mod Gcm
pub mod Handles
use my_messenger.Prelude.{ℕ, ◌≡◌, Bool, true, Option, some, length}
use my_messenger.Prelude.Bytes.{Bytes}

pub record OpenSsl : Type 1 where
  -- an EVP_PKEY
  pub Pkey : Type 0
  -- EVP_PKEY_keygen for EVP_PKEY_X25519, from what the random generator gives
  pub x25519_keygen : Bytes → Option Pkey
  -- EVP_PKEY_get_raw_public_key
  pub raw_public_key : Pkey → Option Bytes
  -- EVP_PKEY_new_raw_public_key for EVP_PKEY_X25519, and for EVP_PKEY_ED25519
  pub x25519_public : Bytes → Option Pkey
  pub ed25519_public : Bytes → Option Pkey
  -- EVP_PKEY_derive of the first key with the second as the peer
  pub pkey_derive : Pkey → Pkey → Option Bytes
  -- EVP_DigestSign of a message
  pub digest_sign : Pkey → Bytes → Option Bytes
  -- EVP_DigestVerify of a message and a signature; `none`: it could not be set up
  pub digest_verify : Pkey → Bytes → Bytes → Option Bool
  -- EVP_PKEY_derive for EVP_PKEY_HKDF with SHA-256: the key, the salt, the info, the output length
  pub hkdf_sha256 : Bytes → Bytes → Bytes → ℕ → Option Bytes
  -- AES-256-GCM: from the key, the IV, the additional data and the plaintext, the ciphertext, and
  -- the tag as EVP_CTRL_GCM_GET_TAG gives it
  pub gcm_seal : Bytes → Bytes → Bytes → Bytes → Bytes × Option Bytes
  -- from the key, the IV, the additional data, the ciphertext and the tag, the plaintext
  pub gcm_open : Bytes → Bytes → Bytes → Bytes → Bytes → Option Bytes

pub record IsLawful (o : OpenSsl) : Type 0 where
  -- A raw X25519 key has 32 bytes, and a key made of it gives it back; so for Ed25519.
  pub x25519_length : (b : Bytes) (k : o.Pkey) → o.x25519_public b ≡ some k → length b ≡ 32
  pub x25519_raw :
      (b : Bytes) (k : o.Pkey) → o.x25519_public b ≡ some k → o.raw_public_key k ≡ some b
  -- Two generated X25519 keys, each with the other's public key, derive the same secret.
  pub agree :
      (own other own' other' : o.Pkey) (seed other_seed a b : Bytes)
      → o.x25519_keygen seed ≡ some own
      → o.x25519_keygen other_seed ≡ some other
      → o.raw_public_key own ≡ some a
      → o.raw_public_key other ≡ some b
      → o.x25519_public a ≡ some own'
      → o.x25519_public b ≡ some other'
      → o.pkey_derive own other' ≡ o.pkey_derive other own'
  -- A signature is accepted under the public part of the key that made it.
  pub verifies :
      (k k' : o.Pkey) (raw text signature : Bytes)
      → o.raw_public_key k ≡ some raw
      → o.ed25519_public raw ≡ some k'
      → o.digest_sign k text ≡ some signature
      → o.digest_verify k' text signature ≡ some true
  -- A tag has the 16 bytes that are asked for, and what was sealed is opened.
  pub tag_length :
      (key iv aad text sealed tag : Bytes)
      → o.gcm_seal key iv aad text ≡ (sealed, some tag)
      → length tag ≡ 16
  pub opens :
      (key iv aad text sealed tag : Bytes)
      → o.gcm_seal key iv aad text ≡ (sealed, some tag)
      → o.gcm_open key iv aad sealed tag ≡ some text
