-- ===== src/Encryption.antt =====
-- src/application/encryption_service.cpp (class EncryptionService). set_key has run: both own keys
-- are there. Wiping a secret after its use is left out.
pub mod Exchange
pub mod Startup
use my_messenger.Prelude.{ℕ, Option, none, some, Bool, true, false}
use my_messenger.Prelude.Bytes.{Bytes, Bytes-eq, codes}
use my_messenger.Prelude.Dict.{Dict, lookup, insert}
use my_messenger.Prelude.Result.{Result, ok, err, or_throw, ◌>>=◌}
use my_messenger.Failure.{Failure, public_key_not_found, mitm_detected}
use my_messenger.Crypto.{OpenSsl}
use my_messenger.Crypto.Keys.{
  identity_sign, identity_verify, identity_public_bytes, identity_from_public_bytes,
  dh_from_public_bytes, dh_public_bytes, compute_shared_secret,
}
use my_messenger.Crypto.Kdf.{derive_for_messaging}
use my_messenger.Crypto.Gcm.{encrypt, decrypt}

pub record EncryptionService (o : OpenSsl) : Type 0 where
  pub dh_key : o.Pkey
  pub identity_key : o.Pkey
  pub dh_keys : Dict Bytes (o.Pkey)
  pub identity_keys : Dict Bytes (o.Pkey)

module _ (o : OpenSsl) where
  unfoldable pub service_sign : EncryptionService o → Result Failure Bytes
  service_sign s = identity_sign o s.identity_key (dh_public_bytes o s.dh_key)

  unfoldable pub get_dh_bytes : EncryptionService o → Bytes
  get_dh_bytes s = dh_public_bytes o s.dh_key

  unfoldable pub get_identity_bytes : EncryptionService o → Result Failure Bytes
  get_identity_bytes s = identity_public_bytes o s.identity_key

  -- The last argument is the answer of RAND_bytes.
  unfoldable pub encrypt_for :
      EncryptionService o → Bytes → Bytes → Bytes → ℕ → Option Bytes → Result Failure Bytes
  encrypt_for s sender username plaintext counter iv = do
    dh ← or_throw (lookup username s.dh_keys) public_key_not_found
    encryption_key ←
        derive_for_messaging o (compute_shared_secret o s.dh_key dh) sender username
          (codes "encryption")
    encrypt o encryption_key plaintext counter iv

  -- A sender with no identity key is looked up as a default key, which has none.
  unfoldable pub decrypt_for :
      EncryptionService o → Bytes → Bytes → Bytes → Bytes → ℕ → Result Failure Bytes
  decrypt_for s sender username ciphertext signature counter = do
    dh ← or_throw (lookup sender s.dh_keys) public_key_not_found
    genuine ← identity_verify o (lookup sender s.identity_keys) (dh_public_bytes o dh) signature
    elim genuine [
      | false ↦ err mitm_detected
      | true ↦ (do
        decryption_key ←
            derive_for_messaging o (compute_shared_secret o s.dh_key dh) sender username
              (codes "encryption")
        decrypt o decryption_key ciphertext counter)
    ]

  -- Where the second key is refused, the first one stays cached.
  unfoldable pub cache_public_key :
      Bytes → Bytes → Bytes → EncryptionService o → Result Failure (Unit {0}) × EncryptionService o
  cache_public_key username pubkey identity s = elim (dh_from_public_bytes o pubkey) [
    | err e ↦ (err e, s)
    | ok dh ↦
        let s' = record s { dh_keys = insert username dh s.dh_keys } in
        elim (identity_from_public_bytes o identity) [
          | err e ↦ (err e, s')
          | ok key ↦ (ok tt, record s' { identity_keys = insert username key s.identity_keys })
        ]
  ]
