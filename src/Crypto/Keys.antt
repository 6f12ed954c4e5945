-- ===== src/Crypto/Keys.antt =====
-- src/infrastructure/crypto/identity_key.cpp (classes IdentityKey and DH_Key). A key object is its
-- EVP_PKEY; the null pointer of a default object is `none` where it can occur.
use my_messenger.Prelude.{Option, none, some, [], Bool}
use my_messenger.Prelude.Bytes.{Bytes}
use my_messenger.Prelude.Result.{Result, err, or_throw}
use my_messenger.Failure.{
  Failure, no_public_key, verify_failed, sign_failed, public_key_failed, bad_public_key,
}
use my_messenger.Crypto.{OpenSsl}

module _ (o : OpenSsl) where
  unfoldable pub identity_sign : o.Pkey → Bytes → Result Failure Bytes
  identity_sign key message = or_throw (o.digest_sign key message) sign_failed

  unfoldable pub identity_verify : Option o.Pkey → Bytes → Bytes → Result Failure Bool
  identity_verify none pubkey signature = err no_public_key
  identity_verify (some key) pubkey signature =
      or_throw (o.digest_verify key pubkey signature) verify_failed

  unfoldable pub identity_public_bytes : o.Pkey → Result Failure Bytes
  identity_public_bytes key = or_throw (o.raw_public_key key) public_key_failed

  unfoldable pub identity_from_public_bytes : Bytes → Result Failure o.Pkey
  identity_from_public_bytes bytes = or_throw (o.ed25519_public bytes) bad_public_key

  unfoldable pub dh_from_public_bytes : Bytes → Result Failure o.Pkey
  dh_from_public_bytes bytes = or_throw (o.x25519_public bytes) bad_public_key

  -- A failure gives no bytes, and is not told apart from an empty key.
  unfoldable pub dh_public_bytes : o.Pkey → Bytes
  dh_public_bytes key = elim (o.raw_public_key key) [ none ↦ [] | some buf ↦ buf ]

  unfoldable pub compute_shared_secret : o.Pkey → o.Pkey → Bytes
  compute_shared_secret key other_public_key = elim (o.pkey_derive key other_public_key) [
    | none ↦ []
    | some secret ↦ secret
  ]
