-- ===== src/Encryption/Startup.antt =====
-- src/application/encryption_service.cpp (set_key) with the key files of
-- src/include/infrastructure/crypto/identity_key.hpp. The answers of EVP_PKEY_keygen are arguments,
-- and so is what becomes of the bytes that are written to a file.
pub mod Restart
use my_messenger.Prelude.{ℕ, Bool, true, false, Option, none, some, length, take}
use my_messenger.Prelude.Bytes.{Bytes, Bytes-eq, codes}
use my_messenger.Prelude.Dict.{Dict, lookup, insert, has}
use my_messenger.Prelude.Result.{Result, ok, err, or_throw}
use my_messenger.Failure.{
  Failure, keygen_failed, private_key_failed, bad_private_key, cannot_open, cannot_write,
}
use my_messenger.Crypto.{OpenSsl}

-- The calls of OpenSSL on private keys.
pub record PrivateKeys (o : OpenSsl) : Type 0 where
  -- EVP_PKEY_get_raw_private_key
  pub raw_private_key : o.Pkey → Option Bytes
  -- EVP_PKEY_new_raw_private_key for EVP_PKEY_ED25519
  pub ed25519_private : Bytes → Option (o.Pkey)

-- The files, by their paths.
abbrev pub Disk : Type 0
Disk = Dict Bytes Bytes

unfoldable pub file_exists : Bytes → Disk → Bool
file_exists path disk = has path disk

unfoldable pub load_file : Bytes → Disk → Result Failure Bytes
load_file path disk = or_throw (lookup path disk) cannot_open

-- What the stream does: it does not open, or this many of the bytes get to the file. The code does
-- not ask whether all did.
abbrev pub Writing : Type 0
Writing = Option ℕ

unfoldable pub save_file : Bytes → Bytes → Writing → Disk → Result Failure (Unit {0}) × Disk
save_file path content none disk = (err cannot_write, disk)
save_file path content (some n) disk = (ok tt, insert path (take n content) disk)

-- The own keys of the service, none of them before set_key, with the files.
pub record Startup (o : OpenSsl) : Type 0 where
  pub dh_key : Option (o.Pkey)
  pub identity_key : Option (o.Pkey)
  pub disk : Disk

abbrev pub identity_path : Bytes
identity_path = codes "identity.key"

-- A process that has not called set_key.
abbrev pub stopped : (o : OpenSsl) → Disk → Startup o
stopped o disk = record { dh_key = none; identity_key = none; disk = disk }

module _ (o : OpenSsl) (p : PrivateKeys o) where
  unfoldable pub private_bytes : o.Pkey → Result Failure Bytes
  private_bytes key = or_throw (p.raw_private_key key) private_key_failed

  unfoldable pub from_private_bytes : Bytes → Result Failure (o.Pkey)
  from_private_bytes bytes = or_throw (p.ed25519_private bytes) bad_private_key

  -- The generated key is kept whatever becomes of its file.
  unfoldable pub make_identity :
      Option (o.Pkey) → Writing → Startup o → Result Failure (Unit {0}) × Startup o
  make_identity none writing s = (err keygen_failed, s)
  make_identity (some key) writing s =
      let s = record s { identity_key = some key } in
      elim (private_bytes key) [
        | err e ↦ (err e, s)
        | ok bytes ↦
            let (r, disk) = save_file identity_path bytes writing s.disk in
            (r, record s { disk = disk })
      ]

  unfoldable pub load_identity : Startup o → Result Failure (Unit {0}) × Startup o
  load_identity s = elim (load_file identity_path s.disk) [
    | err e ↦ (err e, s)
    | ok bytes ↦ elim (from_private_bytes bytes) [
      | err e ↦ (err e, s)
      | ok key ↦ (ok tt, record s { identity_key = some key })
    ]
  ]

  -- The first two arguments are the answers of EVP_PKEY_keygen for X25519 and for Ed25519.
  unfoldable pub set_key :
      Option (o.Pkey)
      → Option (o.Pkey)
      → Writing
      → Startup o
      → Result Failure (Unit {0}) × Startup o
  set_key none ed25519 writing s = (err keygen_failed, s)
  set_key (some dh) ed25519 writing s =
      let s = record s { dh_key = some dh } in
      elim (file_exists identity_path s.disk) [
        | true ↦ load_identity s
        | false ↦ make_identity ed25519 writing s
      ]
