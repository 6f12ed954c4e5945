-- ===== src/Encryption/Startup/Restart.antt =====
-- src/application/encryption_service.cpp (set_key): who the user is after a restart.
use my_messenger.Prelude.{
  ℕ, ◌≤◌, ◌<◌, ◌≡◌, ◌≢◌, refl, ap, ◌∙◌, [], ◌∷◌, zero, suc, length-take, Option, none, some, length,
  take, arith,
}
use my_messenger.Prelude.Bytes.{Bytes, Bytes-eq}
use my_messenger.Prelude.Dict.{lookup, insert, lookup-insert}
use my_messenger.Prelude.Result.{ok, err, or_throw}
use my_messenger.Failure.{bad_private_key, public_key_failed}
use my_messenger.Crypto.{OpenSsl}
use my_messenger.Crypto.Keys.{identity_public_bytes}
use my_messenger.Encryption.Startup.{
  PrivateKeys, Startup, stopped, Disk, Writing, identity_path, file_exists, load_file, save_file,
  private_bytes, from_private_bytes, make_identity, load_identity, set_key,
}

-- What the manual pages of OpenSSL promise of raw private keys: those of Ed25519 have 32 bytes, other
-- lengths are refused, and a key made of them has the same public part.
pub record IsRestoring (o : OpenSsl) (p : PrivateKeys o) : Type 1 where
  pub IsEd25519 : o.Pkey → Type 0
  pub private_length :
      (k : o.Pkey) (b : Bytes) → IsEd25519 k → p.raw_private_key k ≡ some b → length b ≡ 32
  pub other_length : (b : Bytes) → length b ≢ 32 → p.ed25519_private b ≡ none
  pub restores :
      (k : o.Pkey) (b : Bytes)
      → IsEd25519 k
      → p.raw_private_key k ≡ some b
      → (k' : o.Pkey) × (p.ed25519_private b ≡ some k') × (o.raw_public_key k' ≡ o.raw_public_key k)

take_whole : (n : ℕ) (xs : Bytes) → length xs ≤ n → take n xs ≡ xs
take_whole zero [] h = refl
take_whole zero (x ∷ xs) h = absurd (omega arith)
take_whole (suc n) [] h = refl
take_whole (suc n) (x ∷ xs) h = ap (◌∷◌ x) (take_whole n xs (omega arith))

-- The file that a first call leaves.
abbrev with_identity : Bytes → Disk → Disk
with_identity bytes disk = insert identity_path bytes disk

lookup-with_identity :
    (bytes : Bytes) (disk : Disk) → lookup identity_path (with_identity bytes disk) ≡ some bytes
lookup-with_identity bytes disk = lookup-insert identity_path identity_path bytes disk

module _ (o : OpenSsl) (p : PrivateKeys o) where
  set_key-first :
      (dh k : o.Pkey) (b : Bytes) (n : ℕ) (s : Startup o)
      → lookup identity_path s.disk ≡ none
      → p.raw_private_key k ≡ some b
      → set_key o p (some dh) (some k) (some n) s ≡ (
        ok tt,
        record { dh_key = some dh; identity_key = some k; disk = with_identity (take n b) s.disk },
      )
  unfolding set_key make_identity save_file private_bytes file_exists
  set_key-first dh k b n s fresh raw = ground (arith, fresh, raw)

  set_key-again :
      (dh k : o.Pkey) (b : Bytes) (ed25519 : Option (o.Pkey)) (writing : Writing) (disk : Disk)
      → lookup identity_path disk ≡ some b
      → p.ed25519_private b ≡ some k
      → set_key o p (some dh) ed25519 writing (stopped o disk)
        ≡ (ok tt, record { dh_key = some dh; identity_key = some k; disk = disk })
  unfolding set_key load_identity load_file from_private_bytes file_exists
  set_key-again dh k b ed25519 writing disk there made = ground (arith, there, made)

  set_key-refused :
      (dh : o.Pkey) (b : Bytes) (ed25519 : Option (o.Pkey)) (writing : Writing) (disk : Disk)
      → lookup identity_path disk ≡ some b
      → p.ed25519_private b ≡ none
      → set_key o p (some dh) ed25519 writing (stopped o disk)
        ≡ (err bad_private_key, record { dh_key = some dh; identity_key = none; disk = disk })
  unfolding set_key load_identity load_file from_private_bytes file_exists
  set_key-refused dh b ed25519 writing disk there refused = ground (arith, there, refused)

-- Where there is no key file, the first call generates the identity key and, if its 32 bytes get to
-- the file, each later start of the process with that disk has an identity key with the same public
-- bytes and a new key for the exchange, and leaves the disk as it is.
pub set_key-set_key :
    (o : OpenSsl) (p : PrivateKeys o) (law : IsRestoring o p) (dh dh' k : o.Pkey) (b : Bytes)
    (n : ℕ) (ed25519 : Option (o.Pkey)) (writing : Writing) (s : Startup o)
    → lookup identity_path s.disk ≡ none
    → law.IsEd25519 k
    → p.raw_private_key k ≡ some b
    → 32 ≤ n
    → (k' : o.Pkey) × (disk : Disk) × (set_key o p (some dh) (some k) (some n) s
        ≡ (ok tt, record { dh_key = some dh; identity_key = some k; disk = disk }))
      × (set_key o p (some dh') ed25519 writing (stopped o disk)
          ≡ (ok tt, record { dh_key = some dh'; identity_key = some k'; disk = disk }))
      × (identity_public_bytes o k' ≡ identity_public_bytes o k)
unfolding identity_public_bytes
set_key-set_key o p law dh dh' k b n ed25519 writing s fresh ed raw enough =
    let (k', made, same) = law.restores k b ed raw in
    let whole : take n b ≡ b = take_whole n b (omega (arith, law.private_length k b ed raw)) in
    let made' : p.ed25519_private (take n b) ≡ some k' = ap p.ed25519_private whole ∙ made in
    (
      k',
      with_identity (take n b) s.disk,
      set_key-first o p dh k b n s fresh raw,
      set_key-again o p dh' k' (take n b) ed25519 writing (with_identity (take n b) s.disk)
          (lookup-with_identity (take n b) s.disk) made',
      ap (λ r. or_throw r public_key_failed) same,
    )

-- Where fewer than the 32 bytes of the identity key get to its file, the first call succeeds all the
-- same, and each later start with that disk fails, whatever the other answers are.
pub set_key-truncated :
    (o : OpenSsl) (p : PrivateKeys o) (law : IsRestoring o p) (dh dh' k : o.Pkey) (b : Bytes)
    (n : ℕ) (ed25519 : Option (o.Pkey)) (writing : Writing) (s : Startup o)
    → lookup identity_path s.disk ≡ none
    → law.IsEd25519 k
    → p.raw_private_key k ≡ some b
    → n < 32
    → (disk : Disk) × (set_key o p (some dh) (some k) (some n) s
        ≡ (ok tt, record { dh_key = some dh; identity_key = some k; disk = disk }))
      × (set_key o p (some dh') ed25519 writing (stopped o disk)
          ≡ (err bad_private_key, record { dh_key = some dh'; identity_key = none; disk = disk }))
set_key-truncated o p law dh dh' k b n ed25519 writing s fresh ed raw short =
    let refused : p.ed25519_private (take n b) ≡ none =
      law.other_length (take n b) (λ e. absurd (omega (arith, length-take n b, e))) in
    (
      with_identity (take n b) s.disk,
      set_key-first o p dh k b n s fresh raw,
      set_key-refused o p dh' (take n b) ed25519 writing (with_identity (take n b) s.disk)
          (lookup-with_identity (take n b) s.disk) refused,
    )
