-- ===== src/Encryption/Exchange.antt =====
-- Two services of src/application/encryption_service.cpp that have cached each other's public keys.
use my_messenger.Prelude.{
  ℕ, ◌^◌, ◌<◌, ◌≡◌, refl, sym, [], true, Option, some, length, nat_eq, if◌then◌else◌, arith,
  Option-cases, inl, inr,
}
use my_messenger.Prelude.Bytes.{Bytes, Bytes-eq, bytes_eq_iff, codes}
use my_messenger.Prelude.Dict.{lookup, lookup-insert}
use my_messenger.Prelude.Result.{ok, err, or_throw, Result-cases}
use my_messenger.Failure.{replay_detected, public_key_failed}
use my_messenger.Crypto.{OpenSsl, IsLawful}
use my_messenger.Crypto.Keys.{
  identity_sign, identity_verify, identity_public_bytes, identity_from_public_bytes,
  dh_from_public_bytes, dh_public_bytes, compute_shared_secret,
}
use my_messenger.Crypto.Kdf.{derive_for_messaging}
use my_messenger.Crypto.Gcm.{encrypt}
use my_messenger.Crypto.Gcm.Laws.{decrypt-encrypt}
use my_messenger.Encryption.{
  EncryptionService, service_sign, get_dh_bytes, get_identity_bytes, encrypt_for, decrypt_for,
  cache_public_key,
}

-- `reader` has the public keys of `writer` under that name.
pub record Knows (o : OpenSsl) (reader writer : EncryptionService o) (name : Bytes) : Type 0 where
  pub dh : o.Pkey
  pub identity : o.Pkey
  pub identity_bytes : Bytes
  pub dh_made : o.x25519_public (get_dh_bytes o writer) ≡ some dh
  pub identity_raw : o.raw_public_key writer.identity_key ≡ some identity_bytes
  pub identity_made : o.ed25519_public identity_bytes ≡ some identity
  pub dh_cached : lookup name reader.dh_keys ≡ some dh
  pub identity_cached : lookup name reader.identity_keys ≡ some identity

-- The Diffie-Hellman key of a service is one that OpenSSL has generated.
pub record HasGeneratedKey (o : OpenSsl) (s : EncryptionService o) : Type 0 where
  pub seed : Bytes
  pub generated : o.x25519_keygen seed ≡ some s.dh_key

raw_of_ok {ℓ} :
    {K : Type ℓ} (f : K → Option Bytes) (k : K) (b : Bytes)
    → or_throw (f k) public_key_failed ≡ ok b
    → f k ≡ some b
raw_of_ok f k b h = elim (Option-cases (f k)) [ inl p ↦ ground arith | inr (c, p) ↦ ground arith ]

-- Caching the keys that the other side gives out makes them known.
pub cache_public_key-Knows :
    (o : OpenSsl) (reader writer reader' : EncryptionService o) (name identity_bytes : Bytes)
    → get_identity_bytes o writer ≡ ok identity_bytes
    → cache_public_key o name (get_dh_bytes o writer) identity_bytes reader ≡ (ok tt, reader')
    → Knows o reader' writer name
unfolding cache_public_key get_identity_bytes identity_public_bytes dh_from_public_bytes
    identity_from_public_bytes
cache_public_key-Knows o reader writer reader' name bytes id h =
    elim (Option-cases (o.x25519_public (get_dh_bytes o writer))) [
      | inl p ↦ ground arith
      | inr (dh, p) ↦ elim (Option-cases (o.ed25519_public bytes)) [
        | inl q ↦ ground arith
        | inr (key, q) ↦ record {
          dh = dh;
          identity = key;
          identity_bytes = bytes;
          dh_made = p;
          identity_made = q;
          identity_raw = raw_of_ok o.raw_public_key writer.identity_key bytes id;
          dh_cached =
              ground (arith, lookup-insert name name dh reader.dh_keys, bytes_eq_iff name name);
          identity_cached =
              ground
                (arith, lookup-insert name name key reader.identity_keys, bytes_eq_iff name name);
        }
      ]
    ]

-- A key whose public bytes make a key has public bytes.
raw_of_made :
    (o : OpenSsl) (k k' : o.Pkey)
    → IsLawful o
    → o.x25519_public (dh_public_bytes o k) ≡ some k'
    → o.raw_public_key k ≡ some (dh_public_bytes o k)
unfolding dh_public_bytes
raw_of_made o k k' lawful h = elim (Option-cases (o.raw_public_key k)) [
  | inl p ↦ ground (arith, lawful.x25519_length [] k')
  | inr (b, p) ↦ ground arith
]

shared :
    (o : OpenSsl) (alice bob : EncryptionService o) (alice_name bob_name : Bytes)
    → IsLawful o
    → HasGeneratedKey o alice
    → HasGeneratedKey o bob
    → (ab : Knows o alice bob bob_name) → (ba : Knows o bob alice alice_name)
    → compute_shared_secret o alice.dh_key ab.dh ≡ compute_shared_secret o bob.dh_key ba.dh
unfolding compute_shared_secret get_dh_bytes
shared o alice bob alice_name bob_name lawful ga gb ab ba =
    let a = raw_of_made o alice.dh_key ba.dh lawful ba.dh_made in
    let b = raw_of_made o bob.dh_key ab.dh lawful ab.dh_made in
    rw
      (
        lawful.agree alice.dh_key bob.dh_key ba.dh ab.dh ga.seed gb.seed _ _ ga.generated
            gb.generated a b ba.dh_made ab.dh_made,
        compute_shared_secret,
      )
      refl

known_public :
    (o : OpenSsl) (reader writer : EncryptionService o) (name : Bytes)
    → IsLawful o
    → (k : Knows o reader writer name) → dh_public_bytes o k.dh ≡ dh_public_bytes o writer.dh_key
unfolding get_dh_bytes dh_public_bytes
known_public o reader writer name lawful k =
    rw (lawful.x25519_raw _ k.dh k.dh_made, dh_public_bytes) refl

verified :
    (o : OpenSsl) (reader writer : EncryptionService o) (name signature : Bytes)
    → IsLawful o
    → (k : Knows o reader writer name) → service_sign o writer ≡ ok signature
    → identity_verify o (lookup name reader.identity_keys) (dh_public_bytes o k.dh) signature
      ≡ ok true
unfolding service_sign identity_sign identity_verify
verified o reader writer name signature lawful k signed =
    elim (Option-cases (o.digest_sign writer.identity_key (dh_public_bytes o writer.dh_key))) [
      | inl p ↦ ground arith
      | inr (s, p) ↦
          let made : o.digest_sign writer.identity_key (dh_public_bytes o writer.dh_key)
              ≡ some signature =
            ground arith in
          let accepted =
            lawful.verifies writer.identity_key k.identity k.identity_bytes _ signature
              k.identity_raw k.identity_made made in
          rw (k.identity_cached, known_public o reader writer name lawful k, accepted) refl
    ]

-- Where the Diffie-Hellman keys of both sides were generated, what one side encrypts, with a counter of
-- 64 bits and an IV of 12 bytes, for the other, which knows its keys, the other decrypts with the first
-- side's signature and the same counter; with another counter it is refused as a replay.
pub decrypt_for-encrypt_for :
    (o : OpenSsl) (alice bob : EncryptionService o)
    (alice_name bob_name text iv signature e : Bytes) (sent expected : ℕ)
    → IsLawful o
    → HasGeneratedKey o alice
    → HasGeneratedKey o bob
    → Knows o alice bob bob_name
    → Knows o bob alice alice_name
    → length iv ≡ 12
    → sent < 2 ^ 64
    → service_sign o alice ≡ ok signature
    → encrypt_for o alice alice_name bob_name text sent (some iv) ≡ ok e
    → decrypt_for o bob alice_name bob_name e signature expected
      ≡ (if nat_eq sent expected then ok text else err replay_detected)
unfolding encrypt_for decrypt_for service_sign
decrypt_for-encrypt_for o alice bob alice_name bob_name text iv signature e sent expected lawful ga
      gb ab ba twelve small signed h =
    let secret = shared o alice bob alice_name bob_name lawful ga gb ab ba in
    let public = known_public o bob alice alice_name lawful ba in
    let genuine = verified o bob alice alice_name signature lawful ba signed in
    elim (Result-cases (
      derive_for_messaging o (compute_shared_secret o alice.dh_key ab.dh) alice_name bob_name
        (codes "encryption"))) [
          | inr (f, p) ↦ ground (arith, ab.dh_cached)
          | inl (key, p) ↦
              let sealed : encrypt o key text sent (some iv) ≡ ok e =
                ground (arith, ab.dh_cached, p, h) in
              rw (ba.dh_cached, genuine)
                (rw (sym secret, p)
                  (decrypt-encrypt o key text iv e sent expected lawful twelve small sealed))
        ]

-- Caching leaves the own keys alone.
own_keys :
    (o : OpenSsl) (s s' : EncryptionService o) (name dh identity : Bytes)
    → cache_public_key o name dh identity s ≡ (ok tt, s')
    → (s.dh_key ≡ s'.dh_key) × (s.identity_key ≡ s'.identity_key)
unfolding cache_public_key
own_keys o s s' name dh identity h = elim (Result-cases (dh_from_public_bytes o dh)) [
  | inr (e, p) ↦ ground arith
  | inl (k, p) ↦ elim (Result-cases (identity_from_public_bytes o identity)) [
    | inr (e, q) ↦ ground arith
    | inl (k', q) ↦ ground arith
  ]
]

pub cache_public_key-HasGeneratedKey :
    (o : OpenSsl) (s s' : EncryptionService o) (name dh identity : Bytes)
    → cache_public_key o name dh identity s ≡ (ok tt, s')
    → HasGeneratedKey o s
    → HasGeneratedKey o s'
cache_public_key-HasGeneratedKey o s s' name dh identity h g = record {
  seed = g.seed;
  generated = rw (sym (own_keys o s s' name dh identity h).0) g.generated;
}

-- So who knew the keys of a service knows them after it has cached others'.
pub cache_public_key-known :
    (o : OpenSsl) (reader writer writer' : EncryptionService o) (own name dh identity : Bytes)
    → cache_public_key o name dh identity writer ≡ (ok tt, writer')
    → Knows o reader writer own
    → Knows o reader writer' own
unfolding get_dh_bytes
cache_public_key-known o reader writer writer' own name dh identity h k =
    let (same_dh, same_identity) = own_keys o writer writer' name dh identity h in
    record {
      dh = k.dh;
      identity = k.identity;
      identity_bytes = k.identity_bytes;
      dh_made = rw (sym same_dh) k.dh_made;
      identity_raw = rw (sym same_identity) k.identity_raw;
      identity_made = k.identity_made;
      dh_cached = k.dh_cached;
      identity_cached = k.identity_cached;
    }
