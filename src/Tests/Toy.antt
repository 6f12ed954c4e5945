-- ===== src/Tests/Toy.antt =====
-- A stand-in for OpenSSL that computes and keeps the promises of IsLawful: a key is its own public
-- part, a secret is the number of bytes of both keys, a signature is the key and the text, and
-- sealing leaves the text as it is.
use my_messenger.Prelude.{
  ℕ, ◌+◌, ◌≡◌, sym, ap, ◌∙◌, [], ◌∷◌, ◌++◌, true, Option, none, some, length, nat_eq, nat_eq_iff,
  if◌then◌else◌, ◌==◌, arith,
}
use my_messenger.Prelude.Bytes.{Bytes, Bytes-eq, bytes_eq_iff, codes}
use my_messenger.Crypto.{OpenSsl, IsLawful}
use my_messenger.Encryption.{EncryptionService}
use my_messenger.Client.{ClientContext}

abbrev zeros : Bytes
zeros = 0 ∷ 0 ∷ 0 ∷ 0 ∷ 0 ∷ 0 ∷ 0 ∷ 0 ∷ 0 ∷ 0 ∷ 0 ∷ 0 ∷ 0 ∷ 0 ∷ 0 ∷ 0 ∷ []

-- A key of 32 bytes.
abbrev pub key_of : ℕ → Bytes
key_of n = n ∷ n ∷ n ∷ n ∷ n ∷ n ∷ n ∷ n ∷ n ∷ n ∷ n ∷ n ∷ n ∷ n ∷ n ∷ n ∷ zeros

abbrev pub toy : OpenSsl
toy = record {
  Pkey = Bytes;
  x25519_keygen = λ seed. some seed;
  raw_public_key = λ k. some k;
  x25519_public = λ b. if nat_eq (length b) 32 then some b else none;
  ed25519_public = λ b. some b;
  pkey_derive = λ a b. some ((length a + length b) ∷ []);
  digest_sign = λ k t. some (k ++ t);
  digest_verify = λ k t signature. some (signature == (k ++ t));
  hkdf_sha256 = λ ikm salt info n. some (ikm ++ salt);
  gcm_seal = λ key iv aad t. (t, some zeros);
  gcm_open = λ key iv aad sealed tag. some sealed;
}

made :
    (b k : Bytes)
    → (if nat_eq (length b) 32 then some b else none) ≡ some k
    → (length b ≡ 32) × (b ≡ k)
made b k h = (ground (arith, nat_eq_iff (length b) 32), ground arith)

toy_agree :
    (own other own' other' : Bytes)
    → own ≡ own'
    → other ≡ other'
    → toy.pkey_derive own other' ≡ toy.pkey_derive other own'
toy_agree own other own' other' p q =
    ap (λ n. some (n ∷ [])) (omega (arith, ap length p, ap length q))

toy_verifies :
    (k k' t signature : Bytes)
    → k ≡ k'
    → k ++ t ≡ signature
    → toy.digest_verify k' t signature ≡ some true
toy_verifies k k' t signature p q =
    ground (arith, bytes_eq_iff signature (k' ++ t), ap (λ x. x ++ t) p)

abbrev get_some : Bytes → Option Bytes → Bytes
get_some default none = default
get_some default (some b) = b

pub toy-IsLawful : IsLawful toy
toy-IsLawful = record {
  x25519_length = λ b k h. (made b k h).0;
  x25519_raw = λ b k h. ground (arith, (made b k h).1);
  agree = λ own other own' other' seed other_seed a b g h p q r t.
      toy_agree own other own' other' (ap (get_some own) p ∙ (made a own' r).1)
        (ap (get_some other) q ∙ (made b other' t).1);
  verifies = λ k k' raw t signature p q r.
      toy_verifies k k' t signature (ap (get_some k) p ∙ ap (get_some raw) q)
        (ap (get_some signature) r);
  tag_length = λ key iv aad t sealed tag h. sym (ap length (ap (λ x. get_some zeros x.1) h));
  opens = λ key iv aad t sealed tag h. sym (ap (λ x. some x.0) h);
}

-- A service whose own keys are made of two numbers, with the keys of one other user.
abbrev pub service_of : ℕ → ℕ → Bytes → ℕ → ℕ → EncryptionService toy
service_of own own_identity other dh identity = record {
  dh_key = key_of own;
  identity_key = own_identity ∷ [];
  dh_keys = (other, key_of dh) ∷ [];
  identity_keys = (other, identity ∷ []) ∷ [];
}

-- An IV of 12 bytes.
abbrev pub first_iv : Bytes
first_iv = 1 ∷ 2 ∷ 3 ∷ 4 ∷ 5 ∷ 6 ∷ 7 ∷ 8 ∷ 9 ∷ 10 ∷ 11 ∷ 12 ∷ []

abbrev pub client_of : Bytes → EncryptionService toy → ClientContext toy
client_of name service = record {
  my_username = name;
  packets = [];
  connected = true;
  encryption_service = service;
  mq = [];
  messages_counter = [];
  pending_messages = [];
  pending_files = [];
  disk = [];
  can_open = λ path. true;
  shown = [];
  entropy = first_iv ∷ [];
  now = 3;
}

-- Ann and Bob know each other.
abbrev pub ann_service : EncryptionService toy
ann_service = service_of 7 8 (codes "bob") 9 10

abbrev pub bob_service : EncryptionService toy
bob_service = service_of 9 10 (codes "ann") 7 8
