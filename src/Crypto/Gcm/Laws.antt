-- ===== src/Crypto/Gcm/Laws.antt =====
-- src/infrastructure/crypto/AESGCMEncryption.cpp: what is encrypted is decrypted, once.
use my_messenger.Prelude.{
  ℕ, ◌+◌, ◌-◌, ◌^◌, ◌<◌, ◌≡◌, refl, ap, subst, ◌∙◌, ◌++◌, some, take, drop, length, length-append,
  take-append, drop-append, nat_eq, le→ltb_false, if◌then◌else◌, arith, Option-cases, inl, inr,
}
use my_messenger.Prelude.Bytes.{Bytes}
use my_messenger.Prelude.Result.{ok, err, or_throw}
use my_messenger.Failure.{replay_detected, authentication_failed}
use my_messenger.Wire.{write_u64}
use my_messenger.Wire.Laws.{read_u64-write_u64}
use my_messenger.Crypto.{OpenSsl, IsLawful}
use my_messenger.Crypto.Gcm.{encrypt, decrypt}

length-write_u64 : (n : ℕ) → length (write_u64 n) ≡ 8
unfolding write_u64
length-write_u64 n = refl

take_exact : (n : ℕ) (a b : Bytes) → length a ≡ n → take n (a ++ b) ≡ a
take_exact n a b e = subst (λ k. take k (a ++ b) ≡ a) e (take-append a b)

drop_exact : (n : ℕ) (a b : Bytes) → length a ≡ n → drop n (a ++ b) ≡ b
drop_exact n a b e = subst (λ k. drop k (a ++ b) ≡ b) e (drop-append a b)

-- What decryption makes of an input with the four parts in their places.
decrypt_parts :
    (o : OpenSsl) (key iv sealed tag : Bytes) (sent expected : ℕ)
    → length iv ≡ 12
    → length tag ≡ 16
    → sent < 2 ^ 64
    → decrypt o key (iv ++ (write_u64 sent ++ (sealed ++ tag))) expected ≡ (
        if nat_eq sent expected
        then or_throw (o.gcm_open key iv (write_u64 sent) sealed tag) authentication_failed
        else err replay_detected)
unfolding decrypt
decrypt_parts o key iv sealed tag sent expected twelve sixteen small =
    let total : length (iv ++ (write_u64 sent ++ (sealed ++ tag))) ≡ 36 + length sealed = omega (
      arith,
      length-append iv (write_u64 sent ++ (sealed ++ tag)),
      length-append (write_u64 sent) (sealed ++ tag),
      length-append sealed tag,
      length-write_u64 sent,
      twelve,
      sixteen,
    ) in
    let rest = drop_exact 12 iv (write_u64 sent ++ (sealed ++ tag)) twelve in
    let n : 36 + length sealed - 36 ≡ length sealed = omega arith in
    rw
      (
        total,
        le→ltb_false (36 + length sealed) 36 (omega arith),
        rest,
        read_u64-write_u64 sent (sealed ++ tag) small,
      )
      (rw
        (
          total,
          n,
          rest,
          take_exact 12 iv (write_u64 sent ++ (sealed ++ tag)) twelve,
          take_exact 8 (write_u64 sent) (sealed ++ tag) (length-write_u64 sent),
          take-append sealed tag,
          drop-append sealed tag,
        )
        refl)

-- What was encrypted, with an IV of 12 bytes and a counter of 64 bits, is decrypted under the same
-- key and counter; under any other counter it is refused as a replay.
pub decrypt-encrypt :
    (o : OpenSsl) (key plaintext iv e : Bytes) (sent expected : ℕ)
    → IsLawful o
    → length iv ≡ 12
    → sent < 2 ^ 64
    → encrypt o key plaintext sent (some iv) ≡ ok e
    → decrypt o key e expected
      ≡ (if nat_eq sent expected then ok plaintext else err replay_detected)
unfolding encrypt
decrypt-encrypt o key plaintext iv e sent expected lawful twelve small h =
    let (sealed, answer) = o.gcm_seal key iv (write_u64 sent) plaintext in
    elim (Option-cases (o.gcm_seal key iv (write_u64 sent) plaintext).1) [
      | inl p ↦ ground (arith, p)
      | inr (tag, p) ↦
          let sealing : o.gcm_seal key iv (write_u64 sent) plaintext ≡ (sealed, some tag) =
            ap (λ t. (sealed, t)) p in
          let whole : iv ++ (write_u64 sent ++ (sealed ++ tag)) ≡ e = ground (arith, h, p) in
          subst
            (λ i.
              decrypt o key i expected
              ≡ (if nat_eq sent expected then ok plaintext else err replay_detected))
            whole
            (decrypt_parts o key iv sealed tag sent expected twelve
                (lawful.tag_length key iv (write_u64 sent) plaintext sealed tag sealing) small
              ∙ rw (lawful.opens key iv (write_u64 sent) plaintext sealed tag sealing) refl)
    ]
