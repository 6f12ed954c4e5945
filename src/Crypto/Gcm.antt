-- ===== src/Crypto/Gcm.antt =====
-- src/infrastructure/crypto/AESGCMEncryption.cpp (class AESGCMEncryptor). The answer of RAND_bytes
-- is an argument.
pub mod Laws
use my_messenger.Prelude.{
  ℕ, ◌-◌, ◌++◌, Option, none, some, take, drop, length, ltb, nat_eq, if◌then◌else◌,
}
use my_messenger.Prelude.Bytes.{Bytes}
use my_messenger.Prelude.Result.{Result, ok, err, or_throw, ◌>>=◌}
use my_messenger.Failure.{
  Failure, undefined, iv_failed, tag_failed, ciphertext_too_short, replay_detected,
  authentication_failed,
}
use my_messenger.Wire.{write_u64, read_u64}
use my_messenger.Crypto.{OpenSsl}

module _ (o : OpenSsl) where
  -- IV, counter, ciphertext, tag
  unfoldable pub encrypt : Bytes → Bytes → ℕ → Option Bytes → Result Failure Bytes
  encrypt key plaintext counter none = err iv_failed
  encrypt key plaintext counter (some iv) =
      let aad = write_u64 counter in
      let (ciphertext, tag) = o.gcm_seal key iv aad plaintext in
      (do tag ← or_throw tag tag_failed; ok (iv ++ (aad ++ (ciphertext ++ tag))))

  -- The four ways in which opening can fail throw alike.
  unfoldable pub decrypt : Bytes → Bytes → ℕ → Result Failure Bytes
  decrypt key input counter =
      if ltb (length input) 36 then err ciphertext_too_short else elim (read_u64 (drop 12 input)) [
        | none ↦ err undefined
        | some (received_counter, body) ↦
            let ciphertext_len = length input - 36 in
            if nat_eq received_counter counter
            then or_throw
                (o.gcm_open key (take 12 input) (take 8 (drop 12 input)) (take ciphertext_len body)
                  (drop ciphertext_len body))
                authentication_failed
            else err replay_detected
      ]
