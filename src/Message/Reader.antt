-- ===== src/Message/Reader.antt =====
-- Serializer::deserialize of src/models/message.cpp: where in the input the parts of a message stand.
use Prim.Native.Nat.{bit_and}
use my_messenger.Prelude.{
  Bool-cases, nat_eq, ℕ, zero, suc, ◌+◌, ◌-◌, ◌%◌, ◌^◌, ◌≡◌, ◌⊎◌, true, false, refl, sym, ap, ◌∙◌,
  subst, inl, inr, List, [], ◌∷◌, ◌++◌, length, arith, some, none, Option, take-append-drop,
}
use my_messenger.Prelude.Bytes.{Bytes}
use my_messenger.Prelude.Result.{Result, ok, err, ◌>>=◌, or_throw}
use my_messenger.Failure.{Failure, metadata_count_missing}
use my_messenger.Wire.{read_u8, read_u16, read_u32, read_u64, read_bytes}
use my_messenger.Wire.Laws.{read_bytes-length}
use my_messenger.Message.{Message, MessageEnvelope, type_of_code, compute_serialized_size}
use my_messenger.Message.Codec.{
  read_metadata, read_body, read_compact, read_extended, read_envelope, read_format, deserialize,
  extended_format_flag,
}
use my_messenger.Message.Layout.{
  Reads, IsBehindLength, HasEntries, HasBody, HasEnvelope, IsCompactInput, IsExtendedInput,
}

-- Inversion of a step that reads a prefix.
or_throw-eq-ok {ℓ κ} :
    {A : Type ℓ} {B : Type κ} (o : Option A) (e : Failure) (f : A → Result Failure B) (b : B)
    → (or_throw o e >>= f) ≡ ok b
    → (a : A) × (o ≡ some a) × (f a ≡ ok b)
or_throw-eq-ok none e f b h = cc
or_throw-eq-ok (some a) e f b h = (a, refl, h)

>>=-eq-ok {ℓ κ} :
    {A : Type ℓ} {B : Type κ} (m : Result Failure A) (f : A → Result Failure B) (b : B)
    → (m >>= f) ≡ ok b
    → (a : A) × (m ≡ ok a) × (f a ≡ ok b)
>>=-eq-ok (ok a) f b h = (a, refl, h)
>>=-eq-ok (err e) f b h = cc

read_bytes-splits :
    (n : ℕ) (raw x rest : Bytes)
    → read_bytes n raw ≡ some (x, rest)
    → (n ≡ length x) × (raw ≡ x ++ rest)
unfolding read_bytes
read_bytes-splits n raw x rest h =
    (sym (read_bytes-length n raw x rest h).0, ground (arith, take-append-drop n raw))

behind_length :
    (read : Reads) (raw after x rest : Bytes) (n : ℕ)
    → read raw ≡ some (n, after)
    → read_bytes n after ≡ some (x, rest)
    → IsBehindLength read raw x rest
behind_length read raw after x rest n h g =
    let (same, split) = read_bytes-splits n after x rest g in
    h ∙ ap (λ k. some (k, after)) same ∙ ap (λ b. some (length x, b)) split

abbrev value_or {ℓ} : {A : Type ℓ} → A → Result Failure A → A
value_or default (ok a) = a
value_or default (err e) = default

ok-injective {ℓ} : {A : Type ℓ} (a b : A) → ◌≡◌ {A = Result Failure A} (ok a) (ok b) → a ≡ b
ok-injective a b h = ap (value_or a) h

read_metadata-HasEntries :
    (n : ℕ) (raw : Bytes) (ms : List Bytes) (rest : Bytes)
    → read_metadata n raw ≡ ok (ms, rest)
    → (length ms ≡ n) × HasEntries raw ms rest
unfolding read_metadata HasEntries
read_metadata-HasEntries zero raw ms rest h =
    subst (λ p. (length p.0 ≡ 0) × HasEntries raw p.0 p.1) (ok-injective ([], raw) (ms, rest) h)
      (refl, refl)
read_metadata-HasEntries (suc n) raw ms rest h =
    let ((len, r1), e1, h1) = or_throw-eq-ok (read_u16 raw) _ _ _ h in
    let ((m, r2), e2, h2) = or_throw-eq-ok (read_bytes len r1) _ _ _ h1 in
    let ((ms', r3), e3, h3) = >>=-eq-ok (read_metadata n r2) _ _ h2 in
    let (count, there) = read_metadata-HasEntries n r2 ms' r3 e3 in
    subst (λ p. (length p.0 ≡ suc n) × HasEntries raw p.0 p.1)
      (ok-injective (m ∷ ms', r3) (ms, rest) h3)
      (ap suc count, (r2, behind_length read_u16 raw r1 m r2 len e1 e2, there))

read_body-HasBody :
    (n : ℕ) (raw : Bytes) (ms : List Bytes) (payload : Bytes)
    → read_body n raw ≡ ok (ms, payload)
    → (length ms ≡ n) × HasBody raw ms payload
unfolding read_body
read_body-HasBody n raw ms payload h =
    let ((ms', r1), e1, h1) = >>=-eq-ok (read_metadata n raw) _ _ h in
    let ((len, r2), e2, h2) = or_throw-eq-ok (read_u32 r1) _ _ _ h1 in
    let ((p, r3), e3, h3) = or_throw-eq-ok (read_bytes len r2) _ _ _ h2 in
    let (count, there) = read_metadata-HasEntries n raw ms' r1 e1 in
    subst (λ q. (length q.0 ≡ n) × HasBody raw q.0 q.1) (ok-injective (ms', p) (ms, payload) h3)
      (
        count,
        record {
          behind_metadata = r1;
          behind_payload = r3;
          metadata_there = there;
          payload_there = behind_length read_u32 r1 r2 p r3 len e2 e3;
        },
      )

read_envelope-HasEnvelope :
    (raw rest : Bytes) (t : ℕ) (e : MessageEnvelope)
    → read_envelope raw ≡ ok (t, e, rest)
    → HasEnvelope raw t e rest
unfolding read_envelope
read_envelope-HasEnvelope raw rest t e h =
    let ((flags, r1), e1, h1) = or_throw-eq-ok (read_u32 raw) _ _ _ h in
    let ((time, r2), e2, h2) = or_throw-eq-ok (read_u64 r1) _ _ _ h1 in
    let ((sender_len, r3), e3, h3) = or_throw-eq-ok (read_u8 r2) _ _ _ h2 in
    let ((sender, r4), e4, h4) = or_throw-eq-ok (read_bytes sender_len r3) _ _ _ h3 in
    let ((recipient_len, r5), e5, h5) = or_throw-eq-ok (read_u8 r4) _ _ _ h4 in
    let ((recipient, r6), e6, h6) = or_throw-eq-ok (read_bytes recipient_len r5) _ _ _ h5 in
    let ((seq, r7), e7, h7) = or_throw-eq-ok (read_u64 r6) _ _ _ h6 in
    let ((flags', r8), e8, h8) = or_throw-eq-ok (read_u32 r7) _ _ _ h7 in
    subst (λ p. HasEnvelope raw p.0 p.1 p.2) (ok-injective _ (t, e, rest) h8)
      (record {
        first_flags = flags;
        behind_flags = r1;
        behind_time = r2;
        behind_sender = r4;
        behind_recipient = r6;
        behind_number = r7;
        flags_there = e1;
        time_there = e2;
        sender_there = behind_length read_u8 r2 r3 sender r4 sender_len e3 e4;
        recipient_there = behind_length read_u8 r4 r5 recipient r6 recipient_len e5 e6;
        number_there = e7;
        last_flags_there = e8;
      })

read_compact-IsCompactInput :
    (code second : ℕ) (raw : Bytes) (m : Message)
    → nat_eq (bit_and second extended_format_flag) 0 ≡ true
    → read_compact code second raw ≡ ok m
    → (m.metalen ≡ length m.metadata)
      × (m.header.type ≡ type_of_code code)
      × IsCompactInput second raw m
unfolding read_compact
read_compact-IsCompactInput code second raw m flag h =
    let ((ms, p), e1, h1) = >>=-eq-ok (read_body second raw) _ _ h in
    let (size, e2, h2) = >>=-eq-ok (compute_serialized_size second ms p) _ _ h1 in
    let (count, body) = read_body-HasBody second raw ms p e1 in
    subst
      (λ m.
        (m.metalen ≡ length m.metadata)
        × (m.header.type ≡ type_of_code code)
        × IsCompactInput second raw m)
      (ok-injective _ m h2)
      (
        sym count,
        refl,
        record { compact_flag = flag; count_first = count; body = body; no_envelope = refl },
      )

read_extended-IsExtendedInput :
    (n code second : ℕ) (raw : Bytes) (m : Message)
    → nat_eq (bit_and second extended_format_flag) 0 ≡ false
    → read_extended n code second raw ≡ ok m
    → (m.metalen ≡ length m.metadata)
      × (m.header.type ≡ type_of_code code)
      × IsExtendedInput second raw m
unfolding read_extended
read_extended-IsExtendedInput n code second raw m flag h =
    elim (Bool-cases (nat_eq (bit_and second 0x7f) 0)) [
      | inl unsupported ↦ cc (rw unsupported at h)
      | inr supported ↦ versioned (rw supported at h)
    ]
  where
    versioned :
        (do
          (timestamp, envelope, rest) ← read_envelope raw
          (metalen, rest) ← or_throw (read_u8 rest) metadata_count_missing
          (metadata, payload) ← read_body metalen rest
          ok (record {
            header = record {
              type = type_of_code code;
              size = (n - 2) % 2 ^ 32;
              checksum = 0;
              timestamp = timestamp;
              protocol_version = bit_and second 0x7f;
            };
            metalen = metalen;
            envelope = envelope;
            metadata = metadata;
            payload = payload;
          }))
          ≡ ok m
        → (m.metalen ≡ length m.metadata)
          × (m.header.type ≡ type_of_code code)
          × IsExtendedInput second raw m
    versioned h0 =
        let ((t, env, r1), e1, h1) = >>=-eq-ok (read_envelope raw) _ _ h0 in
        let ((count, r2), e2, h2) = or_throw-eq-ok (read_u8 r1) _ _ _ h1 in
        let ((ms, p), e3, h3) = >>=-eq-ok (read_body count r2) _ _ h2 in
        let (same, body) = read_body-HasBody count r2 ms p e3 in
        subst
          (λ m.
            (m.metalen ≡ length m.metadata)
            × (m.header.type ≡ type_of_code code)
            × IsExtendedInput second raw m)
          (ok-injective _ m h3)
          (
            sym same,
            refl,
            record {
              extended_flag = flag;
              version = refl;
              behind_envelope = r1;
              behind_count = r2;
              envelope = read_envelope-HasEnvelope raw r1 t env e1;
              count_there = e2 ∙ ap (λ k. some (k, r2)) (sym same);
              body = body;
            },
          )

-- Whatever the input, where the reader accepts it, the first byte gives the type of the message, the
-- count agrees with the metadata, and the rest of the input is laid out as the second byte says. In the
-- compact format, whose count it is, and in the extended one, behind the envelope with its flags, time,
-- sender, recipient and number and behind the count: every entry of the metadata, and then the
-- payload, stands there whole, right behind the number that is its length; so do the sender and
-- the recipient.
pub deserialize-IsLaidOut :
    (raw : Bytes) (m : Message)
    → deserialize raw ≡ ok m
    → (code : ℕ) × (second : ℕ) × (rest : Bytes) × (raw ≡ code ∷ second ∷ rest)
      × (m.metalen ≡ length m.metadata)
      × (m.header.type ≡ type_of_code code)
      × (IsCompactInput second rest m ⊎ IsExtendedInput second rest m)
unfolding deserialize read_format
deserialize-IsLaidOut [] m h = cc
deserialize-IsLaidOut (code ∷ []) m h = cc
deserialize-IsLaidOut (code ∷ second ∷ rest) m h =
    elim (Bool-cases (nat_eq (bit_and second extended_format_flag) 0)) [
      | inl flag ↦
          let e : read_compact code second rest ≡ ok m = ground (arith, flag) in
          let (count, type, at) = read_compact-IsCompactInput code second rest m flag e in
          (code, second, rest, refl, count, type, inl at)
      | inr flag ↦
          let e : read_extended (2 + length rest) code second rest ≡ ok m = ground (arith, flag) in
          let (count, type, at) =
            read_extended-IsExtendedInput (2 + length rest) code second rest m flag e in
          (code, second, rest, refl, count, type, inr at)
    ]
