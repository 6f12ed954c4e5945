-- ===== src/Wire/Laws.antt =====
-- The readers of src/models/message.cpp undo its writers, whatever follows, and take as many bytes
-- as they say.
use my_messenger.Prelude.{
  ℕ, ◌+◌, ◌^◌, ◌<◌, ◌≡◌, refl, ap, some, [], ◌∷◌, ◌++◌, length, length-append, length-take,
  length-drop, take-append, drop-append, le→ltb_false, arith,
}
use my_messenger.Prelude.Bytes.{Bytes}
use my_messenger.Wire.{write_u32, write_u64, read_u8, read_u16, read_u32, read_u64, read_bytes}

pub read_u32-write_u32 :
    (v : ℕ) (rest : Bytes) → v < 2 ^ 32 → read_u32 (write_u32 v ++ rest) ≡ some (v, rest)
unfolding read_u32 write_u32
read_u32-write_u32 v rest h = ap (λ n. some (n, rest)) (omega arith)

pub read_u64-write_u64 :
    (v : ℕ) (rest : Bytes) → v < 2 ^ 64 → read_u64 (write_u64 v ++ rest) ≡ some (v, rest)
unfolding read_u64 write_u64
read_u64-write_u64 v rest h = ap (λ n. some (n, rest)) (omega arith)

pub read_bytes-append : (xs rest : Bytes) → read_bytes (length xs) (xs ++ rest) ≡ some (xs, rest)
unfolding read_bytes
read_bytes-append xs rest =
    rw (le→ltb_false (length (xs ++ rest)) (length xs) (omega (arith, length-append xs rest)))
      (rw (take-append xs rest, drop-append xs rest))

pub length-write_u32 : (v : ℕ) → length (write_u32 v) ≡ 4
unfolding write_u32
length-write_u32 v = refl

pub length-write_u64 : (v : ℕ) → length (write_u64 v) ≡ 8
unfolding write_u64
length-write_u64 v = refl

pub read_bytes-length :
    (n : ℕ) (raw x rest : Bytes)
    → read_bytes n raw ≡ some (x, rest)
    → (length x ≡ n) × (length raw ≡ n + length rest)
unfolding read_bytes
read_bytes-length n raw x rest h = ground (arith, length-take n raw, length-drop n raw)

pub read_u16-length :
    (raw rest : Bytes) (v : ℕ) → read_u16 raw ≡ some (v, rest) → length raw ≡ 2 + length rest
unfolding read_u16
read_u16-length (a ∷ b ∷ r) rest v h = ground arith
read_u16-length _ rest v h = cc

pub read_u32-length :
    (raw rest : Bytes) (v : ℕ) → read_u32 raw ≡ some (v, rest) → length raw ≡ 4 + length rest
unfolding read_u32
read_u32-length (a ∷ b ∷ c ∷ d ∷ r) rest v h = ground arith
read_u32-length _ rest v h = cc

pub read_u8-length :
    (raw rest : Bytes) (v : ℕ) → read_u8 raw ≡ some (v, rest) → length raw ≡ 1 + length rest
unfolding read_u8
read_u8-length [] rest v h = cc
read_u8-length (a ∷ r) rest v h = ground arith

pub read_u64-length :
    (raw rest : Bytes) (v : ℕ) → read_u64 raw ≡ some (v, rest) → length raw ≡ 8 + length rest
unfolding read_u64
read_u64-length (a ∷ b ∷ c ∷ d ∷ e ∷ f ∷ g ∷ i ∷ r) rest v h = ground arith
read_u64-length _ rest v h = cc
