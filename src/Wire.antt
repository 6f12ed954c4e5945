-- ===== src/Wire.antt =====
-- The number formats of src/models/message.cpp: read_u32, read_u64, write_u32, write_u64, and the
-- reads of a length and of so many bytes in Serializer::deserialize. A reader takes what stands
-- from the offset on (`raw.begin() + off`) and returns what is left; `none` is the test
-- `off + n > raw.size()`. The shifted bytes have no bit in common, so `|` is `+`.
pub mod Laws
use my_messenger.Prelude.{
  ℕ, ◌+◌, ◌*◌, ◌/◌, ◌%◌, ◌^◌, Option, none, some, List, [], ◌∷◌, ◌++◌, length, take, drop, ltb,
  if◌then◌else◌,
}
use my_messenger.Prelude.Bytes.{Bytes}

unfoldable pub write_u32 : ℕ → Bytes
write_u32 value =
    (value / 2 ^ 24 % 256) ∷ (value / 2 ^ 16 % 256) ∷ (value / 2 ^ 8 % 256) ∷ (value % 256) ∷ []

-- for (i = 0; i < 8; ++i) out.push_back((value >> (i * 8)) & 0xFF)
unfoldable pub write_u64 : ℕ → Bytes
write_u64 value =
    (value % 256)
    ∷ (value / 2 ^ 8 % 256)
    ∷ (value / 2 ^ 16 % 256)
    ∷ (value / 2 ^ 24 % 256)
    ∷ (value / 2 ^ 32 % 256)
    ∷ (value / 2 ^ 40 % 256)
    ∷ (value / 2 ^ 48 % 256)
    ∷ (value / 2 ^ 56 % 256)
    ∷ []

unfoldable pub read_u8 : Bytes → Option (ℕ × Bytes)
read_u8 [] = none
read_u8 (b ∷ rest) = some (b, rest)

unfoldable pub read_u16 : Bytes → Option (ℕ × Bytes)
read_u16 (a ∷ b ∷ rest) = some (a * 2 ^ 8 + b, rest)
read_u16 _ = none

unfoldable pub read_u32 : Bytes → Option (ℕ × Bytes)
read_u32 (a ∷ b ∷ c ∷ d ∷ rest) = some (a * 2 ^ 24 + b * 2 ^ 16 + c * 2 ^ 8 + d, rest)
read_u32 _ = none

unfoldable pub read_u64 : Bytes → Option (ℕ × Bytes)
read_u64 (a ∷ b ∷ c ∷ d ∷ e ∷ f ∷ g ∷ h ∷ rest) = some (
  a + b * 2 ^ 8 + c * 2 ^ 16 + d * 2 ^ 24 + e * 2 ^ 32 + f * 2 ^ 40 + g * 2 ^ 48 + h * 2 ^ 56,
  rest,
)
read_u64 _ = none

-- assign(raw.begin() + off, raw.begin() + off + n)
unfoldable pub read_bytes : ℕ → Bytes → Option (Bytes × Bytes)
read_bytes n rest = if ltb (length rest) n then none else some (take n rest, drop n rest)
