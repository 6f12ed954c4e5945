-- ===== src/Message/Bits.antt =====
-- The format bit of the second byte (`kExtendedFormatFlag` of src/models/message.cpp), by tables
-- over all byte values.
use Prim.Native.Nat.{bit_and, bit_or}
use my_messenger.Prelude.{
  ℕ, zero, suc, ◌≡◌, refl, ◌<◌, Bool, true, false, ◌&&◌, not, nat_eq, arith, nat_eq_iff,
}
use my_messenger.Message.Codec.{extended_format_flag}

-- Whether a test holds of every number below a bound.
check_below : (ℕ → Bool) → ℕ → Bool
check_below test zero = true
check_below test (suc bound) = check_below test bound && test bound

below_check :
    (test : ℕ → Bool) (bound b : ℕ) → b < bound → check_below test bound ≡ true → test b ≡ true
unfolding check_below
below_check test (suc bound) b small all = ground (arith, below_check test bound b)
below_check test zero b small all = absurd (omega arith)

compact_table : check_below (λ b. nat_eq (bit_and b extended_format_flag) 0) 128 ≡ true
unfolding check_below
compact_table = refl

-- A count below 128 has the format bit clear.
pub compact_bit : (b : ℕ) → b < 128 → nat_eq (bit_and b extended_format_flag) 0 ≡ true
compact_bit b h = below_check _ 128 b h compact_table

-- The second byte of the extended format.
abbrev second_byte : ℕ → ℕ
second_byte version = bit_or extended_format_flag (bit_and version 0x7f)

extended_table :
    check_below (λ b. not (nat_eq (bit_and (second_byte b) extended_format_flag) 0)) 128 ≡ true
unfolding check_below
extended_table = refl

pub extended_bit :
    (b : ℕ)
    → b < 128
    → nat_eq (bit_and (bit_or extended_format_flag (bit_and b 0x7f)) extended_format_flag) 0 ≡ false
extended_bit b h = ground (
  arith,
  below_check (λ b. not (nat_eq (bit_and (second_byte b) extended_format_flag) 0)) 128 b h
      extended_table,
)

version_table : check_below (λ b. nat_eq (bit_and (second_byte b) 0x7f) b) 128 ≡ true
unfolding check_below
version_table = refl

pub version_bits :
    (b : ℕ) → b < 128 → bit_and (bit_or extended_format_flag (bit_and b 0x7f)) 0x7f ≡ b
version_bits b h = (nat_eq_iff _ b).0 (below_check _ 128 b h version_table)
