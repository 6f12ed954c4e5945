-- ===== src/Transport/Buffer.antt =====
-- src/include/transport/interface.hpp (struct NetBuffer): bytes in an array of 128, or in a vector where
-- they are more.
use my_messenger.Prelude.{
  ℕ, ◌≤◌, ◌<◌, Bool, true, false, [], ◌++◌, ◌≡◌, ◌⊎◌, inl, inr, refl, length, take, drop, leb,
  if◌then◌else◌, arith, take-append, append-nil, ap, sym, ◌∙◌, Bool-cases, leb→le,
}
use my_messenger.Prelude.Bytes.{Bytes}
use my_messenger.Prelude.Result.{Result, ok, err}
use my_messenger.Failure.{Failure, bad_variant_access}

-- The std::variant.
pub data Storage : Type 0 where
  array vector : Bytes → Storage

-- `size` is the field `length`.
pub record NetBuffer : Type 0 where
  pub storage : Storage
  pub size : ℕ

abbrev pub sbo_size : ℕ
sbo_size = 128

-- std::get of the array, with memcpy over its front.
abbrev pub over_array : Bytes → Storage → Result Failure NetBuffer
over_array src (array old) =
    ok (record { storage = array (src ++ drop (length src) old); size = length src })
over_array src (vector old) = err bad_variant_access

unfoldable pub set_data : Bytes → NetBuffer → Result Failure NetBuffer
set_data src b =
    if leb (length src) sbo_size
    then over_array src b.storage
    else ok (record { storage = vector src; size = length src })

-- `data` and the `length` bytes behind it.
abbrev pub all_bytes : Storage → Bytes
all_bytes (array bytes) = bytes
all_bytes (vector bytes) = bytes

unfoldable pub read_back : NetBuffer → Bytes
read_back b = take b.size (all_bytes b.storage)

abbrev pub is_array : Storage → Bool
is_array (array bytes) = true
is_array (vector bytes) = false

array_of : (s : Storage) → is_array s ≡ true → (old : Bytes) × (s ≡ array old)
array_of (array old) e = (old, refl)
array_of (vector old) e = absurd cc

take_all : (xs : Bytes) → take (length xs) xs ≡ xs
take_all xs = ap (take (length xs)) (sym (append-nil xs)) ∙ take-append xs []

-- A buffer that still has its array, as a new one does, or bytes that are more than the array holds:
-- set_data succeeds, and reading `length` bytes from `data` gives what was set.
pub set_data-read_back :
    (src : Bytes) (b : NetBuffer)
    → (is_array b.storage ≡ true) ⊎ (sbo_size < length src)
    → (b' : NetBuffer) × (set_data src b ≡ ok b') × (read_back b' ≡ src)
unfolding set_data read_back
set_data-read_back src b h = elim (Bool-cases (leb (length src) sbo_size)) [
  | inr large ↦
      (record { storage = vector src; size = length src }, ground (arith, large), take_all src)
  | inl small ↦
      let (old, p) = array_of b.storage (ground (arith, leb→le (length src) sbo_size small, h)) in
      (
        record { storage = array (src ++ drop (length src) old); size = length src },
        ground (arith, small, p),
        take-append src (drop (length src) old),
      )
]

-- After more than 128 bytes, 128 or fewer are refused.
pub set_data_refused :
    (src old : Bytes) (b : NetBuffer)
    → b.storage ≡ vector old
    → length src ≤ sbo_size
    → set_data src b ≡ err bad_variant_access
unfolding set_data
set_data_refused src old b h small = ground (arith, h, small)
