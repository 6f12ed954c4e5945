-- ===== src/Message/Body.antt =====
-- The part that the two formats of src/models/message.cpp share: metadata and payload are read
-- back as they were written.

use my_messenger.Prelude.{
  ◌+◌, ◌%◌, ◌^◌, ◌<◌, ◌≡◌, refl, ap, List, [], ◌∷◌, ◌++◌, some, length, length-append, append_assoc,
  arith, All,
}
use my_messenger.Prelude.Bytes.{Bytes}
use my_messenger.Prelude.Result.{ok}
use my_messenger.Wire.{write_u32, read_u16}
use my_messenger.Wire.Laws.{read_u32-write_u32, read_bytes-append, length-write_u32}
use my_messenger.Message.{
  MessageType, unlisted, type_code, type_of_code, metadata_size, compute_serialized_size,
}
use my_messenger.Message.Codec.{write_entry, write_metadata, write_body, read_metadata, read_body}

-- What the 16-bit and 32-bit length fields can hold.
pub record FitsBody (metadata : List Bytes) (payload : Bytes) : Type 0 where
  pub entries : All (λ e. length e < 2 ^ 16) metadata
  pub total : metadata_size metadata + length payload + 6 < 2 ^ 32

-- The types that one byte can name.
abbrev pub IsWireType : MessageType → Type 0
IsWireType (unlisted b) = (7 < b) × (b < 256)
IsWireType _ = Unit

pub type_of_code-type_code : (t : MessageType) → IsWireType t → type_of_code (type_code t % 256) ≡ t
unfolding type_of_code type_code
type_of_code-type_code (unlisted b) h = ground arith
type_of_code-type_code _ h = refl

read_entry :
    (e rest : Bytes)
    → length e < 2 ^ 16
    → read_u16 (write_entry e ++ rest) ≡ some (length e, e ++ rest)
unfolding read_u16 write_entry
read_entry e rest h = ap (λ n. some (n, e ++ rest)) (omega arith)

read_metadata-write_metadata :
    (ms : List Bytes) (rest : Bytes)
    → All (λ e. length e < 2 ^ 16) ms
    → read_metadata (length ms) (write_metadata ms ++ rest) ≡ ok (ms, rest)
unfolding read_metadata write_metadata
read_metadata-write_metadata [] rest h = refl
read_metadata-write_metadata (m ∷ ms) rest (h, hs) = rw (
  append_assoc (write_entry m) (write_metadata ms) rest,
  read_entry m (write_metadata ms ++ rest) h,
  read_bytes-append m (write_metadata ms ++ rest),
  read_metadata-write_metadata ms rest hs,
)

-- The reader gives the metadata and the payload back and ignores what follows.
pub read_body-write_body :
    (ms : List Bytes) (payload rest : Bytes)
    → FitsBody ms payload
    → read_body (length ms) (write_body ms payload ++ rest) ≡ ok (ms, payload)
unfolding read_body write_body
read_body-write_body ms payload rest fits =
    let whole : length payload % 2 ^ 32 ≡ length payload = omega arith in
    rw (
      append_assoc (write_metadata ms) (write_u32 (length payload % 2 ^ 32) ++ payload) rest,
      append_assoc (write_u32 (length payload % 2 ^ 32)) payload rest,
      whole,
      read_metadata-write_metadata ms (write_u32 (length payload) ++ (payload ++ rest))
          fits.entries,
      read_u32-write_u32 (length payload) (payload ++ rest) (omega arith),
      read_bytes-append payload rest,
    )

length-write_metadata : (ms : List Bytes) → length (write_metadata ms) ≡ metadata_size ms
unfolding write_metadata metadata_size write_entry
length-write_metadata [] = refl
length-write_metadata (m ∷ ms) =
    omega (arith, length-write_metadata ms, length-append (write_entry m) (write_metadata ms))

pub length-write_body :
    (ms : List Bytes) (payload : Bytes)
    → length (write_body ms payload) ≡ metadata_size ms + 4 + length payload
unfolding write_body
length-write_body ms payload = omega (
  arith,
  length-append (write_metadata ms) (write_u32 (length payload % 2 ^ 32) ++ payload),
  length-append (write_u32 (length payload % 2 ^ 32)) payload,
  length-write_u32 (length payload % 2 ^ 32),
  length-write_metadata ms,
)

pub compute_serialized_size-ok :
    (ms : List Bytes) (payload : Bytes)
    → FitsBody ms payload
    → compute_serialized_size (length ms) ms payload
      ≡ ok (2 + metadata_size ms + 4 + length payload)
unfolding compute_serialized_size
compute_serialized_size-ok ms payload fits = ground arith
