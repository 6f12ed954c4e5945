-- ===== src/Peer/Numbers.antt =====
-- std::stoi and std::to_string, with which src/application/commands/impl/connect.cpp reads and
-- writes a port.
use my_messenger.Prelude.{
  ℕ, zero, suc, ◌+◌, ◌-◌, ◌*◌, ◌/◌, ◌%◌, ◌^◌, [], ◌∷◌, Bool, true, false, ◌&&◌, ◌||◌, nat_eq, ltb,
  leb, if◌then◌else◌, ℕ-eq,
}
use my_messenger.Prelude.Bytes.{Bytes, Bytes-eq}
use my_messenger.Prelude.Result.{Result, ok, err}
use my_messenger.Failure.{Failure, bad_number}

-- A number that std::stoi read.
pub record Number : Type 0 where
  pub negative : Bool
  pub size : ℕ

abbrev pub is_digit : ℕ → Bool
is_digit b = leb 0x30 b && leb b 0x39

-- The value of the digits that a text begins with.
unfoldable pub digits_value : ℕ → Bytes → ℕ
digits_value value [] = value
digits_value value (b ∷ rest) =
    let more = digits_value (value * 10 + (b - 0x30)) rest in if is_digit b then more else value

-- An int has 32 bits.
abbrev pub checked_number : Bool → ℕ → Result Failure Number
checked_number negative size =
    if ltb (if negative then 2 ^ 31 else 2 ^ 31 - 1) size
    then err bad_number
    else ok (record { negative = negative; size = size })

unfoldable pub unsigned : Bool → Bytes → Result Failure Number
unsigned negative [] = err bad_number
unsigned negative (b ∷ rest) =
    if is_digit b then checked_number negative (digits_value 0 (b ∷ rest)) else err bad_number

-- std::stoi: white space, a sign, digits, and anything after them.
unfoldable pub stoi : Bytes → Result Failure Number
stoi [] = err bad_number
stoi (b ∷ rest) =
    let more = stoi rest in
    if nat_eq b 0x20 || (leb 9 b && leb b 13)
    then more
    else if nat_eq b 0x2d
    then unsigned true rest
    else if nat_eq b 0x2b
    then unsigned false rest
    else unsigned false (b ∷ rest)

-- The decimal digits in front of others. Ten are enough for 32 bits.
unfoldable pub digits_before : ℕ → ℕ → Bytes → Bytes
digits_before zero n rest = rest
digits_before (suc fuel) n rest =
    let here = (0x30 + n % 10) ∷ rest in
    let more = digits_before fuel (n / 10) here in if ltb n 10 then here else more

unfoldable pub to_string : Number → Bytes
to_string n =
    if n.negative && ltb 0 n.size
    then 0x2d ∷ digits_before 10 n.size []
    else digits_before 10 n.size []
