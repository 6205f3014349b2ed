-- ===== src/Strings/Number.antt =====
-- IntToBuffer and HexToBuffer of claire/common/strings/StringUtil.cc. A buffer is the list of the
-- characters before its final NUL; what the loops write is reversed at the end.
pub mod Decimal
pub mod Hexadecimal
use claire_common.Common.{
  ℕ, zero, suc, ◌+◌, ◌-◌, ◌/◌, ◌%◌, Bool, true, false, List, [], ◌∷◌, ◌++◌, ◌==◌, if◌then◌else◌,
  get_or,
}
use claire_common.Common.Int.{ℤ, pos, negsuc, neg, magnitude}
use mathlib.Core.List.{reverse}

-- "9876543210123456789"
abbrev digits : List ℕ
digits =
    b'9' ∷ b'8' ∷ b'7' ∷ b'6' ∷ b'5' ∷ b'4' ∷ b'3' ∷ b'2' ∷ b'1' ∷ b'0' ∷ b'1' ∷ b'2' ∷ b'3' ∷ b'4'
    ∷ b'5' ∷ b'6' ∷ b'7' ∷ b'8' ∷ b'9' ∷ []

-- `zero[lsd]`, where `zero` points at the middle of `digits` and `lsd` may be negative.
unfoldable pub zero_at : ℤ → ℕ
zero_at (pos n) = get_or digits (9 + n) 0
zero_at (negsuc n) = get_or digits (8 - n) 0

-- C++ `i % 10` and `i / 10` round towards 0.
unfoldable pub rem_ten : ℤ → ℤ
rem_ten (pos n) = pos (n % 10)
rem_ten (negsuc n) = neg (suc n % 10)

unfoldable pub div_ten : ℤ → ℤ
div_ten (pos n) = pos (n / 10)
div_ten (negsuc n) = neg (suc n / 10)

-- The do-while loop, with fuel for the rounds: the characters it writes from `p` on.
unfoldable pub digit_loop : ℕ → ℤ → List ℕ
digit_loop zero i = []
digit_loop (suc fuel) i =
    let rest = digit_loop fuel (div_ten i) in
    zero_at (rem_ten i) ∷ (if magnitude (div_ten i) == 0 then [] else rest)

abbrev is_negative : ℤ → Bool
is_negative (pos n) = false
is_negative (negsuc n) = true

-- A value of at most 64 bits has at most 20 digits.
unfoldable pub int_to_buffer : ℤ → List ℕ
int_to_buffer value = reverse (digit_loop 20 value ++ (if is_negative value then b'-' ∷ [] else []))

-- "0123456789ABCDEF"
abbrev digits_hex : List ℕ
digits_hex =
    b'0' ∷ b'1' ∷ b'2' ∷ b'3' ∷ b'4' ∷ b'5' ∷ b'6' ∷ b'7' ∷ b'8' ∷ b'9' ∷ b'A' ∷ b'B' ∷ b'C' ∷ b'D'
    ∷ b'E' ∷ b'F' ∷ []

-- `digitsHex[lsd]`
unfoldable pub hex_digit : ℕ → ℕ
hex_digit lsd = get_or digits_hex lsd 0

unfoldable pub hex_loop : ℕ → ℕ → List ℕ
hex_loop zero i = []
hex_loop (suc fuel) i =
    let rest = hex_loop fuel (i / 16) in hex_digit (i % 16) ∷ (if i / 16 == 0 then [] else rest)

-- A uintptr_t of 64 bits has at most 16 digits.
unfoldable pub hex_to_buffer : ℕ → List ℕ
hex_to_buffer value = reverse (hex_loop 16 value)
