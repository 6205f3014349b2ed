-- ===== src/Strings/Number/Decimal.antt =====
-- IntToBuffer against the reading of a decimal numeral.
use claire_common.Common.{
  ℕ, zero, suc, ◌+◌, ◌-◌, ◌*◌, ◌/◌, ◌%◌, ◌^◌, ◌<◌, ◌≤◌, ◌≡◌, refl, ap, List, [], ◌∷◌, ◌++◌, arith,
  ◌==◌, if◌then◌else◌, length, length-reverse, inl, inr, ◌⊎◌, All, All-reverse, ==_iff,
}
use claire_common.Common.Table.{holds_from, holds_from-at}
use claire_common.Common.Int.{ℤ, pos, negsuc, neg, magnitude}
use mathlib.Core.List.{reverse, reverse-cons, reverse-append, append-nil}
use claire_common.Strings.Number.{zero_at, rem_ten, div_ten, digit_loop, int_to_buffer}

-- The number that decimal digits stand for, the most significant first, and that of a numeral
-- with a sign.
unfoldable pub read_digits : ℕ → List ℕ → ℕ
read_digits acc [] = acc
read_digits acc (c ∷ cs) = read_digits (acc * 10 + (c - b'0')) cs

unfoldable pub read_decimal : List ℕ → ℤ
unfolding read_digits
read_decimal [] = pos 0
read_decimal (c ∷ cs) = if c == b'-' then neg (read_digits 0 cs) else pos (read_digits 0 (c ∷ cs))

read_digits-append :
    (acc : ℕ) (cs : List ℕ) (c : ℕ)
    → read_digits acc (cs ++ c ∷ []) ≡ read_digits acc cs * 10 + (c - b'0')
unfolding read_digits
read_digits-append acc [] c = refl
read_digits-append acc (d ∷ cs) c = read_digits-append (acc * 10 + (d - b'0')) cs c

-- The same, the least significant first.
abbrev value : List ℕ → ℕ
value [] = 0
value (c ∷ cs) = (c - b'0') + 10 * value cs

read_digits-reverse : (cs : List ℕ) → read_digits 0 (reverse cs) ≡ value cs
read_digits-reverse [] = unfold read_digits in refl
read_digits-reverse (c ∷ cs) =
    rw (reverse-cons c cs, read_digits-append 0 (reverse cs) c, read_digits-reverse cs)
      (omega arith)

zero_at-pos : (d : ℕ) → d < 10 → zero_at (pos d) ≡ b'0' + d
unfolding zero_at holds_from
zero_at-pos d h =
    (==_iff _ _).0 (holds_from-at (λ x. zero_at (pos x) == b'0' + x) 0 10 d refl (omega arith) h)

zero_at-neg : (d : ℕ) → d < 10 → zero_at (neg d) ≡ b'0' + d
unfolding zero_at holds_from
zero_at-neg d h =
    (==_iff _ _).0 (holds_from-at (λ x. zero_at (neg x) == b'0' + x) 0 10 d refl (omega arith) h)

zero_at-rem_ten : (i : ℤ) → zero_at (rem_ten i) ≡ b'0' + magnitude i % 10
unfolding rem_ten
zero_at-rem_ten (pos n) = zero_at-pos (n % 10) (omega arith)
zero_at-rem_ten (negsuc n) = zero_at-neg (suc n % 10) (omega arith)

magnitude-neg : (n : ℕ) → magnitude (neg n) ≡ n
magnitude-neg zero = refl
magnitude-neg (suc n) = refl

magnitude-div_ten : (i : ℤ) → magnitude (div_ten i) ≡ magnitude i / 10
unfolding div_ten
magnitude-div_ten (pos n) = refl
magnitude-div_ten (negsuc n) = magnitude-neg (suc n / 10)

value-digit_loop :
    (k : ℕ) (i : ℤ) → magnitude i < 10 ^ suc k → value (digit_loop (suc k) i) ≡ magnitude i
unfolding digit_loop
value-digit_loop zero i h = ground (arith, zero_at-rem_ten i, magnitude-div_ten i)
value-digit_loop (suc k) i h = ground (
  arith,
  zero_at-rem_ten i,
  magnitude-div_ten i,
  value-digit_loop k (div_ten i) (omega (arith, magnitude-div_ten i)),
)

abbrev pub IsDigit : ℕ → Type 0
IsDigit c = (b'0' ≤ c) × (c ≤ b'9')

digit_loop-IsDigit : (k : ℕ) (i : ℤ) → All IsDigit (digit_loop k i)
unfolding digit_loop
digit_loop-IsDigit zero i = tt
digit_loop-IsDigit (suc k) i = ground (arith, zero_at-rem_ten i, digit_loop-IsDigit k (div_ten i))

length-digit_loop : (k : ℕ) (i : ℤ) → length (digit_loop k i) ≤ k
unfolding digit_loop
length-digit_loop zero i = omega arith
length-digit_loop (suc k) i = ground (arith, length-digit_loop k (div_ten i))

read_decimal-digits : (cs : List ℕ) → All IsDigit cs → read_decimal cs ≡ pos (read_digits 0 cs)
unfolding read_decimal
read_decimal-digits [] h = refl
read_decimal-digits (c ∷ cs) h = ground arith

read_decimal-minus : (cs : List ℕ) → read_decimal (b'-' ∷ cs) ≡ neg (read_digits 0 cs)
unfolding read_decimal
read_decimal-minus cs = refl

int_to_buffer-pos : (n : ℕ) → int_to_buffer (pos n) ≡ reverse (digit_loop 20 (pos n))
unfolding int_to_buffer
int_to_buffer-pos n = ap reverse (append-nil (digit_loop 20 (pos n)))

int_to_buffer-negsuc :
    (n : ℕ) → int_to_buffer (negsuc n) ≡ b'-' ∷ reverse (digit_loop 20 (negsuc n))
unfolding int_to_buffer
int_to_buffer-negsuc n = reverse-append (digit_loop 20 (negsuc n)) (b'-' ∷ [])

-- Every integer of at most 64 bits, signed or unsigned and the least one included, is written as
-- the decimal numeral that reads back as it.
pub read_decimal-int_to_buffer : (i : ℤ) → magnitude i < 2 ^ 64 → read_decimal (int_to_buffer i) ≡ i
read_decimal-int_to_buffer (pos n) h = rw (
  int_to_buffer-pos n,
  read_decimal-digits _ (All-reverse IsDigit _ (digit_loop-IsDigit 20 (pos n))),
  read_digits-reverse (digit_loop 20 (pos n)),
  value-digit_loop 19 (pos n) (omega arith),
)
read_decimal-int_to_buffer (negsuc n) h = rw (
  int_to_buffer-negsuc n,
  read_decimal-minus (reverse (digit_loop 20 (negsuc n))),
  read_digits-reverse (digit_loop 20 (negsuc n)),
  value-digit_loop 19 (negsuc n) (omega arith),
)

-- The characters and their final NUL fit the 32 bytes that LogStream::FormatInteger asks for, and
-- all of them but a sign in front are digits.
pub int_to_buffer_fits :
    (i : ℤ)
    → (length (int_to_buffer i) + 1 ≤ 32)
      × ((All IsDigit (int_to_buffer i))
          ⊎ ((cs : List ℕ) × (int_to_buffer i ≡ b'-' ∷ cs) × All IsDigit cs))
int_to_buffer_fits (pos n) = rw int_to_buffer-pos (
  omega (arith, length-reverse (digit_loop 20 (pos n)), length-digit_loop 20 (pos n)),
  inl (All-reverse IsDigit _ (digit_loop-IsDigit 20 (pos n))),
)
int_to_buffer_fits (negsuc n) = rw int_to_buffer-negsuc (
  omega (arith, length-reverse (digit_loop 20 (negsuc n)), length-digit_loop 20 (negsuc n)),
  inr (_, refl, All-reverse IsDigit _ (digit_loop-IsDigit 20 (negsuc n))),
)
