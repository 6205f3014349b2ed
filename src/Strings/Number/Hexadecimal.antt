-- ===== src/Strings/Number/Hexadecimal.antt =====
-- HexToBuffer against the reading of a hexadecimal numeral.
use claire_common.Common.{
  ℕ, zero, suc, ◌+◌, ◌-◌, ◌*◌, ◌/◌, ◌%◌, ◌^◌, ◌<◌, ◌≤◌, ◌≡◌, refl, List, [], ◌∷◌, ◌++◌, arith, ◌==◌,
  ltb, if◌then◌else◌, length, length-reverse, ==_iff,
}
use claire_common.Common.Table.{holds_from, holds_from-at}
use mathlib.Core.List.{reverse, reverse-cons}
use claire_common.Strings.Number.{hex_digit, hex_loop, hex_to_buffer}

-- The number that hexadecimal digits stand for, the most significant first.
abbrev digit_value : ℕ → ℕ
digit_value c = if ltb c b'A' then c - b'0' else c - b'A' + 10

unfoldable pub read_hex : ℕ → List ℕ → ℕ
read_hex acc [] = acc
read_hex acc (c ∷ cs) = read_hex (acc * 16 + digit_value c) cs

read_hex-append :
    (acc : ℕ) (cs : List ℕ) (c : ℕ)
    → read_hex acc (cs ++ c ∷ []) ≡ read_hex acc cs * 16 + digit_value c
unfolding read_hex
read_hex-append acc [] c = refl
read_hex-append acc (d ∷ cs) c = read_hex-append (acc * 16 + digit_value d) cs c

abbrev value : List ℕ → ℕ
value [] = 0
value (c ∷ cs) = digit_value c + 16 * value cs

read_hex-reverse : (cs : List ℕ) → read_hex 0 (reverse cs) ≡ value cs
read_hex-reverse [] = unfold read_hex in refl
read_hex-reverse (c ∷ cs) =
    rw (reverse-cons c cs, read_hex-append 0 (reverse cs) c, read_hex-reverse cs) (omega arith)

digit_value-hex_digit : (d : ℕ) → d < 16 → digit_value (hex_digit d) ≡ d
unfolding holds_from hex_digit
digit_value-hex_digit d h =
    (==_iff _ _).0 (holds_from-at (λ x. digit_value (hex_digit x) == x) 0 16 d refl (omega arith) h)

value-hex_loop : (k i : ℕ) → i < 16 ^ suc k → value (hex_loop (suc k) i) ≡ i
unfolding hex_loop
value-hex_loop zero i h = ground (arith, digit_value-hex_digit (i % 16) (omega arith))
value-hex_loop (suc k) i h =
    ground
      (arith, digit_value-hex_digit (i % 16) (omega arith), value-hex_loop k (i / 16) (omega arith))

length-hex_loop : (k i : ℕ) → length (hex_loop k i) ≤ k
unfolding hex_loop
length-hex_loop zero i = omega arith
length-hex_loop (suc k) i = ground (arith, length-hex_loop k (i / 16))

-- A 64-bit address reads back from its hexadecimal digits, and with the prefix "0x" and the final
-- NUL they fit the 32 bytes that LogStream asks for.
pub read_hex-hex_to_buffer :
    (i : ℕ) → i < 2 ^ 64 → (read_hex 0 (hex_to_buffer i) ≡ i) × (length (hex_to_buffer i) + 3 ≤ 32)
unfolding hex_to_buffer
read_hex-hex_to_buffer i h = (
  rw (read_hex-reverse (hex_loop 16 i)) (value-hex_loop 15 i (omega arith)),
  omega (arith, length-reverse (hex_loop 16 i), length-hex_loop 16 i),
)
