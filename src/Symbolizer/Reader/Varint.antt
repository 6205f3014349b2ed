-- ===== src/Symbolizer/Reader/Varint.antt =====
-- The variable-length numbers that ReadULEB and ReadSLEB read (symbolizer/Dwarf.cc), as the DWARF
-- standard writes them.
use claire_common.Common.{
  ℕ, zero, suc, ◌+◌, ◌-◌, ◌*◌, ◌/◌, ◌%◌, ◌^◌, ◌≤◌, ◌<◌, ◌≡◌, refl, sym, ap, ◌∙◌, List, [], ◌∷◌,
  ◌++◌, arith,
}
use claire_common.Common.Int.{ℤ, pos, negsuc}
use claire_common.Common.Outcome.{done}
use claire_common.Symbolizer.Reader.{read_uleb_loop, read_uleb, read_sleb, sign_extend}
use native.Mathlib.Nat.{div-add-mod, pow-le-pow_right, pow-succ'}
use native.Mathlib.Numerals.{towards_suc}

-- The `k + 1` bytes of `w`: seven bits in each, the lowest first, and the top bit on all but the
-- last.
abbrev pub uleb : ℕ → ℕ → List ℕ
uleb zero w = w ∷ []
uleb (suc k) w = (w % 128 + 128) ∷ uleb k (w / 128)

-- The last byte, with the sign bit of a number that ReadSLEB reads.
abbrev pub top_group : ℕ → ℕ → ℕ
top_group zero w = w
top_group (suc k) w = top_group k (w / 128)

-- One byte of a longer number, and the last byte.
round_more :
    (g r shift size : ℕ) (rest : List ℕ)
    → g < 128
    → shift < 64
    → 0 < size
    → read_uleb_loop size ((g + 128) ∷ rest) shift r
      ≡ read_uleb_loop size rest (shift + 7) (r + g * 2 ^ shift % 2 ^ 64)
unfolding read_uleb_loop
round_more g r shift size rest small narrow full = ground arith

round_last :
    (w r shift size : ℕ) (rest : List ℕ)
    → w < 128
    → shift < 64
    → 0 < size
    → read_uleb_loop size (w ∷ rest) shift r
      ≡ done ((r + w * 2 ^ shift % 2 ^ 64, shift + 7, w), record { ahead = rest; size = size })
unfolding read_uleb_loop
round_last w r shift size rest small narrow full = ground arith

-- Seven more bits multiply the weight by 128.
weight_step : (s : ℕ) → 128 * 2 ^ s ≡ 2 ^ (s + 7)
weight_step s = simp towards_suc (omega arith)

split_low : (w s : ℕ) → w * 2 ^ s ≡ w % 128 * 2 ^ s + w / 128 * 2 ^ (s + 7)
split_low w s =
    let p : ℕ = 2 ^ s in
    let q : ℕ = w / 128 in
    let whole = ap (λ (n : ℕ). n * p) (div-add-mod w 128) in
    rw (sym (weight_step s)) (grind (arith, whole))

read_uleb_loop-uleb :
    (k w r shift size : ℕ) (rest : List ℕ)
    → w < 128 ^ suc k
    → shift + 7 * k < 64
    → r + w * 2 ^ shift < 2 ^ 64
    → 0 < size
    → read_uleb_loop size (uleb k w ++ rest) shift r
      ≡ done (
        (r + w * 2 ^ shift, shift + 7 * k + 7, top_group k w),
        record { ahead = rest; size = size },
      )
read_uleb_loop-uleb zero w r shift size rest hw hs fits full =
    ground (arith, round_last w r shift size rest)
read_uleb_loop-uleb (suc k) w r shift size rest hw hs fits full = ground (
  arith,
  split_low w shift,
  round_more (w % 128) r shift size (uleb k (w / 128) ++ rest),
  read_uleb_loop-uleb k (w / 128) (r + w % 128 * 2 ^ shift) (shift + 7) size rest
      (omega (arith, hw)),
)

-- ReadULEB reads back a number below 2 ^ 64 from the `k + 1` bytes that the standard writes it in,
-- for `k` at most 9, from a piece whose size is not 0, and leaves what follows them.
pub read_uleb-uleb :
    (k w size : ℕ) (rest : List ℕ)
    → 0 < size
    → k ≤ 9
    → w < 128 ^ suc k
    → w < 2 ^ 64
    → read_uleb (record { ahead = uleb k w ++ rest; size = size })
      ≡ done (w, record { ahead = rest; size = size })
unfolding read_uleb
read_uleb-uleb k w size rest full short hw fits =
    ground (arith, read_uleb_loop-uleb k w 0 0 size rest hw)

power_of_128 : (k : ℕ) → 2 ^ (7 * k + 7) ≡ 128 ^ suc k
power_of_128 zero = refl
power_of_128 (suc k) =
    let same : 7 * suc k + 7 ≡ 7 * k + 7 + 7 = omega arith in
    ap (λ (e : ℕ). 2 ^ e) same
    ∙ sym (weight_step (7 * k + 7))
    ∙ ap (λ (t : ℕ). 128 * t) (power_of_128 k)
    ∙ sym (pow-succ' 128 (suc k))

top_group-lt :
    (k w : ℕ)
    → w < 128 ^ suc k
    → (top_group k w < 128)
      × (w < 64 * 128 ^ k → top_group k w < 64)
      × (64 * 128 ^ k ≤ w → 64 ≤ top_group k w)
top_group-lt zero w h = (omega (arith, h), λ g. omega (arith, g), λ g. omega (arith, g))
top_group-lt (suc k) w h = ground (arith, top_group-lt k (w / 128))

extend_positive : (r shift v : ℕ) → v < 64 → sign_extend r shift v ≡ r
unfolding sign_extend
extend_positive r shift v small = ground arith

extend_negative :
    (r shift v : ℕ)
    → 64 ≤ v
    → v < 128
    → shift < 64
    → sign_extend r shift v ≡ r + (2 ^ 64 - 2 ^ shift)
unfolding sign_extend
extend_negative r shift v big small narrow = ground arith

pow_fits : (k : ℕ) → k ≤ 8 → 128 ^ k ≤ 128 ^ 8
pow_fits k short = pow-le-pow_right (omega arith) short

read_sleb_nonnegative :
    (k w size : ℕ) (rest : List ℕ)
    → 0 < size
    → k ≤ 8
    → w < 64 * 128 ^ k
    → read_sleb (record { ahead = uleb k w ++ rest; size = size })
      ≡ done (w, record { ahead = rest; size = size })
unfolding read_sleb
read_sleb_nonnegative k w size rest full short small =
    let wide : w < 128 ^ suc k = omega (arith, small, pow-succ' 128 k) in
    let fits : w < 2 ^ 64 = omega (arith, small, pow_fits k short) in
    let same =
      extend_positive (0 + w * 2 ^ 0) (0 + 7 * k + 7) _ ((top_group-lt k w wide).1 small) in
    let value : 0 + w * 2 ^ 0 ≡ w = omega arith in
    rw (read_uleb_loop-uleb k w 0 0 size rest wide (omega arith) (omega (arith, fits)) full)
      (ap (λ (n : ℕ). done (n, record { ahead = rest; size = size })) (same ∙ value))

read_sleb_negative :
    (k n size : ℕ) (rest : List ℕ)
    → 0 < size
    → k ≤ 8
    → 0 < n
    → n ≤ 64 * 128 ^ k
    → read_sleb (record { ahead = uleb k (128 ^ suc k - n) ++ rest; size = size })
      ≡ done (2 ^ 64 - n, record { ahead = rest; size = size })
unfolding read_sleb
read_sleb_negative k n size rest full short positive small =
    let w : ℕ = 128 ^ suc k - n in
    let step = pow-succ' 128 k in
    let wide : w < 128 ^ suc k = omega (arith, positive, small, step) in
    let high : 64 * 128 ^ k ≤ w = omega (arith, small, step) in
    let fits : w < 2 ^ 64 = omega (arith, small, step, pow_fits k short) in
    let top = top_group-lt k w wide in
    let extended =
      extend_negative (0 + w * 2 ^ 0) (0 + 7 * k + 7) _ (top.2 high) top.0 (omega arith) in
    let shifted : 0 + 7 * k + 7 ≡ 7 * k + 7 = omega arith in
    let power : 2 ^ (0 + 7 * k + 7) ≡ 128 ^ suc k =
      ap (λ (e : ℕ). 2 ^ e) shifted ∙ power_of_128 k in
    let value : 0 + w * 2 ^ 0 + (2 ^ 64 - 2 ^ (0 + 7 * k + 7)) ≡ 2 ^ 64 - n =
      omega (arith, power, small, step, pow_fits k short) in
    rw (read_uleb_loop-uleb k w 0 0 size rest wide (omega arith) (omega (arith, fits)) full)
      (ap (λ (n : ℕ). done (n, record { ahead = rest; size = size })) (extended ∙ value))

-- The numbers that 7 * (k + 1) bits hold in two's complement, their bits, and the int64_t.
abbrev pub IsSmall : ℕ → ℤ → Type 0
IsSmall k (pos w) = w < 64 * 128 ^ k
IsSmall k (negsuc n) = n < 64 * 128 ^ k

abbrev pub sleb : ℕ → ℤ → List ℕ
sleb k (pos w) = uleb k w
sleb k (negsuc n) = uleb k (128 ^ suc k - suc n)

abbrev pub int64 : ℤ → ℕ
int64 (pos w) = w
int64 (negsuc n) = 2 ^ 64 - suc n

-- ReadSLEB reads back a signed number from the `k + 1` bytes that the standard writes it in, for
-- `k` at most 8 and a number that 7 * (k + 1) bits hold, from a piece whose size is not 0, and
-- leaves what follows them.
pub read_sleb-sleb :
    (k : ℕ) (z : ℤ) (size : ℕ) (rest : List ℕ)
    → 0 < size
    → k ≤ 8
    → IsSmall k z
    → read_sleb (record { ahead = sleb k z ++ rest; size = size })
      ≡ done (int64 z, record { ahead = rest; size = size })
read_sleb-sleb k (pos w) size rest full short small =
    read_sleb_nonnegative k w size rest full short small
read_sleb-sleb k (negsuc n) size rest full short small =
    read_sleb_negative k (suc n) size rest full short (omega arith) (omega (arith, small))
