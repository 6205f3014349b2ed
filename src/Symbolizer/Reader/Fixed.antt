-- ===== src/Symbolizer/Reader/Fixed.antt =====
-- Numbers of a fixed width (symbolizer/Dwarf.cc): what Read<T> makes of the bytes of a number.
use claire_common.Common.{
  ℕ, zero, suc, ◌≤◌, ◌/◌, ◌%◌, ◌^◌, ◌<◌, ◌≡◌, refl, List, [], ◌∷◌, ◌++◌, length, length-append,
  take, drop, arith,
}
use claire_common.Common.Outcome.{done}
use claire_common.Symbolizer.Reader.{little_endian, advance, read}
use native.Mathlib.Nat.{pow-succ'}

-- The bytes of a number, the low one first.
abbrev pub to_bytes : ℕ → ℕ → List ℕ
to_bytes zero w = []
to_bytes (suc n) w = (w % 256) ∷ to_bytes n (w / 256)

module _ {ℓ} {A : Type ℓ} where
  pub take-append_length : (n : ℕ) (xs ys : List A) → length xs ≡ n → take n (xs ++ ys) ≡ xs
  take-append_length zero [] ys h = refl
  take-append_length zero (x ∷ xs) ys h = absurd (omega (arith, h))
  take-append_length (suc n) [] ys h = absurd (omega (arith, h))
  take-append_length (suc n) (x ∷ xs) ys h = ground (arith, take-append_length n xs ys)

  pub drop-append_length : (n : ℕ) (xs ys : List A) → length xs ≡ n → drop n (xs ++ ys) ≡ ys
  drop-append_length zero [] ys h = refl
  drop-append_length zero (x ∷ xs) ys h = absurd (omega (arith, h))
  drop-append_length (suc n) [] ys h = absurd (omega (arith, h))
  drop-append_length (suc n) (x ∷ xs) ys h = ground (arith, drop-append_length n xs ys)

pub length-to_bytes : (n w : ℕ) → length (to_bytes n w) ≡ n
length-to_bytes zero w = refl
length-to_bytes (suc n) w = omega (arith, length-to_bytes n (w / 256))

little_endian-to_bytes : (n w : ℕ) → w < 256 ^ n → little_endian (to_bytes n w) ≡ w
little_endian-to_bytes zero w h = omega (arith, h)
little_endian-to_bytes (suc n) w h = omega (
  arith,
  h,
  pow-succ' 256 n,
  little_endian-to_bytes n (w / 256) (omega (arith, h, pow-succ' 256 n)),
)

-- Read<T> gives back the number whose bytes are stored, and leaves what follows them.
pub read-to_bytes :
    (n w : ℕ) (rest : List ℕ) (size : ℕ)
    → n ≤ size
    → w < 256 ^ n
    → read n (record { ahead = to_bytes n w ++ rest; size = size })
      ≡ done (w, record { ahead = rest; size = size })
unfolding read advance
read-to_bytes n w rest size fits h = ground (
  arith,
  length-append (to_bytes n w) rest,
  length-to_bytes n w,
  little_endian-to_bytes n w h,
  take-append_length n (to_bytes n w) rest,
  drop-append_length n (to_bytes n w) rest,
)
