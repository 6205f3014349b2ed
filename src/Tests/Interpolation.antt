-- ===== src/Tests/Interpolation.antt =====
-- A log and an exp in fixed point for InitializeBucketRanges (metrics/Histogram.cc): log is rounded
-- down to 1 / 2048, exp to the nearest integer.
use claire_common.Common.{
  ℕ, zero, suc, ◌+◌, ◌-◌, ◌*◌, ◌/◌, ◌≤◌, ◌<◌, ◌≡◌, refl, sym, ◌==◌, Bool, true, false, ◌||◌, ◌&&◌,
  List, [], ◌∷◌, arith, leb, get_or, if◌then◌else◌,
}
use mathlib.Core.Path.{subst}
use native.Mathlib.Decide.{ℕ_discrete}
use claire_common.Metrics.Ranges.{Floats, next_bound}
use claire_common.Metrics.Ranges.Rounds.{IsInterpolating}

-- 2048 times the logarithm of 1 .. 16; place 0 is not read.
abbrev logs : List ℕ
logs =
    0 ∷ 0 ∷ 1419 ∷ 2249 ∷ 2839 ∷ 3296 ∷ 3669 ∷ 3985 ∷ 4258 ∷ 4499 ∷ 4715 ∷ 4910 ∷ 5089 ∷ 5253 ∷ 5404
    ∷ 5546 ∷ 5678 ∷ []

-- 2048 times the logarithm of 1.5, 2.5 .. 16.5, from where exp rounds to the next integer.
abbrev midpoints : List ℕ
midpoints =
    831 ∷ 1877 ∷ 2566 ∷ 3081 ∷ 3492 ∷ 3834 ∷ 4127 ∷ 4383 ∷ 4611 ∷ 4816 ∷ 5002 ∷ 5173 ∷ 5331 ∷ 5477
    ∷ 5614 ∷ 5742 ∷ []

unfoldable pub rounded_exp : List ℕ → ℕ → ℕ
rounded_exp [] y = 2048
rounded_exp (m ∷ ms) y = if leb m y then 2048 + rounded_exp ms y else 2048

abbrev pub fixed_point : Floats
fixed_point = record {
  Double = ℕ;
  of_int = λ n. 2048 * n;
  log = λ x. get_or logs (x / 2048) 0;
  exp = rounded_exp midpoints;
  add = λ x y. x + y;
  sub = λ x y. x - y;
  div = λ x y. x * 2048 / y;
  half = 1024;
  floor = λ x. x / 2048 * 2048;
  to_int = λ x. x / 2048;
}

abbrev all_below : ℕ → (ℕ → Bool) → Bool
all_below zero f = true
all_below (suc n) f = f n && all_below n f

all_below-lt : (n : ℕ) (f : ℕ → Bool) (i : ℕ) → all_below n f ≡ true → i < n → f i ≡ true
all_below-lt zero f i all h = absurd (omega arith)
all_below-lt (suc n) f i all h = elim (ℕ_discrete i n) [
  | yes e ↦ subst (λ k. f k ≡ true) (sym e) (both (f n) (all_below n f) all).0
  | no other ↦ all_below-lt n f i (both (f n) (all_below n f) all).1 (omega arith)
]
  where
    both : (a b : Bool) → a && b ≡ true → (a ≡ true) × (b ≡ true)
    both true b h = (refl, h)
    both false b h = absurd (ground arith)

abbrev is_below_linear : ℕ → ℕ → Bool
is_below_linear c k =
    leb c 0
    || leb k 0
    || leb 17 (c + k)
    || leb (2 * k * next_bound fixed_point 16 c k) (2 * (k * c + (16 - c)) + k)

abbrev is_last_reached : ℕ → Bool
is_last_reached c = leb c 0 || (next_bound fixed_point 16 c 1 == 16)

all_below_linear : all_below 17 (λ c. all_below 17 (is_below_linear c)) ≡ true
unfolding next_bound rounded_exp
all_below_linear = refl

all_last_reached : all_below 16 is_last_reached ≡ true
unfolding next_bound rounded_exp
all_last_reached = refl

-- The inequality, when the other three tests fail.
last_of :
    (c k next bound : ℕ)
    → 1 ≤ c
    → 1 ≤ k
    → c + k ≤ 16
    → (leb c 0 || leb k 0 || leb 17 (c + k) || leb next bound) ≡ true
    → next ≤ bound
last_of c k next bound hc hk h test = ground arith

reached_of : (c next : ℕ) → 1 ≤ c → (leb c 0 || (next == 16)) ≡ true → next ≡ 16
reached_of c next hc test = ground arith

pub fixed_point-IsInterpolating : IsInterpolating fixed_point 16
fixed_point-IsInterpolating = record {
  below_linear = λ c k hc hk h. last_of c k _ _ hc hk h (
      all_below-lt 17 (is_below_linear c) k
        (all_below-lt 17 (λ a. all_below 17 (is_below_linear a)) c all_below_linear (omega arith))
        (omega arith));
  reaches = λ c hc h. reached_of c _ hc (all_below-lt 16 is_last_reached c all_last_reached h);
}
