-- ===== src/Metrics/Ranges/Rounds.antt =====
-- The rounds of the loop of InitializeBucketRanges, and how SetRange keeps bounds rising.
use claire_common.Common.{
  ℕ, suc, ◌+◌, ◌-◌, ◌*◌, ◌≤◌, ◌<◌, ◌≡◌, lt→ltb, le→ltb, ◌∙◌, ◌^◌, arith, if◌then◌else◌, length,
  length-set, get_or, get_or-set_self, get_or-set_ne, set,
}
use claire_common.Common.Word.{int_max, add_int, lt_int}
use claire_common.Common.Outcome.{done}
use mathlib.Core.Path.{subst}
use native.Mathlib.Decide.{dec_lt}
use claire_common.Metrics.Ranges.{
  BucketRanges, bucket_count, set_range, Floats, next_bound, layout_loop,
}

-- The first `k + 1` bounds rise.
abbrev pub IsIncreasing : BucketRanges → ℕ → Type 0
IsIncreasing ranges k = (i : ℕ) → i < k → get_or ranges i 0 < get_or ranges (i + 1) 0

-- The layout of `n` buckets between a declared minimum and maximum.
pub record IsLayout (n minimum maximum : ℕ) (ranges : BucketRanges) : Type 0 where
  pub sized : length ranges ≡ n + 1
  pub rises : IsIncreasing ranges n
  pub first : get_or ranges 0 0 ≡ 0
  pub second : get_or ranges 1 0 ≡ minimum
  pub last_bound : get_or ranges (n - 1) 0 ≡ maximum
  pub top : get_or ranges n 0 ≡ int_max

pub set_range_lem :
    (ranges : BucketRanges) (i value : ℕ)
    → 0 < value
    → value < 2 ^ 31
    → i < length ranges
    → set_range ranges i value ≡ done (set ranges i value)
unfolding set_range
set_range_lem ranges i value p q h = ground arith

pub IsIncreasing-set :
    (ranges : BucketRanges) (b value : ℕ)
    → IsIncreasing ranges b
    → get_or ranges b 0 < value
    → b + 1 < length ranges
    → IsIncreasing (set ranges (b + 1) value) (b + 1)
IsIncreasing-set ranges b value rises above inside i h = elim (dec_lt i b) [
  | yes p ↦
      rw
        (
          get_or-set_ne ranges (b + 1) i value 0 (omega arith),
          get_or-set_ne ranges (b + 1) (i + 1) value 0 (omega arith),
        )
        (rises i p)
  | no p ↦
      let e : i ≡ b = omega arith in
      rw
        (
          e,
          get_or-set_ne ranges (b + 1) b value 0 (omega arith),
          get_or-set_self ranges (b + 1) value 0 inside,
        )
        above
]

room_below_linear :
    (c k d next : ℕ) → 1 ≤ k → k ≤ d → 2 * k * next ≤ 2 * (k * c + d) + k → next + k ≤ c + d + 1
room_below_linear c k d next hk h below = elim (dec_lt (c + d + 1) (next + k)) [
  | yes over ↦
      let e = d - k in
      let y = next - (c + e + 2) in
      absurd (
        omega (
          arith,
          below,
          subst (λ n. 2 * k * n ≡ 2 * (k * c) + 2 * (k * e) + 4 * k + 2 * (k * y))
              (back c e next (omega arith)) (spread c k e y),
          grow k e hk,
        ))
  | no inside ↦ omega arith
]
  where
    back : (c e next : ℕ) → c + e + 2 ≤ next → c + e + 2 + (next - (c + e + 2)) ≡ next
    back c e next h = omega arith

    spread :
        (c k e y : ℕ) → 2 * k * (c + e + 2 + y) ≡ 2 * (k * c) + 2 * (k * e) + 4 * k + 2 * (k * y)
    spread c k e y = grind arith

    grow : (k e : ℕ) → 1 ≤ k → e ≤ k * e
    grow k e h = grind arith

module _ (f : Floats) (maximum : ℕ) where
  -- What log and exp give for positive numbers: a geometric mean is at most the arithmetic one, so the
  -- step of the interpolation, rounded to the nearest integer, is at most half a unit above that of
  -- the linear one; and the last step, exp (log maximum), rounds to the maximum.
  pub record IsInterpolating : Type 0 where
    pub below_linear :
        (current remaining : ℕ)
        → 1 ≤ current
        → 1 ≤ remaining
        → current + remaining ≤ maximum
        → 2 * remaining * next_bound f maximum current remaining
          ≤ 2 * (remaining * current + (maximum - current)) + remaining
    pub reaches :
        (current : ℕ) → 1 ≤ current → current < maximum → next_bound f maximum current 1 ≡ maximum

  -- The bound leaves a unit for each bucket that still has to fit below the maximum.
  leaves_room :
      IsInterpolating
      → (c k : ℕ) → 1 ≤ c
      → 1 ≤ k
      → c + k ≤ maximum
      → next_bound f maximum c k + k ≤ maximum + 1
  leaves_room p c k hc hk h = omega (
    arith,
    room_below_linear c k (maximum - c) (next_bound f maximum c k) hk (omega arith)
        (p.below_linear c k hc hk h),
  )

  -- The loop's state at `b`, for `n` buckets.
  pub record Laid (n b : ℕ) (ranges : BucketRanges) : Type 0 where
    pub sized : length ranges ≡ n + 1
    pub rises : IsIncreasing ranges b
    pub positive : 0 < get_or ranges b 0
    pub room : get_or ranges b 0 + (n - 1 - b) ≤ maximum

  abbrev pub next_of : ℕ → ℕ → ℕ
  next_of current remaining =
      let next = next_bound f maximum current remaining in
      if lt_int current next then next else add_int current 1

  pub next_of_bounds :
      IsInterpolating
      → maximum < int_max
      → (c k : ℕ) → 1 ≤ c
      → 1 ≤ k
      → c + k ≤ maximum
      → (c < next_of c k) × (next_of c k + k ≤ maximum + 1)
  next_of_bounds p small c k hc hk h = ground (arith, leaves_room p c k hc hk h)

  pub next_of_one :
      IsInterpolating → maximum < int_max → (c : ℕ) → 1 ≤ c → c < maximum → next_of c 1 ≡ maximum
  next_of_one p small c hc h = ground (arith, p.reaches c hc h)

  pub Laid-set :
      (n b c : ℕ) (ranges : BucketRanges)
      → Laid n b ranges
      → b + 1 < n
      → get_or ranges b 0 < c
      → c + (n - (b + 1)) ≤ maximum + 1
      → Laid n (b + 1) (set ranges (b + 1) c)
  Laid-set n b c ranges l h lo hi =
      let inside : b + 1 < length ranges = omega (arith, l.sized) in
      let here = get_or-set_self ranges (b + 1) c 0 inside in
      record {
        sized = length-set ranges (b + 1) c ∙ l.sized;
        rises = IsIncreasing-set ranges b c l.rises lo inside;
        positive = omega (arith, here);
        room = omega (arith, here);
      }

  pub layout_loop_step :
      (fuel b c : ℕ) (ranges : BucketRanges)
      → b + 1 < bucket_count ranges
      → let c' = next_of c (bucket_count ranges - (b + 1)) in
        0 < c'
        → c' < 2 ^ 31
        → layout_loop f (suc fuel) maximum b c ranges
          ≡ layout_loop f fuel maximum (b + 1) c' (set ranges (b + 1) c')
  unfolding layout_loop
  layout_loop_step fuel b c ranges h pos small = rw (
    lt→ltb (b + 1) (bucket_count ranges) h,
    set_range_lem ranges (b + 1) (next_of c (bucket_count ranges - (b + 1))) pos small
        (unfold bucket_count in omega arith),
  )

  pub layout_loop_stop :
      (fuel b c : ℕ) (ranges : BucketRanges)
      → bucket_count ranges ≤ b + 1
      → layout_loop f (suc fuel) maximum b c ranges ≡ done ranges
  unfolding layout_loop
  layout_loop_stop fuel b c ranges h = rw (le→ltb (b + 1) (bucket_count ranges) h)
