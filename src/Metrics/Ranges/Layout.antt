-- ===== src/Metrics/Ranges/Layout.antt =====
-- The bounds that InitializeBucketRanges lays out.
use claire_common.Common.{
  ℕ, zero, suc, ◌+◌, ◌-◌, ◌≤◌, ◌<◌, ◌≡◌, refl, sym, ap, ◌∙◌, arith, length, length-set,
  length-replicate, get_or, get_or-set_self, get_or-set_ne, set, replicate, get_or-replicate,
}
use claire_common.Common.Word.{int_max}
use claire_common.Common.Outcome.{done}
use native.Mathlib.Decide.{dec_lt}
use mathlib.Core.Path.{subst}
use claire_common.Metrics.Ranges.{
  BucketRanges, bucket_count, set_range, Floats, layout_loop, initialize_bucket_ranges,
}
use claire_common.Metrics.Ranges.Rounds.{
  IsIncreasing, IsLayout, set_range_lem, IsIncreasing-set, IsInterpolating, Laid, next_of,
  next_of_bounds, next_of_one, Laid-set, layout_loop_step, layout_loop_stop,
}

module _ (f : Floats) (maximum : ℕ) where
  layout_top :
      IsInterpolating f maximum
      → maximum < int_max
      → (n b c c' : ℕ) (ranges ranges' : BucketRanges) → length ranges ≡ n + 1
      → b + 1 < n
      → ¬ (b + 2 < n)
      → c' ≡ next_of f maximum c 1
      → get_or ranges' (b + 1) 0 ≡ get_or (set ranges (b + 1) c') (b + 1) 0
      → 1 ≤ c
      → c < maximum
      → get_or ranges' (n - 1) 0 ≡ maximum
  layout_top p small n b c c' ranges ranges' sized more last e kept hc h =
      ap (λ i. get_or ranges' i 0) (omega arith)
      ∙ kept
      ∙ get_or-set_self ranges (b + 1) c' 0 (omega arith)
      ∙ e
      ∙ next_of_one f maximum p small c hc h

  layout_loop-Laid :
      IsInterpolating f maximum
      → maximum < int_max
      → (fuel n b c : ℕ) (ranges : BucketRanges) → Laid f maximum n b ranges
      → c ≡ get_or ranges b 0
      → 1 ≤ b
      → b < n
      → n ≤ b + fuel
      → (ranges' : BucketRanges) × (layout_loop f fuel maximum b c ranges ≡ done ranges')
        × Laid f maximum n (n - 1) ranges'
        × ((i : ℕ) → i ≤ b → get_or ranges' i 0 ≡ get_or ranges i 0)
        × (b + 1 < n → get_or ranges' (n - 1) 0 ≡ maximum)
  layout_loop-Laid p small zero n b c ranges l e hb h hf = absurd (omega arith)
  layout_loop-Laid p small (suc fuel) n b c ranges l e hb h hf =
      let count : bucket_count ranges ≡ n = unfold bucket_count in omega (arith, l.sized) in
      elim (dec_lt (b + 1) n) [
        | yes more ↦
            let c' = next_of f maximum c (bucket_count ranges - (b + 1)) in
            let (lo, hi) =
              next_of_bounds f maximum p small c (bucket_count ranges - (b + 1))
                (omega (arith, l.positive)) (omega arith) (omega (arith, l.room)) in
            let l' = Laid-set f maximum n b c' ranges l more (omega arith) (omega arith) in
            let (ranges', ends, laid, kept, top) =
              layout_loop-Laid p small fuel n (b + 1) c' (set ranges (b + 1) c') l'
                (sym (get_or-set_self ranges (b + 1) c' 0 (omega (arith, l.sized)))) (omega arith)
                more (omega arith) in
            (
              ranges',
              layout_loop_step f maximum fuel b c ranges (omega arith) (omega arith) (omega arith)
                  ∙ ends,
              laid,
              λ i hi. kept i (omega arith) ∙ get_or-set_ne ranges (b + 1) i c' 0 (omega arith),
              λ _. elim (dec_lt (b + 2) n) [
                | yes further ↦ top (omega arith)
                | no last ↦
                    layout_top p small n b c c' ranges ranges' l.sized more last
                      (ap (next_of f maximum c) (omega arith)) (kept (b + 1) (omega arith))
                      (omega (arith, l.positive)) (omega (arith, l.room))
              ],
            )
        | no last ↦
            let b_last : b ≡ n - 1 = omega arith in
            (
              ranges,
              layout_loop_stop f maximum fuel b c ranges (omega arith),
              subst (λ k. Laid f maximum n k ranges) b_last l,
              λ i hi. refl,
              λ more. absurd (last more),
            )
      ]

  abbrev blank : ℕ → BucketRanges
  blank n = replicate (n + 1) 0

  start_one : (n minimum : ℕ) → 3 ≤ n → get_or (set (blank n) 1 minimum) 1 0 ≡ minimum
  start_one n minimum h =
      get_or-set_self (blank n) 1 minimum 0 (omega (arith, length-replicate (n + 1) (zero)))

  start_zero : (n minimum : ℕ) → get_or (set (blank n) 1 minimum) 0 0 ≡ 0
  start_zero n minimum =
      get_or-set_ne (blank n) 1 0 minimum 0 (omega arith) ∙ get_or-replicate (n + 1) 0 0

  start-Laid :
      (n minimum : ℕ)
      → 1 ≤ minimum
      → 3 ≤ n
      → minimum + (n - 2) ≤ maximum
      → Laid f maximum n 1 (set (blank n) 1 minimum)
  start-Laid n minimum h1 h2 h3 =
      let one = start_one n minimum h2 in
      record {
        sized = length-set (blank n) 1 minimum ∙ length-replicate (n + 1) 0;
        rises = λ i h.
            let e : i ≡ 0 = omega arith in
            subst
              (λ k.
                get_or (set (blank n) 1 minimum) k 0 < get_or (set (blank n) 1 minimum) (k + 1) 0)
              (sym e) (omega (arith, one, start_zero n minimum));
        positive = omega (arith, one);
        room = omega (arith, one);
      }

  top-IsLayout :
      (n minimum : ℕ) (ranges : BucketRanges)
      → 3 ≤ n
      → maximum < int_max
      → Laid f maximum n (n - 1) ranges
      → get_or ranges 0 0 ≡ 0
      → get_or ranges 1 0 ≡ minimum
      → get_or ranges (n - 1) 0 ≡ maximum
      → IsLayout n minimum maximum (set ranges n int_max)
  top-IsLayout n minimum ranges h small laid e0 e1 e2 = record {
    sized = length-set ranges n int_max ∙ laid.sized;
    rises =
        subst (λ k. IsIncreasing (set ranges k int_max) k) (the_last n (omega arith))
          (IsIncreasing-set ranges (n - 1) int_max laid.rises (omega arith)
            (omega (arith, laid.sized)));
    first = get_or-set_ne ranges n 0 int_max 0 (omega arith) ∙ e0;
    second = get_or-set_ne ranges n 1 int_max 0 (omega arith) ∙ e1;
    last_bound = get_or-set_ne ranges n (n - 1) int_max 0 (omega arith) ∙ e2;
    top = get_or-set_self ranges n int_max 0 (omega (arith, laid.sized));
  }
    where
      the_last : (n : ℕ) → 1 ≤ n → n - 1 + 1 ≡ n
      the_last n h = omega arith

  start_done :
      (n minimum : ℕ)
      → 1 ≤ minimum
      → minimum < int_max
      → 3 ≤ n
      → set_range (blank n) 1 minimum ≡ done (set (blank n) 1 minimum)
  start_done n minimum h1 h2 h3 =
      set_range_lem (blank n) 1 minimum h1 (omega arith)
        (omega (arith, length-replicate (n + 1) zero))

  top_done :
      (n : ℕ) (ranges : BucketRanges)
      → length ranges ≡ n + 1
      → set_range ranges (bucket_count ranges) int_max ≡ done (set ranges n int_max)
  top_done n ranges sized =
      let e : bucket_count ranges ≡ n = unfold bucket_count in omega (arith, sized) in
      rw e (set_range_lem ranges n int_max (omega arith) (omega arith) (omega arith))

  -- With valid arguments (1 ≤ minimum < maximum < INT_MAX and 3 ≤ bucket_count ≤ maximum -
  -- minimum + 2), and log and exp with which, for positive numbers, a step of the interpolation is at
  -- most half a unit above the linear one and the last gives the maximum, InitializeBucketRanges ends,
  -- fails no CHECK and writes inside the vector; the bounds rise strictly from 0 over the minimum and
  -- the maximum to INT_MAX.
  pub initialize_bucket_ranges-IsLayout :
      IsInterpolating f maximum
      → (n minimum : ℕ) → 1 ≤ minimum
      → minimum < maximum
      → maximum < int_max
      → 3 ≤ n
      → n ≤ maximum - minimum + 2
      → (ranges : BucketRanges) × (initialize_bucket_ranges f minimum maximum (replicate (n + 1) 0)
          ≡ done ranges)
        × IsLayout n minimum maximum ranges
  unfolding initialize_bucket_ranges
  initialize_bucket_ranges-IsLayout p n minimum h1 h2 h3 h4 h5 =
      let start : BucketRanges = set (blank n) 1 minimum in
      finish (
        layout_loop-Laid p h3 (bucket_count (blank n)) n 1 minimum start
          (start-Laid n minimum h1 h4 (omega arith)) (sym (start_one n minimum h4)) (omega arith)
          (omega arith) (unfold bucket_count in omega (arith, length-replicate (n + 1) zero)))
    where
      finish :
          ((ranges' : BucketRanges) × (layout_loop f
                (bucket_count (blank n))
                maximum
                1
                minimum
                (set (blank n) 1 minimum)
              ≡ done ranges')
            × Laid f maximum n (n - 1) ranges'
            × ((i : ℕ) → i ≤ 1 → get_or ranges' i 0 ≡ get_or (set (blank n) 1 minimum) i 0)
            × (1 + 1 < n → get_or ranges' (n - 1) 0 ≡ maximum))
          → (ranges : BucketRanges) × (initialize_bucket_ranges f minimum maximum
                (replicate (n + 1) 0)
              ≡ done ranges)
            × IsLayout n minimum maximum ranges
      finish (ranges', ends, laid, kept, top) = (
        set ranges' n int_max,
        rw (start_done n minimum h1 (omega arith) h4, ends)
            (top_done n ranges' (omega (arith, laid.sized))),
        top-IsLayout n minimum ranges' h4 h3 laid (kept 0 (omega arith) ∙ start_zero n minimum)
            (kept 1 (omega arith) ∙ start_one n minimum h4) (top (omega arith)),
      )
