-- ===== src/Metrics/Histogram/Construction.antt =====
-- InspectConstructionArguments, and what the constructor makes of its arguments.
use claire_common.Common.{
  ℕ, ◌+◌, ◌-◌, ◌^◌, ◌≤◌, ◌<◌, ◌≡◌, refl, sym, true, arith, ◌↔◌, if◌then◌else◌, replicate, length,
  get_or, length-replicate, get_or-replicate, le→leb, Bool-cases, inl, inr, ◌⊎◌,
}
use claire_common.Common.Word.{int_max, lt_int}
use claire_common.Common.Outcome.{done, check_failed}
use mathlib.Core.Path.{subst}
use claire_common.Metrics.Ranges.{
  BucketRanges, bucket_count, Floats, initialize_bucket_ranges, set_range,
}
use claire_common.Metrics.Ranges.Layout.{initialize_bucket_ranges-IsLayout}
use claire_common.Metrics.Ranges.Rounds.{IsLayout, IsInterpolating}
use claire_common.Metrics.Samples.{new_samples}
use claire_common.Metrics.Histogram.{
  Histogram, new_histogram, Arguments, clamp_arguments, accept_arguments,
  inspect_construction_arguments, bucket_count_max,
}

-- The restrictions that the header states.
pub record IsValid (a : Arguments) : Type 0 where
  pub positive : 1 ≤ a.minimum
  pub ordered : a.minimum < a.maximum
  pub bounded : a.maximum < int_max
  pub enough : 3 ≤ a.count
  pub few : a.count < bucket_count_max
  pub fits : a.count ≤ a.maximum - a.minimum + 2

clamp_minimum : (m : ℕ) → m < 2 ^ 32 → let c = if lt_int m 1 then 1 else m in (1 ≤ c) × (c < 2 ^ 31)
clamp_minimum m h = ground arith

accept-IsValid :
    (a : Arguments)
    → 1 ≤ a.minimum
    → a.minimum < 2 ^ 31
    → a.maximum < 2 ^ 32
    → (a.maximum < int_max) ⊎ (2 ^ 31 ≤ a.maximum)
    → a.count < bucket_count_max
    → (accept_arguments a ≡ true) ↔ IsValid a
unfolding accept_arguments
accept-IsValid a h1 h2 h3 h4 h5 = (
  λ e. record {
    positive = h1;
    ordered = ground arith;
    bounded = ground arith;
    enough = ground arith;
    few = h5;
    fits = ground arith;
  },
  λ v. ground (arith, v.ordered, v.bounded, v.enough, v.fits),
)

-- For every three arguments InspectConstructionArguments answers true exactly if the arguments as
-- it leaves them are valid.
pub inspect_iff_IsValid :
    (a : Arguments)
    → a.minimum < 2 ^ 32
    → a.maximum < 2 ^ 32
    → ((inspect_construction_arguments a).1 ≡ true) ↔ IsValid (inspect_construction_arguments a).0
unfolding inspect_construction_arguments
inspect_iff_IsValid a h k =
    accept-IsValid (clamp_arguments a) (unfold clamp_arguments in ground arith)
      (unfold clamp_arguments in ground arith) (unfold clamp_arguments in ground arith)
      (unfold clamp_arguments in ground arith) (unfold clamp_arguments in ground arith)

-- A histogram as its operations keep it.
pub record IsWellFormed (h : Histogram) : Type 0 where
  pub buckets : 3 ≤ bucket_count h.bucket_ranges
  pub layout : IsLayout (bucket_count h.bucket_ranges) h.declared_min h.declared_max h.bucket_ranges
  pub counted : length h.samples.counts ≡ bucket_count h.bucket_ranges
  pub words : (i : ℕ) → get_or h.samples.counts i 0 < 2 ^ 32
  pub sum_word : h.samples.sum < 2 ^ 64

module _ (f : Floats) (a : Arguments) where
  layout_count :
      (ranges : BucketRanges)
      → IsLayout a.count a.minimum a.maximum ranges
      → bucket_count ranges ≡ a.count
  unfolding bucket_count
  layout_count ranges l = omega (arith, l.sized)

  -- Valid arguments make a well-formed histogram with no samples, if the interpolation leaves room.
  pub new_histogram-IsWellFormed :
      IsInterpolating f a.maximum
      → IsValid a
      → (h : Histogram) × (new_histogram f a.minimum a.maximum a.count ≡ done h)
        × IsWellFormed h
        × (h.declared_min ≡ a.minimum)
        × (h.declared_max ≡ a.maximum)
        × (bucket_count h.bucket_ranges ≡ a.count)
  unfolding new_histogram new_samples
  new_histogram-IsWellFormed p v =
      let (ranges, made, l) =
        initialize_bucket_ranges-IsLayout f a.maximum p a.count a.minimum v.positive v.ordered
          v.bounded v.enough v.fits in
      let count = layout_count ranges l in
      (
        record {
          bucket_ranges = ranges;
          declared_min = a.minimum;
          declared_max = a.maximum;
          samples = record { counts = replicate (bucket_count ranges) 0; sum = 0 };
        },
        rw (made, le→leb 1 (bucket_count ranges) (omega (arith, v.enough))),
        record {
          buckets = omega (arith, v.enough);
          layout = subst (λ k. IsLayout k a.minimum a.maximum ranges) (sym count) l;
          counted = length-replicate (bucket_count ranges) 0;
          words = λ i. rw get_or-replicate (omega arith);
          sum_word = omega arith;
        },
        refl,
        refl,
        count,
      )

-- The constructor does not correct its arguments: a minimum below 1 is not raised to 1, a CHECK
-- ends the process, whatever the other arguments are.
pub new_histogram_below_one :
    (f : Floats) (minimum maximum count : ℕ)
    → lt_int minimum 1 ≡ true
    → new_histogram f minimum maximum count ≡ check_failed
unfolding new_histogram initialize_bucket_ranges set_range
new_histogram_below_one f minimum maximum count h = elim (Bool-cases (lt_int 0 minimum)) [
  | inl positive ↦ ground arith
  | inr below ↦ rw below
]
