-- ===== src/Metrics/Histogram/Recording.antt =====
-- Histogram::Add and SampleVector::Accumulate.
use claire_common.Common.{ℕ, ◌+◌, ◌^◌, ◌≤◌, ◌<◌, ◌≡◌, refl, sym, ap, ◌∙◌, true, arith, get_or, ◌↔◌}
use claire_common.Common.Word.{int_max, lt_int, le_int}
use claire_common.Common.Outcome.{done, done-injective}
use mathlib.Core.Path.{subst}
use native.Mathlib.Decide.{dec_lt, ℕ_discrete}
use claire_common.Metrics.Ranges.{BucketRanges, bucket_count}
use claire_common.Metrics.Ranges.Rounds.{IsIncreasing}
use claire_common.Metrics.Samples.{SampleVector, get_bucket_index}
use claire_common.Metrics.Samples.Search.{Holds, get_bucket_index-Holds}
use claire_common.Metrics.Samples.MergeRounds.{IsIncreasing-lt}
use claire_common.Metrics.Histogram.{Histogram, add_value, clamp_sample}
use claire_common.Metrics.Histogram.Construction.{IsWellFormed}
use claire_common.Metrics.Histogram.Accumulation.{
  clamp_sample-lt, IsClamped, clamp_sample-IsClamped, IsRecorded, accumulate-IsRecorded,
}

pub IsIncreasing-le :
    (ranges : BucketRanges) (n a b : ℕ)
    → IsIncreasing ranges n
    → a ≤ b
    → b ≤ n
    → get_or ranges a 0 ≤ get_or ranges b 0
IsIncreasing-le ranges n a b rises h k = elim (ℕ_discrete a b) [
  | yes e ↦ subst (λ m. get_or ranges a 0 ≤ get_or ranges m 0) e (omega arith)
  | no other ↦ omega (arith, IsIncreasing-lt ranges n a b rises (omega arith) k)
]

module _ (ranges : BucketRanges) (value : ℕ) where
  Holds-unique :
      IsIncreasing ranges (bucket_count ranges)
      → get_or ranges (bucket_count ranges) 0 < 2 ^ 31
      → (i j : ℕ) → i < j
      → j < bucket_count ranges
      → Holds ranges value i
      → Holds ranges value j
      → ⊥
  Holds-unique rises small i j h k hi hj = ground (
    arith,
    IsIncreasing-le ranges (bucket_count ranges) (i + 1) j rises (omega arith) (omega arith),
    IsIncreasing-lt ranges (bucket_count ranges) j (bucket_count ranges) rises k (omega arith),
    hi.1,
    hj.0,
  )

  -- Over strictly rising bounds that are no negative ints, GetBucketIndex returns a bucket for a
  -- value between the first and the last bound exactly if that bucket holds the value: it is the
  -- same as looking at all buckets.
  pub get_bucket_index_iff :
      1 ≤ bucket_count ranges
      → IsIncreasing ranges (bucket_count ranges)
      → get_or ranges (bucket_count ranges) 0 < 2 ^ 31
      → le_int (get_or ranges 0 0) value ≡ true
      → lt_int value (get_or ranges (bucket_count ranges) 0) ≡ true
      → (i : ℕ)
      → (get_bucket_index ranges value ≡ done i)
        ↔ ((i < bucket_count ranges) × (Holds ranges value i))
  get_bucket_index_iff h rises small lo hi i =
      let (mid, found, inside, holds) = get_bucket_index-Holds ranges value h lo hi in
      (
        λ e.
            let same : mid ≡ i = done-injective (sym found ∙ e) in
            subst (λ k. (k < bucket_count ranges) × (Holds ranges value k)) same (inside, holds),
        λ (inside', holds'). elim (ℕ_discrete mid i) [
          | yes e ↦ found ∙ ap done e
          | no other ↦ elim (dec_lt mid i) [
            | yes below ↦ absurd (Holds-unique rises small mid i below inside' holds holds')
            | no above ↦ absurd (Holds-unique rises small i mid (omega arith) inside holds' holds)
          ]
        ],
      )

above_zero :
    (ranges : BucketRanges) (v : ℕ)
    → get_or ranges 0 0 ≡ 0
    → v < int_max
    → le_int (get_or ranges 0 0) v ≡ true
above_zero ranges v e h = ground arith

below_top :
    (ranges : BucketRanges) (v n : ℕ)
    → get_or ranges n 0 ≡ int_max
    → v < int_max
    → lt_int v (get_or ranges n 0) ≡ true
below_top ranges v n e h = ground arith

recorded_words :
    (ranges : BucketRanges) (v count : ℕ) (s s' : SampleVector)
    → IsRecorded ranges v count s s'
    → ((i : ℕ) → get_or s.counts i 0 < 2 ^ 32)
    → (i : ℕ) → get_or s'.counts i 0 < 2 ^ 32
recorded_words ranges v count s s' r h i = elim (ℕ_discrete i r.bucket) [
  | yes e ↦ subst (λ k. get_or s'.counts k 0 < 2 ^ 32) (sym e) (omega (arith, r.counted))
  | no other ↦ omega (arith, r.others i other, h i)
]

recorded_sum :
    (ranges : BucketRanges) (v count : ℕ) (s s' : SampleVector)
    → IsRecorded ranges v count s s'
    → s'.sum < 2 ^ 64
recorded_sum ranges v count s s' r = omega (arith, r.summed)

module _ (h : Histogram) (w : IsWellFormed h) where
  -- Add never fails a CHECK on a well-formed histogram, for any int: it takes 0 for a negative value
  -- and INT_MAX - 1 for INT_MAX, and otherwise the value, records it in the one bucket that holds it, adds the clamped value to the sum and
  -- leaves the histogram well formed with the same bounds.
  pub add_value-IsRecorded :
      (value : ℕ)
      → value < 2 ^ 32
      → (v : ℕ) × IsClamped value v
        × (h' : Histogram) × (add_value h value ≡ done h')
        × IsRecorded h.bucket_ranges v 1 h.samples h'.samples
        × IsWellFormed h'
        × (h'.bucket_ranges ≡ h.bucket_ranges)
  unfolding add_value
  add_value-IsRecorded value small =
      let v = clamp_sample value in
      let fits = clamp_sample-lt value small in
      let (s', e, r) =
        accumulate-IsRecorded h.bucket_ranges h.samples v 1 (omega (arith, w.buckets)) w.counted
          (above_zero h.bucket_ranges v w.layout.first fits)
          (below_top h.bucket_ranges v (bucket_count h.bucket_ranges) w.layout.top fits) in
      (
        v,
        clamp_sample-IsClamped value small,
        record h { samples = s' },
        rw e,
        r,
        record {
          buckets = w.buckets;
          layout = w.layout;
          counted = r.sized ∙ w.counted;
          words = recorded_words h.bucket_ranges v 1 h.samples s' r w.words;
          sum_word = recorded_sum h.bucket_ranges v 1 h.samples s' r;
        },
        refl,
      )
