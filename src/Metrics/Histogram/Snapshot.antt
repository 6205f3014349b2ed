-- ===== src/Metrics/Histogram/Snapshot.antt =====
-- SnapshotSampleVector, and a merge undone.
use claire_common.Common.{
  ℕ, ◌^◌, ◌<◌, ◌≡◌, sym, ap, ◌∙◌, true, List, arith, length, get_or, get_or_ext, get_or_past,
  length-replicate, get_or-replicate, replicate, le→leb,
}
use claire_common.Common.Word.{add_int, neg_int, add_int64}
use claire_common.Common.Outcome.{done}
use native.Mathlib.Decide.{dec_lt}
use claire_common.Metrics.Ranges.{BucketRanges, bucket_count}
use claire_common.Metrics.Samples.{new_samples, add, subtract, add_subtract, merge_samples}
use claire_common.Metrics.Samples.Merge.{add_subtract-merged}
use claire_common.Metrics.Samples.MergeRounds.{IsReady}
use claire_common.Metrics.Histogram.{Histogram, snapshot_sample_vector}
use claire_common.Metrics.Histogram.Construction.{IsWellFormed}
use claire_common.Metrics.Histogram.Recording.{IsIncreasing-le}

module _ (h : Histogram) (w : IsWellFormed h) where
  abbrev empty_counts : List ℕ
  empty_counts = replicate (bucket_count h.bucket_ranges) 0

  snapshot-IsReady : IsReady h.bucket_ranges empty_counts h.samples.counts
  snapshot-IsReady = record {
    some_bucket = omega (arith, w.buckets);
    rises = w.layout.rises;
    small = λ i hi. omega (
      arith,
      IsIncreasing-le h.bucket_ranges (bucket_count h.bucket_ranges) i
          (bucket_count h.bucket_ranges) w.layout.rises hi (omega arith),
      w.layout.top,
    );
    words = λ i. rw get_or-replicate (omega arith);
    same = w.counted;
    sized = length-replicate (bucket_count h.bucket_ranges) 0;
  }

  -- A snapshot of a well-formed histogram is an equal copy of its samples: every count and the sum.
  pub snapshot_sample_vector_lem : snapshot_sample_vector h ≡ done h.samples
  unfolding snapshot_sample_vector new_samples merge_samples
  snapshot_sample_vector_lem =
      let (counts, merges, sized, each) =
        add_subtract-merged add h.bucket_ranges empty_counts h.samples.counts snapshot-IsReady in
      let same : counts ≡ h.samples.counts =
        get_or_ext counts h.samples.counts 0 (sized ∙ sym w.counted)
          (λ i hi. each i (omega arith) ∙ copied i) in
      rw
        (le→leb 1 (bucket_count h.bucket_ranges) (omega (arith, w.buckets)), merges, same, zero_sum)
    where
      copied :
          (i : ℕ)
          → add_int (get_or empty_counts i 0) (get_or h.samples.counts i 0)
            ≡ get_or h.samples.counts i 0
      copied i =
          omega (arith, get_or-replicate {A = ℕ} (bucket_count h.bucket_ranges) 0 i, w.words i)

      zero_sum : add_int64 0 h.samples.sum ≡ h.samples.sum
      zero_sum = omega (arith, w.sum_word)

module _ (ranges : BucketRanges) (self other : List ℕ) (r : IsReady ranges self other) where
  -- Subtracting what was just added gives back the counts, also where the additions wrapped.
  pub subtract-add :
      ((i : ℕ) → get_or other i 0 < 2 ^ 32)
      → (counts : List ℕ) × (add_subtract add ranges ranges self other ≡ done (counts, true))
        × (add_subtract subtract ranges ranges counts other ≡ done (self, true))
  subtract-add words =
      let (counts, adds, sized, each) = add_subtract-merged add ranges self other r in
      let ready : IsReady ranges counts other = record {
        some_bucket = r.some_bucket;
        rises = r.rises;
        small = r.small;
        words = λ i. merged_word counts i sized (λ hi. each i hi);
        same = r.same;
        sized = sized;
      } in
      let (counts', subtracts, sized', each') =
        add_subtract-merged subtract ranges counts other ready in
      let same : counts' ≡ self = get_or_ext counts' self 0 (sized' ∙ sym r.sized) (λ i hi.
        restored _ _ _ _ (each i (omega arith)) (each' i (omega arith)) (r.words i) (words i)) in
      (counts, adds, subtracts ∙ ap (λ c. done (c, true)) same)
    where
      merged_word :
          (counts : List ℕ) (i : ℕ)
          → length counts ≡ bucket_count ranges
          → (i < bucket_count ranges
              → get_or counts i 0 ≡ add_int (get_or self i 0) (get_or other i 0))
          → get_or counts i 0 < 2 ^ 32
      merged_word counts i sized each = elim (dec_lt i (bucket_count ranges)) [
        | yes inside ↦ omega (arith, each inside)
        | no past ↦ omega (arith, get_or_past counts i 0 (omega arith))
      ]

      restored :
          (a b c d : ℕ)
          → c ≡ add_int a b
          → d ≡ add_int c (neg_int b)
          → a < 2 ^ 32
          → b < 2 ^ 32
          → d ≡ a
      restored a b c d h k p q = omega arith
