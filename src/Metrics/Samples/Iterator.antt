-- ===== src/Metrics/Samples/Iterator.antt =====
-- The SampleVectorIterator visits exactly the buckets that are not empty.
use claire_common.Common.{
  ℕ, zero, suc, ◌+◌, ◌≤◌, ◌<◌, ◌≡◌, ◌≢◌, ap, ◌∙◌, List, arith, ◌==◌, if◌then◌else◌, length, get_or,
  Bool-cases, inl, inr, le→ltb, le→leb, ==_iff,
}
use claire_common.Common.Outcome.{done, at-get_or}
use native.Mathlib.Decide.{dec_lt, ℕ_discrete}
use claire_common.Metrics.Ranges.{BucketRanges, bucket_count}
use claire_common.Metrics.Samples.{skip_empty_buckets, new_iterator, next}

-- `p` is the first bucket from `index` on that is not empty, or the end.
pub record IsNextFull (counts : List ℕ) (index p : ℕ) : Type 0 where
  pub reached : index ≤ p
  pub within : p ≤ length counts
  pub skipped : (i : ℕ) → index ≤ i → i < p → get_or counts i 0 ≡ 0
  pub full : p < length counts → get_or counts p 0 ≢ 0

skip_stop :
    (counts : List ℕ) (fuel index : ℕ)
    → length counts ≤ index
    → skip_empty_buckets counts (suc fuel) index ≡ done index
unfolding skip_empty_buckets
skip_stop counts fuel index h = rw (le→ltb index (length counts) h)

skip_step :
    (counts : List ℕ) (fuel index : ℕ)
    → index < length counts
    → skip_empty_buckets counts (suc fuel) index ≡ (
        if get_or counts index 0 == 0
        then skip_empty_buckets counts fuel (index + 1)
        else done index)
unfolding skip_empty_buckets
skip_step counts fuel index h = ground (arith, at-get_or counts index 0 h)

skip_empty_buckets-IsNextFull :
    (counts : List ℕ) (fuel index : ℕ)
    → index ≤ length counts
    → length counts < index + fuel
    → (p : ℕ) × (skip_empty_buckets counts fuel index ≡ done p) × IsNextFull counts index p
skip_empty_buckets-IsNextFull counts zero index h hf = absurd (omega arith)
skip_empty_buckets-IsNextFull counts (suc fuel) index h hf = elim (dec_lt index (length counts)) [
  | no end ↦ (
    index,
    skip_stop counts fuel index (omega arith),
    record {
      reached = omega arith;
      within = h;
      skipped = λ i a b. absurd (omega arith);
      full = λ b. absurd (end b);
    },
  )
  | yes more ↦ elim (Bool-cases (get_or counts index 0 == 0)) [
    | inl empty ↦
        let (p, ends, v) =
          skip_empty_buckets-IsNextFull counts fuel (index + 1) (omega arith) (omega arith) in
        (
          p,
          skip_step counts fuel index more ∙ rw empty ends,
          record {
            reached = omega (arith, v.reached);
            within = v.within;
            skipped = λ i a b. elim (ℕ_discrete i index) [
              | yes e ↦ ap (λ k. get_or counts k 0) e ∙ (==_iff _ 0).0 empty
              | no other ↦ v.skipped i (omega arith) b
            ];
            full = v.full;
          },
        )
    | inr here ↦ (
      index,
      skip_step counts fuel index more ∙ rw here,
      record {
        reached = omega arith;
        within = h;
        skipped = λ i a b. absurd (omega arith);
        full = λ b e. cc ((==_iff (get_or counts index 0) 0).1 e);
      },
    )
  ]
]

-- A new SampleVectorIterator stands at the first bucket that is not empty, and Next moves it to
-- the first such bucket behind its place: no bucket with samples is passed over.
pub new_iterator-IsNextFull :
    (ranges : BucketRanges) (counts : List ℕ)
    → length counts ≤ bucket_count ranges
    → (p : ℕ) × (new_iterator ranges counts ≡ done p) × IsNextFull counts 0 p
unfolding new_iterator
new_iterator-IsNextFull ranges counts h =
    let (p, ends, v) =
      skip_empty_buckets-IsNextFull counts (suc (length counts)) 0 (omega arith) (omega arith) in
    (p, rw (le→leb (length counts) (bucket_count ranges) h) ends, v)

-- From a place inside the counts, Next moves the iterator to the first bucket behind it whose count
-- is not 0, or to the end if there is none.
pub next-IsNextFull :
    (counts : List ℕ) (it : ℕ)
    → it < length counts
    → (p : ℕ) × (next counts it ≡ done p) × IsNextFull counts (it + 1) p
unfolding next
next-IsNextFull counts it h =
    skip_empty_buckets-IsNextFull counts (suc (length counts)) (it + 1) (omega arith) (omega arith)
