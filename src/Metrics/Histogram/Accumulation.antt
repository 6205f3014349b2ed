-- ===== src/Metrics/Histogram/Accumulation.antt =====
-- SampleVector::Accumulate over the ranges of a histogram.
use claire_common.Common.{
  ◌⊎◌, ◌-◌, ℕ, zero, suc, ◌+◌, ◌%◌, ◌^◌, ◌≤◌, ◌<◌, ◌≡◌, ◌≢◌, refl, sym, ◌∙◌, true, List, [], ◌∷◌,
  arith, length, get_or, get_or-set_self, get_or-set_ne, length-set, set,
}
use claire_common.Common.Word.{int_max, add_int, mul_int, add_int64, extend_int, lt_int, le_int}
use claire_common.Common.Outcome.{done, at-get_or}
use claire_common.Metrics.Ranges.{BucketRanges, bucket_count}
use claire_common.Metrics.Samples.{SampleVector, accumulate, total, total_count}
use claire_common.Metrics.Samples.Search.{Holds, get_bucket_index-Holds}
use claire_common.Metrics.Histogram.{clamp_sample}

pub list_sum : List ℕ → ℕ
list_sum [] = 0
list_sum (c ∷ cs) = c + list_sum cs

pub total-list_sum :
    (acc : ℕ) (cs : List ℕ) → acc < 2 ^ 32 → total acc cs ≡ (acc + list_sum cs) % 2 ^ 32
unfolding total list_sum
total-list_sum acc [] h = omega arith
total-list_sum acc (c ∷ cs) h = total-list_sum (add_int acc c) cs (omega arith) ∙ omega arith

pub list_sum-set :
    (cs : List ℕ) (i v : ℕ)
    → i < length cs
    → list_sum (set cs i v) + get_or cs i 0 ≡ list_sum cs + v
unfolding list_sum
list_sum-set [] i v h = elim h [ ]
list_sum-set (c ∷ cs) zero v h = omega arith
list_sum-set (c ∷ cs) (suc i) v h = omega (arith, list_sum-set cs i v (omega arith))

-- One more sample in one bucket is one more in the total.
pub total-set :
    (cs : List ℕ) (i : ℕ)
    → i < length cs
    → total 0 (set cs i (add_int (get_or cs i 0) 1)) ≡ add_int (total 0 cs) 1
total-set cs i h = omega (
  arith,
  total-list_sum 0 cs (omega arith),
  total-list_sum 0 (set cs i (add_int (get_or cs i 0) 1)) (omega arith),
  list_sum-set cs i (add_int (get_or cs i 0) 1) h,
)

pub clamp_sample-lt : (value : ℕ) → value < 2 ^ 32 → clamp_sample value < int_max
unfolding clamp_sample
clamp_sample-lt value h = ground arith

-- A word as an int, clamped to 0 .. INT_MAX - 1.
abbrev pub IsClamped : ℕ → ℕ → Type 0
IsClamped value v =
    ((2 ^ 31 ≤ value) × (v ≡ 0))
    ⊎ ((value ≡ int_max) × (v ≡ int_max - 1))
    ⊎ ((value < int_max) × (v ≡ value))

pub clamp_sample-IsClamped : (value : ℕ) → value < 2 ^ 32 → IsClamped value (clamp_sample value)
unfolding clamp_sample
clamp_sample-IsClamped value h = ground arith

-- What a recorded sample does to the samples: the bucket that holds it has one more count, the
-- other buckets keep theirs, the total is one more and the sum grows by the product of the value
-- and the count that was passed.
pub record IsRecorded (ranges : BucketRanges) (value count : ℕ) (s s' : SampleVector) : Type 0 where
  pub bucket : ℕ
  pub inside : bucket < bucket_count ranges
  pub holds : Holds ranges value bucket
  pub counted : get_or s'.counts bucket 0 ≡ add_int (get_or s.counts bucket 0) 1
  pub others : (i : ℕ) → i ≢ bucket → get_or s'.counts i 0 ≡ get_or s.counts i 0
  pub sized : length s'.counts ≡ length s.counts
  pub one_more : total_count s' ≡ add_int (total_count s) 1
  pub summed : s'.sum ≡ add_int64 s.sum (extend_int (mul_int count value))

pub accumulate-IsRecorded :
    (ranges : BucketRanges) (s : SampleVector) (value count : ℕ)
    → 1 ≤ bucket_count ranges
    → length s.counts ≡ bucket_count ranges
    → le_int (get_or ranges 0 0) value ≡ true
    → lt_int value (get_or ranges (bucket_count ranges) 0) ≡ true
    → (s' : SampleVector) × (accumulate ranges s value count ≡ done s')
      × IsRecorded ranges value count s s'
unfolding accumulate total_count
accumulate-IsRecorded ranges s value count h sized lo hi =
    let (mid, found, inside, holds) = get_bucket_index-Holds ranges value h lo hi in
    let room : mid < length s.counts = omega arith in
    let up = add_int (get_or s.counts mid 0) 1 in
    (
      record {
        counts = set s.counts mid up;
        sum = add_int64 s.sum (extend_int (mul_int count value));
      },
      rw (found, at-get_or s.counts mid 0 room),
      record {
        bucket = mid;
        inside = inside;
        holds = holds;
        counted = get_or-set_self s.counts mid up 0 room;
        others = λ i other. get_or-set_ne s.counts mid i up 0 (λ e. other (sym e));
        sized = length-set s.counts mid up;
        one_more = total-set s.counts mid room;
        summed = refl;
      },
    )

-- Accumulate does not use its count for the bucket: whatever count is passed, the bucket of the
-- value and the total go up by 1, while the sum goes up by the count times the value.
pub accumulate_one :
    (ranges : BucketRanges) (s : SampleVector) (value count : ℕ)
    → 1 ≤ bucket_count ranges
    → length s.counts ≡ bucket_count ranges
    → le_int (get_or ranges 0 0) value ≡ true
    → lt_int value (get_or ranges (bucket_count ranges) 0) ≡ true
    → (s' : SampleVector) × (accumulate ranges s value count ≡ done s')
      × (total_count s' ≡ add_int (total_count s) 1)
      × (s'.sum ≡ add_int64 s.sum (extend_int (mul_int count value)))
accumulate_one ranges s value count h sized lo hi =
    let (s', e, r) = accumulate-IsRecorded ranges s value count h sized lo hi in
    (s', e, r.one_more, r.summed)
