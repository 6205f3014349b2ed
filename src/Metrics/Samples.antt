-- ===== src/Metrics/Samples.antt =====
-- claire/common/metrics/SampleVector.h and .cc with its base class in HistogramSamples.h and .cc.
-- The counts are ints and the sum is an int64_t, all of which wrap.
pub mod Iterator
pub mod Search
pub mod MergeRounds
pub mod Merge
use claire_common.Common.{
  ℕ, zero, suc, ◌+◌, ◌-◌, ◌/◌, Bool, true, false, not, ◌&&◌, List, [], ◌∷◌, ltb, leb, ◌==◌,
  if◌then◌else◌, length, set, replicate,
}
use claire_common.Common.Word.{
  add_int, neg_int, mul_int, lt_int, le_int, extend_int, add_int64, sub_int64,
}
use claire_common.Common.Outcome.{
  Outcome, done, check_failed, undefined, out_of_fuel, ◌>>=◌, ◌>>◌, check, at,
}
use claire_common.Metrics.Ranges.{BucketRanges, bucket_count, range}

pub record SampleVector : Type 0 where
  pub counts : List ℕ
  pub sum : ℕ

-- The constructor.
unfoldable pub new_samples : BucketRanges → Outcome SampleVector
new_samples ranges = do
  check (leb 1 (bucket_count ranges))
  done (record { counts = replicate (bucket_count ranges) 0; sum = 0 })

-- The do-while loop of GetBucketIndex between `under` and `over`, with fuel for its rounds.
unfoldable pub search_loop : BucketRanges → ℕ → ℕ → ℕ → ℕ → Outcome ℕ
search_loop ranges value zero under over = out_of_fuel
search_loop ranges value (suc fuel) under over =
    let mid = under + (over - under) / 2 in
    let more = (do
      bound ← range ranges mid
      elim (le_int bound value) [
        | true ↦ search_loop ranges value fuel mid over
        | false ↦ search_loop ranges value fuel under mid
      ]) in
    if mid == under then done mid else more

unfoldable pub get_bucket_index : BucketRanges → ℕ → Outcome ℕ
get_bucket_index ranges value = do
  let count = bucket_count ranges
  check (leb 1 count)
  lowest ← range ranges 0
  check (le_int lowest value)
  highest ← range ranges count
  check (lt_int value highest)
  mid ← search_loop ranges value count 0 count
  above ← range ranges (mid + 1)
  check (lt_int value above)
  done mid

unfoldable pub accumulate : BucketRanges → SampleVector → ℕ → ℕ → Outcome SampleVector
accumulate ranges s value count = do
  bucket_index ← get_bucket_index ranges value
  current ← at s.counts bucket_index
  done (record {
    counts = set s.counts bucket_index (add_int current 1);
    sum = add_int64 s.sum (extend_int (mul_int count value));
  })

unfoldable pub get_count : BucketRanges → SampleVector → ℕ → Outcome ℕ
get_count ranges s value = do bucket_index ← get_bucket_index ranges value; at s.counts bucket_index

unfoldable pub total : ℕ → List ℕ → ℕ
total count [] = count
total count (c ∷ cs) = total (add_int count c) cs

unfoldable pub total_count : SampleVector → ℕ
unfolding total
total_count s = total 0 s.counts

unfoldable pub get_count_at_index : SampleVector → ℕ → Outcome ℕ
get_count_at_index s index = at s.counts index

-- A SampleVectorIterator is its `index_`. `fuel` bounds the buckets that are skipped.
unfoldable pub skip_empty_buckets : List ℕ → ℕ → ℕ → Outcome ℕ
skip_empty_buckets counts zero index = out_of_fuel
skip_empty_buckets counts (suc fuel) index =
    let more = (do
      count ← at counts index
      elim (count == 0) [
        | true ↦ skip_empty_buckets counts fuel (index + 1)
        | false ↦ done index
      ]) in
    if ltb index (length counts) then more else done index

unfoldable pub new_iterator : BucketRanges → List ℕ → Outcome ℕ
new_iterator ranges counts = do
  check (leb (length counts) (bucket_count ranges))
  skip_empty_buckets counts (suc (length counts)) 0

unfoldable pub is_done : List ℕ → ℕ → Bool
is_done counts index = index == length counts

unfoldable pub next : List ℕ → ℕ → Outcome ℕ
next counts index = skip_empty_buckets counts (suc (length counts)) (index + 1)

pub data Operator : Type 0 where
  add subtract : Operator

-- `(op == ADD) ? count : -count`
abbrev pub signed_count : Operator → ℕ → ℕ
signed_count add count = count
signed_count subtract count = neg_int count

-- One pass of the loop of AddSubtractImpl: the counts after it, with the new `index` and iterator,
-- or the loop's result `false`.
pub data Round : Type 0 where
  continue : List ℕ → ℕ → ℕ → Round
  invalid : List ℕ → Round

-- The iterator stands at `it` in another SampleVector, with ranges and counts of its own.
unfoldable pub merge_round :
    Operator → BucketRanges → BucketRanges → List ℕ → List ℕ → ℕ → ℕ → Outcome Round
merge_round op ranges other_ranges other counts index it = do
  min ← range other_ranges it
  max ← range other_ranges (it + 1)
  count ← at other it
  low ← range ranges index
  matches ← elim (min == low) [
    | true ↦ do high ← range ranges (index + 1); done (max == high)
    | false ↦ done false
  ]
  elim matches [
    | true ↦ do
      current ← at counts index
      it' ← next other it
      done (continue (set counts index (add_int current (signed_count op count))) index it')
    | false ↦ elim (lt_int low min) [
      | true ↦ done (continue counts (index + 1) it)
      | false ↦ done (invalid counts)
    ]
  ]

unfoldable pub merge_loop :
    Operator → BucketRanges → BucketRanges → List ℕ → ℕ → List ℕ → ℕ → ℕ → Outcome (List ℕ × Bool)
merge_loop op ranges other_ranges other zero counts index it = out_of_fuel
merge_loop op ranges other_ranges other (suc fuel) counts index it =
    let more = (do
      round ← merge_round op ranges other_ranges other counts index it
      elim round [
        | continue counts' index' it' ↦
            merge_loop op ranges other_ranges other fuel counts' index' it'
        | invalid counts' ↦ done (counts', false)
      ]) in
    if ltb index (length counts) && not (is_done other it)
    then more
    else done (counts, is_done other it)

-- A round moves `index` or the iterator on.
unfoldable pub add_subtract :
    Operator → BucketRanges → BucketRanges → List ℕ → List ℕ → Outcome (List ℕ × Bool)
add_subtract op ranges other_ranges counts other = do
  it ← new_iterator other_ranges other
  merge_loop op ranges other_ranges other (suc (length counts + length other)) counts 0 it

abbrev signed_sum : Operator → ℕ → ℕ → ℕ
signed_sum add a b = add_int64 a b
signed_sum subtract a b = sub_int64 a b

-- HistogramSamples::Add and Subtract; the flag is checked by a DCHECK only.
unfoldable pub merge_samples :
    Operator
    → BucketRanges
    → BucketRanges
    → SampleVector
    → SampleVector
    → Outcome (SampleVector × Bool)
merge_samples op ranges other_ranges s other = do
  (counts, success) ← add_subtract op ranges other_ranges s.counts other.counts
  done (record { counts = counts; sum = signed_sum op s.sum other.sum }, success)
