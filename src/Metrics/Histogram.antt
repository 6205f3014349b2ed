-- ===== src/Metrics/Histogram.antt =====
-- claire/common/metrics/Histogram.h and .cc: construction, recording and snapshots.
pub mod Construction
pub mod Accumulation
pub mod Recording
pub mod Snapshot
use claire_common.Common.{
  ℕ, suc, ◌+◌, ◌-◌, ◌%◌, ◌^◌, Bool, true, false, ltb, leb, if◌then◌else◌, replicate,
}
use claire_common.Common.Word.{int_max, add_int, lt_int, le_int}
use claire_common.Common.Outcome.{Outcome, done, check_failed, undefined, out_of_fuel, ◌>>=◌, ◌>>◌}
use claire_common.Metrics.Ranges.{
  BucketRanges, bucket_count, range, Floats, initialize_bucket_ranges,
}
use claire_common.Metrics.Samples.{
  SampleVector, new_samples, accumulate, Operator, add, merge_samples,
}

-- kBucketCountMax
abbrev pub bucket_count_max : ℕ
bucket_count_max = 16384

pub record Histogram : Type 0 where
  pub bucket_ranges : BucketRanges
  pub declared_min : ℕ
  pub declared_max : ℕ
  pub samples : SampleVector

-- The constructor.
unfoldable pub new_histogram : Floats → ℕ → ℕ → ℕ → Outcome Histogram
new_histogram f minimum maximum count = do
  ranges ← initialize_bucket_ranges f minimum maximum (replicate (count + 1) 0)
  samples ← new_samples ranges
  done (record {
    bucket_ranges = ranges;
    declared_min = minimum;
    declared_max = maximum;
    samples = samples;
  })

-- The three arguments as InspectConstructionArguments leaves them.
pub record Arguments : Type 0 where
  pub minimum : ℕ
  pub maximum : ℕ
  pub count : ℕ

unfoldable pub clamp_arguments : Arguments → Arguments
clamp_arguments a = record {
  minimum = if lt_int a.minimum 1 then 1 else a.minimum;
  maximum = if le_int int_max a.maximum then int_max - 1 else a.maximum;
  count = if leb bucket_count_max a.count then bucket_count_max - 1 else a.count;
}

-- `static_cast<size_t>(*maximum - *minimum + 2)`, which is positive where it is reached.
unfoldable pub accept_arguments : Arguments → Bool
accept_arguments a =
    if le_int a.maximum a.minimum
    then false
    else if ltb a.count 3
    then false
    else if ltb (((a.maximum + 2 ^ 32 - a.minimum) % 2 ^ 32 + 2) % 2 ^ 32) a.count
    then false
    else true

unfoldable pub inspect_construction_arguments : Arguments → Arguments × Bool
unfolding clamp_arguments accept_arguments
inspect_construction_arguments a = (clamp_arguments a, accept_arguments (clamp_arguments a))

-- The value that Add hands on.
unfoldable pub clamp_sample : ℕ → ℕ
clamp_sample value =
    let capped = if le_int int_max value then int_max - 1 else value in
    if lt_int capped 0 then 0 else capped

unfoldable pub add_value : Histogram → ℕ → Outcome Histogram
add_value h value = do
  samples ← accumulate h.bucket_ranges h.samples (clamp_sample value) 1
  done (record h { samples = samples })

-- The other samples come with the ranges that they were recorded over.
unfoldable pub add_samples : Histogram → BucketRanges → SampleVector → Outcome Histogram
add_samples h other_ranges other = do
  (samples, success) ← merge_samples add h.bucket_ranges other_ranges h.samples other
  done (record h { samples = samples })

unfoldable pub snapshot_sample_vector : Histogram → Outcome SampleVector
snapshot_sample_vector h = do
  samples ← new_samples h.bucket_ranges
  (merged, success) ← merge_samples add h.bucket_ranges h.bucket_ranges samples h.samples
  done merged
