-- ===== src/Tests/Metrics.antt =====
-- claire/common/metrics on a histogram of three buckets, [0, 1), [1, 4) and [4, INT_MAX).
use claire_common.Common.{
  ℕ, zero, suc, ◌^◌, ◌≤◌, ◌<◌, ◌≡◌, ◌↔◌, refl, true, List, [], ◌∷◌, arith, length, get_or,
  replicate,
}
use claire_common.Common.Word.{int_max, add_int}
use claire_common.Common.Outcome.{done}
use claire_common.Metrics.Ranges.{BucketRanges, bucket_count, initialize_bucket_ranges}
use claire_common.Tests.Interpolation.{fixed_point, fixed_point-IsInterpolating}
use claire_common.Metrics.Ranges.Layout.{initialize_bucket_ranges-IsLayout}
use claire_common.Metrics.Ranges.Rounds.{IsIncreasing, IsLayout}
use claire_common.Metrics.Samples.{get_bucket_index, add, subtract, signed_count, add_subtract}
use claire_common.Metrics.Samples.Search.{Holds}
use claire_common.Metrics.Samples.Merge.{add_subtract-merged}
use claire_common.Metrics.Samples.MergeRounds.{IsReady}
use claire_common.Metrics.Histogram.{
  Histogram, Arguments, inspect_construction_arguments, add_value,
}
use claire_common.Metrics.Histogram.Construction.{IsValid, IsWellFormed, inspect_iff_IsValid}
use claire_common.Metrics.Histogram.Recording.{get_bucket_index_iff, add_value-IsRecorded}
use claire_common.Metrics.Histogram.Accumulation.{IsClamped, IsRecorded}
use claire_common.Metrics.Histogram.Snapshot.{subtract-add}

initialize_bucket_ranges-IsLayout_example :
    (ranges : BucketRanges) × (initialize_bucket_ranges fixed_point 1 16 (replicate 9 0)
      ≡ done ranges)
    × IsLayout 8 1 16 ranges
initialize_bucket_ranges-IsLayout_example =
    initialize_bucket_ranges-IsLayout fixed_point 16 fixed_point-IsInterpolating 8 1 (omega arith)
      (omega arith) (omega arith) (omega arith) (omega arith)

abbrev bounds : BucketRanges
bounds = 0 ∷ 1 ∷ 4 ∷ int_max ∷ []

bounds_count : bucket_count bounds ≡ 3
unfolding bucket_count
bounds_count = refl

bounds_rise : IsIncreasing bounds 3
bounds_rise zero h = omega arith
bounds_rise (suc zero) h = omega arith
bounds_rise (suc (suc zero)) h = omega arith
bounds_rise (suc (suc (suc i))) h = absurd (omega arith)

get_bucket_index_iff_example :
    (get_bucket_index bounds 5 ≡ done 2) ↔ ((2 < bucket_count bounds) × (Holds bounds 5 2))
unfolding bucket_count
get_bucket_index_iff_example =
    get_bucket_index_iff bounds 5 (omega arith) bounds_rise (omega arith) refl refl 2

abbrev some_counts : List ℕ
some_counts = 2 ∷ 0 ∷ 5 ∷ []

counts_small : (i : ℕ) → get_or some_counts i 0 < 2 ^ 32
counts_small zero = omega arith
counts_small (suc zero) = omega arith
counts_small (suc (suc zero)) = omega arith
counts_small (suc (suc (suc i))) = omega arith

bounds_small : (i : ℕ) → i ≤ 3 → get_or bounds i 0 < 2 ^ 31
bounds_small zero h = omega arith
bounds_small (suc zero) h = omega arith
bounds_small (suc (suc zero)) h = omega arith
bounds_small (suc (suc (suc zero))) h = omega arith
bounds_small (suc (suc (suc (suc i)))) h = absurd (omega arith)

counts-IsReady : IsReady bounds some_counts (1 ∷ 1 ∷ 0 ∷ [])
unfolding bucket_count
counts-IsReady = record {
  some_bucket = omega arith;
  rises = bounds_rise;
  small = bounds_small;
  words = counts_small;
  same = refl;
  sized = refl;
}

abbrev more_counts : List ℕ
more_counts = 1 ∷ 1 ∷ 0 ∷ []

more_small : (i : ℕ) → get_or more_counts i 0 < 2 ^ 32
more_small zero = omega arith
more_small (suc zero) = omega arith
more_small (suc (suc zero)) = omega arith
more_small (suc (suc (suc i))) = omega arith

add_subtract-merged_example :
    (counts : List ℕ) × (add_subtract subtract bounds bounds some_counts more_counts
      ≡ done (counts, true))
    × (length counts ≡ bucket_count bounds)
    × ((i : ℕ)
        → i < bucket_count bounds
        → get_or counts i 0
          ≡ add_int (get_or some_counts i 0) (signed_count subtract (get_or more_counts i 0)))
add_subtract-merged_example =
    add_subtract-merged subtract bounds some_counts more_counts counts-IsReady

subtract-add_example :
    (counts : List ℕ) × (add_subtract add bounds bounds some_counts more_counts
      ≡ done (counts, true))
    × (add_subtract subtract bounds bounds counts more_counts ≡ done (some_counts, true))
subtract-add_example = subtract-add bounds some_counts more_counts counts-IsReady more_small

abbrev some_histogram : Histogram
some_histogram = record {
  bucket_ranges = bounds;
  declared_min = 1;
  declared_max = 4;
  samples = record { counts = some_counts; sum = 31 };
}

some_histogram-IsWellFormed : IsWellFormed some_histogram
unfolding bucket_count
some_histogram-IsWellFormed = record {
  buckets = omega arith;
  layout = record {
    sized = refl;
    rises = bounds_rise;
    first = refl;
    second = refl;
    last_bound = refl;
    top = refl;
  };
  counted = refl;
  words = counts_small;
  sum_word = omega arith;
}

abbrev some_arguments : Arguments
some_arguments = record { minimum = 0; maximum = int_max; count = 50 }

inspect_iff_IsValid_example :
    ((inspect_construction_arguments some_arguments).1 ≡ true)
    ↔ IsValid (inspect_construction_arguments some_arguments).0
inspect_iff_IsValid_example = inspect_iff_IsValid some_arguments (omega arith) (omega arith)

abbrev eight_buckets : Arguments
eight_buckets = record { minimum = 1; maximum = 64; count = 8 }

add_value-IsRecorded_example :
    (v : ℕ) × IsClamped int_max v
    × (h' : Histogram) × (add_value some_histogram int_max ≡ done h')
    × IsRecorded bounds v 1 some_histogram.samples h'.samples
    × IsWellFormed h'
    × (h'.bucket_ranges ≡ bounds)
add_value-IsRecorded_example =
    add_value-IsRecorded some_histogram some_histogram-IsWellFormed int_max (omega arith)
