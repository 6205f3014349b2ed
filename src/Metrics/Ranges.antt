-- ===== src/Metrics/Ranges.antt =====
-- claire/common/metrics/BucketRanges.h and .cc, and Histogram::InitializeBucketRanges of
-- claire/common/metrics/Histogram.cc. A BucketRanges is the list of its `ranges_`, each an int.
pub mod Rounds
pub mod Layout
use claire_common.Common.{ℕ, zero, suc, ◌+◌, ◌-◌, List, ltb, if◌then◌else◌, length, set, replicate}
use claire_common.Common.Word.{int_max, add_int, lt_int}
use claire_common.Common.Outcome.{
  Outcome, done, check_failed, undefined, out_of_fuel, ◌>>=◌, ◌>>◌, check, at,
}

abbrev pub BucketRanges : Type 0
BucketRanges = List ℕ

unfoldable pub bucket_count : BucketRanges → ℕ
bucket_count ranges = length ranges - 1

unfoldable pub range : BucketRanges → ℕ → Outcome ℕ
range ranges i = at ranges i

unfoldable pub set_range : BucketRanges → ℕ → ℕ → Outcome BucketRanges
set_range ranges i value = do
  check (lt_int 0 value)
  if ltb i (length ranges) then done (set ranges i value) else undefined

-- The floating-point operations of the platform that the layout calls.
pub record Floats : Type 1 where
  pub Double : Type 0
  pub of_int : ℕ → Double
  pub log : Double → Double
  pub exp : Double → Double
  pub add : Double → Double → Double
  pub sub : Double → Double → Double
  pub div : Double → Double → Double
  pub half : Double
  pub floor : Double → Double
  pub to_int : Double → ℕ

module _ (f : Floats) where
  open f use {of_int, log, exp, add, sub, div, half, floor, to_int}

  -- `next`, from `current` and the `remaining` buckets.
  unfoldable pub next_bound : ℕ → ℕ → ℕ → ℕ
  next_bound maximum current remaining =
      let log_max = log (of_int maximum) in
      let log_current = log (of_int current) in
      let log_ratio = div (sub log_max log_current) (of_int remaining) in
      let log_next = add log_current log_ratio in to_int (floor (add (exp log_next) half))

  -- The while loop from `bucket_index` on, with fuel for its rounds.
  unfoldable pub layout_loop : ℕ → ℕ → ℕ → ℕ → BucketRanges → Outcome BucketRanges
  layout_loop zero maximum bucket_index current ranges = out_of_fuel
  layout_loop (suc fuel) maximum bucket_index current ranges =
      let next = next_bound maximum current (bucket_count ranges - (bucket_index + 1)) in
      let current' = if lt_int current next then next else add_int current 1 in
      let more = (do
        ranges' ← set_range ranges (bucket_index + 1) current'
        layout_loop fuel maximum (bucket_index + 1) current' ranges') in
      if ltb (bucket_index + 1) (bucket_count ranges) then more else done ranges

  unfoldable pub initialize_bucket_ranges : ℕ → ℕ → BucketRanges → Outcome BucketRanges
  initialize_bucket_ranges minimum maximum ranges = do
    ranges1 ← set_range ranges 1 minimum
    ranges2 ← layout_loop (bucket_count ranges) maximum 1 minimum ranges1
    set_range ranges2 (bucket_count ranges2) int_max
