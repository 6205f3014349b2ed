-- ===== src/Metrics/Samples/Search.antt =====
-- GetBucketIndex: the binary search ends within its fuel, at the bucket of the value.
use claire_common.Common.{
  ℕ, zero, suc, ◌+◌, ◌-◌, ◌/◌, ◌≤◌, ◌<◌, ◌≡◌, ◌∙◌, true, false, arith, if◌then◌else◌, length,
  get_or, Bool-cases, inl, inr, ◌⊎◌, le→leb,
}
use claire_common.Common.Word.{lt_int, le_int}
use claire_common.Common.Outcome.{done, check_failed, at-get_or}
use mathlib.Core.Path.{subst}
use native.Mathlib.Decide.{dec_lt}
use claire_common.Metrics.Ranges.{BucketRanges, bucket_count, range}
use claire_common.Metrics.Samples.{search_loop, get_bucket_index}

pub range-get_or :
    (ranges : BucketRanges) (i : ℕ) → i < length ranges → range ranges i ≡ done (get_or ranges i 0)
unfolding range
range-get_or ranges i h = at-get_or ranges i 0 h

pub inside_count :
    (ranges : BucketRanges) (i : ℕ)
    → 1 ≤ bucket_count ranges
    → i ≤ bucket_count ranges
    → i < length ranges
unfolding bucket_count
inside_count ranges i h k = omega arith

lt_int_of_not_le : (a b : ℕ) → le_int a b ≡ false → lt_int b a ≡ true
lt_int_of_not_le a b h = ground arith

module _ (ranges : BucketRanges) (value : ℕ) where
  -- The bucket `i` holds the value.
  abbrev pub Holds : ℕ → Type 0
  Holds i =
      (le_int (get_or ranges i 0) value ≡ true) × (lt_int value (get_or ranges (i + 1) 0) ≡ true)

  abbrev middle : ℕ → ℕ → ℕ
  middle under over = under + (over - under) / 2

  search_stop :
      (fuel under over : ℕ)
      → under < over
      → ¬ (under + 1 < over)
      → search_loop ranges value (suc fuel) under over ≡ done under
  unfolding search_loop
  search_stop fuel under over h last = ground arith

  search_step :
      (fuel under over : ℕ)
      → under + 1 < over
      → over < length ranges
      → search_loop ranges value (suc fuel) under over ≡ (
          if le_int (get_or ranges (middle under over) 0) value
          then search_loop ranges value fuel (middle under over) over
          else search_loop ranges value fuel under (middle under over))
  unfolding search_loop
  search_step fuel under over h inside =
      ground (arith, range-get_or ranges (middle under over) (omega arith))

  search_loop-Holds :
      (fuel under over : ℕ)
      → under < over
      → over < length ranges
      → over - under ≤ fuel
      → le_int (get_or ranges under 0) value ≡ true
      → lt_int value (get_or ranges over 0) ≡ true
      → (mid : ℕ) × (search_loop ranges value fuel under over ≡ done mid)
        × (under ≤ mid)
        × (mid < over)
        × Holds mid
  search_loop-Holds zero under over h inside hf lo hi = absurd (omega arith)
  search_loop-Holds (suc fuel) under over h inside hf lo hi = elim (dec_lt (under + 1) over) [
    | no last ↦
        let e : over ≡ under + 1 = omega arith in
        (
          under,
          search_stop fuel under over h last,
          omega arith,
          h,
          (lo, subst (λ k. lt_int value (get_or ranges k 0) ≡ true) e hi),
        )
    | yes more ↦ elim (Bool-cases (le_int (get_or ranges (middle under over) 0) value)) [
      | inl up ↦
          let (mid, ends, above, below, holds) =
            search_loop-Holds fuel (middle under over) over (omega arith) inside (omega arith) up
              hi in
          (mid, search_step fuel under over more inside ∙ rw up ends, omega arith, below, holds)
      | inr down ↦
          let (mid, ends, above, below, holds) =
            search_loop-Holds fuel under (middle under over) (omega arith) (omega arith)
              (omega arith) lo (lt_int_of_not_le _ _ down) in
          (mid, search_step fuel under over more inside ∙ rw down ends, above, omega arith, holds)
    ]
  ]

  -- For a value between the first and the last bound GetBucketIndex ends within its fuel, fails no
  -- CHECK, reads inside the vector and returns a bucket that holds the value.
  pub get_bucket_index-Holds :
      1 ≤ bucket_count ranges
      → le_int (get_or ranges 0 0) value ≡ true
      → lt_int value (get_or ranges (bucket_count ranges) 0) ≡ true
      → (mid : ℕ) × (get_bucket_index ranges value ≡ done mid)
        × (mid < bucket_count ranges)
        × Holds mid
  unfolding get_bucket_index
  get_bucket_index-Holds h lo hi =
      let n = bucket_count ranges in
      let (mid, ends, above, below, holds) =
        search_loop-Holds n 0 n h (inside_count ranges n h (omega arith)) (omega arith) lo hi in
      (
        mid,
        rw (
          le→leb 1 n h,
          range-get_or ranges 0 (inside_count ranges 0 h (omega arith)),
          lo,
          range-get_or ranges n (inside_count ranges n h (omega arith)),
          hi,
          ends,
          range-get_or ranges (mid + 1) (inside_count ranges (mid + 1) h (omega arith)),
          holds.1,
        ),
        below,
        holds,
      )

  -- For any other value a CHECK stops it.
  pub get_bucket_index_outside :
      1 ≤ bucket_count ranges
      → (le_int (get_or ranges 0 0) value ≡ false)
        ⊎ (lt_int value (get_or ranges (bucket_count ranges) 0) ≡ false)
      → get_bucket_index ranges value ≡ check_failed
  unfolding get_bucket_index
  get_bucket_index_outside h (inl low) = rw (
    le→leb 1 (bucket_count ranges) h,
    range-get_or ranges 0 (inside_count ranges 0 h (omega arith)),
    low,
  )
  get_bucket_index_outside h (inr high) = elim (Bool-cases (le_int (get_or ranges 0 0) value)) [
    | inr low ↦ rw (
      le→leb 1 (bucket_count ranges) h,
      range-get_or ranges 0 (inside_count ranges 0 h (omega arith)),
      low,
    )
    | inl lo ↦ rw (
      le→leb 1 (bucket_count ranges) h,
      range-get_or ranges 0 (inside_count ranges 0 h (omega arith)),
      lo,
      range-get_or ranges (bucket_count ranges)
          (inside_count ranges (bucket_count ranges) h (omega arith)),
      high,
    )
  ]
