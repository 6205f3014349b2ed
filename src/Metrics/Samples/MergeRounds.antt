-- ===== src/Metrics/Samples/MergeRounds.antt =====
-- The rounds of the merge of two sample vectors.
use claire_common.Common.{
  ℕ, zero, suc, ◌+◌, ◌^◌, ◌≤◌, ◌<◌, ◌≡◌, ◌≢◌, refl, sym, true, false, List, arith, ◌==◌, length,
  set, get_or, lt→ltb, ==_ne,
}
use claire_common.Common.Word.{lt_int, add_int}
use claire_common.Common.Outcome.{done, at-get_or}
use mathlib.Core.Path.{subst}
use native.Mathlib.Decide.{ℕ_discrete}
use claire_common.Metrics.Ranges.{BucketRanges, bucket_count}
use claire_common.Metrics.Ranges.Rounds.{IsIncreasing}
use claire_common.Metrics.Samples.{
  is_done, next, Operator, add, subtract, signed_count, continue, merge_round, merge_loop,
}
use claire_common.Metrics.Samples.Search.{range-get_or, inside_count}

pub IsIncreasing-lt :
    (ranges : BucketRanges) (n i j : ℕ)
    → IsIncreasing ranges n
    → i < j
    → j ≤ n
    → get_or ranges i 0 < get_or ranges j 0
IsIncreasing-lt ranges n i zero rises h k = absurd (omega arith)
IsIncreasing-lt ranges n i (suc j) rises h k =
    let next : get_or ranges j 0 < get_or ranges (suc j) 0 =
      subst (λ m. get_or ranges j 0 < get_or ranges m 0) (omega arith) (rises j (omega arith)) in
    elim (ℕ_discrete i j) [
      | yes e ↦ subst (λ m. get_or ranges m 0 < get_or ranges (suc j) 0) (sym e) next
      | no other ↦ omega (arith, IsIncreasing-lt ranges n i j rises (omega arith) (omega arith))
    ]

pub ne_of_lt : (a b : ℕ) → a < b → (b == a) ≡ false
ne_of_lt a b h = ground arith

pub lt_int_of_lt : (a b : ℕ) → a < b → b < 2 ^ 31 → lt_int a b ≡ true
lt_int_of_lt a b h k = ground arith

pub signed_count-zero : (op : Operator) → signed_count op 0 ≡ 0
signed_count-zero add = refl
signed_count-zero subtract = refl

-- Two vectors over the same ranges, which rise strictly; their counts are ints.
pub record IsReady (ranges : BucketRanges) (self other : List ℕ) : Type 0 where
  pub some_bucket : 1 ≤ bucket_count ranges
  pub rises : IsIncreasing ranges (bucket_count ranges)
  pub small : (i : ℕ) → i ≤ bucket_count ranges → get_or ranges i 0 < 2 ^ 31
  pub words : (i : ℕ) → get_or self i 0 < 2 ^ 32
  pub same : length other ≡ bucket_count ranges
  pub sized : length self ≡ bucket_count ranges

module _ (op : Operator) (ranges : BucketRanges) (self other : List ℕ) where
  abbrev n : ℕ
  n = bucket_count ranges

  abbrev pub merged : ℕ → ℕ
  merged i = add_int (get_or self i 0) (signed_count op (get_or other i 0))

  -- The buckets before the iterator are merged, those from it on are as they were.
  pub record IsMerging (counts : List ℕ) (index it : ℕ) : Type 0 where
    pub sized : length counts ≡ n
    pub behind : index ≤ it
    pub within : it ≤ n
    pub below : (i : ℕ) → i < it → get_or counts i 0 ≡ merged i
    pub above : (i : ℕ) → it ≤ i → get_or counts i 0 ≡ get_or self i 0

  pub round_match :
      IsReady ranges self other
      → (counts : List ℕ) (it p : ℕ) → length counts ≡ n
      → it < n
      → next other it ≡ done p
      → merge_round op ranges ranges other counts it it
        ≡ done (
            continue
              (set counts it (add_int (get_or counts it 0) (signed_count op (get_or other it 0))))
              it
              p)
  unfolding merge_round
  round_match r counts it p sized h e = ground (
    arith,
    range-get_or ranges it (inside_count ranges it r.some_bucket (omega arith)),
    range-get_or ranges (it + 1) (inside_count ranges (it + 1) r.some_bucket (omega arith)),
    at-get_or other it 0 (omega (arith, r.same)),
    at-get_or counts it 0 (omega arith),
  )

  pub round_advance :
      IsReady ranges self other
      → (counts : List ℕ) (index it : ℕ) → length counts ≡ n
      → index < it
      → it < n
      → merge_round op ranges ranges other counts index it ≡ done (continue counts (index + 1) it)
  unfolding merge_round
  round_advance r counts index it sized h h' = ground (
    arith,
    range-get_or ranges it (inside_count ranges it r.some_bucket (omega arith)),
    range-get_or ranges (it + 1) (inside_count ranges (it + 1) r.some_bucket (omega arith)),
    at-get_or other it 0 (omega (arith, r.same)),
    range-get_or ranges index (inside_count ranges index r.some_bucket (omega arith)),
    IsIncreasing-lt ranges n index it r.rises h (omega arith),
    r.small it (omega arith),
  )

  pub loop_step :
      (fuel index it index' it' : ℕ) (counts counts' : List ℕ)
      → index < length counts
      → it ≢ length other
      → merge_round op ranges ranges other counts index it ≡ done (continue counts' index' it')
      → merge_loop op ranges ranges other (suc fuel) counts index it
        ≡ merge_loop op ranges ranges other fuel counts' index' it'
  unfolding merge_loop is_done
  loop_step fuel index it index' it' counts counts' h k e =
      rw (lt→ltb index (length counts) h, ==_ne it (length other) k, e)

  pub loop_end :
      (fuel index it : ℕ) (counts : List ℕ)
      → it ≡ length other
      → merge_loop op ranges ranges other (suc fuel) counts index it ≡ done (counts, true)
  unfolding merge_loop is_done
  loop_end fuel index it counts e = ground arith
