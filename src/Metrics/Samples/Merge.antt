-- ===== src/Metrics/Samples/Merge.antt =====
-- A merge between equal ranges adds or subtracts bucket by bucket.
use claire_common.Common.{
  ℕ, zero, suc, ◌+◌, ◌-◌, ◌<◌, ◌≡◌, refl, sym, ap, ◌∙◌, true, List, arith, length, length-set, set,
  get_or, get_or-set_self, get_or-set_ne,
}
use claire_common.Common.Word.{add_int}
use claire_common.Common.Outcome.{done}
use mathlib.Core.Path.{subst}
use native.Mathlib.Decide.{dec_lt, ℕ_discrete}
use claire_common.Metrics.Ranges.{BucketRanges, bucket_count}
use claire_common.Metrics.Samples.{Operator, signed_count, merge_loop, add_subtract}
use claire_common.Metrics.Samples.Iterator.{IsNextFull, next-IsNextFull, new_iterator-IsNextFull}
use claire_common.Metrics.Samples.MergeRounds.{
  signed_count-zero, IsReady, merged, IsMerging, round_match, round_advance, loop_step, loop_end,
}

module _ (op : Operator) (ranges : BucketRanges) (self other : List ℕ) where
  IsMerging-advance :
      (counts : List ℕ) (index it : ℕ)
      → index < it
      → IsMerging op ranges self other counts index it
      → IsMerging op ranges self other counts (index + 1) it
  IsMerging-advance counts index it h m = record {
    sized = m.sized;
    behind = omega arith;
    within = m.within;
    below = m.below;
    above = m.above;
  }

  IsMerging-end :
      (counts : List ℕ) (index it : ℕ)
      → it ≡ (bucket_count ranges)
      → IsMerging op ranges self other counts index it
      → IsMerging op ranges self other counts (bucket_count ranges) (bucket_count ranges)
  IsMerging-end counts index it e m = record {
    sized = m.sized;
    behind = omega arith;
    within = omega arith;
    below = λ i h. m.below i (omega arith);
    above = λ i h. m.above i (omega arith);
  }

  merged_empty :
      IsReady ranges self other
      → (i : ℕ) → get_or other i 0 ≡ 0
      → merged op ranges self other i ≡ get_or self i 0
  merged_empty r i e =
      ap (λ c. add_int (get_or self i 0) (signed_count op c)) e
      ∙ ap (λ c. add_int (get_or self i 0) c) (signed_count-zero op)
      ∙ omega (arith, r.words i)

  IsMerging-match :
      IsReady ranges self other
      → (counts : List ℕ) (it p : ℕ) → it < (bucket_count ranges)
      → IsMerging op ranges self other counts it it
      → IsNextFull other (it + 1) p
      → IsMerging op ranges self other
          (set counts it (add_int (get_or counts it 0) (signed_count op (get_or other it 0))))
          it
          p
  IsMerging-match r counts it p h m v =
      let value = add_int (get_or counts it 0) (signed_count op (get_or other it 0)) in
      record {
        sized = length-set counts it value ∙ m.sized;
        behind = omega (arith, v.reached);
        within = omega (arith, v.within, r.same);
        below = λ i hi. elim (ℕ_discrete i it) [
          | yes e ↦
              subst (λ k. get_or (set counts it value) k 0 ≡ merged op ranges self other k) (sym e)
                (get_or-set_self counts it value 0 (omega (arith, m.sized))
                  ∙ ap (λ c. add_int c (signed_count op (get_or other it 0)))
                      (m.above it (omega arith)))
          | no elsewhere ↦
              get_or-set_ne counts it i value 0 (λ e. elsewhere (sym e)) ∙ elim (dec_lt i it) [
                | yes before ↦ m.below i before
                | no behind ↦
                    m.above i (omega arith) ∙ sym (merged_empty r i (v.skipped i (omega arith) hi))
              ]
        ];
        above = λ i hi.
            get_or-set_ne counts it i value 0 (omega (arith, v.reached))
            ∙ m.above i (omega (arith, v.reached));
      }

  merge_loop-IsMerging :
      IsReady ranges self other
      → (fuel index it : ℕ) (counts : List ℕ) → IsMerging op ranges self other counts index it
      → (bucket_count ranges - index) + (bucket_count ranges - it) < fuel
      → (counts' : List ℕ) × (merge_loop op ranges ranges other fuel counts index it
          ≡ done (counts', true))
        × IsMerging op ranges self other counts' (bucket_count ranges) (bucket_count ranges)
  merge_loop-IsMerging r zero index it counts m h = absurd (omega arith)
  merge_loop-IsMerging r (suc fuel) index it counts m h = elim (dec_lt it (bucket_count ranges)) [
    | no end ↦ (
      counts,
      loop_end op ranges self other fuel index it counts (omega (arith, m.within, r.same)),
      IsMerging-end counts index it (omega (arith, m.within)) m,
    )
    | yes more ↦ elim (dec_lt index it) [
      | yes behind ↦
          let (counts', ends, m') =
            merge_loop-IsMerging r fuel (index + 1) it counts
              (IsMerging-advance counts index it behind m) (omega arith) in
          (
            counts',
            loop_step op ranges self other fuel index it (index + 1) it counts counts
                  (omega (arith, m.sized)) (omega (arith, r.same))
                  (round_advance op ranges self other r counts index it m.sized behind more)
                ∙ ends,
            m',
          )
      | no level ↦
          let same : index ≡ it = omega (arith, m.behind) in
          let (p, moves, v) = next-IsNextFull other it (omega (arith, r.same)) in
          let value = add_int (get_or counts it 0) (signed_count op (get_or other it 0)) in
          let (counts', ends, m') =
            merge_loop-IsMerging r fuel it p (set counts it value)
              (IsMerging-match r counts it p more
                (subst (λ k. IsMerging op ranges self other counts k it) same m) v)
              (omega (arith, v.reached)) in
          (
            counts',
            ap (λ k. merge_loop op ranges ranges other (suc fuel) counts k it) same
                ∙ loop_step op ranges self other fuel it it it p counts (set counts it value)
                    (omega (arith, m.sized)) (omega (arith, r.same))
                    (round_match op ranges self other r counts it p m.sized more moves)
                ∙ ends,
            m',
          )
    ]
  ]

  -- Between vectors with equal, strictly rising ranges AddSubtractImpl ends within its fuel with
  -- the answer true; each bucket's count becomes the sum, or the difference, of the two counts
  -- modulo 2 ^ 32.
  pub add_subtract-merged :
      IsReady ranges self other
      → (counts : List ℕ) × (add_subtract op ranges ranges self other ≡ done (counts, true))
        × (length counts ≡ bucket_count ranges)
        × ((i : ℕ)
            → i < bucket_count ranges
            → get_or counts i 0 ≡ add_int (get_or self i 0) (signed_count op (get_or other i 0)))
  unfolding add_subtract
  add_subtract-merged r =
      let (p, starts, v) = new_iterator-IsNextFull ranges other (omega (arith, r.same)) in
      let (counts', ends, m) =
        merge_loop-IsMerging r (suc (length self + length other)) 0 p self
          (record {
            sized = r.sized;
            behind = omega arith;
            within = omega (arith, v.within, r.same);
            below = λ i h. sym (merged_empty r i (v.skipped i (omega arith) h));
            above = λ i h. refl;
          })
          (omega (arith, r.same, r.sized)) in
      (counts', rw starts ends, m.sized, m.below)
