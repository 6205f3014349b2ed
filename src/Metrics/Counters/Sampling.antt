-- ===== src/Metrics/Counters/Sampling.antt =====
-- Snapshots of the counters and the differences that CounterSampler keeps (claire/common/metrics).
use Prim.Native.String.{String}
use claire_common.Common.{
  ℕ, ◌+◌, ◌-◌, ◌%◌, ◌^◌, ◌≤◌, ◌<◌, ◌≡◌, refl, Option, none, some, List, [], ◌∷◌, map, if◌then◌else◌,
  All, ltb, arith,
}
use claire_common.Common.Word.{int_max}
use claire_common.Common.Outcome.{done}
use claire_common.Common.Keys.{lookup, text_key}
use claire_common.Metrics.Counters.{
  Provider, get_counter_value, snapshot_loop, get_snapshot, diff_value, put_difference,
  do_snapshot_diff,
}
use claire_common.Metrics.Counters.Ids.{IsProvider}
use claire_common.Metrics.Counters.Rows.{total_of, get_counter_value-total}

-- The sampled difference of two counts that are no negative int is the growth of the count; where
-- the count fell it is INT_MAX less both, wrapped to int.
pub diff_value_lem :
    (new old : ℕ)
    → new < 2 ^ 31
    → old < 2 ^ 31
    → diff_value new old
      ≡ (if ltb new old then (int_max + 2 ^ 32 - old - new) % 2 ^ 32 else new - old)
unfolding diff_value
diff_value_lem new old h k = ground arith

-- What a sample has for one name, from the values of both snapshots.
abbrev pub sampled : Option ℕ → Option ℕ → Option ℕ
sampled none old = none
sampled (some new) none = none
sampled (some new) (some old) = some (diff_value new old)

lookup-put_difference :
    (p : String × ℕ) (found : Option ℕ) (name : String) (ps old entries : List (String × ℕ))
    → lookup p.0 old ≡ found
    → lookup name entries ≡ sampled (lookup name ps) (lookup name old)
    → lookup name (put_difference p found entries)
      ≡ sampled (lookup name (p ∷ ps)) (lookup name old)
lookup-put_difference p none name ps old entries h e = grind (arith, text_key.same_iff p.0 name)
lookup-put_difference p (some x) name ps old entries h e = grind (arith, text_key.same_iff p.0 name)

-- A sample holds the difference for every name that both snapshots hold, and no other name.
pub lookup-do_snapshot_diff :
    (new old : List (String × ℕ)) (name : String)
    → lookup name (do_snapshot_diff new old) ≡ sampled (lookup name new) (lookup name old)
unfolding do_snapshot_diff
lookup-do_snapshot_diff [] old name = refl
lookup-do_snapshot_diff (p ∷ ps) old name =
    lookup-put_difference p (lookup p.0 old) name ps old (do_snapshot_diff ps old) refl
      (lookup-do_snapshot_diff ps old name)

abbrev with_total : Provider → String × ℕ → String × ℕ
with_total p c = (c.0, total_of p c.1)

snapshot_loop-totals :
    (p : Provider) (cs : List (String × ℕ))
    → IsProvider p
    → All (λ c. (1 ≤ c.1) × (c.1 ≤ p.max_counters)) cs
    → snapshot_loop p cs ≡ done (map (with_total p) cs)
unfolding snapshot_loop
snapshot_loop-totals p [] w h = refl
snapshot_loop-totals p (c ∷ cs) w ((low, high), hs) =
    rw (get_counter_value-total p c.1 w low high, snapshot_loop-totals p cs w hs) refl

lookup-totals :
    (p : Provider) (cs : List (String × ℕ)) (name : String) (id : ℕ)
    → lookup name cs ≡ some id
    → lookup name (map (with_total p) cs) ≡ some (total_of p id)
lookup-totals p [] name id h = absurd (ground arith)
lookup-totals p (c ∷ cs) name id h = grind (arith, lookup-totals p cs name id)

-- GetSnapshot ends, reads inside the cells and has under each name the value that GetCounterValue
-- returns for it.
pub get_snapshot-values :
    (p : Provider)
    → IsProvider p
    → (values : List (String × ℕ)) × (get_snapshot p ≡ done values)
      × ((name : String) (id : ℕ)
          → lookup name p.counters ≡ some id
          → (value : ℕ) × (lookup name values ≡ some value) × (get_counter_value p id ≡ done value))
unfolding get_snapshot
get_snapshot-values p w = (
  map (with_total p) p.counters,
  snapshot_loop-totals p p.counters w w.ids_fit,
  λ name id h.
      let bounds = w.id_bounds name id h in
      (
        total_of p id,
        lookup-totals p p.counters name id h,
        get_counter_value-total p id w bounds.0 (omega (arith, bounds.1, w.counters_fit)),
      ),
)
