-- ===== src/Tests/Counters.antt =====
-- Two counters of CounterProvider with cells for two threads, 7 and 8.
use claire_common.Common.{◌-◌, ◌^◌, ◌≡◌, refl, [], ◌∷◌, ◌==◌, if◌then◌else◌, arith}
use claire_common.Common.Word.{int_max}
use claire_common.Common.Outcome.{done}
use claire_common.Common.Keys.{text_key, number_key}
use claire_common.Metrics.Counters.{Provider, get_counter_id, add_counter, diff_value}
use claire_common.Metrics.Counters.Ids.{IsProvider, IsNamed, get_counter_id-IsNamed}
use claire_common.Metrics.Counters.Sums.{IsAdded, known, add_counter-IsAdded}

abbrev provider : Provider
provider = record {
  max_threads = 2;
  max_counters = 2;
  counters = ("hits", 1) ∷ ("misses", 2) ∷ [];
  slots = (7, 1) ∷ (8, 2) ∷ [];
  cells = 5 ∷ 6 ∷ 1 ∷ 0 ∷ [];
  thread_slot = λ t. if t == 7 then 1 else if t == 8 then 2 else 0;
}

provider-IsProvider : IsProvider provider
provider-IsProvider = record {
  cells_fit = refl;
  counters_fit = omega arith;
  id_bounds = λ name id h. grind (arith);
  ids_fit = ((omega arith, omega arith), ((omega arith, omega arith), tt));
  ids_differ = λ a b id ha hb. grind (
    arith,
    text_key.same_iff "hits" a,
    text_key.same_iff "misses" a,
    text_key.same_iff "hits" b,
    text_key.same_iff "misses" b,
  );
  slots_fit = omega arith;
  slot_bound = λ t. ground arith;
  slots_differ = λ t u e ne. ground arith;
}

get_counter_id-IsNamed_example : IsNamed "errors" provider (get_counter_id "errors" provider)
get_counter_id-IsNamed_example = get_counter_id-IsNamed "errors" provider provider-IsProvider

add_counter-IsAdded_example :
    (p' : Provider) × (add_counter 8 (known "hits" 1) 3 provider ≡ done (known "hits" 1, p'))
    × IsAdded provider p' 1 3
add_counter-IsAdded_example =
    add_counter-IsAdded 8 "hits" 1 3 provider provider-IsProvider (omega arith) (omega arith)
      (λ e. omega arith)

-- A count that fell from INT_MAX - 1 to 3 is sampled as -2.
diff_fallen : diff_value 3 (int_max - 1) ≡ 2 ^ 32 - 2
unfolding diff_value
diff_fallen = refl
