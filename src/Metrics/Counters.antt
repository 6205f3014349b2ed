-- ===== src/Metrics/Counters.antt =====
-- CounterProvider, Counter and CounterSampler::DoSnapshotDiff (claire/common/metrics): named
-- counters with a cell for each thread.
use Prim.Native.String.{String}
use claire_common.Common.{
  ℕ, zero, suc, ◌+◌, ◌-◌, ◌*◌, ◌^◌, ◌≡◌, Bool, true, false, not, Option, none, some, List, [], ◌∷◌,
  leb, ◌==◌, if◌then◌else◌, length, set,
}
use claire_common.Common.Word.{int_max, add_int, neg_int, lt_int}
use claire_common.Common.Outcome.{Outcome, done, undefined, ◌>>=◌, at}
use claire_common.Common.Keys.{lookup, put_new, text_key, number_key}
pub mod Ids
pub mod Rows
pub mod Sums
pub mod Sampling

-- `thread_slot` is the thread-local `t_thread_slot` of every thread. `cells` is `data_`, which
-- starts with whatever `new int[]` finds.
pub record Provider : Type 0 where
  pub max_threads : ℕ
  pub max_counters : ℕ
  pub counters : List (String × ℕ)
  pub slots : List (ℕ × ℕ)
  pub cells : List ℕ
  pub thread_slot : ℕ → ℕ

unfoldable pub new_provider : ℕ → ℕ → List ℕ → Provider
new_provider max_threads max_counters cells = record {
  max_threads = max_threads;
  max_counters = max_counters;
  counters = [];
  slots = [];
  cells = cells;
  thread_slot = λ tid. 0;
}

-- The rest of GetCounterId after the name was looked up.
unfoldable pub known_or_new : String → Provider → Option ℕ → Provider × ℕ
known_or_new name p (some id) = (p, id)
known_or_new name p none = if leb p.max_counters (length p.counters) then (p, 0) else (
  record p { counters = put_new name (length p.counters + 1) p.counters },
  length p.counters + 1,
)

unfoldable pub get_counter_id : String → Provider → Provider × ℕ
get_counter_id name p = known_or_new name p (lookup name p.counters)

-- The second test of `t_thread_slot`, under the lock, reads what the first read. An id that is in
-- `slots_` already is that of an ended thread, and `insert` refuses it.
unfoldable pub get_slot_id : ℕ → Provider → Provider × ℕ
get_slot_id tid p =
    let slot = length p.slots + 1 in
    if not (p.thread_slot tid == 0)
    then (p, p.thread_slot tid)
    else if leb p.max_threads (length p.slots)
    then (p, 0)
    else elim (lookup tid p.slots) [
      | some old ↦ (p, 0)
      | none ↦ (
        record p {
          slots = put_new tid slot p.slots;
          thread_slot = λ t. if t == tid then slot else p.thread_slot t;
        },
        slot,
      )
    ]

-- The place in `cells`; a pointer before the first cell is undefined.
unfoldable pub get_location : Provider → ℕ → ℕ → Outcome ℕ
get_location p counter_id slot_id =
    let place = (counter_id - 1) * p.max_threads + slot_id in
    if place == 0 then undefined else done (place - 1)

unfoldable pub sum_row : List ℕ → ℕ → ℕ → ℕ → Outcome ℕ
sum_row cells row zero value = done value
sum_row cells row (suc n) value = do
  cell ← at cells row
  sum_row cells (row + 1) n (add_int value cell)

unfoldable pub get_counter_value : Provider → ℕ → Outcome ℕ
get_counter_value p counter_id = sum_row p.cells ((counter_id - 1) * p.max_threads) p.max_threads 0

-- CounterProvider::GetCounterValue, by name.
unfoldable pub get_named_value : String → Provider → Outcome (Provider × ℕ)
get_named_value name p =
    let found = get_counter_id name p in
    elim (found.1 == 0) [
      | true ↦ done (found.0, 0)
      | false ↦ do value ← get_counter_value found.0 found.1; done (found.0, value)
    ]

unfoldable pub snapshot_loop : Provider → List (String × ℕ) → Outcome (List (String × ℕ))
snapshot_loop p [] = done []
snapshot_loop p (c ∷ cs) = do
  value ← get_counter_value p c.1
  rest ← snapshot_loop p cs
  done ((c.0, value) ∷ rest)

unfoldable pub get_snapshot : Provider → Outcome (List (String × ℕ))
get_snapshot p = snapshot_loop p p.counters

-- `counter_id` is none for -1.
pub record Counter : Type 0 where
  pub name : String
  pub counter_id : Option ℕ

-- CounterProvider::GetLocation, for the calling thread.
unfoldable pub get_thread_location : ℕ → Provider → ℕ → Outcome (Provider × ℕ)
get_thread_location tid p counter_id =
    let slot = get_slot_id tid p in
    do place ← get_location slot.0 counter_id slot.1; done (slot.0, place)

-- `counter_id_` after the first test of GetPtr.
unfoldable pub looked_up : Counter → Provider → Provider × ℕ
looked_up c p = elim c.counter_id [ none ↦ get_counter_id c.name p | some id ↦ (p, id) ]

-- The place of the calling thread's cell, or none for NULL.
unfoldable pub get_ptr : ℕ → Counter → Provider → Outcome (Counter × Provider × Option ℕ)
get_ptr tid c p =
    let found = looked_up c p in
    let c' = record c { counter_id = some found.1 } in
    let pointer = (do
      (p', place) ← get_thread_location tid found.0 found.1
      done (c', p', some place)) in
    if found.1 == 0 then done (c', found.0, none) else pointer

unfoldable pub set_counter : ℕ → Counter → ℕ → Provider → Outcome (Counter × Provider)
set_counter tid c value p = do
  (c', p', loc) ← get_ptr tid c p
  elim loc [
    | none ↦ done (c', p')
    | some place ↦ do
      old ← at p'.cells place
      done (c', record p' { cells = set p'.cells place value })
  ]

unfoldable pub add_counter : ℕ → Counter → ℕ → Provider → Outcome (Counter × Provider)
add_counter tid c value p = do
  (c', p', loc) ← get_ptr tid c p
  elim loc [
    | none ↦ done (c', p')
    | some place ↦ do
      old ← at p'.cells place
      done (c', record p' { cells = set p'.cells place (add_int old value) })
  ]

unfoldable pub subtract_counter : ℕ → Counter → ℕ → Provider → Outcome (Counter × Provider)
subtract_counter tid c value p = add_counter tid c (neg_int value) p

unfoldable pub get_cell : ℕ → Counter → Provider → Outcome ℕ
get_cell tid c p = do
  (c', p', loc) ← get_ptr tid c p
  elim loc [ none ↦ done 0 | some place ↦ at p'.cells place ]

-- The entries of a sample, from the snapshot `now` and the last one.
unfoldable pub diff_value : ℕ → ℕ → ℕ
diff_value new old =
    if lt_int new old
    then add_int (add_int int_max (neg_int old)) (neg_int new)
    else add_int new (neg_int old)

-- The entry for one counter of the new snapshot, from what the old one has under its name.
abbrev pub put_difference : String × ℕ → Option ℕ → List (String × ℕ) → List (String × ℕ)
put_difference p none entries = entries
put_difference p (some old) entries = (p.0, diff_value p.1 old) ∷ entries

unfoldable pub do_snapshot_diff : List (String × ℕ) → List (String × ℕ) → List (String × ℕ)
do_snapshot_diff [] rhs = []
do_snapshot_diff (p ∷ ps) rhs = put_difference p (lookup p.0 rhs) (do_snapshot_diff ps rhs)
