-- ===== src/Metrics/Counters/Sums.antt =====
-- What Counter::Add does to the values of the counters (claire/common/metrics), for a thread with a
-- slot and for one without.
use Prim.Native.String.{String}
use claire_common.Common.{
  ℕ, ◌+◌, ◌-◌, ◌*◌, ◌%◌, ◌^◌, ◌≤◌, ◌<◌, ◌≡◌, ◌≢◌, refl, sym, ap, ◌∙◌, true, some, le→leb, ◌==◌,
  length, set, get_or, length-set, arith, ==_ne,
}
use claire_common.Common.Word.{add_int}
use claire_common.Common.Outcome.{done, undefined, at-get_or, done-injective}
use claire_common.Metrics.Counters.{
  Provider, Counter, get_slot_id, get_location, get_thread_location, looked_up, get_counter_value,
  get_ptr, add_counter,
}
use claire_common.Metrics.Counters.Ids.{IsProvider}
use claire_common.Metrics.Counters.Rows.{
  row_sum, row_sum_outside, row_sum_inside, row_apart, rows_disjoint, added_sum, row_next, row_of,
  get_counter_value-total,
}

abbrev with_added : Provider → ℕ → ℕ → Provider
with_added p place v = record p { cells = set p.cells place (add_int (get_or p.cells place 0) v) }

with_added-IsProvider :
    (p : Provider) (place v : ℕ) → IsProvider p → IsProvider (with_added p place v)
with_added-IsProvider p place v w = record {
  cells_fit = length-set p.cells place _ ∙ w.cells_fit;
  counters_fit = w.counters_fit;
  id_bounds = w.id_bounds;
  ids_fit = w.ids_fit;
  ids_differ = w.ids_differ;
  slots_fit = w.slots_fit;
  slot_bound = w.slot_bound;
  slots_differ = w.slots_differ;
}

-- `p'` is `p` with `v` more in the counter `id`, in wrapping int arithmetic.
pub record IsAdded (p p' : Provider) (id v : ℕ) : Type 0 where
  pub provider : IsProvider p'
  pub value :
      (x : ℕ) → get_counter_value p id ≡ done x → get_counter_value p' id ≡ done (add_int x v)
  pub others :
      (j : ℕ) → 1 ≤ j → j ≤ p.max_counters → j ≢ id → get_counter_value p' j ≡ get_counter_value p j

with_added-IsAdded :
    (p : Provider) (id slot v : ℕ)
    → IsProvider p
    → 1 ≤ id
    → id ≤ p.max_counters
    → slot < p.max_threads
    → IsAdded p (with_added p (row_of p id + slot) v) id v
with_added-IsAdded p id slot v w low high fits =
    let place = row_of p id + slot in
    let w' = with_added-IsProvider p place v w in
    let inside = row_apart (id - 1) p.max_counters p.max_threads (omega arith) in
    record {
      provider = w';
      value = λ x e.
          get_counter_value-total (with_added p place v) id w' low high
          ∙ ap done (
              added_sum x (row_sum p.cells (row_of p id) p.max_threads) _ (get_or p.cells place 0) v
                (row_sum_inside p.cells (row_of p id) p.max_threads place _ (omega arith)
                  (omega arith) (omega (arith, w.cells_fit)))
                (done-injective (sym e ∙ get_counter_value-total p id w low high)));
      others = λ j jlow jhigh ne.
          get_counter_value-total (with_added p place v) j w' jlow jhigh
          ∙ ap (λ t. done (t % 2 ^ 32))
              (row_sum_outside p.cells (row_of p j) p.max_threads place _
                (rows_disjoint (id - 1) (j - 1) p.max_threads slot (λ e. ne (omega arith)) fits))
          ∙ sym (get_counter_value-total p j w jlow jhigh);
    }

place_of_slot : (row slot : ℕ) → slot ≢ 0 → row + slot - 1 ≡ row + (slot - 1)
place_of_slot row slot h = omega arith

abbrev pub known : String → ℕ → Counter
known name id = record { name = name; counter_id = some id }

get_thread_location_at :
    (tid slot id : ℕ) (p : Provider)
    → get_slot_id tid p ≡ (p, slot)
    → row_of p id + slot ≢ 0
    → get_thread_location tid p id ≡ done (p, row_of p id + slot - 1)
unfolding get_thread_location get_location
get_thread_location_at tid slot id p h nonzero = rw (h, ==_ne (row_of p id + slot) 0 nonzero) refl

get_ptr_at :
    (tid slot : ℕ) (name : String) (id : ℕ) (p : Provider)
    → get_slot_id tid p ≡ (p, slot)
    → id ≢ 0
    → row_of p id + slot ≢ 0
    → get_ptr tid (known name id) p ≡ done (known name id, p, some (row_of p id + slot - 1))
unfolding get_ptr looked_up
get_ptr_at tid slot name id p h ne nonzero =
    rw (get_thread_location_at tid slot id p h nonzero, ==_ne id 0 ne) refl

add_counter_at :
    (tid slot : ℕ) (name : String) (id v : ℕ) (p : Provider)
    → get_slot_id tid p ≡ (p, slot)
    → id ≢ 0
    → row_of p id + slot ≢ 0
    → row_of p id + slot - 1 < length p.cells
    → add_counter tid (known name id) v p
      ≡ done (known name id, with_added p (row_of p id + slot - 1) v)
unfolding add_counter
add_counter_at tid slot name id v p h ne nonzero inside =
    rw
      (
        get_ptr_at tid slot name id p h ne nonzero,
        at-get_or p.cells (row_of p id + slot - 1) 0 inside,
      )
      refl

slot_of :
    (tid : ℕ) (p : Provider) → p.thread_slot tid ≢ 0 → get_slot_id tid p ≡ (p, p.thread_slot tid)
unfolding get_slot_id
slot_of tid p h = rw (==_ne (p.thread_slot tid) 0 h) refl

no_slot :
    (tid : ℕ) (p : Provider)
    → p.thread_slot tid ≡ 0
    → p.max_threads ≤ length p.slots
    → get_slot_id tid p ≡ (p, 0)
unfolding get_slot_id
no_slot tid p h full = rw (h, le→leb p.max_threads (length p.slots) full) refl

-- Add by a thread that has a slot, to a counter whose id is known, ends, writes inside the cells,
-- adds the value to that counter in wrapping int arithmetic and changes no other counter.
pub add_counter-IsAdded :
    (tid : ℕ) (name : String) (id v : ℕ) (p : Provider)
    → IsProvider p
    → 1 ≤ id
    → id ≤ p.max_counters
    → p.thread_slot tid ≢ 0
    → (p' : Provider) × (add_counter tid (known name id) v p ≡ done (known name id, p'))
      × IsAdded p p' id v
add_counter-IsAdded tid name id v p w low high has =
    let slot = p.thread_slot tid in
    let inside = row_apart (id - 1) p.max_counters p.max_threads (omega arith) in
    let same = place_of_slot (row_of p id) slot has in
    let bound : slot ≤ p.max_threads = omega (arith, w.slot_bound tid, w.slots_fit) in
    (
      with_added p (row_of p id + slot - 1) v,
      add_counter_at tid slot name id v p (slot_of tid p has) (λ e. omega arith)
          (λ e. has (omega arith)) (omega (arith, w.cells_fit)),
      rw same (with_added-IsAdded p id (slot - 1) v w low high (omega arith)),
    )

first_row : (m : ℕ) → ((1 - 1) * m + 0 == 0) ≡ true
first_row m = ground arith

first_location :
    (tid : ℕ) (p : Provider) → get_slot_id tid p ≡ (p, 0) → get_thread_location tid p 1 ≡ undefined
unfolding get_thread_location get_location
first_location tid p h = rw (h, first_row p.max_threads) refl

first_ptr :
    (tid : ℕ) (name : String) (p : Provider)
    → get_slot_id tid p ≡ (p, 0)
    → get_ptr tid (known name 1) p ≡ undefined
unfolding get_ptr looked_up
first_ptr tid name p h = rw (first_location tid p h) refl

-- Add by a thread that found all slots taken adds the value to the counter before the one it is
-- called on, if there is one, and leaves the value of its own counter; for the first counter it is
-- undefined.
pub add_counter_no_slot :
    (tid : ℕ) (name : String) (id v : ℕ) (p : Provider)
    → IsProvider p
    → 2 ≤ id
    → id ≤ p.max_counters
    → p.thread_slot tid ≡ 0
    → p.max_threads ≤ length p.slots
    → 1 ≤ p.max_threads
    → ((p' : Provider) × (add_counter tid (known name id) v p ≡ done (known name id, p'))
        × IsAdded p p' (id - 1) v)
      × (add_counter tid (known name 1) v p ≡ undefined)
unfolding add_counter
add_counter_no_slot tid name id v p w low high none_yet full some_threads =
    let before = row_apart (id - 1 - 1) (id - 1) p.max_threads (omega arith) in
    let last : row_of p id + 0 - 1 ≡ row_of p (id - 1) + (p.max_threads - 1) =
      omega (arith, row_next id p.max_threads low) in
    let inside = row_apart (id - 1 - 1) p.max_counters p.max_threads (omega arith) in
    (
      (
        with_added p (row_of p id + 0 - 1) v,
        add_counter_at tid 0 name id v p (no_slot tid p none_yet full) (λ e. omega arith)
            (λ e. omega arith) (omega (arith, w.cells_fit, inside, row_next id p.max_threads low)),
        rw last (
            with_added-IsAdded p (id - 1) (p.max_threads - 1) v w (omega arith) (omega arith)
              (omega arith)),
      ),
      rw (first_ptr tid name p (no_slot tid p none_yet full)) refl,
    )
