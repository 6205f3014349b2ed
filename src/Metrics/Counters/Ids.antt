-- ===== src/Metrics/Counters/Ids.antt =====
-- Ids of counters and slots of threads in CounterProvider (claire/common/metrics).
use Prim.Native.String.{String}
use claire_common.Common.{
  ℕ, ◌+◌, ◌*◌, ◌≤◌, ◌<◌, ◌≡◌, ◌≢◌, ◌⊎◌, inl, inr, refl, sym, ◌∙◌, Option, none, some, [], ◌∷◌, leb,
  ◌==◌, ==_iff, if◌then◌else◌, length, length-append, All, All-append, Bool-cases, Option-cases,
  arith,
}
use claire_common.Common.Keys.{lookup, put_new, text_key, number_key, lookup-put_new, same_refl}
use claire_common.Metrics.Counters.{Provider, known_or_new, get_counter_id, get_slot_id}

pub record IsProvider (p : Provider) : Type 0 where
  pub cells_fit : length p.cells ≡ p.max_counters * p.max_threads
  pub counters_fit : length p.counters ≤ p.max_counters
  pub id_bounds :
      (name : String) (id : ℕ)
      → lookup name p.counters ≡ some id
      → (1 ≤ id) × (id ≤ length p.counters)
  pub ids_fit : All (λ c. (1 ≤ c.1) × (c.1 ≤ p.max_counters)) p.counters
  pub ids_differ :
      (a b : String) (id : ℕ)
      → lookup a p.counters ≡ some id
      → lookup b p.counters ≡ some id
      → a ≡ b
  pub slots_fit : length p.slots ≤ p.max_threads
  pub slot_bound : (tid : ℕ) → p.thread_slot tid ≤ length p.slots
  pub slots_differ : (t u : ℕ) → p.thread_slot t ≡ p.thread_slot u → p.thread_slot t ≢ 0 → t ≡ u

new_id-IsProvider :
    (name : String) (p : Provider)
    → IsProvider p
    → lookup name p.counters ≡ none
    → length p.counters < p.max_counters
    → IsProvider (record p { counters = put_new name (length p.counters + 1) p.counters })
new_id-IsProvider name p w h room =
    let grown = length-append p.counters ((name, length p.counters + 1) ∷ []) in
    record {
      cells_fit = w.cells_fit;
      counters_fit = omega (arith, grown);
      id_bounds = λ other id e. grind (
        arith,
        grown,
        lookup-put_new name (length p.counters + 1) p.counters other h,
        w.id_bounds other id,
      );
      ids_fit =
          All-append _ p.counters ((name, length p.counters + 1) ∷ []) w.ids_fit
            ((omega arith, omega arith), tt);
      ids_differ = λ a b id ea eb. grind (
        arith,
        lookup-put_new name (length p.counters + 1) p.counters a h,
        lookup-put_new name (length p.counters + 1) p.counters b h,
        w.id_bounds a id,
        w.id_bounds b id,
        w.ids_differ a b id,
        text_key.same_iff name a,
        text_key.same_iff name b,
      );
      slots_fit = w.slots_fit;
      slot_bound = w.slot_bound;
      slots_differ = w.slots_differ;
    }

-- What GetCounterId leaves, with the id it returns.
pub record IsNamed (name : String) (p : Provider) (r : Provider × ℕ) : Type 0 where
  pub provider : IsProvider r.0
  pub answer :
      (lookup name r.0.counters ≡ some r.1)
      ⊎ ((r.1 ≡ 0) × (lookup name r.0.counters ≡ none) × (p.max_counters ≤ length p.counters))
  pub kept :
      (other : String) (id : ℕ)
      → lookup other p.counters ≡ some id
      → lookup other r.0.counters ≡ some id
  pub cells_same : r.0.cells ≡ p.cells

known_or_new-IsNamed :
    (name : String) (p : Provider) (found : Option ℕ)
    → IsProvider p
    → lookup name p.counters ≡ found
    → IsNamed name p (known_or_new name p found)
unfolding known_or_new
known_or_new-IsNamed name p (some id) w h = record {
  provider = w;
  answer = inl h;
  kept = λ other i e. e;
  cells_same = refl;
}
known_or_new-IsNamed name p none w h = elim (Bool-cases (leb p.max_counters (length p.counters))) [
  | inl full ↦ rw full (record {
    provider = w;
    answer = inr (refl, h, ground arith);
    kept = λ other i e. e;
    cells_same = refl;
  })
  | inr room ↦ rw room (record {
    provider = new_id-IsProvider name p w h (ground arith);
    answer =
        inl (
          lookup-put_new name (length p.counters + 1) p.counters name h ∙ rw (same_refl name) refl);
    kept = λ other i e. grind (
      arith,
      lookup-put_new name (length p.counters + 1) p.counters other h,
      text_key.same_iff name other,
    );
    cells_same = refl;
  })
]

-- GetCounterId keeps the ids of different names different and between 1 and the number of
-- counters. It returns the id that the name has from then on, or 0 for a new name if the provider
-- is full; no other name's id changes.
pub get_counter_id-IsNamed :
    (name : String) (p : Provider) → IsProvider p → IsNamed name p (get_counter_id name p)
unfolding get_counter_id
get_counter_id-IsNamed name p w = known_or_new-IsNamed name p (lookup name p.counters) w refl

-- What GetSlotId leaves, with the slot it returns.
pub record IsSlotted (tid : ℕ) (p : Provider) (r : Provider × ℕ) : Type 0 where
  pub provider : IsProvider r.0
  pub answer : r.1 ≡ r.0.thread_slot tid
  pub none_free :
      r.1 ≡ 0 → (p.max_threads ≤ length p.slots) ⊎ ((slot : ℕ) × (lookup tid p.slots ≡ some slot))
  pub kept : (other : ℕ) → other ≢ tid → r.0.thread_slot other ≡ p.thread_slot other
  pub data_same : (r.0.cells ≡ p.cells) × (r.0.counters ≡ p.counters)

new_slot-IsProvider :
    (tid : ℕ) (p : Provider)
    → IsProvider p
    → length p.slots < p.max_threads
    → IsProvider (record p {
      slots = put_new tid (length p.slots + 1) p.slots;
      thread_slot = λ t. if t == tid then length p.slots + 1 else p.thread_slot t;
    })
new_slot-IsProvider tid p w room =
    let grown = length-append p.slots ((tid, length p.slots + 1) ∷ []) in
    record {
      cells_fit = w.cells_fit;
      counters_fit = w.counters_fit;
      id_bounds = w.id_bounds;
      ids_fit = w.ids_fit;
      ids_differ = w.ids_differ;
      slots_fit = omega (arith, grown);
      slot_bound = λ t. ground (arith, grown, w.slot_bound t);
      slots_differ = λ t u e ne. ground (arith, w.slot_bound t, w.slot_bound u, w.slots_differ t u);
    }

-- GetSlotId keeps the slots of different threads different and at most the number of threads. It
-- returns the slot that the calling thread has from then on; the slot is 0 only if all are taken
-- or the thread's number was that of an ended thread. No other thread's slot changes.
pub get_slot_id-IsSlotted :
    (tid : ℕ) (p : Provider) → IsProvider p → IsSlotted tid p (get_slot_id tid p)
unfolding get_slot_id
get_slot_id-IsSlotted tid p w = elim (Bool-cases (p.thread_slot tid == 0)) [
  | inr has ↦ rw has (record {
    provider = w;
    answer = refl;
    none_free = λ z. absurd (ground arith);
    kept = λ other ne. refl;
    data_same = (refl, refl);
  })
  | inl new ↦ rw new (elim (Bool-cases (leb p.max_threads (length p.slots))) [
    | inl full ↦ rw full (record {
      provider = w;
      answer = sym ((==_iff (p.thread_slot tid) 0).0 new);
      none_free = λ z. inl (ground arith);
      kept = λ other ne. refl;
      data_same = (refl, refl);
    })
    | inr room ↦ rw room (elim (Option-cases (lookup tid p.slots)) [
      | inr (old, h) ↦ rw h (record {
        provider = w;
        answer = sym ((==_iff (p.thread_slot tid) 0).0 new);
        none_free = λ z. inr (old, h);
        kept = λ other ne. refl;
        data_same = (refl, refl);
      })
      | inl h ↦ rw h (record {
        provider = new_slot-IsProvider tid p w (ground arith);
        answer = ground arith;
        none_free = λ z. absurd (omega arith);
        kept = λ other ne. ground arith;
        data_same = (refl, refl);
      })
    ])
  ])
]
