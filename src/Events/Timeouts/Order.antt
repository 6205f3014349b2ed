-- ===== src/Events/Timeouts/Order.antt =====
-- What the queue relies on of its container, as boost documents multi_index with an
-- `ordered_unique` index by id and an `ordered_non_unique` one by expiration, with facts on lists of
-- events in order.
use claire_common.Common.{
  ℕ, zero, suc, ◌≡◌, refl, true, false, Option, none, some, List, [], ◌∷◌, ◌++◌, ◌==◌,
  if◌then◌else◌, All, take, drop, Bool-cases, inl, inr, arith,
}
use claire_common.Common.Word.{lt_int64}
use claire_common.Events.Timeouts.{Event, EventSet, TimeoutQueue}

-- `IsDue now e`: the event is due at `now`.
abbrev pub IsDue : ℕ → Event → Type 0
IsDue now e = lt_int64 now e.expiration ≡ false

abbrev pub IsLater : ℕ → Event → Type 0
IsLater now e = lt_int64 now e.expiration ≡ true

unfoldable pub IsOrdered : List Event → Type 0
IsOrdered [] = Unit {0}
IsOrdered (e ∷ es) = All (λ x. lt_int64 x.expiration e.expiration ≡ false) es × IsOrdered es

-- The event with an id.
unfoldable pub find : ℕ → List Event → Option Event
find id [] = none
find id (e ∷ es) = let rest = find id es in if e.id == id then some e else rest

unfoldable pub IsUnique : List Event → Type 0
IsUnique [] = Unit {0}
IsUnique (e ∷ es) = (find e.id es ≡ none) × IsUnique es

unfoldable pub without : ℕ → List Event → List Event
without id [] = []
without id (e ∷ es) = let rest = without id es in if e.id == id then rest else e ∷ rest

pub record IsEventSet (set : EventSet) : Type 0 where
  pub empty-nil : set.by_expiration set.empty ≡ []
  pub upper_bound-take :
      (now : ℕ) (t : set.Timeouts)
      → All (IsDue now) (take (set.upper_bound now t) (set.by_expiration t))
  pub upper_bound-drop :
      (now : ℕ) (t : set.Timeouts)
      → IsOrdered (set.by_expiration t)
      → All (IsLater now) (drop (set.upper_bound now t) (set.by_expiration t))
  pub insert_present :
      (e e' : Event) (t : set.Timeouts)
      → find e.id (set.by_expiration t) ≡ some e'
      → set.by_expiration (set.insert e t) ≡ set.by_expiration t
  pub insert_new :
      (e : Event) (t : set.Timeouts)
      → find e.id (set.by_expiration t) ≡ none
      → IsOrdered (set.by_expiration t)
      → (front : List Event) × (back : List Event) × (set.by_expiration t ≡ front ++ back)
        × (set.by_expiration (set.insert e t) ≡ front ++ e ∷ back)
        × All (IsDue e.expiration) front
        × All (IsLater e.expiration) back
  pub erase_before-drop :
      (n : ℕ) (t : set.Timeouts)
      → set.by_expiration (set.erase_before n t) ≡ drop n (set.by_expiration t)
  pub erase-without :
      (id : ℕ) (t : set.Timeouts)
      → set.by_expiration (set.erase id t) ≡ without id (set.by_expiration t)

pub find-append :
    (id : ℕ) (xs ys : List Event)
    → find id (xs ++ ys) ≡ elim (find id xs) [ none ↦ find id ys | some e ↦ some e ]
unfolding find
find-append id [] ys = refl
find-append id (x ∷ xs) ys = ground (arith, find-append id xs ys)

pub find_insert :
    (id : ℕ) (e : Event) (front back : List Event)
    → find e.id (front ++ back) ≡ none
    → find id (front ++ e ∷ back) ≡ (if e.id == id then some e else find id (front ++ back))
unfolding find
find_insert id e [] back h = refl
find_insert id e (x ∷ front) back h = ground (arith, find_insert id e front back)

pub IsUnique-insert :
    (e : Event) (front back : List Event)
    → find e.id (front ++ back) ≡ none
    → IsUnique (front ++ back)
    → IsUnique (front ++ e ∷ back)
unfolding IsUnique find
IsUnique-insert e [] back h u = (h, u)
IsUnique-insert e (x ∷ front) back h (hx, u) =
    (ground (arith, find_insert x.id e front back), IsUnique-insert e front back (ground arith) u)

pub All-split : (P : Event → Type 0) (xs ys : List Event) → All P (xs ++ ys) → All P xs × All P ys
All-split P [] ys h = (tt, h)
All-split P (x ∷ xs) ys (hx, hs) = ((hx, (All-split P xs ys hs).0), (All-split P xs ys hs).1)

All-join : (P : Event → Type 0) (xs ys : List Event) → All P xs → All P ys → All P (xs ++ ys)
All-join P [] ys h k = k
All-join P (x ∷ xs) ys (hx, hs) k = (hx, All-join P xs ys hs k)

Late→ordered :
    (e : Event) (es : List Event)
    → All (IsLater e.expiration) es
    → All (λ x. lt_int64 x.expiration e.expiration ≡ false) es
Late→ordered e [] h = tt
Late→ordered e (x ∷ xs) (hx, hs) = (ground arith, Late→ordered e xs hs)

pub IsOrdered-insert :
    (e : Event) (front back : List Event)
    → IsOrdered (front ++ back)
    → All (IsDue e.expiration) front
    → All (IsLater e.expiration) back
    → IsOrdered (front ++ e ∷ back)
unfolding IsOrdered
IsOrdered-insert e [] back o hf hb = (Late→ordered e back hb, o)
IsOrdered-insert e (x ∷ front) back (hx, o) (hd, hf) hb =
    let s = All-split _ front back hx in
    (All-join _ front (e ∷ back) s.0 (hd, s.1), IsOrdered-insert e front back o hf hb)

All-without : (P : Event → Type 0) (id : ℕ) (es : List Event) → All P es → All P (without id es)
unfolding without
All-without P id [] h = tt
All-without P id (e ∷ es) (he, hs) = elim (Bool-cases (e.id == id)) [
  | inl same ↦ rw same (All-without P id es hs)
  | inr other ↦ rw other (he, All-without P id es hs)
]

pub IsOrdered-without : (id : ℕ) (es : List Event) → IsOrdered es → IsOrdered (without id es)
unfolding without IsOrdered
IsOrdered-without id [] o = tt
IsOrdered-without id (e ∷ es) (h, o) = elim (Bool-cases (e.id == id)) [
  | inl same ↦ rw same (IsOrdered-without id es o)
  | inr other ↦ rw other (All-without _ id es h, IsOrdered-without id es o)
]

pub find-without :
    (id i : ℕ) (es : List Event) → find i (without id es) ≡ (if id == i then none else find i es)
unfolding find without
find-without id i [] = ground arith
find-without id i (e ∷ es) = ground (arith, find-without id i es)

pub IsUnique-without : (id : ℕ) (es : List Event) → IsUnique es → IsUnique (without id es)
unfolding without IsUnique
IsUnique-without id [] u = tt
IsUnique-without id (e ∷ es) (h, u) = elim (Bool-cases (e.id == id)) [
  | inl same ↦ rw same (IsUnique-without id es u)
  | inr other ↦ rw other (ground (arith, find-without id e.id es), IsUnique-without id es u)
]

pub IsOrdered-drop : (n : ℕ) (es : List Event) → IsOrdered es → IsOrdered (drop n es)
unfolding IsOrdered
IsOrdered-drop zero es o = o
IsOrdered-drop (suc n) [] o = o
IsOrdered-drop (suc n) (e ∷ es) (h, o) = IsOrdered-drop n es o

pub IsUnique-drop : (n : ℕ) (es : List Event) → IsUnique es → IsUnique (drop n es)
unfolding IsUnique
IsUnique-drop zero es u = u
IsUnique-drop (suc n) [] u = u
IsUnique-drop (suc n) (e ∷ es) (h, u) = IsUnique-drop n es u

-- The events stand in the order of their expirations and have different ids.
abbrev pub IsReady : List Event → Type 0
IsReady es = IsOrdered es × IsUnique es

abbrev pub IsQueue : (set : EventSet) → TimeoutQueue set → Type 0
IsQueue set q = IsReady (set.by_expiration q.timeouts)
