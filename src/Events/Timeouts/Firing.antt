-- ===== src/Events/Timeouts/Firing.antt =====
-- What TimeoutQueue::Run (claire/common/events/TimeoutQueue.cc) calls, and which events are pending
-- when it begins to call.
use claire_common.Common.{
  ℕ, ◌≡◌, refl, ap, sym, ◌∙◌, Option, none, some, List, [], ◌∷◌, ◌++◌, map, ◌==◌, if◌then◌else◌,
  All, take, drop, take-drop, Bool-cases, inl, inr, arith,
}
use claire_common.Common.Word.{add_int64, lt_int64}
use claire_common.Events.Timeouts.{
  Event, EventSet, TimeoutQueue, is_repeating, call, call_all, reinsert, rearm, expired, run,
}
use claire_common.Events.Timeouts.Order.{
  IsEventSet, IsReady, IsQueue, IsOrdered, IsUnique, IsDue, IsLater, find, find_insert, find-append,
}
use claire_common.Events.Timeouts.Invariant.{insert-IsReady, erase_before-IsReady}

-- The events that are due, in their order.
unfoldable pub due : ℕ → List Event → List Event
due now [] = []
due now (e ∷ es) = let rest = due now es in if lt_int64 now e.expiration then rest else e ∷ rest

due_later : (now : ℕ) (es : List Event) → All (IsLater now) es → due now es ≡ []
unfolding due
due_later now [] h = refl
due_later now (e ∷ es) (he, hs) = rw he (due_later now es hs)

due_split :
    (now : ℕ) (xs ys : List Event)
    → All (IsDue now) xs
    → All (IsLater now) ys
    → due now (xs ++ ys) ≡ xs
unfolding due
due_split now [] ys h k = due_later now ys k
due_split now (x ∷ xs) ys (hx, hs) k = rw hx (ap (λ zs. x ∷ zs) (due_split now xs ys hs k))

-- Where an event with this id is found by now: one that is later stays, a repeating one is set to
-- `now` and its interval, another is gone.
abbrev pub after_run : ℕ → Option Event → Option Event
after_run now none = none
after_run now (some e) =
    if lt_int64 now e.expiration
    then some e
    else if is_repeating e
    then some (record e { expiration = add_int64 now e.repeat_interval })
    else none

abbrev again : ℕ → Event → Option Event
again now e =
    if is_repeating e
    then some (record e { expiration = add_int64 now e.repeat_interval })
    else none

-- No event of the list has an id of the other.
abbrev AreAbsent : List Event → List Event → Type 0
AreAbsent es xs = All (λ e. find e.id xs ≡ none) es

IsUnique-split : (xs ys : List Event) → IsUnique (xs ++ ys) → IsUnique xs × AreAbsent xs ys
unfolding IsUnique
IsUnique-split [] ys u = (tt, tt)
IsUnique-split (x ∷ xs) ys (h, u) = (
  (ground (arith, find-append x.id xs ys), (IsUnique-split xs ys u).0),
  (ground (arith, find-append x.id xs ys), (IsUnique-split xs ys u).1),
)

find_later :
    (now i : ℕ) (es : List Event) → All (IsLater now) es → find i es ≡ after_run now (find i es)
unfolding find
find_later now i [] h = refl
find_later now i (e ∷ es) (he, hs) = ground (arith, find_later now i es hs)

find-after_run :
    (now i : ℕ) (xs ys : List Event)
    → All (IsDue now) xs
    → All (IsLater now) ys
    → elim (find i xs) [ none ↦ find i ys | some e ↦ again now e ]
      ≡ after_run now (find i (xs ++ ys))
unfolding find
find-after_run now i [] ys h k = find_later now i ys k
find-after_run now i (x ∷ xs) ys (hx, hs) k = ground (arith, find-after_run now i xs ys hs k)

module _ (set : EventSet) (laws : IsEventSet set) (clock : ℕ → ℕ) where
  open set use {Timeouts, by_expiration, insert, erase_before, upper_bound}

  expired-due :
      (now : ℕ) (q : TimeoutQueue set)
      → IsQueue set q
      → expired set clock now q ≡ due now (by_expiration q.timeouts)
  unfolding expired
  expired-due now q (o, u) =
      sym (
        due_split now _ _ (laws.upper_bound-take now q.timeouts)
          (laws.upper_bound-drop now q.timeouts o))
      ∙ ap (due now) (take-drop (upper_bound now q.timeouts) (by_expiration q.timeouts))

  called_ids :
      (es : List Event) (q : TimeoutQueue set) → (call_all set clock es q).1 ≡ map (λ e. e.id) es
  unfolding call_all
  called_ids [] q = refl
  called_ids (e ∷ es) q = ap (λ ids. e.id ∷ ids) (called_ids es (call set clock e.callback q))

  -- Run calls exactly the events that were due when it began, each once, in the order of their
  -- expirations, whatever the callbacks do to the queue.
  pub run-due :
      (now : ℕ) (q : TimeoutQueue set)
      → IsQueue set q
      → (run set clock now q).1 ≡ map (λ e. e.id) (due now (by_expiration q.timeouts))
  unfolding run
  run-due now q r =
      called_ids (expired set clock now q) (rearm set clock now q)
      ∙ ap (map (λ e. e.id)) (expired-due now q r)

  find_inserted :
      (e : Event) (t : Timeouts) (i : ℕ)
      → IsOrdered (by_expiration t)
      → find e.id (by_expiration t) ≡ none
      → find i (by_expiration (insert e t))
        ≡ (if e.id == i then some e else find i (by_expiration t))
  find_inserted e t i o h =
      let (front, back, split, new, before, after) = laws.insert_new e t h o in
      rw (new, split) (find_insert i e front back (rw (sym split) h))

  reinsert-absent :
      (now : ℕ) (e : Event) (es : List Event) (t : Timeouts)
      → IsReady (by_expiration t)
      → find e.id (by_expiration t) ≡ none
      → find e.id es ≡ none
      → AreAbsent es (by_expiration t)
      → AreAbsent es (by_expiration (insert (record e { expiration = now }) t))
  unfolding find
  reinsert-absent now e [] t r h k a = tt
  reinsert-absent now e (x ∷ xs) t r h k (ax, others) = (
    ground (arith, find_inserted (record e { expiration = now }) t x.id r.0 h),
    reinsert-absent now e xs t r h (ground arith) others,
  )

  find-reinsert :
      (now : ℕ) (es : List Event) (t : Timeouts) (i : ℕ)
      → IsReady (by_expiration t)
      → IsUnique es
      → AreAbsent es (by_expiration t)
      → find i (by_expiration (reinsert set clock now es t))
        ≡ elim (find i es) [ none ↦ find i (by_expiration t) | some e ↦ again now e ]
  unfolding reinsert find IsUnique
  find-reinsert now [] t i r u a = refl
  find-reinsert now (e ∷ es) t i r (ue, us) (ae, others) =
      let event : Event = record e { expiration = add_int64 now e.repeat_interval } in
      elim (Bool-cases (is_repeating e)) [
        | inl repeats ↦ rw repeats (
            ground (
              arith,
              find-reinsert now es (insert event t) i (insert-IsReady set laws clock event t r) us
                  (reinsert-absent _ e es t r ae ue others),
              find_inserted event t i r.0 ae,
            ))
        | inr once ↦ rw once (ground (arith, find-reinsert now es t i r us others))
      ]

  -- When Run begins to call, the queue has for each id what `after_run` makes of its event: one
  -- that is not due is untouched, a repeating one that is due is pending again at `now` and its
  -- interval, every other one that was due is gone, and no event is new.
  pub find-rearm :
      (now : ℕ) (q : TimeoutQueue set) (i : ℕ)
      → IsQueue set q
      → find i (by_expiration (rearm set clock now q).timeouts)
        ≡ after_run now (find i (by_expiration q.timeouts))
  unfolding rearm expired
  find-rearm now q i (o, u) =
      let n = upper_bound now q.timeouts in
      let es = by_expiration q.timeouts in
      let parts = IsUnique-split (take n es) (drop n es) (rw (take-drop n es) u) in
      let left = laws.erase_before-drop n q.timeouts in
      find-reinsert now (take n es) (erase_before n q.timeouts) i
        (erase_before-IsReady set laws clock n q.timeouts (o, u)) parts.0 (rw left parts.1)
      ∙ ap (λ zs. elim (find i (take n es)) [ none ↦ find i zs | some e ↦ again now e ]) left
      ∙ find-after_run now i (take n es) (drop n es) (laws.upper_bound-take now q.timeouts)
          (laws.upper_bound-drop now q.timeouts o)
      ∙ ap (λ zs. after_run now (find i zs)) (take-drop n es)
