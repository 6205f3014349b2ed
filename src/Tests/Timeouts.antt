-- ===== src/Tests/Timeouts.antt =====
-- TimeoutQueue over lists of events, where the laws of its container hold, and runs of it.
use claire_common.Common.{
  ℕ, suc, ◌+◌, ◌-◌, ◌^◌, ◌≡◌, refl, ap, ◌∙◌, false, none, some, List, [], ◌∷◌, ◌++◌, map,
  if◌then◌else◌, All, take, drop, Bool-cases, inl, inr, arith,
}
use claire_common.Common.Word.{lt_int64}
use claire_common.Events.Timeouts.{
  Event, EventSet, TimeoutQueue, add, cancel, return_from, first, first_expiration, next_expiration,
  reset_timerfd, add_in_loop, take_id, add_timeout, cancel_in_loop, perform, call, reinsert,
  call_all, expired, rearm, run,
}
use claire_common.Events.Timeouts.Order.{
  IsEventSet, IsQueue, IsOrdered, IsUnique, IsDue, IsLater, find, without,
}
use claire_common.Events.Timeouts.Invariant.{}
use claire_common.Events.Timeouts.Firing.{due, run-due, find-rearm}
use claire_common.Events.Timeouts.Timer.{next_expiration-least}

due_count : ℕ → List Event → ℕ
due_count now [] = 0
due_count now (e ∷ es) =
    let rest = due_count now es in if lt_int64 now e.expiration then 0 else suc rest

insert_ordered : Event → List Event → List Event
insert_ordered e [] = e ∷ []
insert_ordered e (x ∷ xs) =
    let rest = insert_ordered e xs in
    if lt_int64 e.expiration x.expiration then e ∷ x ∷ xs else x ∷ rest

insert_event : Event → List Event → List Event
insert_event e es = elim (find e.id es) [ none ↦ insert_ordered e es | some x ↦ es ]

abbrev lists : EventSet
lists = record {
  Timeouts = List Event;
  empty = [];
  by_expiration = λ es. es;
  upper_bound = due_count;
  insert = insert_event;
  erase_before = drop;
  erase = without;
}

due_count-take : (now : ℕ) (es : List Event) → All (IsDue now) (take (due_count now es) es)
unfolding due_count
due_count-take now [] = tt
due_count-take now (e ∷ es) = elim (Bool-cases (lt_int64 now e.expiration)) [
  | inl later ↦ rw later tt
  | inr sooner ↦ rw sooner (sooner, due_count-take now es)
]

IsLater-tail :
    (now : ℕ) (e : Event) (es : List Event)
    → IsLater now e
    → All (λ x. lt_int64 x.expiration e.expiration ≡ false) es
    → All (IsLater now) es
IsLater-tail now e [] h k = tt
IsLater-tail now e (x ∷ xs) h (hx, hs) = (ground arith, IsLater-tail now e xs h hs)

due_count-drop :
    (now : ℕ) (es : List Event) → IsOrdered es → All (IsLater now) (drop (due_count now es) es)
unfolding due_count IsOrdered
due_count-drop now [] o = tt
due_count-drop now (e ∷ es) (h, o) = elim (Bool-cases (lt_int64 now e.expiration)) [
  | inl later ↦ rw later (later, IsLater-tail now e es later h)
  | inr sooner ↦ rw sooner (due_count-drop now es o)
]

insert_ordered-splits :
    (e : Event) (es : List Event)
    → IsOrdered es
    → (front : List Event) × (back : List Event) × (es ≡ front ++ back)
      × (insert_ordered e es ≡ front ++ e ∷ back)
      × All (IsDue e.expiration) front
      × All (IsLater e.expiration) back
unfolding insert_ordered IsOrdered
insert_ordered-splits e [] o = ([], [], refl, refl, tt, tt)
insert_ordered-splits e (x ∷ xs) (h, o) =
    let (front, back, split, new, before, after) = insert_ordered-splits e xs o in
    elim (Bool-cases (lt_int64 e.expiration x.expiration)) [
      | inl later ↦
          rw later ([], x ∷ xs, refl, refl, tt, (later, IsLater-tail e.expiration x xs later h))
      | inr sooner ↦
          rw sooner (
            x ∷ front,
            back,
            ap (λ ys. x ∷ ys) split,
            ap (λ ys. x ∷ ys) new,
            (sooner, before),
            after,
          )
    ]

insert_event_present :
    (e e' : Event) (es : List Event) → find e.id es ≡ some e' → insert_event e es ≡ es
unfolding insert_event
insert_event_present e e' es h = ap (λ o. elim o [ none ↦ insert_ordered e es | some x ↦ es ]) h

insert_event_new :
    (e : Event) (es : List Event) → find e.id es ≡ none → insert_event e es ≡ insert_ordered e es
unfolding insert_event
insert_event_new e es h = ap (λ o. elim o [ none ↦ insert_ordered e es | some x ↦ es ]) h

lists-IsEventSet : IsEventSet lists
lists-IsEventSet = record {
  empty-nil = refl;
  upper_bound-take = due_count-take;
  upper_bound-drop = due_count-drop;
  insert_present = λ e e' t h. insert_event_present e e' t h;
  insert_new = λ e t h o.
      let (front, back, split, new, before, after) = insert_ordered-splits e t o in
      (front, back, split, insert_event_new e t h ∙ new, before, after);
  erase_before-drop = λ n t. refl;
  erase-without = λ id t. refl;
}

-- Timeout 1 at 5 cancels 2 and adds one for 3; 2 repeats each 10, 3 waits until 40.
abbrev one : Event
one = record {
  id = 1;
  expiration = 5;
  repeat_interval = 2 ^ 64 - 1;
  callback = first (cancel 2) (first (add 3 (return_from 1)) (return_from 0));
}

abbrev two : Event
two = record { id = 2; expiration = 7; repeat_interval = 10; callback = return_from 2 }

abbrev three : Event
three = record { id = 3; expiration = 40; repeat_interval = 2 ^ 64 - 1; callback = return_from 3 }

abbrev pending : TimeoutQueue lists
pending = record { timeouts = one ∷ two ∷ three ∷ []; next = 4; timer = none; reads = 0 }

pending-IsQueue : IsQueue lists pending
unfolding IsOrdered IsUnique find
pending-IsQueue = (((refl, (refl, tt)), ((refl, tt), (tt, tt))), (refl, (refl, (refl, tt))))

abbrev four : Event
four = record { id = 4; expiration = 6; repeat_interval = 2 ^ 64 - 1; callback = return_from 4 }

abbrev ticking : ℕ → ℕ
ticking n = 8 + n

-- The run calls 1 and 2; 2 was set again before 1 cancelled it, and 4, which 1 added, waits.
run-pending :
    ((run lists ticking 8 pending).1 ≡ 1 ∷ 2 ∷ [])
    × (map (λ e. e.id) (run lists ticking 8 pending).0.timeouts ≡ 4 ∷ 3 ∷ [])
    × ((run lists ticking 8 pending).2 ≡ 3)
unfolding run rearm expired reinsert call_all call perform add_timeout take_id add_in_loop
    cancel_in_loop reset_timerfd next_expiration first_expiration insert_event insert_ordered
    due_count find without
run-pending = (refl, refl, refl)

run-due_example : (run lists ticking 8 pending).1 ≡ 1 ∷ 2 ∷ []
unfolding due
run-due_example = run-due lists lists-IsEventSet ticking 8 pending pending-IsQueue

find-rearm_example :
    find 2 (rearm lists ticking 8 pending).timeouts ≡ some (record two { expiration = 18 })
unfolding find
find-rearm_example = find-rearm lists lists-IsEventSet ticking 8 pending 2 pending-IsQueue

next_expiration-least_example :
    All
      (λ e. lt_int64 e.expiration (next_expiration lists pending) ≡ false)
      (one ∷ two ∷ three ∷ [])
next_expiration-least_example = next_expiration-least lists pending pending-IsQueue
