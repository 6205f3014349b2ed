-- ===== src/Events/Timeouts/Timer.antt =====
-- When TimeoutQueue (claire/common/events/TimeoutQueue.cc) has its timer set, and to what, and its
-- events as a map from ids.
use claire_common.Common.{
  ℕ, ◌+◌, ◌-◌, ◌*◌, ◌^◌, ◌<◌, ◌≡◌, refl, ap, sym, ◌∙◌, false, none, some, List, [], ◌∷◌, ◌++◌, ltb,
  ◌==◌, if◌then◌else◌, All, Bool-cases, inl, inr, arith,
}
use claire_common.Common.Word.{lt_int64}
use claire_common.Events.Timeouts.{
  Event, EventSet, TimeoutQueue, how_much_time_from_now, first_expiration, next_expiration,
  add_in_loop, cancel_in_loop, reset_timerfd,
}
use claire_common.Events.Timeouts.Order.{
  IsEventSet, IsQueue, IsOrdered, IsDue, IsLater, find, find_insert, find-without,
}

-- Between two moments that are no negative int64_t, the timer waits the microseconds from `now` to
-- `when`, at least 100, with nanoseconds that timerfd_settime accepts.
pub how_much_time_from_now_lem :
    (when_ now : ℕ)
    → when_ < 2 ^ 63
    → now < 2 ^ 63
    → ((how_much_time_from_now when_ now).tv_sec * 1000000000
          + (how_much_time_from_now when_ now).tv_nsec
        ≡ (if ltb (when_ - now) 100 then 100 else when_ - now) * 1000)
      × ((how_much_time_from_now when_ now).tv_nsec < 1000000000)
unfolding how_much_time_from_now
how_much_time_from_now_lem when_ now h k = ground arith

first_expiration-least :
    (es : List Event)
    → IsOrdered es
    → All (λ e. lt_int64 e.expiration (first_expiration es) ≡ false) es
unfolding first_expiration IsOrdered
first_expiration-least [] o = tt
first_expiration-least (e ∷ es) (h, o) = (ground arith, h)

-- NextExpiration is no later than any pending event.
pub next_expiration-least :
    (set : EventSet) (q : TimeoutQueue set)
    → IsQueue set q
    → All
        (λ e. lt_int64 e.expiration (next_expiration set q) ≡ false)
        (set.by_expiration q.timeouts)
unfolding next_expiration
next_expiration-least set q (o, u) = first_expiration-least (set.by_expiration q.timeouts) o

first_expiration_insert :
    (e : Event) (front back : List Event)
    → e.expiration < 2 ^ 64
    → All (IsDue e.expiration) front
    → All (IsLater e.expiration) back
    → first_expiration (front ++ e ∷ back) ≡ (
        if lt_int64 e.expiration (first_expiration (front ++ back))
        then e.expiration
        else first_expiration (front ++ back))
unfolding first_expiration
first_expiration_insert e [] [] bound hf hb = ground arith
first_expiration_insert e [] (x ∷ xs) bound hf (hx, hs) = rw hx refl
first_expiration_insert e (x ∷ front) back bound (hx, hf) hb = rw hx refl

module _ (set : EventSet) (laws : IsEventSet set) (clock : ℕ → ℕ) where
  open set use {Timeouts, by_expiration, insert}

  -- Adding an event with a new id makes it the next to expire and sets the timer for it if it
  -- expires before all that are pending; otherwise neither changes.
  pub add_in_loop-next_expiration :
      (e : Event) (q : TimeoutQueue set)
      → IsQueue set q
      → find e.id (by_expiration q.timeouts) ≡ none
      → e.expiration < 2 ^ 64
      → (next_expiration set (add_in_loop set clock e q) ≡ (
          if lt_int64 e.expiration (next_expiration set q)
          then e.expiration
          else next_expiration set q))
        × ((add_in_loop set clock e q).timer ≡ (
            if lt_int64 e.expiration (next_expiration set q)
            then some (how_much_time_from_now e.expiration (clock q.reads))
            else q.timer))
  unfolding add_in_loop next_expiration reset_timerfd
  add_in_loop-next_expiration e q (o, u) h bound =
      let (front, back, split, new, before, after) = laws.insert_new e q.timeouts h o in
      let first =
        ap first_expiration new
        ∙ first_expiration_insert e front back bound before after
        ∙ ap
            (λ es.
              if lt_int64 e.expiration (first_expiration es)
              then e.expiration
              else first_expiration es)
            (sym split) in
      elim (Bool-cases (lt_int64 e.expiration (first_expiration (by_expiration q.timeouts)))) [
        | inl earlier ↦ rw earlier (
          first ∙ rw earlier refl,
          ap (λ t. some (how_much_time_from_now t (clock q.reads))) (first ∙ rw earlier refl),
        )
        | inr later ↦ rw later (first ∙ rw later refl, refl)
      ]

  inserted :
      (e : Event) (q : TimeoutQueue set)
      → (add_in_loop set clock e q).timeouts ≡ insert e q.timeouts
  unfolding add_in_loop reset_timerfd
  inserted e q = elim (Bool-cases (lt_int64 e.expiration (next_expiration set q))) [
    | inl earlier ↦ rw earlier refl
    | inr later ↦ rw later refl
  ]

  -- As a map from ids to events: AddInLoop puts an event with a new id, CancelInLoop takes the
  -- event with the id away, and neither touches another id.
  pub in_loop-find :
      (e : Event) (q : TimeoutQueue set) (i : ℕ)
      → IsQueue set q
      → find e.id (by_expiration q.timeouts) ≡ none
      → (find i (by_expiration (add_in_loop set clock e q).timeouts)
          ≡ (if e.id == i then some e else find i (by_expiration q.timeouts)))
        × (find i (by_expiration (cancel_in_loop set clock e.id q).timeouts)
            ≡ (if e.id == i then none else find i (by_expiration q.timeouts)))
  unfolding cancel_in_loop
  in_loop-find e q i (o, u) h =
      let (front, back, split, new, before, after) = laws.insert_new e q.timeouts h o in
      (
        ap (λ t. find i (by_expiration t)) (inserted e q)
            ∙ ap (find i) new
            ∙ find_insert i e front back (rw (sym split) h)
            ∙ ap (λ es. if e.id == i then some e else find i es) (sym split),
        ap (find i) (laws.erase-without e.id q.timeouts)
            ∙ find-without e.id i (by_expiration q.timeouts),
      )
