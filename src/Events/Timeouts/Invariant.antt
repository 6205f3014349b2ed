-- ===== src/Events/Timeouts/Invariant.antt =====
-- Every operation of TimeoutQueue (claire/common/events/TimeoutQueue.cc) keeps the events in the
-- order of their expirations, with different ids.
use claire_common.Common.{ℕ, sym, List, [], ◌∷◌, Bool-cases, Option-cases, inl, inr}
use claire_common.Common.Word.{lt_int64}
use claire_common.Events.Timeouts.{
  Event, EventSet, TimeoutQueue, Command, Callback, add, add_repeating, cancel, return_from, first,
  is_repeating, add_in_loop, add_timeout, add_repeating_timeout, cancel_in_loop, perform, call,
  call_all, reinsert, rearm, expired, run, reset_timerfd, take_id, next_expiration,
}
use claire_common.Events.Timeouts.Order.{
  IsEventSet, IsReady, IsQueue, find, IsOrdered-insert, IsUnique-insert, IsOrdered-without,
  IsUnique-without, IsOrdered-drop, IsUnique-drop,
}

module _ (set : EventSet) (laws : IsEventSet set) (clock : ℕ → ℕ) where
  open set use {Timeouts, by_expiration, insert, erase, erase_before, upper_bound}

  pub insert-IsReady :
      (e : Event) (t : Timeouts) → IsReady (by_expiration t) → IsReady (by_expiration (insert e t))
  insert-IsReady e t (o, u) = elim (Option-cases (find e.id (by_expiration t))) [
    | inl h ↦
        let (front, back, split, new, before, after) = laws.insert_new e t h o in
        rw new (
          IsOrdered-insert e front back (rw (sym split) o) before after,
          IsUnique-insert e front back (rw (sym split) h) (rw (sym split) u),
        )
    | inr (e', h) ↦ rw (laws.insert_present e e' t h) (o, u)
  ]

  pub erase-IsReady :
      (id : ℕ) (t : Timeouts) → IsReady (by_expiration t) → IsReady (by_expiration (erase id t))
  erase-IsReady id t (o, u) =
      rw (laws.erase-without id t)
        (IsOrdered-without id (by_expiration t) o, IsUnique-without id (by_expiration t) u)

  pub erase_before-IsReady :
      (n : ℕ) (t : Timeouts)
      → IsReady (by_expiration t)
      → IsReady (by_expiration (erase_before n t))
  erase_before-IsReady n t (o, u) =
      rw (laws.erase_before-drop n t)
        (IsOrdered-drop n (by_expiration t) o, IsUnique-drop n (by_expiration t) u)

  reinsert-IsReady :
      (now : ℕ) (es : List Event) (t : Timeouts)
      → IsReady (by_expiration t)
      → IsReady (by_expiration (reinsert set clock now es t))
  unfolding reinsert
  reinsert-IsReady now [] t r = r
  reinsert-IsReady now (e ∷ es) t r = elim (Bool-cases (is_repeating e)) [
    | inl same ↦ rw same (reinsert-IsReady now es _ (insert-IsReady _ t r))
    | inr other ↦ rw other (reinsert-IsReady now es t r)
  ]

  add_in_loop-IsQueue :
      (e : Event) (q : TimeoutQueue set) → IsQueue set q → IsQueue set (add_in_loop set clock e q)
  unfolding add_in_loop reset_timerfd
  add_in_loop-IsQueue e q r = elim (Bool-cases (lt_int64 e.expiration (next_expiration set q))) [
    | inl same ↦ rw same (insert-IsReady e q.timeouts r)
    | inr other ↦ rw other (insert-IsReady e q.timeouts r)
  ]

  pub perform-IsQueue :
      (c : Command) (q : TimeoutQueue set) → IsQueue set q → IsQueue set (perform set clock c q)
  unfolding perform add_timeout add_repeating_timeout cancel_in_loop take_id
  perform-IsQueue (add expiration callback) q r = add_in_loop-IsQueue _ _ r
  perform-IsQueue (add_repeating now interval callback) q r = add_in_loop-IsQueue _ _ r
  perform-IsQueue (cancel id) q r = erase-IsReady id q.timeouts r

  call-IsQueue :
      (c : Callback) (q : TimeoutQueue set) → IsQueue set q → IsQueue set (call set clock c q)
  unfolding call
  call-IsQueue (return_from label) q r = r
  call-IsQueue (first command callback) q r =
      call-IsQueue callback (perform set clock command q) (perform-IsQueue command q r)

  call_all-IsQueue :
      (es : List Event) (q : TimeoutQueue set)
      → IsQueue set q
      → IsQueue set (call_all set clock es q).0
  unfolding call_all
  call_all-IsQueue [] q r = r
  call_all-IsQueue (e ∷ es) q r =
      call_all-IsQueue es (call set clock e.callback q) (call-IsQueue e.callback q r)

  -- Whatever the callbacks do to the queue, Run keeps its events in the order of their expirations
  -- and their ids different.
  pub run-IsQueue :
      (now : ℕ) (q : TimeoutQueue set) → IsQueue set q → IsQueue set (run set clock now q).0
  unfolding run rearm
  run-IsQueue now q r =
      call_all-IsQueue (expired set clock now q) (rearm set clock now q)
        (reinsert-IsReady now (expired set clock now q) _ (erase_before-IsReady _ q.timeouts r))
