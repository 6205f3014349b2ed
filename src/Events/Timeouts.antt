-- ===== src/Events/Timeouts.antt =====
-- TimeoutQueue (claire/common/events/TimeoutQueue.h and .cc): timeouts that call back once or
-- repeatedly. `Timeouts` here is the boost::multi_index_container that holds the events.
use claire_common.Common.{
  ℕ, zero, suc, ◌+◌, ◌-◌, ◌*◌, ◌/◌, ◌%◌, ◌^◌, ◌≤◌, ◌<◌, ◌≡◌, refl, Bool, true, false, not, Option,
  none, some, List, [], ◌∷◌, ◌++◌, ltb, ◌==◌, if◌then◌else◌, take,
}
use claire_common.Common.Word.{add_int64, sub_int64, lt_int64}
pub mod Order
pub mod Invariant
pub mod Firing
pub mod Timer

-- What a callback does to the queue it is called from; the label stands for all else it does.
mutual
  pub data Callback : Type 0 where
    return_from : ℕ → Callback
    first : Command → Callback → Callback

  pub data Command : Type 0 where
    add : ℕ → Callback → Command
    add_repeating : ℕ → ℕ → Callback → Command
    cancel : ℕ → Command

pub record Event : Type 0 where
  pub id : ℕ
  pub expiration : ℕ
  pub repeat_interval : ℕ
  pub callback : Callback

-- boost::multi_index_container<Event, …>, of which the queue uses this. Iterators of the index by
-- expiration are places in `by_expiration`.
pub record EventSet : Type 1 where
  pub Timeouts : Type 0
  pub empty : Timeouts
  pub by_expiration : Timeouts → List Event
  pub upper_bound : ℕ → Timeouts → ℕ
  pub insert : Event → Timeouts → Timeouts
  pub erase_before : ℕ → Timeouts → Timeouts
  pub erase : ℕ → Timeouts → Timeouts

pub record Timespec : Type 0 where
  pub tv_sec : ℕ
  pub tv_nsec : ℕ

-- `delta` is at least 100 where it is divided, so its division is that of ℕ.
unfoldable pub how_much_time_from_now : ℕ → ℕ → Timespec
how_much_time_from_now when_ now =
    let difference = sub_int64 when_ now in
    let delta = if lt_int64 difference 100 then 100 else difference in
    record { tv_sec = delta / 1000000; tv_nsec = delta % 1000000 * 1000 }

-- `repeat_interval >= 0` in int64_t.
abbrev pub is_repeating : Event → Bool
is_repeating e = not (lt_int64 e.repeat_interval 0)

abbrev pub int64_max : ℕ
int64_max = 0x7fff_ffff_ffff_ffff

unfoldable pub first_expiration : List Event → ℕ
first_expiration [] = int64_max
first_expiration (e ∷ es) = e.expiration

module _ (set : EventSet) where
  open set use {Timeouts, empty, by_expiration, upper_bound, insert, erase_before, erase}

  -- `timer` is what the timer was last set to, `reads` how often the clock was read.
  pub record TimeoutQueue : Type 0 where
    pub timeouts : Timeouts
    pub next : ℕ
    pub timer : Option Timespec
    pub reads : ℕ

  unfoldable pub new_timeout_queue : TimeoutQueue
  new_timeout_queue = record { timeouts = empty; next = 1; timer = none; reads = 0 }

  unfoldable pub next_expiration : TimeoutQueue → ℕ
  next_expiration q = first_expiration (by_expiration q.timeouts)

  -- The clock gives its n-th reading, in microseconds. In the loop's own thread EventLoop::Run
  -- calls what it is given at once.
  module _ (clock : ℕ → ℕ) where
    unfoldable pub reset_timerfd : ℕ → TimeoutQueue → TimeoutQueue
    reset_timerfd expiration q = record q {
      timer = some (how_much_time_from_now expiration (clock q.reads));
      reads = q.reads + 1;
    }

    unfoldable pub add_in_loop : Event → TimeoutQueue → TimeoutQueue
    add_in_loop event q =
        let inserted = record q { timeouts = insert event q.timeouts } in
        if lt_int64 event.expiration (next_expiration q)
        then reset_timerfd (next_expiration inserted) inserted
        else inserted

    -- `next_++`.
    unfoldable pub take_id : TimeoutQueue → TimeoutQueue
    take_id q = record q { next = add_int64 q.next 1 }

    unfoldable pub add_timeout : ℕ → Callback → TimeoutQueue → TimeoutQueue × ℕ
    add_timeout expiration callback q =
        let event : Event = record {
          id = q.next;
          expiration = expiration;
          repeat_interval = 2 ^ 64 - 1;
          callback = callback;
        } in
        (add_in_loop event (take_id q), q.next)

    unfoldable pub add_repeating_timeout : ℕ → ℕ → Callback → TimeoutQueue → TimeoutQueue × ℕ
    add_repeating_timeout now interval callback q =
        let event : Event = record {
          id = q.next;
          expiration = add_int64 now interval;
          repeat_interval = interval;
          callback = callback;
        } in
        (add_in_loop event (take_id q), q.next)

    unfoldable pub cancel_in_loop : ℕ → TimeoutQueue → TimeoutQueue
    cancel_in_loop id q = record q { timeouts = erase id q.timeouts }

    unfoldable pub perform : Command → TimeoutQueue → TimeoutQueue
    perform (add expiration callback) q = (add_timeout expiration callback q).0
    perform (add_repeating now interval callback) q =
        (add_repeating_timeout now interval callback q).0
    perform (cancel id) q = cancel_in_loop id q

    unfoldable pub call : Callback → TimeoutQueue → TimeoutQueue
    call (return_from label) q = q
    call (first command callback) q = call callback (perform command q)

    -- The first loop of Run, over `expired`.
    unfoldable pub reinsert : ℕ → List Event → Timeouts → Timeouts
    reinsert now [] t = t
    reinsert now (e ∷ es) t =
        let event = record e { expiration = add_int64 now e.repeat_interval } in
        reinsert now es (if is_repeating e then insert event t else t)

    -- The second loop, with the ids of the events that were called.
    unfoldable pub call_all : List Event → TimeoutQueue → TimeoutQueue × List ℕ
    call_all [] q = (q, [])
    call_all (e ∷ es) q = let rest = call_all es (call e.callback q) in (rest.0, e.id ∷ rest.1)

    unfoldable pub expired : ℕ → TimeoutQueue → List Event
    expired now q = take (upper_bound now q.timeouts) (by_expiration q.timeouts)

    -- What Run does before the first callback.
    unfoldable pub rearm : ℕ → TimeoutQueue → TimeoutQueue
    rearm now q =
        let kept = erase_before (upper_bound now q.timeouts) q.timeouts in
        record q { timeouts = reinsert now (expired now q) kept }

    -- Run, with the ids of the events whose callbacks it called.
    unfoldable pub run : ℕ → TimeoutQueue → TimeoutQueue × List ℕ × ℕ
    run now q =
        let called = call_all (expired now q) (rearm now q) in
        (called.0, called.1, next_expiration called.0)

    unfoldable pub on_timer : TimeoutQueue → TimeoutQueue × List ℕ
    on_timer q =
        let result = run (clock q.reads) (record q { reads = q.reads + 1 }) in
        (reset_timerfd result.2 result.0, result.1)
