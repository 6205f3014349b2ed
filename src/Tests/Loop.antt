-- ===== src/Tests/Loop.antt =====
-- A loop with one task that waits, and a channel whose callback posts another.
use claire_common.Common.{◌≡◌, refl, List, [], ◌∷◌}
use claire_common.Events.Loop.{
  finish, posting, running, EventLoop, Active, wakeup_channel, channel, pass, new_event_loop,
  on_event, handle_all, perform, post, run_pending_tasks, call_all, call, wakeup,
}
use claire_common.Events.Loop.Delivery.{IsPass, pass-IsPass}

abbrev waiting : EventLoop
waiting = record new_event_loop {
  pending_tasks = record { label = 1; effects = posting 3 finish finish } ∷ [];
  wakeups = 1;
}

abbrev active : List Active
active = wakeup_channel ∷ channel (running 7 finish (posting 2 finish finish)) ∷ []

pass-waiting :
    ((pass active waiting).done_tasks ≡ 7 ∷ 1 ∷ 2 ∷ [])
    × ((pass active waiting).pending_tasks ≡ record { label = 3; effects = finish } ∷ [])
    × ((pass active waiting).wakeups ≡ 1)
unfolding pass new_event_loop on_event handle_all perform post run_pending_tasks call_all call
    wakeup
pass-waiting = (refl, refl, refl)

pass-IsPass_example : IsPass active waiting (pass active waiting)
pass-IsPass_example = pass-IsPass active waiting
