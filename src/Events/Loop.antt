-- ===== src/Events/Loop.antt =====
-- EventLoop (claire/common/events/EventLoop.h and .cc): tasks that threads post to the loop, and the
-- loop that runs them between its polls.
use claire_common.Common.{
  ℕ, zero, suc, ◌+◌, ◌≡◌, Bool, true, false, not, ◌&&◌, ◌||◌, List, [], ◌∷◌, ◌++◌, ltb,
  if◌then◌else◌,
}
pub mod Delivery

-- What a task or the callback of a channel does to the loop: it posts a task, runs one, or quits.
-- A task is a label, which stands for all else it does, and its effects.
pub data Effects : Type 0 where
  finish : Effects
  posting running : ℕ → Effects → Effects → Effects
  quitting : Effects → Effects

pub record Task : Type 0 where
  pub label : ℕ
  pub effects : Effects

-- Where the loop's thread is: outside the callbacks of channels, or inside one, where
-- `current_active_channel_` is not NULL. `wakeups` is the count of the eventfd, `done_tasks` the
-- labels of the tasks that ran, in their order.
pub record EventLoop : Type 0 where
  pub quit : Bool
  pub handling_channel : Bool
  pub pending_tasks : List Task
  pub wakeups : ℕ
  pub done_tasks : List ℕ

unfoldable pub new_event_loop : EventLoop
new_event_loop = record {
  quit = false;
  handling_channel = false;
  pending_tasks = [];
  wakeups = 0;
  done_tasks = [];
}

unfoldable pub wakeup : EventLoop → EventLoop
wakeup e = record e { wakeups = e.wakeups + 1 }

unfoldable pub post : Bool → Task → EventLoop → EventLoop
post in_loop_thread t e =
    let pushed = record e { pending_tasks = e.pending_tasks ++ t ∷ [] } in
    if not in_loop_thread || not e.handling_channel then wakeup pushed else pushed

unfoldable pub quit_loop : Bool → EventLoop → EventLoop
quit_loop in_loop_thread e =
    let stopped = record e { quit = true } in if in_loop_thread then stopped else wakeup stopped

abbrev pub record_done : ℕ → EventLoop → EventLoop
record_done label e = record e { done_tasks = e.done_tasks ++ label ∷ [] }

-- In the loop's thread Run calls the task at once.
unfoldable pub perform : Effects → EventLoop → EventLoop
perform finish e = e
perform (posting label effects rest) e =
    perform rest (post true (record { label = label; effects = effects }) e)
perform (running label effects rest) e = perform rest (perform effects (record_done label e))
perform (quitting rest) e = perform rest (quit_loop true e)

unfoldable pub call : Task → EventLoop → EventLoop
call t e = perform t.effects (record_done t.label e)

-- Run and Post of another thread.
unfoldable pub run_elsewhere : Task → EventLoop → EventLoop
run_elsewhere t e = post false t e

unfoldable pub call_all : List Task → EventLoop → EventLoop
call_all [] e = e
call_all (t ∷ ts) e = call_all ts (call t e)

unfoldable pub run_pending_tasks : EventLoop → EventLoop
run_pending_tasks e = call_all e.pending_tasks (record e { pending_tasks = [] })

-- A channel that poll reported: the wakeup channel, or another with what its callback does.
pub data Active : Type 0 where
  wakeup_channel : Active
  channel : Effects → Active

unfoldable pub on_event : Active → EventLoop → EventLoop
on_event wakeup_channel e = record e { wakeups = 0 }
on_event (channel effects) e = perform effects e

unfoldable pub handle_all : List Active → EventLoop → EventLoop
handle_all [] e = e
handle_all (a ∷ others) e = handle_all others (on_event a (record e { handling_channel = true }))

-- One pass of the loop, over the channels that poll reported, sorted by priority.
unfoldable pub pass : List Active → EventLoop → EventLoop
pass active e = run_pending_tasks (record (handle_all active e) { handling_channel = false })

-- The loop over the passes, one for each poll, until it is told to quit.
unfoldable pub loop : List (List Active) → EventLoop → EventLoop
loop [] e = e
loop (active ∷ polls) e = let rest = loop polls (pass active e) in if e.quit then e else rest
