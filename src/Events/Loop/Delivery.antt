-- ===== src/Events/Loop/Delivery.antt =====
-- Every task that is posted to an EventLoop runs, once and in its order, and the loop is woken for
-- it (claire/common/events/EventLoop.cc).
use mathlib.Core.List.{append-nil, append_assoc}
use claire_common.Common.{
  ℕ, ◌≤◌, ◌≡◌, ◌⊎◌, inl, inr, refl, sym, ap, ◌∙◌, Bool, true, false, List, [], ◌∷◌, ◌++◌,
  Bool-cases, arith,
}
use claire_common.Events.Loop.{
  Effects, finish, posting, running, quitting, Task, EventLoop, wakeup, post, quit_loop,
  record_done, perform, call, call_all, run_pending_tasks, Active, wakeup_channel, channel,
  on_event, handle_all, pass,
}

-- The tasks that effects post, and the labels of those that they run at once, in their order.
unfoldable pub posted : Effects → List Task
posted finish = []
posted (posting label effects rest) = record { label = label; effects = effects } ∷ posted rest
posted (running label effects rest) = posted effects ++ posted rest
posted (quitting rest) = posted rest

unfoldable pub ran : Effects → List ℕ
ran finish = []
ran (posting label effects rest) = ran rest
ran (running label effects rest) = label ∷ ran effects ++ ran rest
ran (quitting rest) = ran rest

-- The same of a list of tasks, and of the channels that are handled.
unfoldable pub posted_all : List Task → List Task
posted_all [] = []
posted_all (t ∷ ts) = posted t.effects ++ posted_all ts

unfoldable pub ran_all : List Task → List ℕ
ran_all [] = []
ran_all (t ∷ ts) = (t.label ∷ ran t.effects) ++ ran_all ts

abbrev pub effects_of : Active → Effects
effects_of wakeup_channel = finish
effects_of (channel effects) = effects

unfoldable pub posted_by : List Active → List Task
posted_by [] = []
posted_by (a ∷ rest) = posted (effects_of a) ++ posted_by rest

unfoldable pub ran_by : List Active → List ℕ
ran_by [] = []
ran_by (a ∷ rest) = ran (effects_of a) ++ ran_by rest

post-pending :
    (here : Bool) (t : Task) (e : EventLoop)
    → ((post here t e).pending_tasks ≡ e.pending_tasks ++ t ∷ [])
      × ((post here t e).done_tasks ≡ e.done_tasks)
unfolding post wakeup
post-pending true t e = elim (Bool-cases (e.handling_channel)) [
  | inl inside ↦ rw inside (refl, refl)
  | inr outside ↦ rw outside (refl, refl)
]
post-pending false t e = (refl, refl)

-- A step adds `tasks` to those that wait and `labels` to those that are done.
abbrev Adds : EventLoop → EventLoop → List Task → List ℕ → Type 0
Adds e e' tasks labels =
    (e'.pending_tasks ≡ e.pending_tasks ++ tasks) × (e'.done_tasks ≡ e.done_tasks ++ labels)

Adds-then :
    (e e' e'' : EventLoop) (ts ts' : List Task) (ls ls' : List ℕ)
    → Adds e e' ts ls
    → Adds e' e'' ts' ls'
    → Adds e e'' (ts ++ ts') (ls ++ ls')
Adds-then e e' e'' ts ts' ls ls' (p, d) (p', d') = (
  p' ∙ ap (λ xs. xs ++ ts') p ∙ append_assoc e.pending_tasks ts ts',
  d' ∙ ap (λ xs. xs ++ ls') d ∙ append_assoc e.done_tasks ls ls',
)

perform-Adds : (f : Effects) (e : EventLoop) → Adds e (perform f e) (posted f) (ran f)
unfolding perform posted ran quit_loop
perform-Adds finish e = (sym (append-nil e.pending_tasks), sym (append-nil e.done_tasks))
perform-Adds (posting label effects rest) e =
    let t : Task = record { label = label; effects = effects } in
    let step = post-pending true t e in
    Adds-then e (post true t e) (perform rest (post true t e)) (t ∷ []) (posted rest) [] (ran rest)
      (step.0, step.1 ∙ sym (append-nil e.done_tasks)) (perform-Adds rest (post true t e))
perform-Adds (running label effects rest) e =
    let e1 = record_done label e in
    let e2 = perform effects e1 in
    Adds-then e e1 (perform rest e2) [] (posted effects ++ posted rest) (label ∷ [])
      (ran effects ++ ran rest) (sym (append-nil e.pending_tasks), refl)
      (Adds-then e1 e2 (perform rest e2) (posted effects) (posted rest) (ran effects) (ran rest)
        (perform-Adds effects e1) (perform-Adds rest e2))
perform-Adds (quitting rest) e = perform-Adds rest (record e { quit = true })

call_all-Adds :
    (ts : List Task) (e : EventLoop) → Adds e (call_all ts e) (posted_all ts) (ran_all ts)
unfolding call_all call posted_all ran_all
call_all-Adds [] e = (sym (append-nil e.pending_tasks), sym (append-nil e.done_tasks))
call_all-Adds (t ∷ ts) e =
    let e1 = record_done t.label e in
    let e2 = perform t.effects e1 in
    Adds-then e e2 (call_all ts e2) (posted t.effects) (posted_all ts) (t.label ∷ ran t.effects)
      (ran_all ts)
      (Adds-then e e1 e2 [] (posted t.effects) (t.label ∷ []) (ran t.effects)
        (sym (append-nil e.pending_tasks), refl) (perform-Adds t.effects e1))
      (call_all-Adds ts e2)

on_event-Adds :
    (a : Active) (e : EventLoop)
    → Adds e (on_event a e) (posted (effects_of a)) (ran (effects_of a))
unfolding on_event posted ran
on_event-Adds wakeup_channel e = (sym (append-nil e.pending_tasks), sym (append-nil e.done_tasks))
on_event-Adds (channel effects) e = perform-Adds effects e

handle_all-Adds :
    (active : List Active) (e : EventLoop)
    → Adds e (handle_all active e) (posted_by active) (ran_by active)
unfolding handle_all posted_by ran_by
handle_all-Adds [] e = (sym (append-nil e.pending_tasks), sym (append-nil e.done_tasks))
handle_all-Adds (a ∷ rest) e =
    let e1 = on_event a (record e { handling_channel = true }) in
    Adds-then e e1 (handle_all rest e1) (posted (effects_of a)) (posted_by rest)
      (ran (effects_of a)) (ran_by rest) (on_event-Adds a (record e { handling_channel = true }))
      (handle_all-Adds rest e1)

-- Tasks that wait are seen: the eventfd is readable, or the pass that is under way runs them.
abbrev pub IsAwake : EventLoop → Type 0
IsAwake e = (e.pending_tasks ≡ []) ⊎ ((1 ≤ e.wakeups) ⊎ (e.handling_channel ≡ true))

post-IsAwake : (here : Bool) (t : Task) (e : EventLoop) → IsAwake (post here t e)
unfolding post wakeup
post-IsAwake true t e = elim (Bool-cases (e.handling_channel)) [
  | inl inside ↦ rw inside (inr (inr refl))
  | inr outside ↦ rw outside (inr (inl (omega arith)))
]
post-IsAwake false t e = inr (inl (omega arith))

perform-IsAwake : (f : Effects) (e : EventLoop) → IsAwake e → IsAwake (perform f e)
unfolding perform quit_loop
perform-IsAwake finish e h = h
perform-IsAwake (posting label effects rest) e h =
    let t : Task = record { label = label; effects = effects } in
    perform-IsAwake rest (post true t e) (post-IsAwake true t e)
perform-IsAwake (running label effects rest) e h =
    perform-IsAwake rest (perform effects (record_done label e))
      (perform-IsAwake effects (record_done label e) h)
perform-IsAwake (quitting rest) e h = perform-IsAwake rest (record e { quit = true }) h

post-handling : (t : Task) (e : EventLoop) → (post true t e).handling_channel ≡ e.handling_channel
unfolding post wakeup
post-handling t e = elim (Bool-cases (e.handling_channel)) [
  | inl inside ↦ rw inside refl
  | inr outside ↦ rw outside refl
]

perform-handling :
    (f : Effects) (e : EventLoop) → (perform f e).handling_channel ≡ e.handling_channel
unfolding perform quit_loop
perform-handling finish e = refl
perform-handling (posting label effects rest) e =
    let t : Task = record { label = label; effects = effects } in
    perform-handling rest (post true t e) ∙ post-handling t e
perform-handling (running label effects rest) e =
    perform-handling rest (perform effects (record_done label e))
    ∙ perform-handling effects (record_done label e)
perform-handling (quitting rest) e = perform-handling rest (record e { quit = true })

call_all-IsAwake :
    (ts : List Task) (e : EventLoop)
    → IsAwake e
    → IsAwake (call_all ts e) × ((call_all ts e).handling_channel ≡ e.handling_channel)
unfolding call_all call
call_all-IsAwake [] e h = (h, refl)
call_all-IsAwake (t ∷ ts) e h =
    let e1 = record_done t.label e in
    let rest = call_all-IsAwake ts (perform t.effects e1) (perform-IsAwake t.effects e1 h) in
    (rest.0, rest.1 ∙ perform-handling t.effects e1)

-- What a pass over these channels leaves.
pub record IsPass (active : List Active) (e e' : EventLoop) : Type 0 where
  pub pending : e'.pending_tasks ≡ posted_all (e.pending_tasks ++ posted_by active)
  pub done_tasks :
      e'.done_tasks
      ≡ (e.done_tasks ++ ran_by active) ++ ran_all (e.pending_tasks ++ posted_by active)
  pub awake : (e'.pending_tasks ≡ []) ⊎ (1 ≤ e'.wakeups)

awake_outside :
    (e : EventLoop)
    → IsAwake e
    → e.handling_channel ≡ false
    → (e.pending_tasks ≡ []) ⊎ (1 ≤ e.wakeups)
awake_outside e (inl empty) h = inl empty
awake_outside e (inr (inl woken)) h = inr woken
awake_outside e (inr (inr inside)) h = absurd (ground arith)

-- A pass of the loop runs, after the callbacks of the channels, every task that waited before it and
-- every task that those callbacks posted, each once and in the order of posting; what the tasks post
-- waits for the next pass, and if any does the loop has been woken for it.
pub pass-IsPass : (active : List Active) (e : EventLoop) → IsPass active e (pass active e)
unfolding pass run_pending_tasks
pass-IsPass active e =
    let handled = handle_all-Adds active e in
    let e1 : EventLoop = record (handle_all active e) {
      handling_channel = false;
      pending_tasks = [];
    } in
    let ts = (handle_all active e).pending_tasks in
    let called = call_all-Adds ts e1 in
    let awake = call_all-IsAwake ts e1 (inl refl) in
    record {
      pending = called.0 ∙ ap posted_all handled.0;
      done_tasks =
          called.1
          ∙ ap (λ ls. ls ++ ran_all ts) handled.1
          ∙ ap (λ xs. (e.done_tasks ++ ran_by active) ++ ran_all xs) handled.0;
      awake = awake_outside (call_all ts e1) awake.0 awake.1;
    }
