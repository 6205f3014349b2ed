-- ===== src/Threading/ThreadPool/Waiting.antt =====
-- The tasks of a ThreadPool and the threads that wait for them (threading/ThreadPool.cc).
use claire_common.Common.{
  ℕ, ◌+◌, ◌≤◌, ◌≡◌, refl, sym, ◌∙◌, Bool, true, false, inl, inr, Bool-cases, List, [], ◌∷◌, ltb,
  length, arith,
}
use mathlib.Core.Path.{subst}
use claire_common.Threading.ThreadPool.{
  ThreadPool, started_pool, pop, take_or_wait, take_entry, notify_all, Step, call_run, resume_run,
  spurious_run, call_take, resume_take, spurious_take, leave, stop, stop_notify, Reaches, here,
  after,
}
use claire_common.Threading.ThreadPool.Woken.{
  true-ne-false, IsBetween, IsPool, run_task-IsPool, pop-IsBetween, notify_not_full-IsPool,
}

module _ {ℓ} {A : Type ℓ} {max num_threads : ℕ} where
  -- Without a bound no runner sleeps.
  unbounded-IsPool :
      (p : ThreadPool A)
      → ltb 0 p.max_queue_size ≡ false
      → IsBetween max num_threads 0 1 0 p
      → IsPool max num_threads p
  unbounded-IsPool p none h = record {
    bound = h.bound;
    order = h.order;
    fits = h.fits;
    takers = h.takers;
    runners = λ g. absurd (ground (arith, h.bound, (h.runners g).0));
    threads = h.threads;
    rest = h.rest;
  }

  take_or_wait-IsPool :
      (tasks : List A) (running : Bool) (p : ThreadPool A)
      → p.queue ≡ tasks
      → p.running ≡ running
      → IsBetween max num_threads 1 0 1 p
      → IsPool max num_threads (take_or_wait tasks running p)
  take_or_wait-IsPool [] true p e r h = record {
    bound = h.bound;
    order = h.order;
    fits = h.fits;
    takers =
        λ g. subst (λ (tasks : List A). length tasks ≤ p.takers_awake + 0) (sym e) (omega arith);
    runners = h.runners;
    threads = omega (arith, h.threads);
    rest = λ s. absurd (true-ne-false (sym r ∙ (h.rest s).1));
  }
  take_or_wait-IsPool [] false p e r h = record {
    bound = h.bound;
    order = h.order;
    fits = h.fits;
    takers =
        λ g. subst (λ (tasks : List A). length tasks ≤ p.takers_awake + 0) (sym e) (omega arith);
    runners = h.runners;
    threads = omega (arith, h.threads);
    rest = h.rest;
  }
  take_or_wait-IsPool (task ∷ others) running p e r h = elim (Bool-cases (ltb 0 p.max_queue_size)) [
    | inl bounded ↦ rw bounded (
        notify_not_full-IsPool p.runners_asleep (pop task others p) refl
          (pop-IsBetween task others p e h))
    | inr none ↦
        rw none (unbounded-IsPool (pop task others p) none (pop-IsBetween task others p e h))
  ]

  Step-IsPool :
      {p q : ThreadPool A} → Step p q → IsPool max num_threads p → IsPool max num_threads q
  unfolding take_entry notify_all
  Step-IsPool (call_run {p = p} task) h = run_task-IsPool task p (record {
    bound = h.bound;
    order = h.order;
    fits = h.fits;
    takers = h.takers;
    runners = λ g. ((h.runners g).0, omega (arith, (h.runners g).1));
    threads = h.threads;
    rest = h.rest;
  })
  Step-IsPool (resume_run {p = p} task n e) h =
      run_task-IsPool task (record p { runners_awake = n })
        (record {
          bound = h.bound;
          order = h.order;
          fits = h.fits;
          takers = h.takers;
          runners = λ g. ((h.runners g).0, omega (arith, (h.runners g).1, e));
          threads = h.threads;
          rest = h.rest;
        })
  Step-IsPool (spurious_run {p = p} n e) h = record {
    bound = h.bound;
    order = h.order;
    fits = h.fits;
    takers = h.takers;
    runners =
        λ g. ((h.runners (omega (arith, e))).0, omega (arith, (h.runners (omega (arith, e))).1));
    threads = h.threads;
    rest = h.rest;
  }
  Step-IsPool (call_take {p = p} n r e) h =
      take_or_wait-IsPool p.queue p.running (record p { workers = n }) refl refl
        (record {
          bound = h.bound;
          order = h.order;
          fits = h.fits;
          takers = λ g. omega (arith, h.takers g);
          runners = h.runners;
          threads = omega (arith, h.threads, e);
          rest = h.rest;
        })
  Step-IsPool (resume_take {p = p} n e) h =
      take_or_wait-IsPool p.queue p.running (record p { takers_awake = n }) refl refl
        (record {
          bound = h.bound;
          order = h.order;
          fits = h.fits;
          takers = λ g. omega (arith, h.takers g, e);
          runners = h.runners;
          threads = omega (arith, h.threads, e);
          rest = h.rest;
        })
  Step-IsPool (spurious_take {p = p} n e) h = record {
    bound = h.bound;
    order = h.order;
    fits = h.fits;
    takers = λ g. omega (arith, h.takers (omega (arith, e)));
    runners = h.runners;
    threads = omega (arith, h.threads, e);
    rest = λ s. (omega (arith, (h.rest s).0, e), (h.rest s).1);
  }
  Step-IsPool (leave {p = p} n r e) h = record {
    bound = h.bound;
    order = h.order;
    fits = h.fits;
    takers = h.takers;
    runners = h.runners;
    threads = omega (arith, h.threads, e);
    rest = h.rest;
  }
  Step-IsPool (stop {p = p} r) h = record {
    bound = h.bound;
    order = h.order;
    fits = h.fits;
    takers = h.takers;
    runners = h.runners;
    threads = h.threads;
    rest = λ s. ((h.rest s).0, refl);
  }
  Step-IsPool (stop_notify {p = p} r) h = record {
    bound = h.bound;
    order = h.order;
    fits = h.fits;
    takers = λ g. absurd (omega (arith, g));
    runners = h.runners;
    threads = omega (arith, h.threads);
    rest = λ s. (refl, r);
  }

-- In whatever order its threads come under the mutex and whatever wakes without reason, a started
-- ThreadPool takes tasks in the order in which they were accepted, each once, keeps its queue within
-- the bound, and loses no wake-up: while a thread sleeps in Take there are no more tasks than woken
-- takers, while one sleeps in Run no more free places than woken runners; no thread of the pool is
-- lost; and after Stop none sleeps in Take.
pub Reaches-IsPool {ℓ} :
    {A : Type ℓ} (max num_threads : ℕ) {p : ThreadPool A}
    → Reaches (started_pool max num_threads) p
    → IsPool max num_threads p
Reaches-IsPool max num_threads here = record {
  bound = refl;
  order = refl;
  fits = λ g. omega arith;
  takers = λ g. omega arith;
  runners = λ g. absurd (omega (arith, g));
  threads = omega arith;
  rest = λ s. absurd (true-ne-false (sym s));
}
Reaches-IsPool max num_threads (after steps step) =
    Step-IsPool step (Reaches-IsPool max num_threads steps)
