-- ===== src/Threading/ThreadPool/Woken.antt =====
-- What Run and the notifications of Take do to the threads that wait for a ThreadPool
-- (threading/ThreadPool.cc).
use claire_common.Common.{
  ℕ, zero, suc, ◌+◌, ◌≤◌, ◌<◌, ◌≡◌, ◌≢◌, refl, sym, ap, ◌∙◌, true, false, inl, inr, Bool-cases,
  List, [], ◌∷◌, ◌++◌, length, length-append, arith,
}
use mathlib.Core.List.{append_assoc}
use claire_common.Threading.ThreadPool.{
  ThreadPool, is_full, notify_not_empty, notify_not_full, run_task, pop,
}

pub true-ne-false : true ≢ false
true-ne-false e = cc

-- The invariant while a thread is under the mutex: a taker that was awake is counted in `taker`, such
-- a runner in `runner`, and a thread of the pool that is nowhere else in `missing`.
pub record IsBetween {ℓ} {A : Type ℓ} (max num_threads taker runner missing : ℕ) (p : ThreadPool A)
    : Type ℓ where
  pub bound : p.max_queue_size ≡ max
  pub order : p.accepted ≡ p.taken ++ p.queue
  pub fits : 0 < max → length p.queue ≤ max
  pub takers : 0 < p.takers_asleep → length p.queue ≤ p.takers_awake + taker
  pub runners : 0 < p.runners_asleep → (0 < max) × (max ≤ length p.queue + p.runners_awake + runner)
  pub threads : p.workers + p.takers_asleep + p.takers_awake + p.exited + missing ≡ num_threads
  pub rest : p.stopped ≡ true → (p.takers_asleep ≡ 0) × (p.running ≡ false)

-- All that was accepted was taken, in that order, or is queued; the queue is within its bound; there
-- is a woken taker for each task while takers sleep, and a woken runner for each free place while
-- runners sleep; all threads are somewhere; and after Stop no taker sleeps.
abbrev pub IsPool {ℓ} : {A : Type ℓ} → ℕ → ℕ → ThreadPool A → Type ℓ
IsPool max num_threads = IsBetween max num_threads 0 0 0

module _ {ℓ} {A : Type ℓ} {max num_threads : ℕ} where
  pub pushed-IsPool :
      (asleep : ℕ) (task : A) (p : ThreadPool A)
      → p.takers_asleep ≡ asleep
      → (0 < max → length p.queue < max)
      → IsBetween max num_threads 0 1 0 p
      → IsPool max num_threads (
          notify_not_empty asleep
            (record p { queue = p.queue ++ (task ∷ []); accepted = p.accepted ++ (task ∷ []) }))
  pushed-IsPool zero task p e room h = record {
    bound = h.bound;
    order = ap (λ tasks. tasks ++ (task ∷ [])) h.order ∙ append_assoc p.taken p.queue (task ∷ []);
    fits = λ g. omega (arith, room g, length-append p.queue (task ∷ []));
    takers = λ g. omega (arith, g, e);
    runners =
        λ g. ((h.runners g).0, omega (arith, (h.runners g).1, length-append p.queue (task ∷ [])));
    threads = h.threads;
    rest = h.rest;
  }
  pushed-IsPool (suc others) task p e room h = record {
    bound = h.bound;
    order = ap (λ tasks. tasks ++ (task ∷ [])) h.order ∙ append_assoc p.taken p.queue (task ∷ []);
    fits = λ g. omega (arith, room g, length-append p.queue (task ∷ []));
    takers = λ g. omega (arith, h.takers (omega (arith, e)), length-append p.queue (task ∷ []));
    runners =
        λ g. ((h.runners g).0, omega (arith, (h.runners g).1, length-append p.queue (task ∷ [])));
    threads = omega (arith, h.threads, e);
    rest = λ s. absurd (omega (arith, (h.rest s).0, e));
  }

  pub run_task-IsPool :
      (task : A) (p : ThreadPool A)
      → IsBetween max num_threads 0 1 0 p
      → IsPool max num_threads (run_task task p)
  unfolding run_task is_full
  run_task-IsPool task p h = elim (Bool-cases (is_full p)) [
    | inl full ↦ rw full (record {
      bound = h.bound;
      order = h.order;
      fits = h.fits;
      takers = h.takers;
      runners = λ g. ground (arith, h.bound);
      threads = h.threads;
      rest = h.rest;
    })
    | inr room ↦
        rw room (pushed-IsPool p.takers_asleep task p refl (λ g. ground (arith, h.bound)) h)
  ]

  -- Up to the notification: a place is free for which no runner has been woken yet.
  pub pop-IsBetween :
      (task : A) (others : List A) (p : ThreadPool A)
      → p.queue ≡ task ∷ others
      → IsBetween max num_threads 1 0 1 p
      → IsBetween max num_threads 0 1 0 (pop task others p)
  pop-IsBetween task others p e h = record {
    bound = h.bound;
    order =
        h.order ∙ ap (λ tasks. p.taken ++ tasks) e ∙ sym (append_assoc p.taken (task ∷ []) others);
    fits = λ g. omega (arith, h.fits g, ap length e);
    takers = λ g. omega (arith, h.takers g, ap length e);
    runners = λ g. ((h.runners g).0, omega (arith, (h.runners g).1, ap length e));
    threads = omega (arith, h.threads);
    rest = h.rest;
  }

  pub notify_not_full-IsPool :
      (asleep : ℕ) (p : ThreadPool A)
      → p.runners_asleep ≡ asleep
      → IsBetween max num_threads 0 1 0 p
      → IsPool max num_threads (notify_not_full asleep p)
  notify_not_full-IsPool zero p e h = record {
    bound = h.bound;
    order = h.order;
    fits = h.fits;
    takers = h.takers;
    runners = λ g. absurd (omega (arith, g, e));
    threads = h.threads;
    rest = h.rest;
  }
  notify_not_full-IsPool (suc others) p e h = record {
    bound = h.bound;
    order = h.order;
    fits = h.fits;
    takers = h.takers;
    runners =
        λ g. ((h.runners (omega (arith, e))).0, omega (arith, (h.runners (omega (arith, e))).1));
    threads = h.threads;
    rest = h.rest;
  }
