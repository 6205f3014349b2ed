-- ===== src/Threading/ThreadPool.antt =====
-- ThreadPool (claire/common/threading/ThreadPool.h and .cc) between its Start and the end of its
-- threads: the threads that call Run, the pool's own threads, and Stop.
use claire_common.Common.{
  ℕ, zero, suc, ◌+◌, ◌≤◌, ◌<◌, ◌≡◌, refl, sym, ap, ◌∙◌, Bool, true, false, ◌&&◌, inl, inr,
  Bool-cases, List, [], ◌∷◌, ◌++◌, ltb, leb, if◌then◌else◌, length,
}
pub mod Woken
pub mod Waiting

-- Of the pool's threads `workers` are outside Take, `takers_asleep` wait on not_empty_,
-- `takers_awake` have been woken, and `exited` have left RunInThread. The threads in Run that wait on
-- not_full_ are the runners. `stopped` is that Stop has called NotifyAll; `accepted` and `taken` are
-- all tasks so far.
pub record ThreadPool {ℓ} (A : Type ℓ) : Type ℓ where
  pub queue : List A
  pub max_queue_size : ℕ
  pub running : Bool
  pub stopped : Bool
  pub workers : ℕ
  pub takers_asleep : ℕ
  pub takers_awake : ℕ
  pub exited : ℕ
  pub runners_asleep : ℕ
  pub runners_awake : ℕ
  pub accepted : List A
  pub taken : List A

module _ {ℓ} {A : Type ℓ} where
  -- After Start.
  abbrev pub started_pool : ℕ → ℕ → ThreadPool A
  started_pool max_queue_size num_threads = record {
    queue = [];
    max_queue_size = max_queue_size;
    running = true;
    stopped = false;
    workers = num_threads;
    takers_asleep = 0;
    takers_awake = 0;
    exited = 0;
    runners_asleep = 0;
    runners_awake = 0;
    accepted = [];
    taken = [];
  }

  unfoldable pub is_full : ThreadPool A → Bool
  is_full p = ltb 0 p.max_queue_size && leb p.max_queue_size (length p.queue)

  -- not_empty_.Notify and not_full_.Notify wake one thread, if one waits.
  abbrev pub notify_not_empty : ℕ → ThreadPool A → ThreadPool A
  notify_not_empty zero p = p
  notify_not_empty (suc others) p = record p {
    takers_asleep = others;
    takers_awake = p.takers_awake + 1;
  }

  abbrev pub notify_not_full : ℕ → ThreadPool A → ThreadPool A
  notify_not_full zero p = p
  notify_not_full (suc others) p = record p {
    runners_asleep = others;
    runners_awake = p.runners_awake + 1;
  }

  abbrev pub push_or_wait : Bool → A → ThreadPool A → ThreadPool A
  push_or_wait true task p = record p { runners_asleep = p.runners_asleep + 1 }
  push_or_wait false task p =
      notify_not_empty p.takers_asleep
        (record p { queue = p.queue ++ (task ∷ []); accepted = p.accepted ++ (task ∷ []) })

  -- Run of a pool that has threads, under the mutex: it waits, or queues the task.
  unfoldable pub run_task : A → ThreadPool A → ThreadPool A
  unfolding is_full
  run_task task p = push_or_wait (is_full p) task p

  abbrev pub pop : A → List A → ThreadPool A → ThreadPool A
  pop task others p = record p {
    queue = others;
    workers = p.workers + 1;
    taken = p.taken ++ (task ∷ []);
  }

  -- Take under the mutex: it waits, takes a task, or returns without one.
  abbrev pub take_or_wait : List A → Bool → ThreadPool A → ThreadPool A
  take_or_wait [] true p = record p { takers_asleep = p.takers_asleep + 1 }
  take_or_wait [] false p = record p { workers = p.workers + 1 }
  take_or_wait (task ∷ others) running p =
      if ltb 0 p.max_queue_size
      then notify_not_full p.runners_asleep (pop task others p)
      else pop task others p

  unfoldable pub take_entry : ThreadPool A → ThreadPool A
  take_entry p = take_or_wait p.queue p.running p

  unfoldable pub notify_all : ThreadPool A → ThreadPool A
  notify_all p = record p {
    stopped = true;
    takers_asleep = 0;
    takers_awake = p.takers_awake + p.takers_asleep;
  }

-- A round of RunInThread begins while the pool runs, and the thread leaves when it does not. Stop
-- clears running_ and later, under the mutex, wakes all takers.
pub data Step {ℓ} {A : Type ℓ} : ThreadPool A → ThreadPool A → Type ℓ where
  call_run : {p : ThreadPool A} (task : A) → Step p (run_task task p)
  resume_run :
      {p : ThreadPool A} (task : A) (n : ℕ)
      → p.runners_awake ≡ suc n
      → Step p (run_task task (record p { runners_awake = n }))
  spurious_run :
      {p : ThreadPool A} (n : ℕ)
      → p.runners_asleep ≡ suc n
      → Step p (record p { runners_asleep = n; runners_awake = p.runners_awake + 1 })
  call_take :
      {p : ThreadPool A} (n : ℕ)
      → p.running ≡ true
      → p.workers ≡ suc n
      → Step p (take_entry (record p { workers = n }))
  resume_take :
      {p : ThreadPool A} (n : ℕ)
      → p.takers_awake ≡ suc n
      → Step p (take_entry (record p { takers_awake = n }))
  spurious_take :
      {p : ThreadPool A} (n : ℕ)
      → p.takers_asleep ≡ suc n
      → Step p (record p { takers_asleep = n; takers_awake = p.takers_awake + 1 })
  leave :
      {p : ThreadPool A} (n : ℕ)
      → p.running ≡ false
      → p.workers ≡ suc n
      → Step p (record p { workers = n; exited = p.exited + 1 })
  stop : {p : ThreadPool A} → p.running ≡ true → Step p (record p { running = false })
  stop_notify : {p : ThreadPool A} → p.running ≡ false → Step p (notify_all p)

pub data Reaches {ℓ} {A : Type ℓ} : ThreadPool A → ThreadPool A → Type ℓ where
  here : {p : ThreadPool A} → Reaches p p
  after : {p q r : ThreadPool A} → Reaches p q → Step q r → Reaches p r
