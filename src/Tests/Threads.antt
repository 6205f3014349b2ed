-- ===== src/Tests/Threads.antt =====
-- Runs of threads that wait for each other, and of the loops in turn.
use claire_common.Common.{ℕ, ◌≡◌, refl, [], ◌∷◌, false}
use claire_common.Threading.BlockingQueue.{
  BlockingQueue, put, take_front, new_blocking_queue, IsServed, Reaches-IsServed,
}
use claire_common.Threading.BlockingQueue
use claire_common.Threading.CountDownLatch
use claire_common.Threading.ThreadPool
use claire_common.Threading.CountDownLatch.{
  CountDownLatch, new_latch, wait, count_down, IsLatch, Reaches-IsLatch,
}
use claire_common.Threading.ThreadPool.{
  ThreadPool, started_pool, run_task, take_entry, is_full, notify_all,
}
use claire_common.Threading.ThreadPool.Waiting.{Reaches-IsPool}
use claire_common.Threading.ThreadPool.Woken.{IsPool}

-- A thread sleeps in Take, another puts 7 and 8, and the first goes on.
abbrev served : BlockingQueue ℕ
served = record {
  queue = 8 ∷ [];
  asleep = 0;
  awake = 0;
  put_values = 7 ∷ 8 ∷ [];
  taken_values = 7 ∷ [];
}

served_run : BlockingQueue.Reaches new_blocking_queue served
unfolding take_front put
served_run =
    BlockingQueue.after
      (BlockingQueue.after
        (BlockingQueue.after (BlockingQueue.after BlockingQueue.here BlockingQueue.call_take)
          (BlockingQueue.call_put 7))
        (BlockingQueue.call_put 8))
      (BlockingQueue.resume 0 refl)

Reaches-IsServed_example : IsServed served
Reaches-IsServed_example = Reaches-IsServed served_run

-- A latch for 1: a thread waits, another counts down, and the first returns.
abbrev opened : CountDownLatch
unfolding count_down wait
opened = wait (record (count_down (wait (new_latch 1))) { awake = 0 })

latch_run : CountDownLatch.Reaches (new_latch 1) opened
unfolding count_down wait
latch_run =
    CountDownLatch.after
      (CountDownLatch.after (CountDownLatch.after CountDownLatch.here CountDownLatch.call_wait)
        CountDownLatch.call_count_down)
      (CountDownLatch.resume 0 refl)

Reaches-IsLatch_example : IsLatch 1 opened
Reaches-IsLatch_example = Reaches-IsLatch 1 latch_run

-- A pool of one thread and one place: two tasks are given to Run, of which the second waits, and the
-- pool is stopped.
abbrev first : ThreadPool ℕ
unfolding run_task is_full
first = run_task 6 (run_task 5 (started_pool 1 1))

pool_run : ThreadPool.Reaches (started_pool 1 1) (record first { running = false })
unfolding run_task is_full
pool_run =
    ThreadPool.after
      (ThreadPool.after (ThreadPool.after ThreadPool.here (ThreadPool.call_run 5))
        (ThreadPool.call_run 6))
      (ThreadPool.stop refl)

Reaches-IsPool_example : IsPool 1 1 (record first { running = false })
Reaches-IsPool_example = Reaches-IsPool 1 1 pool_run

-- The thread leaves: one task is queued and the caller of Run sleeps, and only a wake-up without
-- reason brings it back.
left_behind : (first.queue ≡ 5 ∷ []) × (first.runners_asleep ≡ 1)
unfolding run_task is_full
left_behind = (refl, refl)
