-- ===== src/Threading.antt =====
-- Threads that wait for each other (claire/common/base/BlockingQueue.h and
-- claire/common/threading). What a thread does under the mutex is one step, and a thread that waits
-- on a condition is counted: asleep, or awake and not yet back under the mutex.
pub mod BlockingQueue
pub mod CountDownLatch
pub mod ThreadPool
