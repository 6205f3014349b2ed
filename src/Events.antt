-- ===== src/Events.antt =====
-- The event loop's parts: timeouts.
pub mod Timeouts
pub mod Poller
pub mod Loop
pub mod LoopPool
