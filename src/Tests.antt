-- ===== src/Tests.antt =====
-- Runs of the modelled code, and the theorems at concrete inputs.
mod Strings
mod Metrics
mod Interpolation
mod Timeouts
mod Counters
mod Poller
mod Logging
mod Registry
mod Pieces
mod Loop
mod Dwarf
mod Lookup
mod Lines
mod Threads
mod Elf
mod Files
mod Printf
