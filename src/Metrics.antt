-- ===== src/Metrics.antt =====
-- claire/common/metrics.
pub mod Ranges
pub mod Counters
pub mod Samples
pub mod Histogram
