-- ===== src/Logging.antt =====
-- claire/common/logging.
pub mod Logger
pub mod Stream
pub mod File
