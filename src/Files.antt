-- ===== src/Files.antt =====
-- claire/common/files: FileUtil.h and FileUtil.cc over the calls of the C library and the system.
pub mod System
pub mod Streams
pub mod Whole
