-- ===== src/Symbolizer.antt =====
-- The symbolizer (claire/common/symbolizer): the reader of DWARF records of Dwarf.h and Dwarf.cc.
pub mod Reader
pub mod Section
pub mod FilePath
pub mod Entries
pub mod Lines
pub mod Lookup
pub mod Elf
pub mod Process
