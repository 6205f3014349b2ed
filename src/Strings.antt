-- ===== src/Strings.antt =====
-- claire/common/strings.
pub mod Number
pub mod Uri
pub mod Piece
pub mod Printf
