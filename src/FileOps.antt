-- ===== src/FileOps.antt =====
-- file_ops.c: reading, writing and positioning in an open file.
pub mod Blocks
pub mod Content
pub mod ReadWrite
pub mod Position
pub mod Session
