-- ===== src/Fs.antt =====
-- fs_ops.c: the file system on the disk.
pub mod State
pub mod Super
pub mod BitmapIo
pub mod Inodes
pub mod Directory
pub mod Format
pub mod Files
