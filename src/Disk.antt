-- ===== src/Disk.antt =====
-- disk_simulator.c: a disk of blocks of 1024 bytes that are kept in one file of the host.
pub mod Host
pub mod Block
pub mod Session
