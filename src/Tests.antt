-- ===== src/Tests.antt =====
-- The theorems at concrete inputs: a reliable host, a disk of 16 blocks and a small bitmap.
mod Data
mod Disks
mod Inodes
mod Bitmaps
mod Accounts
mod Files
mod Content
mod Sessions
mod Systems
mod Shells
mod Listings
mod Echoes
mod Directories
