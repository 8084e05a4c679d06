-- ===== src/System.antt =====
-- The program as a whole: what its public functions may do to the state.
pub mod Keeps
pub mod Storage
pub mod Files
pub mod Ops
pub mod Format
pub mod Steps
pub mod Invariant
pub mod Reachable
pub mod Privilege
