-- ===== src/Users.antt =====
-- user_manager.c: accounts, login, and permission checks.
pub mod Password
pub mod Permission
pub mod Accounts
pub mod Owner
