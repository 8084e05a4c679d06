-- ===== src/Shell.antt =====
-- The shell of main.c: what it reads and prints, its commands and its main loop.
pub mod Lines
pub mod Text
pub mod State
pub mod Reports
pub mod Control
pub mod UserCommands
pub mod FileCommands
pub mod Session
pub mod Advance
pub mod Ending
pub mod Words
pub mod Guards
pub mod Echo
pub mod Outcomes
