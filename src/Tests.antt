-- ===== src/Tests.antt =====
-- Runs of the code on the machine of Machine.antt.
pub mod System
pub mod Memory
pub mod Tables
pub mod Breakpoints
pub mod Commands
pub mod Tracers
pub mod Sessions
pub mod Rounds
pub mod Programs
pub mod Taken
pub mod Safe
pub mod Whole
pub mod Alone
