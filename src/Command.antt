-- ===== src/Command.antt =====
-- command.c: the command line of the debugger.
pub mod Read
pub mod Handlers
pub mod Play
pub mod Kept
pub mod Safe
