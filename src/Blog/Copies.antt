-- ===== src/Blog/Copies.antt =====
-- Four programs under blog/ carry their own copies of functions of mem.c and elf_parse.c. A copy has the
-- statements of the original, so it is the same function; each program's main uses its own copies.
pub mod DbugBreak
pub mod Attach
pub mod Syn
pub mod Base
