-- ===== src/Elf.antt =====
-- elf_parse.c: the symbol table of the debugged program.
pub mod Image
pub mod File
pub mod Section
pub mod Functions
pub mod Lookup
pub mod Maps
pub mod Open
