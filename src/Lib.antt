-- ===== src/Lib.antt =====
-- A model of the debugger in this repository: main.c, command.c, dbug.c, mem.c and elf_parse.c,
-- and of the tracers under blog/.
--
-- The parts and how they interact. `main` (main.c) reads a line with `get_command`, which puts its
-- words in an array, and runs it with `play_command` (both command.c). A command's handler works on
-- the session, `struct dbug_struct` (dbug.h): it looks up a function's symbol (elf_parse.c), sets,
-- finds and steps over breakpoints (dbug.c), and these read and write the memory of the traced process
-- a word at a time (mem.c). Below all of it stand `ptrace`, `wait` and the other calls of the system,
-- and the pool and the arrays of ngx/.
--
-- Files and code:
--   Common       shared names; Tests for Boolean tests, Lists, Words for bytes in words, Texts for the
--                C strings and for `sscanf` with `%lx`
--   Kernel       the calls of the system as a record of functions, and what `ptrace` documents of memory
--   Machine      a small system that meets the hypotheses, on which the tests run
--   Output       the formats that are printed
--   Mem          mem.c: `read_pro_mem`, `write_pro_mem`; Mem/Read, Mem/Write and Mem/Errors prove
--   Elf          elf_parse.c: Elf/Image for the structures of elf.h, Elf/File for `get_file_size` and
--                `get_file_word`, Elf/Section for `get_section_addr`, Elf/Functions for `get_all_func`,
--                Elf/Lookup for `find_func`, `foreach_fun` and `close_funs`, Elf/Maps for
--                `get_pid_base`, Elf/Open for `open_funs`
--   Session      dbug.h: the session, and programs over it as functions from a world to an outcome
--   Dbug         dbug.c: breakpoints (`insert_int3_bp` is `insert_INT3_bp`, `find_current_sf_bp` is
--                `find_current_SF_bp`, and so on); Dbug/Start for `init_dbug`, `dbug_pro` and
--                `attach_pro`; the other modules prove
--   Command      command.c and main.c: Command/Read for `get_command`, Command/Handlers for the
--                functions behind the commands, Command/Play for `play_command` and `main`; the others
--                prove: Command/Kept the invariant of a session over the rounds of `main`, what
--                becomes of the debugged program (Command/Kept/Alone, Command/Kept/Passes), and
--                Command/Safe what faults the commands have, whatever the system answers
--   Blog         the programs under blog/: Blog/Child for the child processes, Blog/Break for
--                dbug_break.c and attach.c, Blog/Soft for softbreak.c, Blog/Hard for hardbreak.c,
--                Blog/Calls for getsyscall.c and dbug.c, Blog/Small for getinfo.c, readmem.c,
--                writemem.c and base.c, Blog/Syn for syn.c, Blog/Symbols for how dbug_break.c and
--                attach.c read the symbols of a file, Blog/Tracees for the programs that
--                are traced (test.c too), Blog/Copies for the functions that these programs repeat
--   Tests        runs at concrete values
--
-- State and outcome. A world is the system, the session, the input that is left and the lines printed.
-- A command returns a value and a world, or ends the program (`exit`, a successful `execvp`), or is a
-- fault: what C leaves undefined, such as a null pointer followed or a read outside of an array. The
-- elements of an array are a function of the index, since the code reads behind the last one. A fault of
-- `open_funs` is an outcome of its own, `unread`, which Command/Safe allows where the files of a
-- process that was just taken on make `open_funs` fault, and nowhere else.
--
-- Numbers are natural numbers with the wrap-around of their width written out. An `int` that the code
-- returns is an integer.
--
-- Bounds and fuel. The loops over an array run on the number of elements that are left. The loop of
-- `get_command` has a round for each character of the line, and the loop of `get_file_word` the length
-- of the file and two rounds more; both are shown to be enough, the second where no read fails and the
-- file has room in the buffer. The endless loop of `main` is a number of rounds, and so are the loops
-- of the programs under blog/, whose theorems hold for any number.
--
-- Files. A file is its bytes and whether a read behind them fails; the `int` of its size and of the
-- place in the buffer wraps at 32 bits. The `calloc` of a size that is not negative is taken to succeed.
--
-- Parameters. The calls of the system and the functions of ngx/ (a copy of another library) are
-- parameters; the text that getsyscall.c itself has at an address is one too, `own`. What the proofs
-- need of the calls are the records `IsMemory`, `IsDebugRegs`, `IsStill`, `IsCpu`, `IsFresh`, `IsRoomy`
-- and `IsRoomyBps`, which the modules under Tests fill for the machine.
--
-- Each program under blog/ carries its own copies of functions of mem.c and elf_parse.c. They are the
-- same statement for statement, so their names in Blog/Copies stand for the debugger's definitions, and
-- the programs call them by those.
--
-- Not modelled: the functions of blog/code.c that are never called; `sleep`; the message of `perror` in mem.c
-- and elf_parse.c; the release of files and of memory; and the functions of ngx/, a copy of another
-- library.
pub mod Common
pub mod Kernel
pub mod Machine
pub mod Output
pub mod Mem
pub mod Elf
pub mod Session
pub mod Dbug
pub mod Command
pub mod Blog
pub mod Tests
