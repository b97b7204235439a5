-- ===== src/Blog/Copies/DbugBreak.antt =====
-- The functions of blog/dbug_break.c that are copies.
use test_dbug.Common.{ℕ, List, Option, ℤ, Text}
use test_dbug.Kernel.{Pid, Kernel}
use test_dbug.Elf.File
use test_dbug.Elf.Functions
use test_dbug.Elf.Lookup
use test_dbug.Elf.Maps
use test_dbug.Elf.Section
use test_dbug.Mem
use test_dbug.Elf.Functions.{FunArr}
use test_dbug.Elf.Maps.{Files}

abbrev pub read_pro_mem : {S : Type 0} → Kernel S → Pid → ℕ → List ℕ → ℕ → S → ℤ × List ℕ
read_pro_mem = Mem.read_pro_mem

abbrev pub write_pro_mem : {S : Type 0} → Kernel S → Pid → ℕ → List ℕ → ℕ → S → ℤ × S
write_pro_mem = Mem.write_pro_mem

abbrev pub get_file_size : Option (List ℕ) → ℤ
get_file_size = File.get_file_size

abbrev pub get_file_word : Option File.Stream → Option ℕ → Option (ℤ × List ℕ)
get_file_word = File.get_file_word

abbrev pub get_section_addr : List ℕ → ℕ → ℕ → ℕ → Text → ℕ → Option (Option ℕ × ℕ)
get_section_addr = Section.get_section_addr

abbrev pub get_all_func : List ℕ → Option ℕ → Option ℕ → ℕ → FunArr → Option FunArr
get_all_func = Functions.get_all_func

abbrev pub get_pid_base : Files → Pid → Option ℕ
get_pid_base = Maps.get_pid_base

abbrev pub find_func : Option FunArr → Option Text → Option ℤ
find_func = Lookup.find_func
