-- ===== src/Tests/Programs.antt =====
-- Whole programs of blog/ on the machine, with a small file to be traced.
use test_dbug.Common.{
  length, ◌-◌, ◌^◌, ◌<◌, false, ℕ, zero, suc, ◌^◌, ◌<◌, ◌≡◌, refl, arith, true, List, [], ◌∷◌, ◌++◌,
  none, some, pos, codes, get_elem?, if◌then◌else◌, Text, text_eq, starts_with, until, skip_spaces,
  sscanf_lx, scan_signed, scan_unsigned, hex_digit, hex_digits, is_hex, le_bytes, le_word, isspace,
}
use test_dbug.Machine.{
  Machine, machine, machine_mem, machine_mapped, machine-IsMemory, next_trap, patch,
}
use test_dbug.Elf.Image.{Ehdr, field_at, string_at, ehdr_at, shdr_at, sym_at}
use test_dbug.Elf.File.{fread, read_chunks, get_file_size, get_file_word, buffer_room, load_word}
use test_dbug.Elf.Section.{section_name, find_section, get_section_addr}
use test_dbug.Elf.Functions.{
  FuncOrg, FunArr, is_func, store, func_of, pick_funcs, get_all_func, funcs_between,
}
use test_dbug.Elf.Lookup.{NoMatch, name_at}
use test_dbug.Elf.Maps.{
  Files, dec_digits, proc_path, read_exe, split_fields, assign_fields, fits_buffers, is_base_line,
  base_of, fgets_lines, check_line, scan_maps, get_pid_base,
}
use test_dbug.Elf.Open.{symbol_count, blank, blank_funs, section_of, parse_funs}
use test_dbug.Blog.{Step, state_of}
use test_dbug.Blog.Child.{in_parent}
use test_dbug.Blog.Symbols.{open_file, dbuf}
use test_dbug.Blog.Syn.{syn_main}
use test_dbug.Blog.Syn.Listing.{line_of, syn_main-funcs_between}
use test_dbug.Command.Handlers.{atoi, dec_value}
use test_dbug.Blog.Break.{Tracer, dbug_break_program, attach_main}
use test_dbug.Output.{labelled}
use test_dbug.Blog.Small.{readmem_main, writemem_main}
use test_dbug.Blog.Small.Data.{readmem_main-writemem_main}
use test_dbug.Blog.Break.Traps.{IsTrapped}
use test_dbug.Blog.Break.Programs.{dbug_break_program-IsTrapped, attach_main-IsTrapped}
use test_dbug.Tests.System.{fresh, code, text, regs_at, machine-IsStill}
use test_dbug.Tests.Tables.{zeros, header, symbol}

-- Four sections from offset 64 on, the symbols at 320, their names at 368 and the sections' at 379.
abbrev pub image : List ℕ
image =
    zeros 0x28
    ++ le_bytes 8 64
    ++ zeros 12
    ++ le_bytes 2 4
    ++ le_bytes 2 3
    ++ header 0 0 0
    ++ header 1 320 48
    ++ header 9 368 11
    ++ header 17 379 27
    ++ symbol 0 0 0
    ++ symbol 1 0x12 100
    ++ 0 ∷ codes "print_int"
    ++ 0 ∷ 0 ∷ codes ".symtab"
    ++ 0 ∷ codes ".strtab"
    ++ 0 ∷ codes ".shstrtab"
    ++ 0 ∷ []

-- The maps file is empty, so the base is 0.
abbrev disk : Files
disk = record {
  link = λ path. some (codes "/x");
  fails = λ path. false;
  content = λ path. if text_eq path (codes "./dbuf_break_test") then some image else some [];
}

no_base : get_pid_base disk 7 ≡ some 0
unfolding get_pid_base proc_path dec_digits read_exe scan_maps check_line fgets_lines split_fields
    assign_fields fits_buffers is_base_line base_of text_eq starts_with until sscanf_lx scan_signed
    scan_unsigned skip_spaces isspace hex_digit hex_digits is_hex
no_base = refl

abbrev print_int : FuncOrg
print_int = record { name = some (codes "print_int"); addr = 100 }

abbrev pub table : FunArr
table = record {
  word = image ++ 0 ∷ [];
  size = 1;
  items = print_int ∷ record { name = none; addr = 0 } ∷ [];
}

has_table : dbuf disk (codes "./dbuf_break_test") 0 ≡ some table
unfolding dbuf open_file parse_funs section_of symbol_count load_word get_file_size buffer_room
    blank_funs blank get_all_func pick_funcs func_of is_func store sym_at ehdr_at get_file_word
    read_chunks fread get_section_addr find_section section_name shdr_at field_at string_at le_bytes
    le_word until text_eq
has_table = refl

-- The machine when the child has stopped.
abbrev forked_machine : Machine
forked_machine = (machine.fork fresh).1

table_places :
    (j : ℕ) (f : FuncOrg)
    → j < 1
    → get_elem? table.items j ≡ some f
    → (f.addr < 2 ^ 64) × (machine_mapped forked_machine 7 f.addr ≡ true) × (code f.addr ≡ true)
table_places zero f below e = (ground arith, ground arith, ground arith)
table_places (suc j) f below e = absurd (omega arith)

named : name_at table.items 0 ≡ some (codes "print_int" ++ [])
unfolding name_at
named = refl

dbug_break_program-IsTrapped_example :
    (j : ℕ) × (f : FuncOrg) × (rest : Text) × (step : Step (Tracer Machine)) × (get_elem?
        table.items j
      ≡ some f)
    × (f.name ≡ some (codes "print_int" ++ rest))
    × NoMatch (codes "print_int") table.items j
    × (dbug_break_program machine (λ s. disk) (regs_at 0) 3 fresh ≡ in_parent (some step))
    × IsTrapped machine_mem machine_mapped code text 7 f.addr (state_of step).os
dbug_break_program-IsTrapped_example =
    dbug_break_program-IsTrapped machine (λ s. disk) machine-IsMemory machine-IsStill text
      (regs_at 0) 3 6 fresh 0 [] refl refl refl no_base has_table (omega arith) named table_places
      (λ a c. refl)

abbrev at_start : Tracer Machine
at_start = record { os = fresh; status = 0; regs = regs_at 0; out = [] }

readmem_main-writemem_main_example :
    (u v : Tracer Machine) × (writemem_main machine 7 64 at_start ≡ (pos 0, u))
    × (readmem_main machine 7 64 u ≡ (pos 0, v))
    × (v.out ≡ labelled (codes "read num = ") 120 ∷ labelled (codes "this num = ") 0 ∷ [])
unfolding next_trap patch le_bytes
readmem_main-writemem_main_example =
    readmem_main-writemem_main machine machine-IsMemory machine-IsStill 7 64
      (λ a above below. ground arith) at_start refl refl (λ s. refl) (λ s a. refl) (λ s a w. refl)
      refl

attach_main-IsTrapped_example :
    (j : ℕ) × (f : FuncOrg) × (rest : Text) × (step : Step (Tracer Machine)) × (get_elem?
        table.items j
      ≡ some f)
    × (f.name ≡ some (codes "print_int" ++ rest))
    × NoMatch (codes "print_int") table.items j
    × (attach_main machine (λ s. disk) (codes "attach" ∷ codes "7" ∷ []) 3 at_start ≡ some step)
    × IsTrapped machine_mem machine_mapped code text 7 f.addr (state_of step).os
unfolding atoi dec_value skip_spaces isspace
attach_main-IsTrapped_example =
    attach_main-IsTrapped machine (λ s. disk) machine-IsMemory machine-IsStill text (codes "attach")
      (codes "7") [] 3 at_start 0 [] refl refl no_base has_table (omega arith) named table_places
      (λ a c. refl)

abbrev the_header : Ehdr
the_header = record { e_shoff = 64; e_shnum = 4; e_shstrndx = 3 }

abbrev with_nul : List ℕ
with_nul = image ++ 0 ∷ []

reads_header : ehdr_at with_nul ≡ some the_header
unfolding ehdr_at field_at le_bytes le_word
reads_header = refl

finds_symbols : section_of with_nul the_header ".symtab" ≡ some (some 320, 48)
unfolding section_of get_section_addr find_section section_name shdr_at field_at string_at le_bytes
    le_word text_eq until
finds_symbols = refl

finds_names : section_of with_nul the_header ".strtab" ≡ some (some 368, 11)
unfolding section_of get_section_addr find_section section_name shdr_at field_at string_at le_bytes
    le_word text_eq until
finds_names = refl

has_functions : funcs_between with_nul (some 320) (some 368) 0 2 0 ≡ some (print_int ∷ [])
unfolding funcs_between func_of is_func sym_at field_at string_at le_bytes le_word until
has_functions = refl

two_symbols : symbol_count 48 ≡ some 2
unfolding symbol_count
two_symbols = refl

is_short : length image < 2 ^ 31 - 1
unfolding le_bytes
is_short = omega arith

syn_main-funcs_between_example :
    syn_main disk (codes "syn" ∷ codes "./dbuf_break_test" ∷ []) ≡ some (line_of print_int ∷ [])
syn_main-funcs_between_example =
    syn_main-funcs_between disk (codes "syn") (codes "./dbuf_break_test") [] image the_header
      (some 320) (some 368) 48 11 2 (print_int ∷ []) there refl is_short reads_header finds_symbols
      finds_names two_symbols has_functions
  where
    there : disk.content (codes "./dbuf_break_test") ≡ some image
    there = unfold text_eq in refl
