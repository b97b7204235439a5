-- ===== src/Tests/Tables.antt =====
-- A small image, and the table of functions that is made of it.
use test_dbug.Common.{
  false, true, ℕ, zero, suc, ◌%◌, ◌^◌, ◌≤◌, ◌<◌, ◌≡◌, refl, arith, List, [], ◌∷◌, ◌++◌, Option,
  none, some, ◌⊎◌, ℤ, pos, codes, if◌then◌else◌, Text, text_eq, starts_with, until, skip_spaces,
  sscanf_lx, scan_signed, scan_unsigned, hex_digit, hex_digits, is_hex, le_bytes, le_word, isspace,
}
use test_dbug.Elf.Image.{Shdr, field_at, string_at, ehdr_at, shdr_at, sym_at}
use test_dbug.Elf.File.{
  opened_at, fread, read_chunks, get_file_size, get_file_word, buffer_room, load_word,
  get_file_word-content,
}
use test_dbug.Elf.Section.{
  section_name, find_section, get_section_addr, IsFirstNamed, get_section_addr_lem,
}
use test_dbug.Elf.Functions.{
  FuncOrg, FunArr, is_func, store, func_of, pick_funcs, get_all_func, funcs_between,
  get_all_func-funcs_between,
}
use test_dbug.Elf.Lookup.{find_func, HasNames, Answers, find_func-Answers}
use test_dbug.Elf.Maps.{
  Files, dec_digits, proc_path, read_exe, split_fields, assign_fields, fits_buffers, is_base_line,
  base_of, fgets_lines, check_line, scan_maps, empty_fields, get_pid_base,
}
use mathlib.Core.List.{map}
use test_dbug.Elf.Maps.Bases.{HasRows, name_after}
use test_dbug.Elf.Maps.Written.{AreShort, ended, text_of}
use test_dbug.Elf.Maps.Numbers.{
  Entry, AreEntries, row_of, first_start, hex_value, scan_maps-first_start,
}
use test_dbug.Elf.Open.{
  symbol_count, blank, blank_funs, section_of, parse_funs, open_funs, open_funs-HasNames,
}
use test_dbug.Tests.System.{funs}

pub funs-HasNames : HasNames 2 funs.items
funs-HasNames = ((codes "main_loop", refl), ((codes "main", refl), tt))

find_func-Answers_example :
    (r : ℤ) × (find_func (some funs) (some (codes "main")) ≡ some r)
    × Answers (codes "main") funs.items 2 0 r
find_func-Answers_example = find_func-Answers funs (codes "main") funs-HasNames

abbrev pub zeros : ℕ → List ℕ
zeros zero = []
zeros (suc n) = 0 ∷ zeros n

-- A section header with a name, an offset and a size.
abbrev pub header : ℕ → ℕ → ℕ → List ℕ
header name off size = le_bytes 4 name ++ zeros 20 ++ le_bytes 8 off ++ le_bytes 8 size ++ zeros 24

-- A symbol with a name, a type and a value.
abbrev pub symbol : ℕ → ℕ → ℕ → List ℕ
symbol name info value = le_bytes 4 name ++ info ∷ zeros 3 ++ le_bytes 8 value ++ zeros 8

-- Four sections from offset 64 on, the symbols at 320, their names at 368 and the sections' at 371.
abbrev image : List ℕ
image =
    zeros 0x28
    ++ le_bytes 8 64
    ++ zeros 12
    ++ le_bytes 2 4
    ++ le_bytes 2 3
    ++ header 0 0 0
    ++ header 1 320 48
    ++ header 9 368 3
    ++ header 17 371 27
    ++ symbol 0 0 0
    ++ symbol 1 0x12 0x40
    ++ 0 ∷ codes "f"
    ++ 0 ∷ 0 ∷ codes ".symtab"
    ++ 0 ∷ codes ".strtab"
    ++ 0 ∷ codes ".shstrtab"
    ++ 0 ∷ []

abbrev f_at : ℕ → FuncOrg
f_at addr = record { name = some (codes "f"); addr = addr }

abbrev place : Option ℕ
place = some 320

abbrev bytes : ℕ
bytes = 48

found_symtab : get_section_addr image 64 4 3 (codes ".symtab") 0 ≡ some (place, bytes)
unfolding get_section_addr find_section section_name shdr_at field_at string_at le_bytes le_word
    text_eq until
found_symtab = refl

get_section_addr_lem_example :
    (strings : Shdr) × (i : ℕ) × (shdr_at image 64 3 ≡ some strings)
    × IsFirstNamed image 64 strings.sh_offset (codes ".symtab") 0 4 i
    × (((i ≡ 4) × (place ≡ none) × (bytes ≡ 0))
        ⊎ ((i < 4)
            × (t : Shdr) × (shdr_at image 64 i ≡ some t)
            × (place ≡ some t.sh_offset)
            × (bytes ≡ t.sh_size % 2 ^ 32)))
get_section_addr_lem_example = get_section_addr_lem image 64 4 3 (codes ".symtab") 0 found_symtab

the_functions : funcs_between image (some 320) (some 368) 0x1000 2 0 ≡ some (f_at 0x1040 ∷ [])
unfolding funcs_between func_of is_func sym_at field_at string_at le_bytes le_word until
the_functions = refl

get_all_func-funcs_between_example :
    (rest : List FuncOrg) × (get_all_func image (some 320) (some 368) 0x1000 (blank_funs image 2)
      ≡ some (record { word = image; size = 1; items = f_at 0x1040 ∷ rest }))
    × (1 ≤ 2)
unfolding blank_funs blank
get_all_func-funcs_between_example =
    get_all_func-funcs_between image (some 320) (some 368) 0x1000 (blank_funs image 2) (omega arith)
      the_functions

get_file_word-content_example :
    (get_file_word (some (opened_at (codes "abc") false)) (some 4) ≡ some (pos 0, codes "abc"))
    × ((n : ℕ) → read_chunks n 4 (opened_at (codes "abc") true) 0 [] ≡ none)
get_file_word-content_example = get_file_word-content (codes "abc") 4 (omega arith) (omega arith)

-- Two lines of a maps file, of which the second is that of the executable.
abbrev other_line : Text
other_line = codes "300000-301000 r--p 00001000 08:01 11 /lib" ++ 10 ∷ []

abbrev base_line : Text
base_line = codes "400000-401000 r-xp 00000000 08:01 12 /x" ++ 10 ∷ []

abbrev other_entry : Entry
other_entry = record {
  first = 3;
  digits = zeros 5;
  end = codes "301000";
  offset = codes "00001000";
  path = some (codes "/lib" ++ 10 ∷ []);
}

abbrev base_entry : Entry
base_entry = record {
  first = 4;
  digits = zeros 5;
  end = codes "401000";
  offset = codes "00000000";
  path = some (codes "/x1" ++ 10 ∷ []);
}

-- One of an anonymous mapping, which has no path.
abbrev no_path_line : Text
no_path_line = codes "301000-302000 rw-p 00000000 00:00 0 "

abbrev no_path_entry : Entry
no_path_entry = record {
  first = 3;
  digits = 0 ∷ 1 ∷ zeros 3;
  end = codes "302000";
  offset = codes "00000000";
  path = none;
}

abbrev maps_lines : List Text
maps_lines =
    codes "300000-301000 r--p 00001000 08:01 11 /lib"
    ∷ no_path_line
    ∷ codes "400000-401000 r-xp 00000000 08:01 12 /x1"
    ∷ []

abbrev maps_entries : List Entry
maps_entries = other_entry ∷ no_path_entry ∷ base_entry ∷ []

lines-HasRows : HasRows (ended maps_lines) (map row_of maps_entries)
unfolding split_fields fits_buffers until skip_spaces isspace
lines-HasRows = (
  (codes "r--p", codes "08:01", codes "11", refl, refl),
  (
    (codes "rw-p", codes "00:00", codes "0", refl, refl),
    ((codes "r-xp", codes "08:01", codes "12", refl, refl), tt),
  ),
)

entries-AreEntries : AreEntries maps_entries
unfolding hex_value
entries-AreEntries = (
  (
    (omega arith, (omega arith, (omega arith, (omega arith, (omega arith, (omega arith, tt)))))),
    omega arith,
  ),
  (
    (
      (omega arith, (omega arith, (omega arith, (omega arith, (omega arith, (omega arith, tt)))))),
      omega arith,
    ),
    (
      (
        (
          omega arith,
          (omega arith, (omega arith, (omega arith, (omega arith, (omega arith, tt))))),
        ),
        omega arith,
      ),
      tt,
    ),
  ),
)

lines-AreShort : AreShort maps_lines
lines-AreShort = ((refl, omega arith, ((refl, omega arith, ((refl, omega arith, tt))))))

scan_maps-first_start_example :
    scan_maps (codes "/x1") (fgets_lines 511 [] (text_of maps_lines)) empty_fields ≡ some 0x400000
unfolding first_start name_after is_base_line starts_with hex_value
scan_maps-first_start_example =
    scan_maps-first_start (codes "/x1") maps_lines maps_entries lines-AreShort entries-AreEntries
      lines-HasRows

-- The executable of every process is /x, and every other file holds the two lines.
abbrev pub disk : Files
disk = record {
  link = λ path. some (codes "/x");
  fails = λ path. false;
  content =
      λ path. if text_eq path (codes "/x") then some image else some (other_line ++ base_line);
}

the_base : get_pid_base disk 7 ≡ some 0x400000
unfolding get_pid_base proc_path dec_digits read_exe scan_maps check_line fgets_lines split_fields
    assign_fields fits_buffers is_base_line base_of text_eq starts_with until sscanf_lx scan_signed
    scan_unsigned skip_spaces isspace hex_digit hex_digits is_hex
the_base = refl

abbrev pub the_table : FunArr
the_table = record {
  word = image ++ 0 ∷ [];
  size = 1;
  items = f_at 0x400040 ∷ record { name = none; addr = 0 } ∷ [];
}

pub opened : open_funs disk 7 ≡ some (some the_table)
unfolding open_funs parse_funs section_of symbol_count load_word get_file_size buffer_room
    blank_funs blank get_all_func pick_funcs func_of is_func store sym_at ehdr_at get_file_word
    read_chunks fread get_section_addr find_section section_name shdr_at field_at string_at le_bytes
    le_word until get_pid_base proc_path dec_digits read_exe scan_maps check_line fgets_lines
    split_fields assign_fields fits_buffers is_base_line base_of text_eq starts_with sscanf_lx
    scan_signed scan_unsigned skip_spaces isspace hex_digit hex_digits is_hex
opened = refl

open_funs-HasNames_example : HasNames 1 (the_table.items)
open_funs-HasNames_example = open_funs-HasNames disk 7 opened
