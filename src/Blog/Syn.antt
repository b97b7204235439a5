-- ===== src/Blog/Syn.antt =====
-- blog/syn.c: the function symbols of a file.
pub mod Listing
use test_dbug.Common.{ℕ, zero, suc, List, [], ◌∷◌, Option, none, some, Text, codes}
use test_dbug.Output.{Line, symbol_line}
use test_dbug.Elf.Image.{◌>>=◌, ehdr_at}
use test_dbug.Elf.Functions.{FuncOrg, FunArr}
use test_dbug.Elf.Maps.{Files}
use test_dbug.Elf.Open.{symbol_count, blank_funs}
use test_dbug.Blog.Copies.Syn.{open_file, get_section_addr, get_all_func}

-- The lines of the loop of `main`, from element `i` on.
unfoldable pub symbol_lines : ℕ → List FuncOrg → Option (List Line)
symbol_lines zero items = some []
symbol_lines (suc n) [] = none
symbol_lines (suc n) (f ∷ items) = elim (symbol_lines n items) [
  | none ↦ none
  | some lines ↦ some (symbol_line f.name f.addr ∷ lines)
]

-- The table that `main` makes; the null pointer of a file that cannot be opened is followed.
unfoldable pub syn_funs : Files → Text → Option FunArr
syn_funs fs path = do
  file ← open_file fs path
  word ← file
  ehdr ← ehdr_at word
  (syns, size) ← get_section_addr word ehdr.e_shoff ehdr.e_shnum ehdr.e_shstrndx (codes ".symtab") 0
  (strtab, strsize) ←
      get_section_addr word ehdr.e_shoff ehdr.e_shnum ehdr.e_shstrndx (codes ".strtab") 0
  count ← symbol_count size
  get_all_func word syns strtab 0 (blank_funs word count)

-- `main` with the words of its command line: what it prints.
unfoldable pub syn_main : Files → List Text → Option (List Line)
unfolding symbol_lines syn_funs
syn_main fs [] = some []
syn_main fs (name ∷ []) = some []
syn_main fs (name ∷ path ∷ more) = do funs ← syn_funs fs path; symbol_lines funs.size funs.items
