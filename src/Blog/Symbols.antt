-- ===== src/Blog/Symbols.antt =====
-- The functions of blog/dbug_break.c and blog/attach.c that read the symbols of a file of a given name.
use test_dbug.Common.{
  ℕ, ◌-◌, ◌^◌, ◌<◌, false, length, ◌++◌, ◌≡◌, List, [], ◌∷◌, Option, none, some, Text, codes,
}
use test_dbug.Elf.Image.{◌>>=◌, ehdr_at}
use test_dbug.Elf.Functions.{FunArr}
use test_dbug.Elf.File.{load_word, load_word-content}
use test_dbug.Elf.Maps.{Files}
use test_dbug.Elf.Open.{symbol_count, blank_funs}
use test_dbug.Blog.Copies.DbugBreak.{get_section_addr, get_all_func}

-- The image of a file with the NUL behind it. The outer option is a fault, or a reading that does not end, the
-- inner one the pointer that is returned.
unfoldable pub open_file : Files → Text → Option (Option (List ℕ))
open_file fs path = elim (fs.content path) [
  | none ↦ some none
  | some content ↦ load_word content (fs.fails path)
]

-- The null pointer of a file that cannot be opened is followed.
unfoldable pub dbuf : Files → Text → ℕ → Option FunArr
unfolding open_file
dbuf fs path base = do
  file ← open_file fs path
  word ← file
  ehdr ← ehdr_at word
  (syns, size) ← get_section_addr word ehdr.e_shoff ehdr.e_shnum ehdr.e_shstrndx (codes ".symtab") 0
  (strtab, strsize) ←
      get_section_addr word ehdr.e_shoff ehdr.e_shnum ehdr.e_shstrndx (codes ".strtab") 0
  count ← symbol_count size
  get_all_func word syns strtab base (blank_funs word count)

-- A file of less than 2 ^ 31 - 1 bytes that is there and can be read is read whole.
pub open_file-content :
    (fs : Files) (path : Text) {content : List ℕ}
    → fs.content path ≡ some content
    → fs.fails path ≡ false
    → length content < 2 ^ 31 - 1
    → open_file fs path ≡ some (some (content ++ 0 ∷ []))
unfolding open_file
open_file-content fs path {content} is reads small =
    rw (open_file, is, reads) (load_word-content content small)
