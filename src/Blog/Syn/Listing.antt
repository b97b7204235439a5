-- ===== src/Blog/Syn/Listing.antt =====
-- What blog/syn.c prints for an image.
use mathlib.Core.List.{map}
use test_dbug.Common.{
  ℕ, zero, suc, ◌-◌, ◌^◌, ◌<◌, false, ◌≡◌, refl, ◌∙◌, ap, arith, List, [], ◌∷◌, ◌++◌, Option, some,
  length, Text,
}
use test_dbug.Output.{Line, symbol_line}
use test_dbug.Elf.Image.{◌>>=◌, Ehdr, ehdr_at}
use test_dbug.Elf.Functions.{FuncOrg, funcs_between, get_all_func-funcs_between}
use test_dbug.Elf.Maps.{Files}
use test_dbug.Elf.Open.{symbol_count, blank, blank_funs, section_of, parse_funs}
use test_dbug.Blog.Symbols.{open_file-content}
use test_dbug.Blog.Syn.{symbol_lines, syn_funs, syn_main}

abbrev pub line_of : FuncOrg → Line
line_of f = symbol_line f.name f.addr

length-blank : (n : ℕ) → length (blank n) ≡ n
unfolding blank
length-blank zero = refl
length-blank (suc n) = ap suc (length-blank n)

symbol_lines-map :
    (fs rest : List FuncOrg) → symbol_lines (length fs) (fs ++ rest) ≡ some (map line_of fs)
unfolding symbol_lines
symbol_lines-map [] rest = refl
symbol_lines-map (f ∷ fs) rest = rw (symbol_lines-map fs rest) refl

-- The table that is made of an image holds the function symbols.
parse_funs-funcs_between :
    (word : List ℕ) (base : ℕ) (ehdr : Ehdr) (syns strtab : Option ℕ) (size strsize count : ℕ)
    (fs : List FuncOrg)
    → ehdr_at word ≡ some ehdr
    → section_of word ehdr ".symtab" ≡ some (syns, size)
    → section_of word ehdr ".strtab" ≡ some (strtab, strsize)
    → symbol_count size ≡ some count
    → funcs_between word syns strtab base count 0 ≡ some fs
    → (rest : List FuncOrg) × (parse_funs word base
        ≡ some (record { word = word; size = length fs; items = fs ++ rest }))
unfolding parse_funs blank_funs
parse_funs-funcs_between word base ehdr syns strtab size strsize count fs is_ehdr is_syms is_strs
      is_count are =
    let (rest, picked, less) =
      get_all_func-funcs_between word syns strtab base (blank_funs word count)
        (omega (arith, length-blank count)) are in
    (rest, rw (is_ehdr, is_syms, is_strs, is_count) picked)

syn_funs-parse_funs :
    (files : Files) (path : Text) {content : List ℕ}
    → files.content path ≡ some content
    → files.fails path ≡ false
    → length content < 2 ^ 31 - 1
    → syn_funs files path ≡ parse_funs (content ++ 0 ∷ []) 0
unfolding syn_funs parse_funs section_of
syn_funs-parse_funs files path is reads small =
    ap (λ t. ◌>>=◌ t (λ file. ◌>>=◌ file (λ word. parse_funs word 0)))
      (open_file-content files path is reads small)

-- For a file of less than 2 ^ 31 - 1 bytes that is there and can be read, whose header and two sections are found and whose symbols and names can be read,
-- syn.c prints one line for each function symbol of the symbol table, in their order, each with its
-- name and its value, and does not fault.
pub syn_main-funcs_between :
    (files : Files) (name path : Text) (more : List Text) (content : List ℕ) (ehdr : Ehdr)
    (syns strtab : Option ℕ) (size strsize count : ℕ) (fs : List FuncOrg)
    → files.content path ≡ some content
    → files.fails path ≡ false
    → length content < 2 ^ 31 - 1
    → ehdr_at (content ++ 0 ∷ []) ≡ some ehdr
    → section_of (content ++ 0 ∷ []) ehdr ".symtab" ≡ some (syns, size)
    → section_of (content ++ 0 ∷ []) ehdr ".strtab" ≡ some (strtab, strsize)
    → symbol_count size ≡ some count
    → funcs_between (content ++ 0 ∷ []) syns strtab 0 count 0 ≡ some fs
    → syn_main files (name ∷ path ∷ more) ≡ some (map line_of fs)
unfolding syn_main
syn_main-funcs_between files name path more content ehdr syns strtab size strsize count fs is reads
      small is_ehdr is_syms is_strs is_count are =
    let (rest, parsed) =
      parse_funs-funcs_between (content ++ 0 ∷ []) 0 ehdr syns strtab size strsize count fs is_ehdr
        is_syms is_strs is_count are in
    ap (λ t. ◌>>=◌ t (λ funs. symbol_lines funs.size funs.items))
      (syn_funs-parse_funs files path is reads small ∙ parsed)
    ∙ symbol_lines-map fs rest
