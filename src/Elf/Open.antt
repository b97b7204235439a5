-- ===== src/Elf/Open.antt =====
-- `open_funs`: from a process to its table of functions.
use Prim.Native.String.{String}
use test_dbug.Common.{
  ℕ, zero, suc, ◌+◌, ◌-◌, ◌/◌, ◌%◌, ◌^◌, ◌≡◌, arith, List, [], ◌∷◌, Option, none, some, ltb,
  if◌then◌else◌, Option-cases, inl, inr, codes,
}
use test_dbug.Kernel.{Pid}
use test_dbug.Elf.Image.{◌>>=◌, >>=-eq-some, Ehdr, ehdr_at, sym_size}
use test_dbug.Elf.File.{load_word}
use test_dbug.Elf.Section.{get_section_addr}
use test_dbug.Elf.Functions.{FuncOrg, FunArr, get_all_func}
use test_dbug.Elf.Functions.Names.{get_all_func-HasNames}
use test_dbug.Elf.Lookup.{HasNames}
use test_dbug.Elf.Maps.{Files, read_exe, get_pid_base}

-- An `int` converted to `size_t` for the division, and the quotient back to an `int`. With a negative one
-- `calloc` is asked for more than any object can have and gives a null pointer, which is followed.
unfoldable pub symbol_count : ℕ → Option ℕ
symbol_count size =
    let wide = if ltb size (2 ^ 31) then size else size + 2 ^ 64 - 2 ^ 32 in
    let n = wide / sym_size % 2 ^ 32 in if ltb n (2 ^ 31) then some n else none

-- The elements that `calloc` gives.
unfoldable pub blank : ℕ → List FuncOrg
blank zero = []
blank (suc n) = record { name = none; addr = 0 } ∷ blank n

-- `funs` behind its `calloc`, with its size and image set.
unfoldable pub blank_funs : List ℕ → ℕ → FunArr
unfolding blank
blank_funs word count = record { word = word; size = count; items = blank count }

-- The two calls of `get_section_addr`, with a size that was set to 0.
unfoldable pub section_of : List ℕ → Ehdr → String → Option (Option ℕ × ℕ)
section_of word ehdr name =
    get_section_addr word ehdr.e_shoff ehdr.e_shnum ehdr.e_shstrndx (codes name) 0

-- The part behind the reading of the file, with its bytes and the NUL that `calloc` left.
unfoldable pub parse_funs : List ℕ → ℕ → Option FunArr
parse_funs word base = do
  ehdr ← ehdr_at word
  (syns, size) ← section_of word ehdr ".symtab"
  (strtab, strsize) ← section_of word ehdr ".strtab"
  count ← symbol_count size
  get_all_func word syns strtab base (blank_funs word count)

-- The outer option is a fault, or a reading that does not end, the inner one the returned pointer. A null
-- buffer is followed.
unfoldable pub open_funs : Files → Pid → Option (Option FunArr)
open_funs fs pid = do
  base ← get_pid_base fs pid
  target ← read_exe fs pid
  elim (fs.content target) [
    | none ↦ some none
    | some content ↦ do
      file ← load_word content (fs.fails target)
      word ← file
      funs ← parse_funs word base
      some (some funs)
  ]

pub parse_funs-HasNames :
    (word : List ℕ) (base : ℕ) {funs : FunArr}
    → parse_funs word base ≡ some funs
    → HasNames funs.size funs.items
unfolding parse_funs
parse_funs-HasNames word base {funs} e =
    let (ehdr, is_ehdr, e₁) = >>=-eq-some (ehdr_at word) _ e in
    elim (Option-cases (section_of word ehdr ".symtab")) [
      | inl bad ↦ absurd (ground arith)
      | inr ((syns, size), is_syms) ↦ elim (Option-cases (section_of word ehdr ".strtab")) [
        | inl bad ↦ absurd (ground arith)
        | inr ((strtab, strsize), is_strs) ↦ elim (Option-cases (symbol_count size)) [
          | inl bad ↦ absurd (ground arith)
          | inr (count, is_count) ↦
              get_all_func-HasNames word syns strtab base (blank_funs word count) {funs' = funs}
                (ground arith)
        ]
      ]
    ]

-- The table that `open_funs` returns has a name in each of its first `size` elements, so that
-- `find_func` finds no NULL name and does not run off its end.
pub open_funs-HasNames :
    (fs : Files) (pid : Pid) {funs : FunArr}
    → open_funs fs pid ≡ some (some funs)
    → HasNames funs.size funs.items
unfolding open_funs
open_funs-HasNames fs pid {funs} e = elim (Option-cases (get_pid_base fs pid)) [
  | inl bad ↦ absurd (ground arith)
  | inr (base, is_base) ↦ elim (Option-cases (read_exe fs pid)) [
    | inl bad ↦ absurd (ground arith)
    | inr (target, is_target) ↦ elim (Option-cases (fs.content target)) [
      | inl gone ↦ absurd (ground arith)
      | inr (content, is) ↦ elim (Option-cases (load_word content (fs.fails target))) [
        | inl bad ↦ absurd (ground arith)
        | inr (none, is_word) ↦ absurd (ground arith)
        | inr (some word, is_word) ↦ elim (Option-cases (parse_funs word base)) [
          | inl bad ↦ absurd (ground arith)
          | inr (table, parsed) ↦
              let same : funs ≡ table = ground arith in
              rw same (parse_funs-HasNames word base parsed)
        ]
      ]
    ]
  ]
]
