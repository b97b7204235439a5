-- ===== src/Blog/Break/Programs.antt =====
-- The whole of blog/dbug_break.c, from the fork on.
use test_dbug.Common.{
  ℕ, suc, ◌^◌, ◌<◌, ◌≡◌, refl, sym, ap, ◌∙◌, arith, Bool, true, false, [], ◌∷◌, ◌++◌, some, inl,
  inr, List, ℤ, pos, is_neg, if◌then◌else◌, get_elem?, Text, codes,
}
use test_dbug.Kernel.{Pid, Regs, Kernel, IsMemory}
use test_dbug.Elf.Image.{◌>>=◌, >>=-eq-some}
use test_dbug.Elf.Functions.{FuncOrg, FunArr}
use test_dbug.Elf.Lookup.{
  find_func, HasNames, NoMatch, name_at, name_at-get_elem?, find_func-Answers,
}
use test_dbug.Elf.Maps.{Files, get_pid_base}
use test_dbug.Elf.Open.{section_of, parse_funs, parse_funs-HasNames}
use test_dbug.Dbug.{wifexited}
use test_dbug.Output.{error_line}
use test_dbug.Command.Handlers.{atoi}
use test_dbug.Command.Handlers.Armed.{IsStill}
use test_dbug.Blog.{Step, state_of}
use test_dbug.Blog.Child.{in_parent}
use test_dbug.Blog.Child.Parents.{forked-in_parent}
use test_dbug.Blog.Symbols.{open_file, dbuf}
use test_dbug.Blog.Break.{
  Tracer, element, break_at_addr, break_main, dbug_break_main, dbug_break_program, attach_stopped,
  attach_main,
}
use test_dbug.Blog.Break.Traps.{IsTrapped, break_at_addr-IsTrapped}

dbuf-parse_funs :
    (fs : Files) (path : Text) (base : ℕ)
    → dbuf fs path base
      ≡ ◌>>=◌ (open_file fs path) (λ file. ◌>>=◌ file (λ word. parse_funs word base))
unfolding dbuf parse_funs section_of
dbuf-parse_funs fs path base = refl

-- The table that `dbuf` makes has a name in each element.
dbuf-HasNames :
    (fs : Files) (path : Text) (base : ℕ) {funs : FunArr}
    → dbuf fs path base ≡ some funs
    → HasNames funs.size funs.items
dbuf-HasNames fs path base {funs} e =
    let (file, opened, more) =
      >>=-eq-some (open_file fs path) _ (sym (dbuf-parse_funs fs path base) ∙ e) in
    let (word, is_word, parsed) = >>=-eq-some file _ more in
    parse_funs-HasNames word base {funs = funs} parsed

module _ {S : Type 0} (k : Kernel S) (files : S → Files) {mem : S → Pid → ℕ → ℕ}
    {mapped : S → Pid → ℕ → Bool} {code : ℕ → Bool} (m : IsMemory k mem mapped)
    (still : IsStill k mem mapped code) (text : ℕ → ℕ) where
  break_main-break_at_addr :
      (pid n : ℕ) (t : Tracer S) (base j : ℕ) (funs : FunArr) (f : FuncOrg)
      → wifexited t.status ≡ false
      → get_pid_base (files t.os) pid ≡ some base
      → dbuf (files t.os) (codes "./dbuf_break_test") base ≡ some funs
      → find_func (some funs) (some (codes "print_int")) ≡ some (pos j)
      → get_elem? funs.items j ≡ some f
      → break_main k pid files n t ≡ some (break_at_addr k pid f.addr n t)
  unfolding break_main element
  break_main-break_at_addr pid n t base j funs f stands is_base is_funs found is_f =
      rw (stands, is_base, is_funs, found, is_f) refl

  module _ (pid n : ℕ) (t : Tracer S) (base i : ℕ) (funs : FunArr) (more : Text)
      (stands : wifexited t.status ≡ false) (is_base : get_pid_base (files t.os) pid ≡ some base)
      (is_funs : dbuf (files t.os) (codes "./dbuf_break_test") base ≡ some funs)
      (within : i < funs.size) (named : name_at funs.items i ≡ some (codes "print_int" ++ more))
      (places : (j : ℕ) (f : FuncOrg)
        → j < funs.size
        → get_elem? funs.items j ≡ some f
        → (f.addr < 2 ^ 64) × (mapped t.os pid f.addr ≡ true) × (code f.addr ≡ true))
      (own : (a : ℕ) → code a ≡ true → mem t.os pid a ≡ text a) where
    -- The part of `main` that the two programs share.
    break_main-IsTrapped :
        (j : ℕ) × (f : FuncOrg) × (rest : Text) × (step : Step (Tracer S)) × (get_elem? funs.items j
          ≡ some f)
        × (f.name ≡ some (codes "print_int" ++ rest))
        × NoMatch (codes "print_int") funs.items j
        × (break_main k pid files n t ≡ some step)
        × IsTrapped mem mapped code text pid f.addr (state_of step).os
    break_main-IsTrapped =
        let names = dbuf-HasNames (files t.os) (codes "./dbuf_break_test") base is_funs in
        let (r, found, answer) = find_func-Answers funs (codes "print_int") names in
        elim answer [
          | inr (none_found, no_match) ↦ absurd (no_match i _ more within named refl)
          | inl (j, rest, at, below, here, before) ↦
              let (f, is_f, name) = name_at-get_elem? funs.items j here in
              let (fits, ok, in_code) = places j f below is_f in
              let index : r ≡ pos j = at ∙ ap pos (omega arith) in
              (
                j,
                f,
                rest,
                break_at_addr k pid f.addr n t,
                is_f,
                name,
                before,
                break_main-break_at_addr pid n t base j funs f stands is_base is_funs
                    (found ∙ ap some index) is_f,
                break_at_addr-IsTrapped k m still text pid f.addr fits in_code n t ok own,
              )
        ]

  -- In the parent, with a child `pid` that has stopped with its own code, its base found and the
  -- symbols of its file read without a fault, of which one at least begins with `print_int` and all that
  -- are counted lie in code that can be accessed: the program sets its breakpoint at the first
  -- function whose name begins so, without a fault, and over any number of rounds of its loop, however that
  -- ends, the code stays as it was but for that trap.
  pub dbug_break_program-IsTrapped :
      (regs : Regs) (n pid : ℕ) (s : S) {s1 s2 : S} {status base : ℕ} {funs : FunArr} (i : ℕ)
      (more : Text)
      → k.fork s ≡ (pos (suc pid), s1)
      → k.wait s1 0 ≡ (status, s2)
      → wifexited status ≡ false
      → get_pid_base (files s2) (suc pid) ≡ some base
      → dbuf (files s2) (codes "./dbuf_break_test") base ≡ some funs
      → i < funs.size
      → name_at funs.items i ≡ some (codes "print_int" ++ more)
      → ((j : ℕ) (f : FuncOrg)
          → j < funs.size
          → get_elem? funs.items j ≡ some f
          → (f.addr < 2 ^ 64) × (mapped s2 (suc pid) f.addr ≡ true) × (code f.addr ≡ true))
      → ((a : ℕ) → code a ≡ true → mem s2 (suc pid) a ≡ text a)
      → (j : ℕ) × (f : FuncOrg) × (rest : Text) × (step : Step (Tracer S)) × (get_elem? funs.items j
          ≡ some f)
        × (f.name ≡ some (codes "print_int" ++ rest))
        × NoMatch (codes "print_int") funs.items j
        × (dbug_break_program k files regs n s ≡ in_parent (some step))
        × IsTrapped mem mapped code text (suc pid) f.addr (state_of step).os
  unfolding dbug_break_program dbug_break_main
  dbug_break_program-IsTrapped regs n pid s {s1} {s2} {status} {base} {funs} i more forks waits
        stands is_base is_funs within named places own =
      let t : Tracer S = record { os = s2; status = status; regs = regs; out = [] } in
      let (j, f, rest, step, is_f, name, before, runs, trapped) =
        break_main-IsTrapped (suc pid) n t base i funs more stands is_base is_funs within named
          places own in
      (
        j,
        f,
        rest,
        step,
        is_f,
        name,
        before,
        forked-in_parent k _ _ s pid forks
            ∙ ap
                (λ (x : ℕ × S). in_parent (
                  break_main k (suc pid) files n
                    (record { os = x.1; status = x.0; regs = regs; out = [] })))
                waits
            ∙ ap in_parent runs,
        trapped,
      )

  -- With the number of a process on the command line that has stopped, whether or not it could be attached
  -- to, with its own code, its base found and the symbols of the file read without a fault, of which one
  -- at least begins with `print_int` and all that are counted lie in code that can be accessed:
  -- attach.c sets its breakpoint at the first function whose name begins so, without a fault, and over
  -- any number of rounds of its loop, however that ends, the code stays as it was but for that trap.
  pub attach_main-IsTrapped :
      (name word : Text) (words : List Text) (n : ℕ) (t : Tracer S) {r : ℤ} {s2 : S}
      {status base : ℕ} {funs : FunArr} (i : ℕ) (more : Text)
      → k.waitpid (k.attach t.os (atoi word)).1 (atoi word) t.status ≡ (r, status, s2)
      → wifexited status ≡ false
      → get_pid_base (files s2) (atoi word) ≡ some base
      → dbuf (files s2) (codes "./dbuf_break_test") base ≡ some funs
      → i < funs.size
      → name_at funs.items i ≡ some (codes "print_int" ++ more)
      → ((j : ℕ) (f : FuncOrg)
          → j < funs.size
          → get_elem? funs.items j ≡ some f
          → (f.addr < 2 ^ 64) × (mapped s2 (atoi word) f.addr ≡ true) × (code f.addr ≡ true))
      → ((a : ℕ) → code a ≡ true → mem s2 (atoi word) a ≡ text a)
      → (j : ℕ) × (f : FuncOrg) × (rest : Text) × (step : Step (Tracer S)) × (get_elem? funs.items j
          ≡ some f)
        × (f.name ≡ some (codes "print_int" ++ rest))
        × NoMatch (codes "print_int") funs.items j
        × (attach_main k files (name ∷ word ∷ words) n t ≡ some step)
        × IsTrapped mem mapped code text (atoi word) f.addr (state_of step).os
  unfolding attach_main attach_stopped break_main
  attach_main-IsTrapped name word words n t {r} {s2} {status} {base} {funs} i more waits stands
        is_base is_funs within named places own =
      let out =
        if is_neg (k.attach t.os (atoi word)).0
        then t.out ++ error_line (codes "attch err") ∷ []
        else t.out in
      let t' : Tracer S = record t { os = s2; status = status; out = out } in
      let (j, f, rest, step, is_f, called, before, runs, trapped) =
        break_main-IsTrapped (atoi word) n t' base i funs more stands is_base is_funs within named
          places own in
      (
        j,
        f,
        rest,
        step,
        is_f,
        called,
        before,
        ap
              (λ (x : ℤ × ℕ × S).
                attach_stopped k (atoi word) files n
                  (record t { os = x.2; status = x.1; out = out }))
              waits
            ∙ runs,
        trapped,
      )
