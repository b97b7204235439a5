-- ===== src/Blog/Break.antt =====
-- blog/dbug_break.c and blog/attach.c: a breakpoint at one function, stepped over in a loop. `sleep`
-- is left out.
pub mod Traps
pub mod Programs
use test_dbug.Common.{
  ℕ, zero, suc, ◌+◌, ◌-◌, ◌%◌, ◌^◌, ◌≤◌, ◌<◌, ◌≡◌, ◌≢◌, refl, sym, ap, subst, ◌∙◌, arith, Bool,
  true, false, List, [], ◌∷◌, ◌++◌, Option, none, some, ℤ, pos, negsuc, minus_one, is_neg,
  if◌then◌else◌, Bool-cases, inl, inr, Text, codes, get_elem?, le_bytes,
}
use test_dbug.Output.{Line, stop_at, error_line}
use test_dbug.Kernel.{Pid, Regs, Kernel, IsMemory}
use test_dbug.Blog.Copies.DbugBreak.{read_pro_mem, write_pro_mem, get_pid_base, find_func}
use test_dbug.Blog.Copies.Attach
use test_dbug.Blog.Child.{Forked, forked, dbug_break_child}
use test_dbug.Elf.Image.{◌>>=◌}
use test_dbug.Elf.Functions.{FuncOrg, FunArr}
use test_dbug.Elf.Maps.{Files}
use test_dbug.Dbug.{int_3, wifexited}
use test_dbug.Command.Handlers.{atoi}
use test_dbug.Blog.{Step, goes, ends, and_go}
use test_dbug.Blog.Symbols.{dbuf}

-- The variables of `main` that change, with the system and what was printed.
pub record Tracer (S : Type 0) : Type 0 where
  pub os : S
  pub status : ℕ
  pub regs : Regs
  pub out : List Line

abbrev pub first_byte : List ℕ → ℕ
first_byte [] = 0
first_byte (b ∷ bs) = b

-- `funs->data[index]`
unfoldable pub element : FunArr → ℤ → Option FuncOrg
element funs (pos i) = get_elem? funs.items i
element funs (negsuc i) = none

module _ {S : Type 0} (k : Kernel S) (pid : Pid) where
  -- The call of PTRACE_CONT, and what follows where it fails.
  unfoldable pub go_on : Tracer S → Step (Tracer S)
  go_on t =
      let (r, s) = k.cont t.os pid in
      if is_neg r
      then ends minus_one (record t { os = s; out = t.out ++ error_line (codes "CONT err") ∷ [] })
      else goes (record t { os = s })

  -- The system when the instruction at the breakpoint is to run, and after the trap is back.
  abbrev pub with_own_code : ℕ → ℕ → S → S
  with_own_code addr orig s = (write_pro_mem k pid addr (orig ∷ []) 1 s).1

  abbrev pub with_trap : ℕ → S → S
  with_trap addr s = (write_pro_mem k pid addr (int_3 ∷ []) 1 s).1

  abbrev pub one_step : Regs → S → S
  one_step regs s = (k.wait (k.singlestep (k.setregs s pid regs) pid) 0).1

  -- One round of the loop behind its wait.
  unfoldable pub break_stop : ℕ → ℕ → Tracer S → Step (Tracer S)
  unfolding go_on
  break_stop addr orig t =
      let regs = (k.getregs t.os pid t.regs).1 in
      let back = record regs { rip = (regs.rip + 2 ^ 64 - 1) % 2 ^ 64 } in
      let s = with_trap addr (one_step back (with_own_code addr orig t.os)) in
      go_on (record t { os = s; regs = back; out = t.out ++ stop_at regs.rip ∷ [] })

  unfoldable pub break_round : ℕ → ℕ → Tracer S → Step (Tracer S)
  break_round addr orig t =
      let (status, s) = k.wait t.os t.status in
      let t' = record t { os = s; status = status } in
      if wifexited status then ends (pos 0) t' else break_stop addr orig t'

  unfoldable pub break_loop : ℕ → ℕ → ℕ → Tracer S → Step (Tracer S)
  break_loop addr orig zero t = goes t
  break_loop addr orig (suc n) t = and_go (break_round addr orig t) (break_loop addr orig n)

  -- The part of `main` from the reading of `orig_code`, a variable of one byte, on.
  unfoldable pub break_at_addr : ℕ → ℕ → Tracer S → Step (Tracer S)
  unfolding break_loop
  break_at_addr addr n t =
      let orig = first_byte (read_pro_mem k pid addr (0 ∷ []) 1 t.os).1 in
      and_go (go_on (record t { os = with_trap addr t.os })) (break_loop addr orig n)

  -- The part behind the first wait, which needs the symbol; `none` is a fault.
  unfoldable pub break_main : (S → Files) → ℕ → Tracer S → Option (Step (Tracer S))
  unfolding element break_at_addr
  break_main files n t = if wifexited t.status then some (ends (pos 0) t) else (do
    base ← get_pid_base (files t.os) pid
    funs ← dbuf (files t.os) (codes "./dbuf_break_test") base
    index ← find_func (some funs) (some (codes "print_int"))
    f ← element funs index
    some (break_at_addr f.addr n t))

-- `main` of dbug_break.c in the parent, behind its fork.
unfoldable pub dbug_break_main :
    {S : Type 0} → Kernel S → (S → Files) → Pid → ℕ → Tracer S → Option (Step (Tracer S))
unfolding break_main
dbug_break_main k files pid n t =
    let (status, s) = k.wait t.os t.status in
    break_main k pid files n (record t { os = s; status = status })

-- The whole of dbug_break.c; `regs` is what lies in the variable before it is set.
unfoldable pub dbug_break_program :
    {S : Type 0} → Kernel S → (S → Files) → Regs → ℕ → S → Forked S (Option (Step (Tracer S)))
unfolding dbug_break_main
dbug_break_program k files regs n =
    forked k (dbug_break_child k) (λ pid s.
      dbug_break_main k files pid n (record { os = s; status = 0; regs = regs; out = [] }))

-- The same part of attach.c, by its own copies.
unfoldable pub attach_stopped :
    {S : Type 0} → Kernel S → Pid → (S → Files) → ℕ → Tracer S → Option (Step (Tracer S))
unfolding element break_at_addr
attach_stopped k pid files n t = if wifexited t.status then some (ends (pos 0) t) else (do
  base ← Attach.get_pid_base (files t.os) pid
  funs ← Attach.dbuf (files t.os) (codes "./dbuf_break_test") base
  index ← Attach.find_func (some funs) (some (codes "print_int"))
  f ← element funs index
  some (break_at_addr k pid f.addr n t))

-- `main` of attach.c with the words of its command line.
unfoldable pub attach_main :
    {S : Type 0} → Kernel S → (S → Files) → List Text → ℕ → Tracer S → Option (Step (Tracer S))
unfolding attach_stopped
attach_main k files [] n t = some (ends (pos 0) t)
attach_main k files (name ∷ []) n t = some (ends (pos 0) t)
attach_main k files (name ∷ word ∷ more) n t =
    let pid = atoi word in
    let (r, s) = k.attach t.os pid in
    let (w, status, s') = k.waitpid s pid t.status in
    let out = if is_neg r then t.out ++ error_line (codes "attch err") ∷ [] else t.out in
    attach_stopped k pid files n (record t { os = s'; status = status; out = out })
