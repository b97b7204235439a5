-- ===== src/Blog/Small.antt =====
-- blog/getinfo.c, blog/readmem.c, blog/writemem.c and blog/base.c: one look at a process, or one write.
-- `sleep` is left out.
pub mod Data
use test_dbug.Common.{
  ℕ, List, [], ◌∷◌, ◌++◌, Option, none, some, ℤ, pos, negsuc, minus_one, is_neg, if◌then◌else◌,
  Text, codes, to_u64, ◌==◌,
}
use test_dbug.Output.{Line, error_line, labelled}
use test_dbug.Kernel.{Pid, Regs, Kernel}
use test_dbug.Elf.Maps.{Files}
use test_dbug.Dbug.{wifexited}
use test_dbug.Blog.Copies.Base.{get_pid_base}
use test_dbug.Blog.Break.{Tracer}
use test_dbug.Blog.Child.{
  Child, Fate, returns, execs, Forked, forked, getinfo_child, readmem_child, writemem_child,
}

-- What `main` returns, and the variables then.
abbrev pub Done : Type 0 → Type 0
Done S = ℤ × Tracer S

module _ {S : Type 0} (k : Kernel S) (pid : Pid) where
  -- The wait for the child, and what is done where it has not ended.
  unfoldable pub first_wait : (Tracer S → Done S) → Tracer S → Done S
  first_wait rest t =
      let (status, s) = k.wait t.os t.status in
      let t' = record t { os = s; status = status } in
      if wifexited status then (pos 0, t') else rest t'

  -- PTRACE_CONT at the end: what is printed and returned where it fails.
  unfoldable pub last_cont : Text → ℤ → Tracer S → Done S
  last_cont message code t =
      let (r, s) = k.cont t.os pid in
      if is_neg r
      then (code, record t { os = s; out = t.out ++ error_line message ∷ [] })
      else (pos 0, record t { os = s })

  unfoldable pub info_lines : Regs → List Line
  info_lines r =
      labelled (codes "rax = ") r.rax
      ∷ labelled (codes "rip = ") r.rip
      ∷ labelled (codes "rbp = ") r.rbp
      ∷ labelled (codes "rsp = ") r.rsp
      ∷ []

  -- getinfo.c: a failed PTRACE_CONT is only reported.
  unfoldable pub getinfo_main : Tracer S → Done S
  unfolding first_wait last_cont info_lines
  getinfo_main = first_wait (λ t.
      let (r, regs) = k.getregs t.os pid t.regs in
      let error = if is_neg r then error_line (codes "get regs err") ∷ [] else [] in
      last_cont (codes "CONT err") (pos 0)
        (record t { regs = regs; out = t.out ++ (error ++ info_lines regs) }))

  -- readmem.c: `num` lies at the same address in both processes, and is 0 in this one.
  unfoldable pub readmem_main : ℕ → Tracer S → Done S
  unfolding first_wait last_cont
  readmem_main num_addr = first_wait (λ t.
      let tem = to_u64 (k.peekdata t.os pid num_addr) in
      last_cont (codes "ptrace SYSCALL err") minus_one (record t {
        out = t.out ++ labelled (codes "read num = ") tem ∷ labelled (codes "this num = ") 0 ∷ [];
      }))

  -- writemem.c: the result of the write is not looked at.
  unfoldable pub writemem_main : ℕ → Tracer S → Done S
  unfolding first_wait last_cont
  writemem_main num_addr = first_wait (λ t.
      last_cont (codes "ptrace SYSCALL err") minus_one
        (record t { os = (k.pokedata t.os pid num_addr 120).1 }))

module _ {S : Type 0} (k : Kernel S) where
  abbrev pub fresh_tracer : Regs → S → Tracer S
  fresh_tracer regs s = record { os = s; status = 0; regs = regs; out = [] }

  -- The whole of each program; `regs` is what lies in the variable before it is set.
  unfoldable pub getinfo_program : Regs → S → Forked S (Done S)
  unfolding getinfo_main
  getinfo_program regs =
      forked k (getinfo_child k) (λ pid s. getinfo_main k pid (fresh_tracer regs s))

  unfoldable pub readmem_program : ℕ → (ℕ → S → S) → Regs → S → Forked S (Done S)
  unfolding readmem_main
  readmem_program num_addr set_num regs =
      forked k (readmem_child k set_num)
        (λ pid s. readmem_main k pid num_addr (fresh_tracer regs s))

  unfoldable pub writemem_program : ℕ → (S → ℕ) → Regs → S → Forked S (Done S)
  unfolding writemem_main
  writemem_program num_addr num regs =
      forked k (writemem_child k num) (λ pid s. writemem_main k pid num_addr (fresh_tracer regs s))

  -- base.c, from the end of the `if` on: the base is printed, for process 0 in a child that goes on.
  unfoldable pub print_base : (S → Files) → Pid → Child S → Option (Fate S)
  print_base files pid c = elim (get_pid_base (files c.os) pid) [
    | none ↦ none
    | some base ↦
        some (returns (pos 0) (record c { out = c.out ++ labelled (codes "base = 0x") base ∷ [] }))
  ]

  -- The child goes on behind a failed `execl`.
  unfoldable pub base_program : (S → Files) → S → Option (Fate S)
  unfolding print_base
  base_program files s =
      let (r, s') = k.fork s in
      let c : Child S = record { os = s'; out = [] } in
      elim r [
        | negsuc n ↦
            some (returns minus_one (record c { out = error_line (codes "fork err") ∷ [] }))
        | pos n ↦
            if n == 0
            then elim (k.execvp s' (some (codes "./code")) (some (codes "code") ∷ none ∷ [])) [
              | none ↦ some (execs c)
              | some (e, s'') ↦ print_base files 0 (record c { os = s'' })
            ]
            else print_base files n c
      ]
