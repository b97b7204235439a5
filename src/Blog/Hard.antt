-- ===== src/Blog/Hard.antt =====
-- blog/hardbreak.c: a hardware breakpoint at the function `bar`. `sleep` is left out.
use test_dbug.Common.{ℕ, zero, suc, [], ◌∷◌, ◌++◌, pos, minus_one, is_neg, if◌then◌else◌, codes}
use test_dbug.Output.{error_line, labelled}
use test_dbug.Kernel.{Pid, Regs, Kernel}
use test_dbug.Dbug.{wifexited}
use test_dbug.Blog.{Step, goes, ends, and_go}
use test_dbug.Blog.Break.{Tracer}
use test_dbug.Blog.Child.{Forked, forked, hardbreak_child}

-- `0 | 0x01 | 0x02`
abbrev pub dr_7 : ℕ
dr_7 = 3

module _ {S : Type 0} (k : Kernel S) (pid : Pid) (bar : ℕ) where
  unfoldable pub hard_go : Tracer S → Step (Tracer S)
  hard_go t =
      let (r, s) = k.cont t.os pid in
      if is_neg r
      then ends minus_one
          (record t { os = s; out = t.out ++ error_line (codes "ptrace SYSCALL err") ∷ [] })
      else goes (record t { os = s })

  -- One round of the loop.
  unfoldable pub hard_round : Tracer S → Step (Tracer S)
  hard_round t =
      let (status, s) = k.wait t.os t.status in
      let regs = (k.getregs s pid t.regs).1 in
      if wifexited status
      then ends (pos 0) (record t { os = s; status = status })
      else hard_go (record t {
        os = s;
        status = status;
        regs = regs;
        out =
            t.out
            ++ labelled (codes "function bar() = ") bar
              ∷ labelled (codes "break rip = ") regs.rip
              ∷ [];
      })

  unfoldable pub hard_loop : ℕ → Tracer S → Step (Tracer S)
  hard_loop zero t = goes t
  hard_loop (suc n) t = and_go (hard_round t) (hard_loop n)

  -- The two writes to debug registers, whose failures are only reported.
  unfoldable pub set_registers : Tracer S → Tracer S
  set_registers t =
      let (r0, s0) = k.pokeuser t.os pid 0 bar in
      let (r7, s7) = k.pokeuser s0 pid 7 dr_7 in
      let e0 = if is_neg r0 then error_line (codes "tracer, faile to set DR_0\n") ∷ [] else [] in
      let e7 = if is_neg r7 then error_line (codes "tracer, faile to set DR_7\n") ∷ [] else [] in
      record t { os = s7; out = t.out ++ (e0 ++ e7) }

  -- `main` in the parent, behind the first wait.
  unfoldable pub hard_main : ℕ → Tracer S → Step (Tracer S)
  hard_main n t =
      if wifexited t.status
      then ends (pos 0) t
      else and_go (hard_go (set_registers t)) (hard_loop n)

-- The whole of hardbreak.c, for the address of its function `bar`.
unfoldable pub hardbreak_program :
    {S : Type 0} → Kernel S → ℕ → Regs → ℕ → S → Forked S (Step (Tracer S))
unfolding hard_main
hardbreak_program k bar regs n = forked k (hardbreak_child k) (λ pid s.
    let (status, s') = k.wait s 0 in
    hard_main k pid bar n (record { os = s'; status = status; regs = regs; out = [] }))
