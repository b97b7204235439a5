-- ===== src/Blog/Soft.antt =====
-- blog/softbreak.c: a breakpoint at the function `bar`, set by whole words. `sleep` is left out.
pub mod Traps
pub mod Programs
use test_dbug.Common.{
  ℕ, zero, suc, ◌+◌, ◌-◌, ◌%◌, ◌^◌, List, [], ◌∷◌, ◌++◌, pos, minus_one, is_neg, if◌then◌else◌,
  codes, to_u64,
}
use test_dbug.Output.{Line, stop_at, pointer_line, error_line}
use test_dbug.Kernel.{Pid, Regs, Kernel}
use test_dbug.Dbug.{int_3, wifexited}
use test_dbug.Blog.Child.{Forked, forked, softbreak_child}
use test_dbug.Blog.{Step, goes, ends, and_go}
use test_dbug.Blog.Break.{Tracer, one_step}

-- `(orig_code & 0xFFFFFFFFFFFFFF00) | INT_3`
abbrev pub trap_word : ℕ → ℕ
trap_word orig = orig - orig % 256 + int_3

module _ {S : Type 0} (k : Kernel S) (pid : Pid) (bar : ℕ) where
  abbrev pub with_word : ℕ → S → S
  with_word word s = (k.poketext s pid bar word).1

  unfoldable pub soft_go : Tracer S → Step (Tracer S)
  soft_go t =
      let (r, s) = k.cont t.os pid in
      if is_neg r
      then ends minus_one
          (record t { os = s; out = t.out ++ error_line (codes "ptrace SYSCALL err") ∷ [] })
      else goes (record t { os = s })

  -- One round of the loop behind its wait.
  unfoldable pub soft_stop : ℕ → Tracer S → Step (Tracer S)
  soft_stop orig t =
      let regs = (k.getregs t.os pid t.regs).1 in
      let back = record regs { rip = (regs.rip + 2 ^ 64 - 1) % 2 ^ 64 } in
      let s = with_word (trap_word orig) (one_step k pid back (with_word orig t.os)) in
      soft_go
        (record t { os = s; regs = back; out = t.out ++ stop_at regs.rip ∷ pointer_line bar ∷ [] })

  unfoldable pub soft_round : ℕ → Tracer S → Step (Tracer S)
  soft_round orig t =
      let (status, s) = k.wait t.os t.status in
      let t' = record t { os = s; status = status } in
      if wifexited status then ends (pos 0) t' else soft_stop orig t'

  unfoldable pub soft_loop : ℕ → ℕ → Tracer S → Step (Tracer S)
  soft_loop orig zero t = goes t
  soft_loop orig (suc n) t = and_go (soft_round orig t) (soft_loop orig n)

  -- `main` in the parent, behind the first wait.
  unfoldable pub soft_main : ℕ → Tracer S → Step (Tracer S)
  unfolding soft_loop
  soft_main n t =
      let orig = to_u64 (k.peektext t.os pid bar) in
      if wifexited t.status
      then ends (pos 0) t
      else and_go (soft_go (record t { os = with_word (trap_word orig) t.os })) (soft_loop orig n)

-- The whole of softbreak.c, for the address of its function `bar`.
unfoldable pub softbreak_program :
    {S : Type 0} → Kernel S → ℕ → Regs → ℕ → S → Forked S (Step (Tracer S))
unfolding soft_main
softbreak_program k bar regs n = forked k (softbreak_child k) (λ pid s.
    let (status, s') = k.wait s 0 in
    soft_main k pid bar n (record { os = s'; status = status; regs = regs; out = [] }))
