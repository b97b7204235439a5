-- ===== src/Blog/Calls/Rounds.antt =====
-- The rounds of the loop that traces `write`, in blog/getsyscall.c and blog/dbug.c.
use test_dbug.Common.{
  ℕ, suc, ◌≡◌, refl, ap, ◌∙◌, false, List, [], ◌∷◌, ◌++◌, Option, none, some, is_neg, if◌then◌else◌,
  Bool-cases, minus_one, pos, inl, inr, codes, true,
}
use test_dbug.Output.{Line, error_line}
use test_dbug.Kernel.{Pid, Regs, Kernel}
use test_dbug.Dbug.{wifexited}
use test_dbug.Blog.{Step, goes, ends}
use test_dbug.Blog.Calls.{Calls, Watcher, on_call, then_go, call_round, call_loop}

module _ {S : Type 0} (k : Kernel S) (pid : Pid) (line : S → ℕ → Calls → Option Line) where
  -- What a round does behind the test of the call, and the rounds that follow.
  abbrev pub after_call : ℕ → S → ℕ → Regs → Calls → List Line → Option (Step (Watcher S))
  after_call n s status regs c out =
      let (r, s') = k.syscall s pid in
      let t' : Watcher S = record { os = s'; status = status; regs = regs; calls = c; out = out } in
      if is_neg r
      then some (ends minus_one (record t' { out = out ++ error_line (codes "CONT err") ∷ [] }))
      else call_loop k pid line n t'

  call_loop-round :
      (n : ℕ) (t : Watcher S) (x : Option (Step (Watcher S)))
      → call_round k pid line t ≡ x
      → call_loop k pid line (suc n) t ≡ then_go x (call_loop k pid line n)
  unfolding call_loop
  call_loop-round n t x e = ap (λ x. then_go x (call_loop k pid line n)) e

  pub call_loop-exits :
      (n : ℕ) (t : Watcher S)
      → wifexited (k.wait t.os t.status).0 ≡ true
      → call_loop k pid line (suc n) t
        ≡ some (
            ends
              (pos 0)
              (let (status, s) = k.wait t.os t.status in record t { os = s; status = status }))
  call_loop-exits n t exits =
      call_loop-round n t
        (some (
          ends (pos 0)
            (let (status, s) = k.wait t.os t.status in record t { os = s; status = status })))
        (unfold call_round in rw (exits, call_round) refl)

  module _ (n : ℕ) (t : Watcher S) (stands : wifexited (k.wait t.os t.status).0 ≡ false) where
    abbrev s1 : S
    s1 = (k.wait t.os t.status).1

    abbrev regs1 : Regs
    regs1 = (k.getregs s1 pid t.regs).1

    abbrev behind : Calls → List Line → Watcher S
    behind c lines = record {
      os = (k.syscall s1 pid).1;
      status = (k.wait t.os t.status).0;
      regs = regs1;
      calls = c;
      out = t.out ++ lines;
    }

    pub call_loop-after :
        (c : Calls) (lines : List Line)
        → on_call line s1 regs1 t.calls ≡ some (c, lines)
        → call_loop k pid line (suc n) t
          ≡ after_call n s1 (k.wait t.os t.status).0 regs1 c (t.out ++ lines)
    call_loop-after c lines called = elim (Bool-cases (is_neg (k.syscall s1 pid).0)) [
      | inl failed ↦
          call_loop-round n t
            (some (
              ends minus_one (
                let t' = behind c lines in
                record t' { out = t'.out ++ error_line (codes "CONT err") ∷ [] })))
            (unfold call_round in rw (stands, called, failed, call_round) refl)
          ∙ rw failed refl
      | inr ok ↦
          call_loop-round n t (some (goes (behind c lines)))
            (unfold call_round in rw (stands, called, ok, call_round) refl)
          ∙ rw ok refl
    ]

    pub call_loop-fault :
        on_call line s1 regs1 t.calls ≡ none → call_loop k pid line (suc n) t ≡ none
    call_loop-fault called =
        call_loop-round n t none (unfold call_round in rw (stands, called, call_round) refl)
