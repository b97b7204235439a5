-- ===== src/Blog/Soft/Programs.antt =====
-- The whole of blog/softbreak.c, from the fork on.
use test_dbug.Common.{ℕ, suc, ◌+◌, ◌^◌, ◌≤◌, ◌<◌, ◌≡◌, ap, ◌∙◌, Bool, true, false, [], pos}
use test_dbug.Kernel.{Pid, Regs, Kernel, IsMemory}
use test_dbug.Dbug.{wifexited}
use test_dbug.Command.Handlers.Armed.{IsStill}
use test_dbug.Blog.{Step, state_of}
use test_dbug.Blog.Child.{in_parent}
use test_dbug.Blog.Child.Parents.{forked-in_parent}
use test_dbug.Blog.Break.{Tracer}
use test_dbug.Blog.Break.Traps.{IsTrapped}
use test_dbug.Blog.Soft.{soft_main, softbreak_program}
use test_dbug.Blog.Soft.Traps.{soft_main-IsTrapped}

module _ {S : Type 0} (k : Kernel S) {mem : S → Pid → ℕ → ℕ} {mapped : S → Pid → ℕ → Bool}
    {code : ℕ → Bool} (m : IsMemory k mem mapped) (still : IsStill k mem mapped code) (text : ℕ → ℕ)
    (pid bar : ℕ) (fits : bar < 2 ^ 64)
    (in_code : (a : ℕ) → bar ≤ a → a < bar + 8 → code a ≡ true) where
  -- In the parent, with a child that has stopped with its own code, in which the word at `bar` lies and
  -- can be accessed: over any number of rounds of the loop and however it ends, the child's code is
  -- as it was but for the trap at `bar`, although whole words are written.
  pub softbreak_program-IsTrapped :
      (regs : Regs) (n : ℕ) (s : S) {s1 s2 : S} {status : ℕ}
      → k.fork s ≡ (pos (suc pid), s1)
      → k.wait s1 0 ≡ (status, s2)
      → wifexited status ≡ false
      → mapped s2 (suc pid) bar ≡ true
      → ((a : ℕ) → code a ≡ true → mem s2 (suc pid) a ≡ text a)
      → (step : Step (Tracer S)) × (softbreak_program k bar regs n s ≡ in_parent step)
        × IsTrapped mem mapped code text (suc pid) bar (state_of step).os
  unfolding softbreak_program
  softbreak_program-IsTrapped regs n s {s1} {s2} {status} forks waits stands ok own =
      let t : Tracer S = record { os = s2; status = status; regs = regs; out = [] } in
      (
        soft_main k (suc pid) bar n t,
        forked-in_parent k _ _ s pid forks
            ∙ ap
                (λ (x : ℕ × S). in_parent (
                  soft_main k (suc pid) bar n
                    (record { os = x.1; status = x.0; regs = regs; out = [] })))
                waits,
        soft_main-IsTrapped k m still text (suc pid) bar fits in_code n t stands ok own,
      )
