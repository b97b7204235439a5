-- ===== src/Blog/Calls/Programs.antt =====
-- The whole of blog/getsyscall.c and of blog/dbug.c, from the fork on.
use test_dbug.Common.{
  ℕ, suc, ◌≡◌, refl, ap, ◌∙◌, false, [], ◌++◌, Option, none, Text, pos, is_neg, to_u64, le_bytes,
}
use test_dbug.Output.{Line}
use test_dbug.Kernel.{Pid, Regs, Kernel}
use test_dbug.Dbug.{wifexited}
use test_dbug.Blog.{Step}
use test_dbug.Blog.Child.{Child, Fate, Forked, in_parent, forked, getsyscall_child, dbug_child}
use test_dbug.Blog.Child.Parents.{forked-in_parent}
use test_dbug.Blog.Calls.{
  Calls, Watcher, c_string, getsyscall_line, dbug_line, call_loop, calls_main, at_rest,
  getsyscall_program, dbug_program,
}
use test_dbug.Blog.Calls.Pairs.{stops, writes, written, Tells, Shows}
use test_dbug.Blog.Calls.Shown.{call_loop-Shows}

-- What dbug.c takes for the text at an address of the child: up to the first NUL of the word there,
-- which stands in its buffer twice, or none.
abbrev pub word_text : {S : Type 0} → Kernel S → Pid → S → ℕ → Option Text
word_text k pid s a = let word = le_bytes 8 (to_u64 (k.peekdata s pid a)) in c_string (word ++ word)

-- What a program that forks has printed in the parent, where it traces the child `pid` over `n` rounds
-- from the state `s` on: what `written` says of the stops, or a fault where it says none.
abbrev pub Prints :
    {S : Type 0}
    → Kernel S
    → Pid
    → (S → ℕ → Option Text)
    → ℕ
    → Regs
    → S
    → ℕ
    → Forked S (Option (Step (Watcher S)))
    → Type 0
Prints {S} k pid text n regs s status program =
    (run : Option (Step (Watcher S))) × (program ≡ in_parent run)
    × Shows [] (written text none (writes (stops k pid n s status regs))) run

module _ {S : Type 0} (k : Kernel S) (regs : Regs) (c : Calls) (n pid : ℕ) (s : S) {s1 s2 : S}
    {status : ℕ} (forks : k.fork s ≡ (pos (suc pid), s1)) (waits : k.wait s1 0 ≡ (status, s2))
    (stands : wifexited status ≡ false) (ok : is_neg (k.syscall s2 (suc pid)).0 ≡ false) where
  forked-Prints :
      (child : Child S → Fate S) (line : Pid → S → ℕ → Calls → Option Line)
      (text : S → ℕ → Option Text)
      → Tells (line (suc pid)) text
      → Prints k
          (suc pid)
          text
          n
          regs
          (k.syscall s2 (suc pid)).1
          status
          (forked k child (λ p s. calls_main k p (line p) n (at_rest s regs c)) s)
  unfolding calls_main
  forked-Prints child line text tells =
      let s3 = (k.syscall s2 (suc pid)).1 in
      let t : Watcher S =
        (let t0 : Watcher S = at_rest s1 regs c in record t0 { os = s3; status = status }) in
      let number : (k.wait s1 0).0 ≡ status = ap (λ x. x.0) waits in
      let left : (k.wait s1 0).1 ≡ s2 = ap (λ x. x.1) waits in
      (
        call_loop k (suc pid) (line (suc pid)) n t,
        forked-in_parent k child _ s pid forks ∙ ap in_parent (rw (number, left, stands, ok) refl),
        call_loop-Shows k (suc pid) (line (suc pid)) text tells n t none refl,
      )

  -- In the parent, with a child that has stopped and can be run to its next system call, and over any
  -- number of rounds: both programs print one line for each two stops at a call of `write`, in their
  -- order, with the arguments from the registers of the first stop and the result from those of the
  -- second, and then at most the message of a call that failed. They fault where a line has no text: in
  -- getsyscall.c where the tracer itself has none at the child's pointer, in dbug.c where the word
  -- there, twice in the buffer, has no NUL.
  pub programs-Prints :
      (own : ℕ → Option Text)
      → Prints k
          (suc pid)
          (λ s a. own a)
          n
          regs
          (k.syscall s2 (suc pid)).1
          status
          (getsyscall_program k own regs c n s)
        × Prints k
            (suc pid)
            (word_text k (suc pid))
            n
            regs
            (k.syscall s2 (suc pid)).1
            status
            (dbug_program k regs c n s)
  unfolding getsyscall_program dbug_program getsyscall_line dbug_line
  programs-Prints own = (
    forked-Prints (getsyscall_child k) (λ p. getsyscall_line own) (λ s a. own a) (λ s rax c. refl),
    forked-Prints (dbug_child k) (dbug_line k) (word_text k (suc pid)) (λ s rax c. refl),
  )
