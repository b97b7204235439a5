-- ===== src/Blog/Child.antt =====
-- The child processes that the programs under blog/ fork.
pub mod Parents
use test_dbug.Common.{
  ℕ, zero, suc, ◌+◌, Bool, false, List, [], ◌∷◌, ◌++◌, none, some, ℤ, pos, negsuc, minus_one,
  is_neg, if◌then◌else◌, Text, codes, ◌==◌,
}
use test_dbug.Output.{Line, error_line, text_line, number_line, labelled}
use test_dbug.Kernel.{Pid, Kernel}

-- The system, and what the process has printed.
pub record Child (S : Type 0) : Type 0 where
  pub os : S
  pub out : List Line

-- `main` returns, or the process runs another program.
pub data Fate (S : Type 0) : Type 0 where
  returns : ℤ → Child S → Fate S
  execs : Child S → Fate S

-- What `fork` comes to: an error, the child or the parent with the child's number.
pub data Forked (S R : Type 0) : Type 0 where
  failed : Child S → Forked S R
  in_child : Fate S → Forked S R
  in_parent : R → Forked S R

abbrev pub is_zero : ℤ → Bool
is_zero (pos n) = n == 0
is_zero (negsuc n) = false

abbrev pub say : {S : Type 0} → List Line → Child S → Child S
say lines c = record c { out = c.out ++ lines }

module _ {S : Type 0} (k : Kernel S) where
  -- PTRACE_TRACEME, and what is done where it succeeds.
  unfoldable pub traced : (Child S → Fate S) → Child S → Fate S
  traced rest c =
      let (r, s) = k.traceme c.os in
      let c' = record c { os = s } in
      if is_neg r
      then returns minus_one (say (error_line (codes "ptrace TRACEME err") ∷ []) c')
      else rest c'

  -- `kill(getpid(), SIGSTOP)`.
  unfoldable pub stop : Child S → Child S
  stop c =
      let (r, s) = k.stop_self c.os in
      let c' = record c { os = s } in
      if is_zero r then c' else say (error_line (codes "kill sigstop err") ∷ []) c'

  -- `execl(path, arg, NULL)`; `main` returns 0 where it fails.
  unfoldable pub exec_or_return : Text → Text → Child S → Fate S
  exec_or_return path arg c = elim (k.execvp c.os (some path) (some arg ∷ none ∷ [])) [
    | none ↦ execs c
    | some (r, s) ↦ returns (pos 0) (record c { os = s })
  ]

  unfoldable pub forked : {R : Type 0} → (Child S → Fate S) → (Pid → S → R) → S → Forked S R
  forked child parent s =
      let (r, s') = k.fork s in
      elim r [
        | negsuc n ↦ failed (record { os = s'; out = error_line (codes "fork err") ∷ [] })
        | pos n ↦
            if n == 0
            then in_child (child (record { os = s'; out = [] }))
            else in_parent (parent n s')
      ]

  -- getinfo.c
  unfoldable pub getinfo_child : Child S → Fate S
  unfolding traced stop
  getinfo_child =
      traced (λ c. returns (pos 0) (say (text_line (codes "child exit\n") ∷ []) (stop c)))

  -- getsyscall.c: three calls of `write` of eight bytes each.
  unfoldable pub getsyscall_child : Child S → Fate S
  unfolding traced stop
  getsyscall_child = traced (λ c. returns (pos 0) (
      say
        (text_line (codes "aaaa -> ")
          ∷ text_line (codes "bbbb -> ")
          ∷ text_line (codes "cccc -> ")
          ∷ [])
        (stop c)))

  -- dbug.c and dbug_break.c run another program.
  unfoldable pub dbug_child : Child S → Fate S
  unfolding traced exec_or_return
  dbug_child = traced (exec_or_return (codes "./test") (codes "./test"))

  unfoldable pub dbug_break_child : Child S → Fate S
  unfolding traced exec_or_return
  dbug_break_child = traced (exec_or_return (codes "./dbuf_break_test") (codes "dbuf_break_test"))

  -- readmem.c: `num` is set to 20 before the stop; nothing is printed.
  unfoldable pub readmem_child : (ℕ → S → S) → Child S → Fate S
  unfolding traced stop
  readmem_child set_num = traced (λ c. returns (pos 0) (stop (record c { os = set_num 20 c.os })))

  -- writemem.c: `num` is printed before the stop and after it.
  unfoldable pub writemem_child : (S → ℕ) → Child S → Fate S
  unfolding traced stop
  writemem_child num = traced (λ c.
      let c' = stop (say (labelled (codes "not write num = ") (num c.os) ∷ []) c) in
      returns (pos 0) (say (labelled (codes "write end num = ") (num c'.os) ∷ []) c'))

  -- softbreak.c and hardbreak.c: `bar(num)`, and the loop from `i` on.
  unfoldable pub bar : ℕ → List Line
  bar num = labelled (codes "num = ") num ∷ []

  unfoldable pub bar_lines : ℕ → ℕ → List Line
  unfolding bar
  bar_lines zero i = []
  bar_lines (suc n) i = number_line i ∷ (bar 111 ++ bar_lines n (i + 1))

  unfoldable pub softbreak_child : Child S → Fate S
  unfolding traced stop bar_lines
  softbreak_child = traced (λ c. returns (pos 0) (say (bar_lines 10 0) (stop c)))

  unfoldable pub hardbreak_child : Child S → Fate S
  unfolding traced stop bar_lines
  hardbreak_child = traced (λ c. returns (pos 0) (say (bar_lines 10 0) (stop c)))
