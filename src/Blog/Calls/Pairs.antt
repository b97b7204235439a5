-- ===== src/Blog/Calls/Pairs.antt =====
-- What the tracers of `write` print, against the stops that the system gave.
use test_dbug.Common.{
  ℕ, zero, suc, ◌≡◌, refl, ◌∙◌, false, List, [], ◌∷◌, ◌++◌, append_assoc, Option, none, some,
  is_neg, if◌then◌else◌, ◌⊎◌, codes, Text,
}
use test_dbug.Output.{Line, write_call, error_line}
use test_dbug.Kernel.{Pid, Regs, Kernel}
use test_dbug.Dbug.{wifexited}
use test_dbug.Blog.{Step, state_of}
use test_dbug.Blog.Calls.{Calls, Watcher, call_line, is_write, entered}

-- A stop: the system and the registers.
abbrev pub Stop : Type 0 → Type 0
Stop S = S × Regs

-- The stops that the first `n` waits of the loop give, up to an end of the process or a call that
-- fails.
unfoldable pub stops : {S : Type 0} → Kernel S → Pid → ℕ → S → ℕ → Regs → List (Stop S)
stops k pid zero s status regs = []
stops k pid (suc n) s status regs =
    let (status', s') = k.wait s status in
    let regs' = (k.getregs s' pid regs).1 in
    let (r, s'') = k.syscall s' pid in
    let more = stops k pid n s'' status' regs' in
    if wifexited status' then [] else (s', regs') ∷ (if is_neg r then [] else more)

-- Those at a call of `write`.
unfoldable pub writes : {S : Type 0} → List (Stop S) → List (Stop S)
writes [] = []
writes ((s, r) ∷ xs) = let more = writes xs in if is_write r then (s, r) ∷ more else more

-- The specification: a line for each two stops, with the first two arguments that are numbers and the
-- text `text` of the address in the stop in front of the call, and the result in the one behind it. There is none
-- where an address has no text.
unfoldable pub written :
    {S : Type 0} → (S → ℕ → Option Text) → Option Regs → List (Stop S) → Option (List Line)
written text p [] = some []
written text none ((s, r) ∷ xs) = written text (some r) xs
written text (some front) ((s, r) ∷ xs) =
    let more = written text none xs in
    elim (text s front.rsi) [
      | none ↦ none
      | some t ↦ elim more [
        | none ↦ none
        | some lines ↦ some (write_call r.rax front.rdi t front.rdx ∷ lines)
      ]
    ]

-- The line that the code prints is that of the text of its second argument.
abbrev pub Tells : {S : Type 0} → (S → ℕ → Calls → Option Line) → (S → ℕ → Option Text) → Type 0
Tells {S} line text = (s : S) (rax : ℕ) (c : Calls) → line s rax c ≡ call_line (text s c.arg2) rax c

-- No message, or that of a call that failed.
abbrev pub AreErrors : List Line → Type 0
AreErrors errors = (errors ≡ []) ⊎ (errors ≡ error_line (codes "CONT err") ∷ [])

-- A run that printed `lines` behind `before`, and at most a message of a call that failed; or a fault.
abbrev pub Shows :
    {S : Type 0} → List Line → Option (List Line) → Option (Step (Watcher S)) → Type 0
Shows before none run = run ≡ none
Shows {S} before (some lines) run =
    (step : Step (Watcher S)) × (errors : List Line) × (run ≡ some step)
    × AreErrors errors
    × ((state_of step).out ≡ before ++ (lines ++ errors))

-- Lines that were printed go in front.
pub Shows-behind :
    {S : Type 0} (before : List Line) (l : Line) (more : Option (List Line))
    (run : Option (Step (Watcher S)))
    → Shows (before ++ l ∷ []) more run
    → Shows before (elim more [ none ↦ none | some lines ↦ some (l ∷ lines) ]) run
Shows-behind before l none run h = h
Shows-behind before l (some lines) run (step, errors, is, some_errors, out) =
    (step, errors, is, some_errors, out ∙ append_assoc before (l ∷ []) (lines ++ errors))

module _ {S : Type 0} (text : S → ℕ → Option Text) (front : Regs) (s : S) (r : Regs)
    (xs : List (Stop S)) where
  pub written-lost : text s front.rsi ≡ none → written text (some front) ((s, r) ∷ xs) ≡ none
  unfolding written
  written-lost lost = rw (written, lost) refl

  pub written-found :
      (t : Text)
      → text s front.rsi ≡ some t
      → written text (some front) ((s, r) ∷ xs) ≡ elim (written text none xs) [
        | none ↦ none
        | some lines ↦ some (write_call r.rax front.rdi t front.rdx ∷ lines)
      ]
  unfolding written
  written-found t found = rw (written, found) refl

-- Whether the variables are those between two calls, or those within one.
abbrev pub Matches : Calls → Option Regs → Type 0
Matches c none = c.iscalling ≡ false
Matches c (some front) = c ≡ entered front
