-- ===== src/Blog/Calls/Shown.antt =====
-- What the rounds of the loop that traces `write` print, against the stops.
use test_dbug.Common.{
  ℕ, zero, suc, ◌≡◌, refl, sym, ap, subst, ◌∙◌, false, List, [], ◌∷◌, ◌++◌, append-nil, Option,
  none, some, is_neg, if◌then◌else◌, Bool-cases, Option-cases, pos, inl, inr, codes, Text, true,
}
use test_dbug.Output.{Line, write_call, error_line}
use test_dbug.Kernel.{Pid, Regs, Kernel}
use test_dbug.Dbug.{wifexited}
use test_dbug.Blog.{Step, goes, ends, state_of}
use test_dbug.Blog.Calls.{Calls, Watcher, call_line, is_write, entered, on_call, call_loop}
use test_dbug.Blog.Calls.Pairs.{
  Stop, stops, writes, written, Tells, AreErrors, Shows, Shows-behind, written-lost, written-found,
  Matches,
}
use test_dbug.Blog.Calls.Rounds.{after_call, call_loop-exits, call_loop-after, call_loop-fault}

module _ {S : Type 0} (k : Kernel S) (pid : Pid) (line : S → ℕ → Calls → Option Line)
    (text : S → ℕ → Option Text) (tells : Tells line text) where
  nothing-Shows :
      (p : Option Regs) (out : List Line) (step : Step (Watcher S)) (errors : List Line)
      → AreErrors errors
      → (state_of step).out ≡ out ++ errors
      → Shows out (written text p []) (some step)
  unfolding written
  nothing-Shows none out step errors some_errors is = (step, errors, refl, some_errors, is)
  nothing-Shows (some front) out step errors some_errors is = (step, errors, refl, some_errors, is)

  -- The round is over, and the rounds that follow show the lines of the stops that are left.
  after_call-Shows :
      (n : ℕ) (s : S) (status : ℕ) (regs : Regs) (c : Calls) (out : List Line) (p : Option Regs)
      → (let (r, s') = k.syscall s pid in
          let t' : Watcher S = record {
            os = s';
            status = status;
            regs = regs;
            calls = c;
            out = out;
          } in
          Shows out
            (written text p (writes (stops k pid n s' status regs)))
            (call_loop k pid line n t'))
      → (let (r, s') = k.syscall s pid in
          let more = stops k pid n s' status regs in
          Shows out
            (written text p (writes (if is_neg r then [] else more)))
            (after_call k pid line n s status regs c out))
  unfolding writes
  after_call-Shows n s status regs c out p later = elim (Bool-cases (is_neg (k.syscall s pid).0)) [
    | inl failed ↦
        rw failed (nothing-Shows p out _ (error_line (codes "CONT err") ∷ []) (inr refl) refl)
    | inr ok ↦ rw ok later
  ]

  module _ (n : ℕ) (t : Watcher S) (stands : wifexited (k.wait t.os t.status).0 ≡ false) where
    abbrev now : S
    now = (k.wait t.os t.status).1

    abbrev regs_now : Regs
    regs_now = (k.getregs now pid t.regs).1

    abbrev left : List (Stop S)
    left = stops k pid n (k.syscall now pid).1 (k.wait t.os t.status).0 regs_now

    abbrev stops_now : List (Stop S)
    stops_now = (now, regs_now) ∷ (if is_neg (k.syscall now pid).0 then [] else left)

    -- What the rounds that follow show, whatever this one did.
    abbrev Later : Type 0
    Later =
        (c : Calls) (p : Option Regs) (out : List Line)
        → Matches c p
        → Shows out (written text p (writes left)) (
            call_loop k pid line n (record {
              os = (k.syscall now pid).1;
              status = (k.wait t.os t.status).0;
              regs = regs_now;
              calls = c;
              out = out;
            }))

    goes-Shows :
        (c : Calls) (lines : List Line) (p : Option Regs)
        → on_call line now regs_now t.calls ≡ some (c, lines)
        → Matches c p
        → Later
        → Shows
            (t.out ++ lines)
            (written text p (writes (if is_neg (k.syscall now pid).0 then [] else left)))
            (call_loop k pid line (suc n) t)
    goes-Shows c lines p called matches later =
        subst
          (Shows (t.out ++ lines)
            (written text p (writes (if is_neg (k.syscall now pid).0 then [] else left))))
          (sym (call_loop-after k pid line n t stands c lines called))
          (after_call-Shows n now (k.wait t.os t.status).0 regs_now c (t.out ++ lines) p
            (later c p (t.out ++ lines) matches))

    quiet-Shows :
        (c : Calls) (p : Option Regs)
        → on_call line now regs_now t.calls ≡ some (c, [])
        → Matches c p
        → Later
        → Shows t.out
            (written text p (writes (if is_neg (k.syscall now pid).0 then [] else left)))
            (call_loop k pid line (suc n) t)
    quiet-Shows c p called matches later =
        subst
          (λ out.
            Shows out (written text p (writes (if is_neg (k.syscall now pid).0 then [] else left)))
              (call_loop k pid line (suc n) t))
          (append-nil t.out) (goes-Shows c [] p called matches later)

    stop-Shows :
        (p : Option Regs)
        → Matches t.calls p
        → Later
        → is_write regs_now ≡ true
        → Shows t.out
            (written text p
              ((now, regs_now) ∷ writes (if is_neg (k.syscall now pid).0 then [] else left)))
            (call_loop k pid line (suc n) t)
    unfolding written on_call
    stop-Shows none idle later call =
        quiet-Shows (entered regs_now) (some regs_now) (rw (call, idle) refl) refl later
    stop-Shows (some front) within later call =
        let told : line now regs_now.rax t.calls
            ≡ call_line (text now front.rsi) regs_now.rax (entered front) =
          tells now regs_now.rax t.calls
          ∙ ap (λ c. call_line (text now c.arg2) regs_now.rax c) within in
        let busy : t.calls.iscalling ≡ true = ap (λ c. c.iscalling) within in
        let rest : List (Stop S) = writes (if is_neg (k.syscall now pid).0 then [] else left) in
        let run : Option (Step (Watcher S)) = call_loop k pid line (suc n) t in
        elim (Option-cases (text now front.rsi)) [
          | inl lost ↦
              subst (λ spec. Shows t.out spec run)
                (sym (written-lost text front now regs_now rest lost))
                (call_loop-fault k pid line n t stands (rw (call, told, lost, busy) refl))
          | inr (words, found) ↦
              let l : Line = write_call regs_now.rax front.rdi words front.rdx in
              let c : Calls = (let held = t.calls in record held { iscalling = false }) in
              subst (λ spec. Shows t.out spec run)
                (sym (written-found text front now regs_now rest words found))
                (Shows-behind t.out l (written text none rest) run
                  (goes-Shows c (l ∷ []) none (rw (call, told, found, busy) refl) refl later))
        ]

    stands-Shows :
        (p : Option Regs)
        → Matches t.calls p
        → Later
        → Shows t.out
            (written text p (writes (stops k pid (suc n) t.os t.status t.regs)))
            (call_loop k pid line (suc n) t)
    stands-Shows p h later = elim (Bool-cases (is_write regs_now)) [
      | inl call ↦ unfold stops writes in rw (stands, call) (stop-Shows p h later call)
      | inr other ↦
          unfold stops writes in
          rw (stands, other) (quiet-Shows t.calls p (unfold on_call in rw other refl) h later)
    ]

  pub call_loop-Shows :
      (n : ℕ) (t : Watcher S) (p : Option Regs)
      → Matches t.calls p
      → Shows t.out
          (written text p (writes (stops k pid n t.os t.status t.regs)))
          (call_loop k pid line n t)
  unfolding call_loop stops writes written
  call_loop-Shows zero t p h = nothing-Shows p t.out (goes t) [] (inl refl) (sym (append-nil t.out))
  call_loop-Shows (suc n) t p h = elim (Bool-cases (wifexited (k.wait t.os t.status).0)) [
    | inl exits ↦
        subst
          (λ run.
            Shows t.out (written text p (writes (stops k pid (suc n) t.os t.status t.regs))) run)
          (sym (call_loop-exits k pid line n t exits))
          (unfold stops in
            rw exits (
              nothing-Shows p t.out
                (ends (pos 0)
                  (let (status, s) = k.wait t.os t.status in record t { os = s; status = status }))
                [] (inl refl) (sym (append-nil t.out))))
    | inr stands ↦ stands-Shows n t stands p h (λ c q out m. call_loop-Shows n _ q m)
  ]
