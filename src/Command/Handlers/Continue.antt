-- ===== src/Command/Handlers/Continue.antt =====
-- `command_continue`: the run, the wait, and the tests of the status.
use test_dbug.Common.{ℕ, ◌≡◌, ap, ◌∙◌, Bool, true, false, List, some, pos, is_neg, ◌==◌, codes}
use test_dbug.Output.{Line}
use test_dbug.Kernel.{Pid, Regs, IsMemory}
use test_dbug.Session.{
  Breakpoint, Str, Arr, Env, World, done, set_dbug, call, ◌>>=◌, ◌>>◌, then-done, then-deref,
}
use test_dbug.Dbug.{perror, wifexited, wstopsig, sigtrap}
use test_dbug.Command.Handlers.{on_stop, command_continue}
use test_dbug.Dbug.Adopt.{perror-done}
use test_dbug.Command.Handlers.Trap.{Ran, AreMapped, on_trap-Ran}
use test_dbug.Command.Handlers.Armed.{IsArmed, IsStill, IsArmed-same}

module _ {S : Type 0} (env : Env S) where
  -- The system that `command_continue` finds after its wait, and the status.
  abbrev pub after_wait : World S → ℕ × S
  after_wait w = env.kernel.wait (env.kernel.cont w.os w.dbug.pid).1 w.dbug.status

  -- The world then.
  abbrev pub woken : World S → List Line → World S
  woken w lines =
      let d = w.dbug in
      record w { os = (after_wait w).1; dbug = record d { status = (after_wait w).0 }; out = lines }

  pub command_continue-on_stop :
      (cmds : Arr Str) (w : World S) (bps : Arr Breakpoint)
      → w.dbug.bps ≡ some bps
      → (lines : List Line) × (command_continue env cmds w ≡ on_stop env bps (woken w lines))
  unfolding command_continue
  command_continue-on_stop cmds w bps is =
      let r = env.kernel.cont w.os w.dbug.pid in
      let (lines, said) =
        perror-done env (is_neg r.0) (codes "ptrace cont err") (record w { os = r.1 }) in
      (
        lines,
        then-deref w
              (λ bps. do
                r ← call (λ s. env.kernel.cont s w.dbug.pid)
                perror env (is_neg r) (codes "ptrace cont err")
                status ← call (λ s. env.kernel.wait s w.dbug.status)
                set_dbug (let d = w.dbug in record d { status = status })
                on_stop env bps)
              is
            ∙ then-done
                (λ (_ : Unit {0}). do
                  status ← call (λ s. env.kernel.wait s w.dbug.status)
                  set_dbug (let d = w.dbug in record d { status = status })
                  on_stop env bps)
                said,
      )

  -- The run and the wait leave the tracee's code alone.
  module _ {mem : S → Pid → ℕ → ℕ} {mapped : S → Pid → ℕ → Bool} {code : ℕ → Bool}
      (still : IsStill env.kernel mem mapped code) (w : World S) (a : ℕ) where
    pub woken-mem : code a ≡ true → mem (after_wait w).1 w.dbug.pid a ≡ mem w.os w.dbug.pid a
    woken-mem c = still.wait _ w.dbug.pid w.dbug.status a c ∙ still.cont w.os w.dbug.pid a c

    pub woken-mapped : mapped (after_wait w).1 w.dbug.pid a ≡ mapped w.os w.dbug.pid a
    woken-mapped =
        still.wait_mapped _ w.dbug.pid w.dbug.status a ∙ still.cont_mapped w.os w.dbug.pid a

module _ {S : Type 0} (env : Env S) {mem : S → Pid → ℕ → ℕ} {mapped : S → Pid → ℕ → Bool}
    {code : ℕ → Bool} {text : ℕ → ℕ} (m : IsMemory env.kernel mem mapped)
    (still : IsStill env.kernel mem mapped code) where
  -- The same behind the test of the status, for a stop by SIGTRAP.
  pub on_stop-Ran :
      (bps : Arr Breakpoint) (w : World S)
      → IsArmed mem code text w.dbug.pid bps w.os
      → AreMapped mapped w.dbug.pid bps w.os
      → wifexited w.dbug.status ≡ false
      → wstopsig w.dbug.status ≡ sigtrap
      → (s' : S) × (regs' : Regs) × (lines : List Line) × (let d = w.dbug in
          on_stop env bps w
          ≡ done (pos 0) (record w { os = s'; dbug = record d { regs = regs' }; out = lines }))
        × Ran env.kernel mem mapped code text w.dbug.pid bps
            (env.kernel.getregs w.os w.dbug.pid w.dbug.regs).1
            w.os
            s'
            regs'
        × IsArmed mem code text w.dbug.pid bps s'
        × ((a : ℕ) → mapped s' w.dbug.pid a ≡ mapped w.os w.dbug.pid a)
  unfolding on_stop
  on_stop-Ran bps w armed places runs_on trapped =
      let w1 : World S =
        (let d = w.dbug in
          record w { dbug = record d { regs = (env.kernel.getregs w.os d.pid d.regs).1 } }) in
      let (s', regs', lines, runs, ran, holds, same) =
        on_trap-Ran env m still bps w1 armed places in
      let is_trap : (wstopsig w.dbug.status == sigtrap) ≡ true =
        ap (λ (t : ℕ). t == sigtrap) trapped in
      (s', regs', lines, rw (runs_on, is_trap) runs, ran, holds, same)

  -- `c` with the invariant in force, where the program is next stopped by SIGTRAP: the call returns 0,
  -- the table of breakpoints stays, the invariant holds again and the same memory can be accessed. Where the stop is not one byte behind
  -- a software breakpoint, the system is as the wait left it; at the first breakpoint one byte in front
  -- of it, the instruction pointer went back to the breakpoint and one instruction ran there with the
  -- program's own byte in place.
  pub command_continue-Ran :
      (cmds : Arr Str) (w : World S) (bps : Arr Breakpoint)
      → w.dbug.bps ≡ some bps
      → IsArmed mem code text w.dbug.pid bps w.os
      → AreMapped mapped w.dbug.pid bps w.os
      → wifexited (after_wait env w).0 ≡ false
      → wstopsig (after_wait env w).0 ≡ sigtrap
      → (s' : S) × (regs' : Regs) × (lines : List Line) × (let d = w.dbug in
          command_continue env cmds w
          ≡ done (pos 0) (record w {
            os = s';
            dbug = record d { status = (after_wait env w).0; regs = regs' };
            out = lines;
          }))
        × Ran env.kernel mem mapped code text w.dbug.pid bps
            (env.kernel.getregs (after_wait env w).1 w.dbug.pid w.dbug.regs).1
            (after_wait env w).1
            s'
            regs'
        × IsArmed mem code text w.dbug.pid bps s'
        × ((a : ℕ) → mapped s' w.dbug.pid a ≡ mapped w.os w.dbug.pid a)
  command_continue-Ran cmds w bps is armed places runs_on trapped =
      let (lines, enters) = command_continue-on_stop env cmds w bps is in
      let (s', regs', lines', runs, ran, holds, same) =
        on_stop-Ran bps (woken env w lines) (IsArmed-same bps armed (λ a. woken-mem env still w a))
          (λ i below kind.
            let (fits, ok) = places i below kind in (fits, woken-mapped env still w _ ∙ ok))
          runs_on trapped in
      (s', regs', lines', enters ∙ runs, ran, holds, λ a. same a ∙ woken-mapped env still w a)
