-- ===== src/Command/Kept/Stop.antt =====
-- The invariant over `command_continue`, however the process stops.
use test_dbug.Common.{ℕ, refl, sym, subst, arith, Bool, ◌==◌, Bool-cases, inl, inr}
use test_dbug.Kernel.{Pid, IsMemory}
use test_dbug.Session.{Str, Arr, Env, World}
use test_dbug.Dbug.{wifexited, wstopsig, sigtrap}
use test_dbug.Command.Handlers.{on_stop, command_continue}
use test_dbug.Command.Handlers.Armed.{IsStill, IsArmed-same}
use test_dbug.Command.Handlers.Trap.{AreMapped}
use test_dbug.Command.Handlers.Continue.{
  after_wait, woken, woken-mem, woken-mapped, on_stop-Ran, command_continue-on_stop,
}
use test_dbug.Command.Kept.{IsSession, IsSession-run, IsSession-out, Goes}

module _ {S : Type 0} (env : Env S) {mem : S → Pid → ℕ → ℕ} {mapped : S → Pid → ℕ → Bool}
    {code : ℕ → Bool} {text : ℕ → ℕ} (m : IsMemory env.kernel mem mapped)
    (still : IsStill env.kernel mem mapped code) where
  -- Each software breakpoint lies in the code, which can be accessed.
  pub IsSession-AreMapped :
      (w : World S) (h : IsSession mem mapped code text w)
      → AreMapped mapped w.dbug.pid h.table w.os
  IsSession-AreMapped w h i below kind = h.reach _ (h.armed.inside i below kind)

  on_stop-Goes :
      (w : World S) (h : IsSession mem mapped code text w)
      → Goes mem mapped code text (on_stop env h.table w)
  unfolding on_stop
  on_stop-Goes w h = elim (Bool-cases (wifexited w.dbug.status)) [
    | inl exits ↦ rw exits refl
    | inr stands ↦ elim (Bool-cases (wstopsig w.dbug.status == sigtrap)) [
      | inl trapped ↦
          let (s', regs', lines, runs, ran, armed, same) =
            on_stop-Ran env m still h.table w h.armed (IsSession-AreMapped w h) stands
              (ground arith) in
          subst (Goes mem mapped code text) (sym runs)
            (IsSession-run w h s' w.dbug.status regs' lines armed same)
      | inr other ↦ rw (stands, other) (IsSession-out w h _ w.out)
    ]
  ]

  pub command_continue-Goes :
      (cmds : Arr Str) (w : World S) (h : IsSession mem mapped code text w)
      → Goes mem mapped code text (command_continue env cmds w)
  unfolding IsSession-run
  command_continue-Goes cmds w h =
      let (lines, enters) = command_continue-on_stop env cmds w h.table h.is_table in
      subst (Goes mem mapped code text) (sym enters) (
        on_stop-Goes (woken env w lines) (
          IsSession-run w h (after_wait env w).1 (after_wait env w).0 w.dbug.regs lines
            (IsArmed-same h.table h.armed (λ a. woken-mem env still w a))
            (woken-mapped env still w)))
