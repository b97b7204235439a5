-- ===== src/Command/Safe/Stop.antt =====
-- `command_continue`, however the process stops.
use test_dbug.Common.{
  le_bytes, ◌≡◌, refl, sym, subst, ◌∙◌, [], ◌∷◌, ◌++◌, some, inl, inr, ℤ, pos, negsuc, minus_one,
  ◌==◌, Bool-cases,
}
use test_dbug.Output.{trigger}
use test_dbug.Kernel.{Pid, Regs}
use test_dbug.Session.{
  Breakpoint, Str, Arr, Env, World, done, pure, get_dbug, set_dbug, ◌>>=◌, ◌>>◌,
}
use test_dbug.Dbug.{
  int_3, is_sf, resume_int3_bp_next, find_current_sf_bp, find_current_hw_bp, wifexited, wstopsig,
  sigtrap,
}
use test_dbug.Command.Handlers.{sf_index, hw_index, on_trap, on_stop, command_continue}
use test_dbug.Mem.{write_pro_mem}
use test_dbug.Dbug.Resume.{stepped}
use test_dbug.Command.Handlers.Continue.{after_wait, woken, command_continue-on_stop}
use test_dbug.Command.Safe.{IsSane, IsSane-run, Works, Stays, Stays-trans, Works-then, Works-done}

-- What `resume_int3_bp_next` comes to: it returns, and the session stays as it was.
resume-done :
    {S : Type 0} (env : Env S) (pid : Pid) (bp : Breakpoint) (regs : Regs) (w : World S)
    → (r : ℤ × Regs) × (s : S) × (resume_int3_bp_next env pid (some bp) regs w
        ≡ done r (record w { os = s }))
unfolding resume_int3_bp_next
resume-done {S} env pid bp regs w =
    let own : S = (write_pro_mem env.kernel pid bp.addr (le_bytes 8 bp.orig_code) 1 w.os).1 in
    let ran = stepped env.kernel pid (record regs { rip = bp.addr }) own in
    elim (Bool-cases (is_sf bp)) [
      | inl soft ↦ (
        (pos 0, record regs { rip = bp.addr }),
        (write_pro_mem env.kernel pid bp.addr (int_3 ∷ []) 1 ran).1,
        rw soft refl,
      )
      | inr other ↦ ((minus_one, regs), w.os, rw other refl)
    ]

module _ {c : Arr Str} {S : Type 0} (env : Env S) where
  sf_index-Works :
      (bps : Arr Breakpoint) (i : ℤ) (w : World S)
      → (h : IsSane c w.dbug) → Works env c Stays h.table w.input (sf_index env bps i w)
  unfolding sf_index
  sf_index-Works bps (negsuc n) w h = (h, refl, refl)
  sf_index-Works bps (pos i) w h =
      let d = w.dbug in
      let w1 : World S = record w {
        out = w.out ++ trigger (bps.elts i).addr (bps.elts i).name ∷ [];
      } in
      let (r, s, runs) = resume-done env d.pid (bps.elts i) d.regs w1 in
      Works-done env c Stays h.table w.input (λ (x : ℤ × Regs). set_dbug (record d { regs = x.1 }))
        runs (IsSane-run h d.status r.1, refl, refl)

  hw_index-Works :
      (bps : Arr Breakpoint) (i : ℤ) (w : World S)
      → (h : IsSane c w.dbug) → Works env c Stays h.table w.input (hw_index env bps i w)
  unfolding hw_index
  hw_index-Works bps (negsuc n) w h = (h, refl, refl)
  hw_index-Works bps (pos i) w h = (h, refl, refl)

  on_trap-Works :
      (bps : Arr Breakpoint) (w : World S)
      → (h : IsSane c w.dbug) → Works env c Stays h.table w.input (on_trap env bps w)
  unfolding on_trap
  on_trap-Works bps w h =
      let index = find_current_sf_bp bps w.dbug.regs in
      Works-then env c Stays h.table w.input
        (λ (_ : Unit {0}). do
          d ← get_dbug
          hw_index env bps (find_current_hw_bp bps d.regs)
          pure (pos 0))
        Stays-trans (sf_index env bps index w) (sf_index-Works bps index w h)
        (λ _ v sane same.
          Works-then env c Stays sane.table w.input (λ (_ : Unit {0}). pure (pos 0)) Stays-trans
            (hw_index env bps (find_current_hw_bp bps v.dbug.regs) v)
            (hw_index-Works bps (find_current_hw_bp bps v.dbug.regs) v sane)
            (λ _ u sane' same'. (sane', same' ∙ same, refl)))

  on_stop-Works :
      (bps : Arr Breakpoint) (w : World S)
      → (h : IsSane c w.dbug) → Works env c Stays h.table w.input (on_stop env bps w)
  unfolding on_stop
  on_stop-Works bps w h = elim (Bool-cases (wifexited w.dbug.status)) [
    | inl exits ↦ rw exits refl
    | inr stands ↦
        let (r, regs) = env.kernel.getregs w.os w.dbug.pid w.dbug.regs in
        let d = w.dbug in
        let sane = IsSane-run h d.status regs in
        elim (Bool-cases (wstopsig w.dbug.status == sigtrap)) [
          | inl trapped ↦
              rw (stands, trapped)
                (on_trap-Works bps (record w { dbug = record d { regs = regs } }) sane)
          | inr other ↦ rw (stands, other) (sane, refl, refl)
        ]
  ]

  pub command_continue-Works :
      (cmds : Arr Str) (w : World S)
      → (h : IsSane c w.dbug) → Works env c Stays h.table w.input (command_continue env cmds w)
  command_continue-Works cmds w h =
      let (lines, enters) = command_continue-on_stop env cmds w h.table h.is_table in
      subst (Works env c Stays h.table w.input) (sym enters)
        (on_stop-Works h.table (woken env w lines) (IsSane-run h (after_wait env w).0 w.dbug.regs))
