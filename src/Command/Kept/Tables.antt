-- ===== src/Command/Kept/Tables.antt =====
-- The invariant over the commands that set a breakpoint, print or end the program.
use test_dbug.Common.{
  ℕ, ◌≡◌, sym, ap, subst, ◌∙◌, Bool, ◌++◌, some, inl, inr, pos, is_neg, Text, codes,
}
use test_dbug.Kernel.{Pid, IsMemory}
use test_dbug.Elf.Lookup.{foreach_fun, foreach_fun-some}
use test_dbug.Session.{Breakpoint, Str, Arr, Env, World, then-done, then-deref, ◌>>◌, pure}
use test_dbug.Dbug.Adopt.{perror-done}
use test_dbug.Command.Handlers.{
  print_all, bp_lines, command_break, command_show, command_showbps, command_showreg, reg_lines,
}
use test_dbug.Command.Handlers.Break.{IsRoomyBps, command_break-Added}
use test_dbug.Command.Kept.{IsSession, IsSession-table, IsSession-out, Goes}

module _ {S : Type 0} (env : Env S) {mem : S → Pid → ℕ → ℕ} {mapped : S → Pid → ℕ → Bool}
    {code : ℕ → Bool} {text : ℕ → ℕ} where
  module _ (m : IsMemory env.kernel mem mapped) (roomy : IsRoomyBps env.ngx mem mapped) where
    pub command_break-Goes :
        (cmds : Arr Str) (w : World S) (h : IsSession mem mapped code text w) (word : Text)
        → (cmds.elts 1).chars ≡ some word
        → Goes mem mapped code text (command_break env cmds w)
    command_break-Goes cmds w h word is_word =
        elim (command_break-Added env m roomy cmds w h.table h.funs word h.is_table h.is_funs
          is_word h.names h.armed
          (λ j f below is.
            let (fits, ok) = h.reach f.addr (h.places j f below is) in
            (fits, ok, h.places j f below is))) [
              | inl (nothing, no_match) ↦ subst (Goes mem mapped code text) (sym nothing) h
              | inr
                    (
                      j,
                      f,
                      rest,
                      below,
                      is_f,
                      name,
                      before,
                      (b, s', runs, count, old, kind, addr, named, armed, same),
                    ) ↦
                  subst (Goes mem mapped code text) (sym runs)
                    (IsSession-table w h b s' _ armed same)
            ]

  pub command_show-Goes :
      (cmds : Arr Str) (w : World S) (h : IsSession mem mapped code text w)
      → Goes mem mapped code text (command_show env cmds w)
  unfolding command_show
  command_show-Goes cmds w h =
      let (lines, e) = foreach_fun-some h.funs h.names in
      subst (Goes mem mapped code text)
        (sym
          (then-deref w (λ lines. print_all lines >> pure (pos 0)) (ap foreach_fun h.is_funs ∙ e)))
        (IsSession-out w h w.dbug.regs (w.out ++ lines))

  pub command_showbps-Goes :
      (cmds : Arr Str) (w : World S) (h : IsSession mem mapped code text w)
      → Goes mem mapped code text (command_showbps env cmds w)
  unfolding command_showbps
  command_showbps-Goes cmds w h =
      subst (Goes mem mapped code text)
        (sym (
          then-deref w
            (λ (bps : Arr Breakpoint). print_all (bp_lines bps.elts bps.nelts 0) >> pure (pos 0))
            h.is_table))
        (IsSession-out w h w.dbug.regs _)

  pub command_showreg-Goes :
      (cmds : Arr Str) (w : World S) (h : IsSession mem mapped code text w)
      → Goes mem mapped code text (command_showreg env cmds w)
  unfolding command_showreg
  command_showreg-Goes cmds w h =
      let (r, regs) = env.kernel.getregs w.os w.dbug.pid w.dbug.regs in
      let d = w.dbug in
      let (lines, said) =
        perror-done env (is_neg r) (codes "PTRACE_GETREGS err\n")
          (record w { dbug = record d { regs = regs } }) in
      subst (Goes mem mapped code text)
        (sym (then-done (λ (_ : Unit {0}). print_all (reg_lines regs) >> pure (pos 0)) said))
        (IsSession-out w h regs _)
