-- ===== src/Command/Safe/Handlers.antt =====
-- The commands that work on the process that is there.
use test_dbug.Common.{
  ℕ, arith, le_bytes, le_word, ◌+◌, ◌-◌, ◌≡◌, refl, sym, ap, subst, ◌∙◌, Bool, List, [], ◌∷◌, ◌++◌,
  ◌⊎◌, Option, none, some, inl, inr, pos, minus_one, is_neg, get_elem?, Text, codes,
}
use test_dbug.Output.{Line, watch_at}
use test_dbug.Dbug.Watch.{insert_hard_break-done}
use test_dbug.Command.Handlers.Watch.{store_watch, watch_last-store}
use test_dbug.Kernel.{Pid}
use test_dbug.Elf.Functions.{FuncOrg, FunArr}
use test_dbug.Elf.Lookup.{
  find_func, HasNames, foreach_fun, foreach_fun-some, find_func-Answers, name_at-get_elem?,
}
use test_dbug.Session.{Breakpoint, Str, Arr, Env, World, call_ngx, deref, pure, ◌>>=◌, ◌>>◌}
use test_dbug.Dbug.{sfbp, hwbp, is_sf, insert_int3_bp}
use test_dbug.Command.Handlers.{
  print_all, bp_lines, reg_lines, add_breakpoint, fill_last, store_last, break_index, command_break,
  command_show, command_showbps, command_showreg, command_watch, watch_last, scan_addr,
}
use test_dbug.Mem.{read_pro_mem}
use test_dbug.Command.Handlers.Break.{IsRoomyBps}
use test_dbug.Command.Safe.Moves.{Found, Missed, Adds, Breaks, Watches}
use test_dbug.Command.Safe.{
  IsSane, IsSane-run, IsSane-table, Works, Works-weaken, put-Pushes, Stays, Works-done, Works-deref,
  Works-call_ngx, Works-perror,
}

foreach_fun-IsSane :
    (funs : Option FunArr)
    → ((table : FunArr) → funs ≡ some table → HasNames table.size table.items)
    → (lines : List Line) × (foreach_fun funs ≡ some lines)
unfolding foreach_fun
foreach_fun-IsSane none names = ([], refl)
foreach_fun-IsSane (some table) names = foreach_fun-some table (names table refl)

module _ {c : Arr Str} {S : Type 0} (env : Env S) (cmds : Arr Str) (w : World S)
    (h : IsSane c w.dbug) where
  pub command_show-Works : Works env c Stays h.table w.input (command_show env cmds w)
  unfolding command_show
  command_show-Works =
      let (lines, e) = foreach_fun-IsSane w.dbug.funs h.names in
      Works-deref env c Stays h.table w.input (λ lines. print_all lines >> pure (pos 0)) w e
        (h, refl, refl)

  pub command_showbps-Works : Works env c Stays h.table w.input (command_showbps env cmds w)
  unfolding command_showbps
  command_showbps-Works =
      Works-deref env c Stays h.table w.input
        (λ (bps : Arr Breakpoint). print_all (bp_lines bps.elts bps.nelts 0) >> pure (pos 0)) w
        h.is_table (h, refl, refl)

  pub command_showreg-Works : Works env c Stays h.table w.input (command_showreg env cmds w)
  unfolding command_showreg
  command_showreg-Works =
      let (r, regs) = env.kernel.getregs w.os w.dbug.pid w.dbug.regs in
      let d = w.dbug in
      Works-perror env c Stays h.table w.input (λ _. print_all (reg_lines regs) >> pure (pos 0))
        (is_neg r) (codes "PTRACE_GETREGS err\n") (record w { dbug = record d { regs = regs } })
        (λ lines. (IsSane-run h w.dbug.status regs, refl, refl))

-- The search for the symbol of a word answers with the index of the first function or with -1.
find_func-Found :
    (funs : Option FunArr) (word : Text)
    → ((table : FunArr) → funs ≡ some table → HasNames table.size table.items)
    → ((find_func funs (some word) ≡ some minus_one) × Missed funs word)
      ⊎ ((table : FunArr) × (i : ℕ) × (f : FuncOrg) × (funs ≡ some table)
          × (find_func funs (some word) ≡ some (pos i))
          × (get_elem? table.items i ≡ some f)
          × Found funs word f)
unfolding find_func
find_func-Found none word names = inl (refl, tt)
find_func-Found (some table) word names =
    let (r, found, answer) = find_func-Answers table word (names table refl) in
    elim answer [
      | inl (j, rest, at, below, here, before) ↦
          let (f, is_f, named) = name_at-get_elem? table.items j here in
          inr (
            table,
            0 + j,
            f,
            refl,
            found ∙ ap some at,
            ap (get_elem? table.items) (omega arith) ∙ is_f,
            (j, rest, below, is_f, named, before),
          )
      | inr (end, no_match) ↦ inl (found ∙ ap some end, no_match)
    ]

module _ {c : Arr Str} {S : Type 0} (env : Env S) {mem : S → Pid → ℕ → ℕ}
    {mapped : S → Pid → ℕ → Bool} (roomy : IsRoomyBps env.ngx mem mapped) where
  add_breakpoint-Works :
      (f : FuncOrg) (w : World S)
      → (h : IsSane c w.dbug) → Works env c (Adds f) h.table w.input (add_breakpoint env f w)
  unfolding add_breakpoint fill_last store_last insert_int3_bp
  add_breakpoint-Works f w h =
      let (b, s, pushed, count, old, same, apart) = roomy.push w.os h.table in
      Works-deref env c (Adds f) h.table w.input
        (λ bps. call_ngx (λ s. env.ngx.push_bp s bps) >>= fill_last env f) w h.is_table
        (Works-call_ngx env c (Adds f) h.table w.input (fill_last env f) w
          (λ s. env.ngx.push_bp s h.table) pushed
          (let bp = record (b.elts (b.nelts - 1)) { name = f.name; addr = f.addr } in
            let (pushes, new) =
              put-Pushes h.table b
                (record bp {
                  type = sfbp;
                  orig_code =
                      le_word
                        (read_pro_mem env.kernel w.dbug.pid f.addr (le_bytes 8 bp.orig_code) 1 s).1;
                })
                count old in
            (
              IsSane-table h _,
              refl,
              (pushes, ap is_sf new, ap (λ x. x.addr) new, ap (λ x. x.name) new),
            )))

  pub command_break-Works :
      (cmds : Arr Str) (w : World S) (word : Text)
      → (h : IsSane c w.dbug) → (cmds.elts 1).chars ≡ some word
      → Works env c (Breaks w.dbug.funs word) h.table w.input (command_break env cmds w)
  unfolding command_break break_index
  command_break-Works cmds w word h is_word =
      let finds = ap (find_func w.dbug.funs) is_word in
      elim (find_func-Found w.dbug.funs word h.names) [
        | inl (missed, no_match) ↦
            Works-deref env c (Breaks w.dbug.funs word) h.table w.input (break_index env) w
              (finds ∙ missed) (h, refl, inl (no_match, refl))
        | inr (table, i, f, is_funs, found, is_f, first) ↦
            Works-deref env c (Breaks w.dbug.funs word) h.table w.input (break_index env) w
              (finds ∙ found)
              (Works-deref env c (Breaks w.dbug.funs word) h.table w.input
                (λ (funs : FunArr). deref (get_elem? funs.items i) >>= add_breakpoint env) w is_funs
                (Works-deref env c (Breaks w.dbug.funs word) h.table w.input (add_breakpoint env) w
                  is_f
                  (Works-weaken env c (Adds f) (Breaks w.dbug.funs word) w.input
                    (add_breakpoint env f w) (λ c adds. inr (f, first, adds))
                    (add_breakpoint-Works f w h))))
      ]

  pub command_watch-Works :
      (cmds : Arr Str) (w : World S) (word : Text)
      → (h : IsSane c w.dbug) → (cmds.elts 1).chars ≡ some word
      → Works env c Watches h.table w.input (command_watch env cmds w)
  unfolding command_watch
  command_watch-Works cmds w word h is_word =
      let (b, s, pushed, count, old, same, apart) = roomy.push w.os h.table in
      let bp = scan_addr word (b.elts (b.nelts - 1)) in
      let w1 : World S = record w { os = s } in
      let (lines, runs) =
        insert_hard_break-done env w.dbug.pid bp
          (record w { os = s; out = w.out ++ watch_at bp.addr ∷ [] }) in
      let (pushes, new) = put-Pushes h.table b (record bp { type = hwbp }) count old in
      Works-deref env c Watches h.table w.input
        (λ bps.
          call_ngx (λ s. env.ngx.push_bp s bps)
          >>= (λ b. deref (cmds.elts 1).chars >>= watch_last env b))
        w h.is_table
        (Works-call_ngx env c Watches h.table w.input
          (λ b. deref (cmds.elts 1).chars >>= watch_last env b) w (λ s. env.ngx.push_bp s h.table)
          pushed
          (Works-deref env c Watches h.table w.input (watch_last env b) w1 is_word (
            subst (Works env c Watches h.table w.input) (sym (watch_last-store env b word w1 refl))
              (Works-done env c Watches h.table w.input (store_watch w.dbug b) runs
                (IsSane-table h _, refl, (pushes, ap is_sf new))))))
