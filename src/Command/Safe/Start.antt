-- ===== src/Command/Safe/Start.antt =====
-- The commands that take on a process.
use test_dbug.Common.{
  ℕ, zero, suc, ◌*◌, ◌≡◌, refl, sym, subst, Bool, false, List, Option, none, some, inl, inr, ◌⊎◌, ℤ,
  pos, negsuc, is_neg, ◌==◌, arith, Bool-cases, Option-cases, Text, codes,
}
use test_dbug.Kernel.{Pid}
use test_dbug.Elf.Open.{open_funs}
use test_dbug.Session.{Str, Arr, Env, World, pure, ◌>>◌}
use test_dbug.Dbug.{wifexited}
use test_dbug.Dbug.Start.{adopt, run_child, wait_status, dbug_pro, attach_pro}
use test_dbug.Dbug.Adopt.{adopt-Adopted, adopt-unread}
use test_dbug.Command.Read.Slots.{IsRoomy}
use test_dbug.Command.Handlers.{atoi, argv_from, command_dbug, command_attach}
use test_dbug.Command.Safe.{
  IsSane, IsSane-run, IsSane-funs, Works, Stays, Stays-trans, Works-then, Works-deref,
  Works-call_ngx, Works-perror,
}

ℤ-cases : (r : ℤ) → ((n : ℕ) × (r ≡ pos n)) ⊎ ((n : ℕ) × (r ≡ negsuc n))
ℤ-cases (pos n) = inl (n, refl)
ℤ-cases (negsuc n) = inr (n, refl)

module _ {c : Arr Str} {S : Type 0} (env : Env S) where
  adopt-Works :
      (pid : Pid) (w : World S)
      → (h : IsSane c w.dbug) → Works env c Stays h.table w.input (adopt env pid w)
  adopt-Works pid w h = elim (Option-cases (open_funs (env.files w.os) pid)) [
    | inl faults ↦ elim (Bool-cases (wifexited w.dbug.status)) [
      | inl exits ↦ unfold adopt in rw exits (h, refl, refl)
      | inr stands ↦
          subst (Works env c Stays h.table w.input) (sym (adopt-unread env pid w faults stands))
            faults
    ]
    | inr (table, read) ↦ elim (adopt-Adopted env pid table w read) [
      | inl (exits, e) ↦ subst (Works env c Stays h.table w.input) (sym e) (h, refl, refl)
      | inr (stands, e, names) ↦
          subst (Works env c Stays h.table w.input) (sym e)
            (IsSane-funs h pid w.dbug.status table names, refl, refl)
    ]
  ]

  attach_pro-Works :
      (pid : Pid) (w : World S)
      → (h : IsSane c w.dbug) → Works env c Stays h.table w.input (attach_pro env pid w)
  unfolding attach_pro
  attach_pro-Works pid w h = elim (Bool-cases (is_neg (env.kernel.attach w.os pid).0)) [
    | inl refused ↦ rw refused (h, refl, refl)
    | inr attached ↦
        let (r, status, s) = env.kernel.waitpid (env.kernel.attach w.os pid).1 pid w.dbug.status in
        let d = w.dbug in
        let w1 : World S = record w { os = s; dbug = record d { status = status } } in
        rw attached (
          Works-perror env c Stays h.table w.input (λ (_ : Unit {0}). adopt env pid) (is_neg r)
            (codes "wait err") w1
            (λ lines. adopt-Works pid (record w1 { out = lines }) (IsSane-run h status d.regs)))
  ]

  run_child-Works :
      (path : Option Text) (argv : List (Option Text)) (w : World S)
      → (h : IsSane c w.dbug) → Works env c Stays h.table w.input (run_child env path argv w)
  unfolding run_child
  run_child-Works path argv w h =
      let (r, s) = env.kernel.traceme w.os in
      elim (Bool-cases (is_neg r)) [
        | inl refused ↦ rw refused (h, refl, refl)
        | inr traced ↦ elim (Option-cases (env.kernel.execvp s path argv)) [
          | inl runs ↦ rw (traced, runs) tt
          | inr ((r', s'), failed) ↦ rw (traced, failed) (h, refl, refl)
        ]
      ]

  dbug_pro-Works :
      (path : Option Text) (argv : List (Option Text)) (w : World S)
      → (h : IsSane c w.dbug) → Works env c Stays h.table w.input (dbug_pro env path argv w)
  unfolding dbug_pro wait_status
  dbug_pro-Works path argv w h =
      let (r, s) = env.kernel.fork w.os in
      let d = w.dbug in
      elim (ℤ-cases r) [
        | inr (n, failed) ↦ rw failed (h, refl, refl)
        | inl (zero, child) ↦ rw child (run_child-Works path argv (record w { os = s }) h)
        | inl (suc n, parent) ↦
            let (status, s') = env.kernel.wait s d.status in
            let other : (suc n == 0) ≡ false = ground arith in
            rw (parent, other)
              (adopt-Works (suc n) (record w { os = s'; dbug = record d { status = status } })
                (IsSane-run h status d.regs))
      ]

  pub command_attach-Works :
      (cmds : Arr Str) (w : World S) (word : Text)
      → (h : IsSane c w.dbug) → (cmds.elts 1).chars ≡ some word
      → Works env c Stays h.table w.input (command_attach env cmds w)
  unfolding command_attach
  command_attach-Works cmds w word h is_word =
      Works-deref env c Stays h.table w.input (λ t. attach_pro env (atoi t) >> pure (pos 0)) w
        is_word
        (Works-then env c Stays h.table w.input (λ (_ : ℤ). pure (pos 0)) Stays-trans
          (attach_pro env (atoi word) w) (attach_pro-Works (atoi word) w h)
          (λ _ v sane same. (sane, same, refl)))

  module _ {mem : S → Pid → ℕ → ℕ} {mapped : S → Pid → ℕ → Bool}
      (room : IsRoomy env.ngx mem mapped) where
    pub command_dbug-Works :
        (cmds : Arr Str) (w : World S)
        → (h : IsSane c w.dbug) → Works env c Stays h.table w.input (command_dbug env cmds w)
    unfolding command_dbug
    command_dbug-Works cmds w h =
        let path = (cmds.elts 1).chars in
        let argv = argv_from cmds.elts cmds.nelts 0 in
        let (s, allocates, same) = room.alloc w.os w.dbug.pool (8 * cmds.nelts) in
        Works-call_ngx env c Stays h.table w.input
          (λ (_ : Unit {0}). dbug_pro env path argv >> pure (pos 0)) w
          (λ x. elim (env.ngx.pcalloc x w.dbug.pool (8 * cmds.nelts)) [
            | none ↦ none
            | some x' ↦ some (tt, x')
          ])
          (rw allocates refl)
          (Works-then env c Stays h.table w.input (λ (_ : ℤ). pure (pos 0)) Stays-trans
            (dbug_pro env path argv (record w { os = s }))
            (dbug_pro-Works path argv (record w { os = s }) h)
            (λ _ v sane same. (sane, same, refl)))
