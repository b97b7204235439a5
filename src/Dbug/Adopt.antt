-- ===== src/Dbug/Adopt.antt =====
-- `dbug_pro` and `attach_pro`: a process becomes the session's.
use test_dbug.Common.{
  ℕ, suc, ◌≡◌, refl, sym, ap, subst, ◌∙◌, arith, Bool, true, false, List, Option, none, some, ◌⊎◌,
  inl, inr, ℤ, pos, minus_one, is_neg, ◌==◌, Bool-cases, Text, codes,
}
use test_dbug.Output.{Line}
use test_dbug.Kernel.{Pid}
use test_dbug.Elf.Functions.{FunArr}
use test_dbug.Elf.Lookup.{HasNames}
use test_dbug.Elf.Open.{open_funs, open_funs-HasNames}
use test_dbug.Session.{Env, World, Outcome, done, unread, and_then, then-done, set_dbug, pure, ◌>>◌}
use test_dbug.Dbug.{wifexited, perror}
use test_dbug.Dbug.Start.{load_funs, adopt, wait_status, dbug_pro, attach_pro}

-- How a call that takes on the process `pid`, which stopped with `status`, goes, for the table that
-- is read. A process that has ended is left; any other becomes the session's, and each of the
-- functions that its table counts has a name.
abbrev pub Adopted : {S : Type 0} → Pid → ℕ → Option FunArr → World S → Outcome S ℤ → Type 0
Adopted pid status table w result =
    ((wifexited status ≡ true) × (result ≡ done minus_one w))
    ⊎ ((wifexited status ≡ false)
        × (let d = w.dbug in
            result ≡ done (pos 0) (record w { dbug = record d { pid = pid; funs = table } }))
        × ((funs : FunArr) → table ≡ some funs → HasNames funs.size funs.items))

module _ {S : Type 0} (env : Env S) where
  pub perror-done :
      (failed : Bool) (t : Text) (w : World S)
      → (lines : List Line) × (perror env failed t w ≡ done tt (record w { out = lines }))
  perror-done true t w = (_, refl)
  perror-done false t w = (w.out, refl)

  load_funs-done :
      (pid : Pid) {table : Option FunArr} (w : World S)
      → open_funs (env.files w.os) pid ≡ some table
      → load_funs env pid w ≡ done table w
  unfolding load_funs
  load_funs-done pid w read = rw (read, load_funs) refl

  pub adopt-Adopted :
      (pid : Pid) (table : Option FunArr) (w : World S)
      → open_funs (env.files w.os) pid ≡ some table
      → Adopted pid w.dbug.status table w (adopt env pid w)
  unfolding adopt
  adopt-Adopted pid table w read = elim (Bool-cases (wifexited w.dbug.status)) [
    | inl exits ↦ inl (exits, rw exits refl)
    | inr stops ↦ inr (
      stops,
      rw stops (
          let d = w.dbug in
          then-done (λ funs. set_dbug (record d { pid = pid; funs = funs }) >> pure (pos 0))
            (load_funs-done pid (record w { dbug = record d { pid = pid } }) read)),
      λ funs is. open_funs-HasNames (env.files w.os) pid (read ∙ ap some is),
    )
  ]

  load_funs-unread :
      (pid : Pid) (w : World S)
      → open_funs (env.files w.os) pid ≡ none
      → load_funs env pid w ≡ unread w
  unfolding load_funs
  load_funs-unread pid w faults = rw (faults, load_funs) refl

  -- Where the symbols cannot be read without a fault, that is what comes of a process that stands.
  pub adopt-unread :
      (pid : Pid) (w : World S)
      → open_funs (env.files w.os) pid ≡ none
      → wifexited w.dbug.status ≡ false
      → adopt env pid w ≡ unread (let d = w.dbug in record w { dbug = record d { pid = pid } })
  unfolding adopt
  adopt-unread pid w faults stands =
      let d = w.dbug in
      let w1 : World S = record w { dbug = record d { pid = pid } } in
      rw stands (
        ap
          (λ o. and_then o (λ funs. set_dbug (record d { pid = pid; funs = funs }) >> pure (pos 0)))
          (load_funs-unread pid w1 faults))

  -- A process that can be attached to, and whose symbols are read without a fault, is waited for and
  -- then adopted with its table, or left where it has ended; the session has its status.
  pub attach_pro-Adopted :
      (pid : Pid) (table : Option FunArr) (w : World S)
      → is_neg (env.kernel.attach w.os pid).0 ≡ false
      → (let (r, status, s) = env.kernel.waitpid (env.kernel.attach w.os pid).1 pid w.dbug.status in
          open_funs (env.files s) pid ≡ some table)
      → (let (r, status, s) = env.kernel.waitpid (env.kernel.attach w.os pid).1 pid w.dbug.status in
          (lines : List Line) × (let d = w.dbug in
            Adopted pid status table
              (record w { os = s; dbug = record d { status = status }; out = lines })
              (attach_pro env pid w)))
  attach_pro-Adopted pid table w attached read =
      let (r, status, s) = env.kernel.waitpid (env.kernel.attach w.os pid).1 pid w.dbug.status in
      let d = w.dbug in
      let w1 : World S = record w { os = s; dbug = record d { status = status } } in
      let (lines, said) = perror-done (is_neg r) (codes "wait err") w1 in
      let w2 : World S = record w1 { out = lines } in
      let runs : attach_pro env pid w ≡ adopt env pid w2 =
        unfold attach_pro in rw attached (then-done (λ (_ : Unit {0}). adopt env pid) said) in
      (lines, subst (Adopted pid status table w2) (sym runs) (adopt-Adopted pid table w2 read))

  -- After a fork, in the parent, the child is waited for and then adopted with its table, where its
  -- symbols are read without a fault, or left where it has ended; the session has its status.
  pub dbug_pro-Adopted :
      (path : Option Text) (argv : List (Option Text)) (pid : Pid) (table : Option FunArr)
      (w : World S)
      → (env.kernel.fork w.os).0 ≡ pos (suc pid)
      → (let (status, s) = env.kernel.wait (env.kernel.fork w.os).1 w.dbug.status in
          open_funs (env.files s) (suc pid) ≡ some table)
      → (let (status, s) = env.kernel.wait (env.kernel.fork w.os).1 w.dbug.status in
          let d = w.dbug in
          Adopted
            (suc pid)
            status
            table
            (record w { os = s; dbug = record d { status = status } })
            (dbug_pro env path argv w))
  unfolding dbug_pro wait_status
  dbug_pro-Adopted path argv pid table w forked read =
      let (status, s) = env.kernel.wait (env.kernel.fork w.os).1 w.dbug.status in
      let d = w.dbug in
      let w1 : World S = record w { os = s; dbug = record d { status = status } } in
      let parent : (suc pid == 0) ≡ false = ground arith in
      rw (forked, parent) (adopt-Adopted (suc pid) table w1 read)
