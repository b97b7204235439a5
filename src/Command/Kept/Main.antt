-- ===== src/Command/Kept/Main.antt =====
-- The invariant from the start of `main` on, where the first line takes on a process.
use test_dbug.Common.{
  ℕ, suc, ℤ, ◌*◌, ◌≡◌, refl, ap, subst, ◌∙◌, Bool, List, [], ◌∷◌, ◌++◌, none, some, pos, Text,
  until,
}
use test_dbug.Output.{prompt}
use test_dbug.Kernel.{Pid, SameTracee, SameTracee-refl, SameTracee-trans}
use test_dbug.Elf.Functions.{FunArr}
use test_dbug.Session.{
  Breakpoint, Str, Arr, Ngx, Env, World, done, pure, and_then, then-done, then-deref, then-call_ngx,
  ◌>>◌,
}
use test_dbug.Dbug.Start.{init_dbug, dbug_pro, attach_pro}
use test_dbug.Command.Read.{take_line}
use test_dbug.Command.Read.Words.{words}
use test_dbug.Command.Read.Slots.{Holds, IsRoomy, get_command-Holds}
use test_dbug.Command.Handlers.{atoi, argv_from, command_attach, command_dbug}
use test_dbug.Command.Play.{
  CommandFun, cmd_attach, cmd_dbug, cmd_set, run_fun, play_command, main_round, main_rounds, main,
}
use test_dbug.Command.Play.Dispatch.{find_name, play_command-run_fun}
use test_dbug.Command.Kept.{IsSession}
use test_dbug.Command.Kept.Start.{CanAttach, CanStart, attach_pro-IsSession, dbug_pro-IsSession}

-- What the library promises of a new pool and of new arrays while memory lasts: the arrays are empty,
-- and no process is reached.
pub record IsFresh {S : Type 0} (ngx : Ngx S) (mem : S → Pid → ℕ → ℕ) (mapped : S → Pid → ℕ → Bool)
    : Type 0 where
  pub pool :
      (s : S) (n : ℕ)
      → (p : ℕ) × (s' : S) × (ngx.create_pool s n ≡ some (p, s')) × SameTracee mem mapped s s'
  pub bps :
      (s : S) (p n : ℕ)
      → (a : Arr Breakpoint) × (s' : S) × (ngx.create_bps s p n ≡ (some a, s'))
        × (a.nelts ≡ 0)
        × SameTracee mem mapped s s'
  pub cmd :
      (s : S) (p n : ℕ)
      → (a : Arr Str) × (s' : S) × (ngx.create_cmd s p n ≡ (some a, s'))
        × SameTracee mem mapped s s'

module _ {S : Type 0} (env : Env S) {mem : S → Pid → ℕ → ℕ} {mapped : S → Pid → ℕ → Bool}
    (fresh : IsFresh env.ngx mem mapped) where
  pub init_dbug-empty :
      (w : World S)
      → (p : ℕ) × (a : Arr Breakpoint) × (cmds : Arr Str) × (s : S) × (let d = w.dbug in
          init_dbug env w
          ≡ done (pos 0) (record w {
            os = s;
            dbug = record d { pool = some p; bps = some a; cmd = some cmds };
          }))
        × (a.nelts ≡ 0)
        × SameTracee mem mapped w.os s
  unfolding init_dbug
  init_dbug-empty w =
      let (p, s1, made, same) = fresh.pool w.os 4096 in
      let (a, s2, made', empty, same') = fresh.bps s1 p 10 in
      let (cmds, s3, made'', same'') = fresh.cmd s2 p 10 in
      (
        p,
        a,
        cmds,
        s3,
        rw (made, made', made'') refl,
        empty,
        SameTracee-trans same (SameTracee-trans same' same''),
      )

-- A line of a command, its first word, and the words behind it, that takes on the process `pid` from any
-- system in which no process differs from the system `s`, with the last status `old`: `attach` and
-- the number of a process that can be attached to, or `dbug`, whose fork gives that child.
pub data TakesOn {S : Type 0} (env : Env S) (mem : S → Pid → ℕ → ℕ) (mapped : S → Pid → ℕ → Bool)
    (code : ℕ → Bool) (funs : FunArr) (s : S) (old : ℕ) (name : Text) (more : List Text) (pid : Pid)
    : Type 0 where
  by_attach :
      (word : Text) (rest : List Text)
      → find_name name cmd_set ≡ some cmd_attach
      → more ≡ word ∷ rest
      → atoi word ≡ pid
      → ((s' : S) → SameTracee mem mapped s s' → CanAttach env mapped code funs pid old s')
      → TakesOn env mem mapped code funs s old name more pid
  by_dbug :
      (child : ℕ)
      → find_name name cmd_set ≡ some cmd_dbug
      → suc child ≡ pid
      → ((s' : S) → SameTracee mem mapped s s' → CanStart env mapped code funs child old s')
      → TakesOn env mem mapped code funs s old name more pid

module _ {S : Type 0} (env : Env S) {mem : S → Pid → ℕ → ℕ} {mapped : S → Pid → ℕ → Bool}
    (code : ℕ → Bool) where
  pub TakesOn-later :
      {funs : FunArr} {s s' : S} {old : ℕ} {name : Text} {more : List Text} {pid : Pid}
      → SameTracee mem mapped s s'
      → TakesOn env mem mapped code funs s old name more pid
      → TakesOn env mem mapped code funs s' old name more pid
  TakesOn-later same (by_attach word rest names is_more is_pid can) =
      by_attach word rest names is_more is_pid (λ x later. can x (SameTracee-trans same later))
  TakesOn-later same (by_dbug child names is_pid can) =
      by_dbug child names is_pid (λ x later. can x (SameTracee-trans same later))

  module _ (room : IsRoomy env.ngx mem mapped) where
    -- The function that the line names takes on the process, on the words that were read.
    run_fun-IsSession :
        (w : World S) (a : Arr Breakpoint) (b : Arr Str) (name : Text) (more : List Text)
        (funs : FunArr) (pid : Pid)
        → w.dbug.bps ≡ some a
        → a.nelts ≡ 0
        → w.dbug.cmd ≡ some b
        → Holds b 0 (name ∷ more)
        → TakesOn env mem mapped code funs w.os w.dbug.status name more pid
        → (fun : CommandFun) × (w' : World S) × (find_name name cmd_set ≡ some fun)
          × (run_fun env fun b w ≡ done (pos 0) w')
          × IsSession mem mapped code (mem w'.os pid) w'
    unfolding run_fun command_attach command_dbug
    run_fun-IsSession w a b name more funs pid is_bps empty is_cmd (first, after)
          (by_attach word rest names is_more is_pid can) =
        let (second, others) = subst (Holds b 1) is_more after in
        let (w', adopts, h) =
          attach_pro-IsSession env mem mapped code pid w a b funs is_bps empty is_cmd
            (can w.os (SameTracee-refl w.os)) in
        (
          cmd_attach,
          w',
          names,
          then-deref w (λ t. attach_pro env (atoi t) >> pure (pos 0)) (ap (λ x. x.chars) second)
              ∙ ap (λ p. (attach_pro env p >> pure (pos 0)) w) is_pid
              ∙ then-done (λ _. pure (pos 0)) adopts,
          h,
        )
    run_fun-IsSession w a b name more funs pid is_bps empty is_cmd holds
          (by_dbug child names is_pid can) =
        let path = (b.elts 1).chars in
        let argv = argv_from b.elts b.nelts 0 in
        let (s', allocates, same) = room.alloc w.os w.dbug.pool (8 * b.nelts) in
        let (w', adopts, h) =
          dbug_pro-IsSession env mem mapped code path argv child (record w { os = s' }) a b funs
            is_bps empty is_cmd (can s' same) in
        (
          cmd_dbug,
          w',
          names,
          then-call_ngx w (λ (_ : Unit {0}). dbug_pro env path argv >> pure (pos 0))
                (λ x. elim (env.ngx.pcalloc x w.dbug.pool (8 * b.nelts)) [
                  | none ↦ none
                  | some x' ↦ some (tt, x')
                ])
                (rw allocates refl)
              ∙ then-done (λ (_ : ℤ). pure (pos 0)) adopts,
          subst (λ p. IsSession mem mapped code (mem w'.os p) w') is_pid h,
        )

    -- A line that takes on a process, in a session with no breakpoints.
    pub first_round-IsSession :
        (w : World S) (a : Arr Breakpoint) (cmds : Arr Str) (name : Text) (more : List Text)
        (funs : FunArr) (pid : Pid)
        → w.dbug.bps ≡ some a
        → a.nelts ≡ 0
        → w.dbug.cmd ≡ some cmds
        → words none (until 0 (take_line 49 w.input).0).0 ≡ name ∷ more
        → TakesOn env mem mapped code funs w.os w.dbug.status name more pid
        → (w' : World S) × (main_round env w ≡ done tt w')
          × IsSession mem mapped code (mem w'.os pid) w'
    unfolding main_round
    first_round-IsSession w a cmds name more funs pid is_bps empty is_cmd line takes =
        let (b, s, runs, holds, apart) = get_command-Holds env room w cmds is_cmd in
        let d = w.dbug in
        let w1 : World S = record w {
          os = s;
          dbug = record d { cmd = some b };
          input = (take_line 49 w.input).1;
          out = w.out ++ prompt ∷ [];
        } in
        let held = subst (Holds b 0) line holds in
        let (fun, w', names, adopts, h) =
          run_fun-IsSession w1 a b name more funs pid is_bps empty refl held
            (TakesOn-later apart takes) in
        (
          w',
          then-done (λ _. play_command env >> pure tt) runs
              ∙ ap (λ o. and_then o (λ _. pure tt))
                  (play_command-run_fun env w1 b refl name (held.0) fun names)
              ∙ ap (λ o. and_then (and_then o (λ _. pure (pos 0))) (λ _. pure tt)) adopts,
          h,
        )

    -- From the start of `main`, while memory lasts: where the first line takes on a process, by
    -- `attach` or by `dbug`, from any system in which no process differs from the one at the
    -- start, and the process does not end, its symbols are read without a fault and lie in the code,
    -- which can be accessed, the program goes on with the rounds that are left in a world with the
    -- session's invariant, for the code that the process has then.
    pub main-IsSession :
        (n : ℕ) (w : World S) (name : Text) (more : List Text) (funs : FunArr) (pid : Pid)
        → IsFresh env.ngx mem mapped
        → words none (until 0 (take_line 49 w.input).0).0 ≡ name ∷ more
        → TakesOn env mem mapped code funs w.os w.dbug.status name more pid
        → (w' : World S) × (main env (suc n) w ≡ main_rounds env n w')
          × IsSession mem mapped code (mem w'.os pid) w'
    unfolding main main_rounds
    main-IsSession n w name more funs pid fresh line takes =
        let (p, a, cmds, s, starts, empty, same) = init_dbug-empty env fresh w in
        let d = w.dbug in
        let w1 : World S = record w {
          os = s;
          dbug = record d { pool = some p; bps = some a; cmd = some cmds };
        } in
        let (w', runs, h) =
          first_round-IsSession w1 a cmds name more funs pid refl empty refl line
            (TakesOn-later same takes) in
        (
          w',
          then-done (λ _. main_rounds env (suc n)) starts ∙ then-done (λ _. main_rounds env n) runs,
          h,
        )
