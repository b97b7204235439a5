-- ===== src/Command/Kept/Refused/Round.antt =====
-- The invariant behind a line that asks for a process and gets none.
use test_dbug.Common.{
  ℕ, ℤ, ◌*◌, ◌≡◌, refl, ap, subst, ◌∙◌, Bool, List, [], ◌∷◌, ◌++◌, none, some, pos, Text, until,
}
use test_dbug.Output.{prompt}
use test_dbug.Kernel.{Pid, SameTracee-refl}
use test_dbug.Session.{
  Str, Arr, Env, World, done, pure, and_then, then-done, then-deref, then-call_ngx, ◌>>◌,
}
use test_dbug.Dbug.Start.{dbug_pro, attach_pro}
use test_dbug.Command.Read.{take_line}
use test_dbug.Command.Read.Words.{words}
use test_dbug.Command.Read.Slots.{Holds, IsRoomy, get_command-Holds}
use test_dbug.Command.Handlers.{atoi, argv_from, command_attach, command_dbug}
use test_dbug.Command.Handlers.Armed.{IsArmed-same}
use test_dbug.Command.Play.{
  CommandFun, cmd_attach, cmd_dbug, cmd_set, run_fun, play_command, main_round,
}
use test_dbug.Command.Play.Dispatch.{find_name, play_command-run_fun}
use test_dbug.Command.Kept.{IsSession, IsSession-run, IsSession-words}
use test_dbug.Command.Kept.Refused.{
  Refuses, no_attach, no_start, Refuses-later, attach_pro-Refused, dbug_pro-Refused,
}

module _ {S : Type 0} (env : Env S) {mem : S → Pid → ℕ → ℕ} {mapped : S → Pid → ℕ → Bool}
    {code : ℕ → Bool} {text : ℕ → ℕ} (room : IsRoomy env.ngx mem mapped) where
  -- The function that the line names leaves the session's process, on the words that were read.
  run_fun-Refused :
      (w : World S) (b : Arr Str) (name : Text) (more : List Text)
      (h : IsSession mem mapped code text w)
      → Holds b 0 (name ∷ more)
      → Refuses env mem mapped code w.dbug.pid w.os w.dbug.status name more
      → (fun : CommandFun) × (w' : World S) × (find_name name cmd_set ≡ some fun)
        × (run_fun env fun b w ≡ done (pos 0) w')
        × IsSession mem mapped code text w'
  unfolding run_fun command_attach command_dbug
  run_fun-Refused w b name more h (first, after) (no_attach word rest names is_more refuses) =
      let (second, others) = subst (Holds b 1) is_more after in
      let (w', returns, h') =
        attach_pro-Refused env (atoi word) w h (refuses w.os (SameTracee-refl w.os)) in
      (
        cmd_attach,
        w',
        names,
        then-deref w (λ t. attach_pro env (atoi t) >> pure (pos 0)) (ap (λ x. x.chars) second)
            ∙ then-done (λ _. pure (pos 0)) returns,
        h',
      )
  run_fun-Refused w b name more h holds (no_start names refuses) =
      let path = (b.elts 1).chars in
      let argv = argv_from b.elts b.nelts 0 in
      let (s, allocates, same) = room.alloc w.os w.dbug.pool (8 * b.nelts) in
      let h1 =
        IsSession-run w h s w.dbug.status w.dbug.regs w.out
          (IsArmed-same h.table h.armed (λ a c. same.memory w.dbug.pid a))
          (same.mapping w.dbug.pid) in
      let (w', returns, h') =
        dbug_pro-Refused env path argv (record w { os = s }) h1 (refuses s same) in
      (
        cmd_dbug,
        w',
        names,
        then-call_ngx w (λ (_ : Unit {0}). dbug_pro env path argv >> pure (pos 0))
              (λ x. elim (env.ngx.pcalloc x w.dbug.pool (8 * b.nelts)) [
                | none ↦ none
                | some x' ↦ some (tt, x')
              ])
              (rw allocates refl)
            ∙ then-done (λ (_ : ℤ). pure (pos 0)) returns,
        h',
      )

  -- A line that asks for a process and gets none, with the invariant in force and memory to be had.
  pub refused_round-IsSession :
      (w : World S) (name : Text) (more : List Text) (h : IsSession mem mapped code text w)
      → words none (until 0 (take_line 49 w.input).0).0 ≡ name ∷ more
      → Refuses env mem mapped code w.dbug.pid w.os w.dbug.status name more
      → (w' : World S) × (main_round env w ≡ done tt w') × IsSession mem mapped code text w'
  unfolding main_round
  refused_round-IsSession w name more h line refuses =
      let (b, s, runs, holds, apart) = get_command-Holds env room w h.words h.is_words in
      let d = w.dbug in
      let rest = (take_line 49 w.input).1 in
      let w1 : World S = record w {
        os = s;
        dbug = record d { cmd = some b };
        input = rest;
        out = w.out ++ prompt ∷ [];
      } in
      let held = subst (Holds b 0) line holds in
      let (fun, w', names, returns, h') =
        run_fun-Refused w1 b name more (IsSession-words w h b s rest (w.out ++ prompt ∷ []) apart)
          held (Refuses-later env apart refuses) in
      (
        w',
        then-done (λ _. play_command env >> pure tt) runs
            ∙ ap (λ o. and_then o (λ _. pure tt))
                (play_command-run_fun env w1 b refl name (held.0) fun names)
            ∙ ap (λ o. and_then (and_then o (λ _. pure (pos 0))) (λ _. pure tt)) returns,
        h',
      )
