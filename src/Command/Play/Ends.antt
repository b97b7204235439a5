-- ===== src/Command/Play/Ends.antt =====
-- A line that ends the debugger.
use test_dbug.Common.{
  ℕ, suc, ◌≡◌, refl, ap, subst, ◌∙◌, Bool, List, [], ◌∷◌, ◌++◌, none, some, Text, until,
}
use test_dbug.Output.{prompt}
use test_dbug.Kernel.{Pid, SameTracee}
use test_dbug.Session.{Str, Arr, Env, World, exited, pure, and_then, then-done, ◌>>◌}
use test_dbug.Command.Read.{take_line}
use test_dbug.Command.Read.Words.{words}
use test_dbug.Command.Read.Slots.{str_of, Holds, IsRoomy, get_command-Holds}
use test_dbug.Command.Handlers.{command_exit}
use test_dbug.Command.Play.{cmd_exit, cmd_set, run_fun, play_command, main_round, main_rounds}
use test_dbug.Command.Play.Dispatch.{find_name, play_command-run_fun}

module _ {S : Type 0} (env : Env S) {mem : S → Pid → ℕ → ℕ} {mapped : S → Pid → ℕ → Bool}
    (room : IsRoomy env.ngx mem mapped) where
  -- While memory lasts, a line whose first word is `q`, `exit` or `quit` ends the loop of `main` with 0,
  -- however many rounds it has left: the traced process is killed in the system that the reading of the line left, with the
  -- memory of the process as it was, and the input behind the line is not read.
  pub main_rounds-exited :
      (n : ℕ) (w : World S) (a : Arr Str) (word : Text) (more : List Text)
      → w.dbug.cmd ≡ some a
      → words none (until 0 (take_line 49 w.input).0).0 ≡ word ∷ more
      → find_name word cmd_set ≡ some cmd_exit
      → (w' : World S) × (s : S) × (main_rounds env (suc n) w ≡ exited 0 w')
        × SameTracee mem mapped w.os s
        × (w'.os ≡ env.kernel.kill s w.dbug.pid)
        × (w'.input ≡ (take_line 49 w.input).1)
  unfolding main_rounds main_round run_fun command_exit
  main_rounds-exited n w a word more is line names =
      let (b, s, runs, holds, apart) = get_command-Holds env room w a is in
      let d = w.dbug in
      let w1 : World S = record w {
        os = s;
        dbug = record d { cmd = some b };
        input = (take_line 49 w.input).1;
        out = w.out ++ prompt ∷ [];
      } in
      let first : b.elts 0 ≡ str_of word = (subst (Holds b 0) line holds).0 in
      let played = play_command-run_fun env w1 b refl word first cmd_exit names in
      (
        record w1 { os = env.kernel.kill s w.dbug.pid },
        s,
        ap (λ o. and_then o (λ _. main_rounds env n))
              (then-done (λ _. play_command env >> pure tt) runs)
            ∙ ap (λ o. and_then (and_then o (λ _. pure tt)) (λ _. main_rounds env n)) played,
        apart,
        refl,
        refl,
      )
