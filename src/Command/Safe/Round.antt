-- ===== src/Command/Safe/Round.antt =====
-- One round of the loop of `main`, on a line of a command.
use test_dbug.Common.{
  ℕ, ◌≡◌, refl, sym, ap, subst, Bool, true, false, List, [], ◌∷◌, ◌++◌, Option, none, some, ℤ, pos,
  Text,
}
use test_dbug.Output.{prompt}
use test_dbug.Kernel.{Pid}
use test_dbug.Session.{Breakpoint, Str, Arr, Env, World, pure, ◌>>◌}
use test_dbug.Command.Read.{take_line}
use test_dbug.Command.Read.Slots.{IsRoomy}
use test_dbug.Command.Handlers.{
  command_exit, command_continue, command_show, command_showreg, command_showbps, command_dbug,
  command_attach,
}
use test_dbug.Command.Handlers.Break.{IsRoomyBps}
use test_dbug.Command.Play.{
  CommandFun, cmd_break, cmd_continue, cmd_show, cmd_dbug, cmd_attach, cmd_showreg, cmd_watch,
  cmd_exit, cmd_showbps, cmd_set, run_fun, run_chosen, play_command, main_round,
}
use test_dbug.Command.Play.Dispatch.{find_name, play_command_lem}
use test_dbug.Elf.Functions.{FunArr}
use test_dbug.Session.{Outcome}
use test_dbug.Command.Safe.Moves.{
  Moves, breaks, watches, stays, Breaks, Watches, is_break, not_break, Moves-Grows,
}
use test_dbug.Command.Handlers.{command_break, command_watch}
use test_dbug.Command.Safe.{
  IsSane, IsSane-words, Works, Works-weaken, Stays, Grows, Works-pure, Works-done,
}
use test_dbug.Command.Safe.Handlers.{
  command_break-Works, command_show-Works, command_showreg-Works, command_watch-Works,
  command_showbps-Works,
}
use test_dbug.Command.Safe.Stop.{command_continue-Works}
use test_dbug.Command.Safe.Start.{command_dbug-Works, command_attach-Works}
use test_dbug.Command.Safe.Words.{line_words, words_then, is_full, single_short}
use test_dbug.Command.Safe.Slots.{Keeps, get_command-Keeps}

-- A function of the table that sets no breakpoint, on the words of a line.
quiet-Works :
    {S : Type 0} (env : Env S) (c : Arr Str) (fun : CommandFun) (a : Arr Breakpoint)
    (funs : Option FunArr) (name : Text) (more : List Text) (input : Text) (o : Outcome S ℤ)
    → find_name name cmd_set ≡ some fun
    → is_break (some fun) ≡ false
    → Works env c Stays a input o
    → Works env c (Moves funs name more) a input o
quiet-Works env c fun a funs name more input o names other h =
    Works-weaken env c Stays (Moves funs name more) input o
      (λ b same. stays (not_break name (some fun) names other) same) h

module _ {c : Arr Str} {S : Type 0} (env : Env S) {mem : S → Pid → ℕ → ℕ}
    {mapped : S → Pid → ℕ → Bool} (room : IsRoomy env.ngx mem mapped)
    (roomy : IsRoomyBps env.ngx mem mapped) where
  -- A function of the table, on the words of a line.
  run_fun-Works :
      (fun : CommandFun) (cmds : Arr Str) (w : World S) (name : Text) (more : List Text)
      (h : IsSane c w.dbug)
      → Keeps cmds 0 (name ∷ more)
      → find_name name cmd_set ≡ some fun
      → is_full (name ∷ more) ≡ true
      → Works env c (Moves w.dbug.funs name more) h.table w.input (run_fun env fun cmds w)
  unfolding run_fun command_exit is_full
  run_fun-Works cmd_break cmds w name [] h holds names full =
      absurd (single_short name names refl full)
  run_fun-Works cmd_break cmds w name (word ∷ more) h (first, (second, rest)) names full =
      Works-weaken env c (Breaks w.dbug.funs word) (Moves w.dbug.funs name (word ∷ more)) w.input
        (command_break env cmds w) (λ b moved. breaks word more names refl moved)
        (command_break-Works env roomy cmds w word h (ap (λ x. x.chars) second))
  run_fun-Works cmd_watch cmds w name [] h holds names full =
      absurd (single_short name names refl full)
  run_fun-Works cmd_watch cmds w name (word ∷ more) h (first, (second, rest)) names full =
      Works-weaken env c Watches (Moves w.dbug.funs name (word ∷ more)) w.input
        (command_watch env cmds w) (λ b moved. watches names moved)
        (command_watch-Works env roomy cmds w word h (ap (λ x. x.chars) second))
  run_fun-Works cmd_attach cmds w name [] h holds names full =
      absurd (single_short name names refl full)
  run_fun-Works cmd_attach cmds w name (word ∷ more) h (first, (second, rest)) names full =
      quiet-Works env c cmd_attach h.table w.dbug.funs name (word ∷ more) w.input
        (command_attach env cmds w) names refl
        (command_attach-Works env cmds w word h (ap (λ x. x.chars) second))
  run_fun-Works cmd_continue cmds w name more h holds names full =
      quiet-Works env c cmd_continue h.table w.dbug.funs name more w.input
        (command_continue env cmds w) names refl (command_continue-Works env cmds w h)
  run_fun-Works cmd_show cmds w name more h holds names full =
      quiet-Works env c cmd_show h.table w.dbug.funs name more w.input (command_show env cmds w)
        names refl (command_show-Works env cmds w h)
  run_fun-Works cmd_showreg cmds w name more h holds names full =
      quiet-Works env c cmd_showreg h.table w.dbug.funs name more w.input
        (command_showreg env cmds w) names refl (command_showreg-Works env cmds w h)
  run_fun-Works cmd_showbps cmds w name more h holds names full =
      quiet-Works env c cmd_showbps h.table w.dbug.funs name more w.input
        (command_showbps env cmds w) names refl (command_showbps-Works env cmds w h)
  run_fun-Works cmd_dbug cmds w name more h holds names full =
      quiet-Works env c cmd_dbug h.table w.dbug.funs name more w.input (command_dbug env cmds w)
        names refl (command_dbug-Works env room cmds w h)
  run_fun-Works cmd_exit cmds w name more h holds names full = refl

  -- What is run of the words of a line, where its name is that of a command or of none.
  run_chosen-Works :
      (found : Option CommandFun) (cmds : Arr Str) (w : World S) (name : Text) (more : List Text)
      (h : IsSane c w.dbug)
      → Keeps cmds 0 (name ∷ more)
      → find_name name cmd_set ≡ found
      → is_full (name ∷ more) ≡ true
      → Works env c
          (Moves w.dbug.funs name more)
          h.table
          w.input
          (run_chosen env (some found) cmds w)
  unfolding run_chosen
  run_chosen-Works none cmds w name more h holds names full =
      (h, refl, stays (not_break name none names refl) refl)
  run_chosen-Works (some fun) cmds w name more h holds names full =
      Works-pure env c (Moves w.dbug.funs name more) h.table w.input (run_fun env fun cmds w)
        (pos 0) (run_fun-Works fun cmds w name more h holds names full)

module _ {c : Arr Str} {S : Type 0} (env : Env S) {mem : S → Pid → ℕ → ℕ}
    {mapped : S → Pid → ℕ → Bool} (room : IsRoomy env.ngx mem mapped)
    (roomy : IsRoomyBps env.ngx mem mapped) where
  -- While memory lasts, from a session with its two arrays: where the words of the line, or those of the line before if it has none, are a
  -- name, and a second word if the command of that name reads it, a round of `main` reads just this line, and
  -- either leaves the table of breakpoints as these words ask for, with one new breakpoint at its end
  -- or none, or ends the program with 0, or another program takes the place of a child. The only
  -- fault is one of `open_funs` itself, on the files of the process that was just taken on.
  pub main_round-Works :
      (before : List Text) (w : World S) (name : Text) (more : List Text) (h : IsSane c w.dbug)
      → Keeps c 0 before
      → words_then before (line_words w.input) ≡ name ∷ more
      → is_full (name ∷ more) ≡ true
      → (b : Arr Str) × Keeps b 0 (name ∷ more)
        × Works env b
            (Moves w.dbug.funs name more)
            h.table
            (take_line 49 w.input).1
            (main_round env w)
  unfolding main_round
  main_round-Works before w name more h keeps line full =
      let (b, s, runs, kept) =
        get_command-Keeps env room before (line_words w.input) w c h.is_words keeps refl in
      let rest = (take_line 49 w.input).1 in
      let d = w.dbug in
      let w1 : World S = record w {
        os = s;
        dbug = record d { cmd = some b };
        input = rest;
        out = w.out ++ prompt ∷ [];
      } in
      let held = subst (Keeps b 0) line kept in
      (
        b,
        held,
        Works-done env b (Moves d.funs name more) h.table rest (λ _. play_command env >> pure tt)
            runs
            (Works-pure env b (Moves d.funs name more) h.table rest (play_command env w1) tt (
              subst (Works env b (Moves d.funs name more) h.table rest)
                (sym (play_command_lem env w1 b refl name (held.0)))
                (run_chosen-Works env room roomy (find_name name cmd_set) b w1 name more
                  (IsSane-words h b) held refl full))),
      )

  pub round_of_words :
      (before ws : List Text) (w : World S) (h : IsSane c w.dbug)
      → Keeps c 0 before
      → words_then before (line_words w.input) ≡ ws
      → is_full ws ≡ true
      → (b : Arr Str) × Keeps b 0 ws
        × Works env b Grows h.table (take_line 49 w.input).1 (main_round env w)
  unfolding is_full
  round_of_words before [] w h keeps line full = absurd (cc full)
  round_of_words before (name ∷ more) w h keeps line full =
      let (b, kept, works) = main_round-Works before w name more h keeps line full in
      (
        b,
        kept,
        Works-weaken env b (Moves w.dbug.funs name more) Grows (take_line 49 w.input).1
            (main_round env w) Moves-Grows works,
      )
