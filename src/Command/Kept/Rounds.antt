-- ===== src/Command/Kept/Rounds.antt =====
-- The invariant over the rounds of `main`.
use test_dbug.Common.{
  ℕ, zero, suc, ◌≡◌, refl, sym, ap, subst, ◌∙◌, Bool, List, [], ◌∷◌, ◌++◌, Option, none, some, ℤ,
  pos, Text,
}
use test_dbug.Output.{prompt}
use test_dbug.Kernel.{Pid, IsMemory}
use test_dbug.Session.{
  Str, Arr, Env, World, Outcome, done, exited, replaced, unread, fault, pure, and_then, then-done,
  ◌>>◌,
}
use test_dbug.Command.Read.{take_line, get_command}
use test_dbug.Command.Read.Slots.{IsRoomy, get_command-Holds}
use test_dbug.Command.Handlers.{command_exit}
use test_dbug.Command.Handlers.Armed.{IsStill}
use test_dbug.Command.Handlers.Break.{IsRoomyBps}
use test_dbug.Elf.Functions.{FunArr}
use test_dbug.Command.Read.Words.{words}
use test_dbug.Command.Kept.Main.{TakesOn, first_round-IsSession}
use test_dbug.Command.Play.Dispatch.{HasText, choose-some}
use test_dbug.Session.{Breakpoint}
use test_dbug.Common.{until}
use test_dbug.Command.Play.{
  CommandFun, cmd_break, cmd_continue, cmd_show, cmd_dbug, cmd_attach, cmd_showreg, cmd_watch,
  cmd_exit, cmd_showbps, cmd_set, choose, run_fun, run_chosen, play_command, main_round,
  main_rounds,
}
use test_dbug.Command.Kept.{IsSession, IsSession-words, IsSession-out, Goes, Goes-then}
use test_dbug.Command.Kept.Stop.{command_continue-Goes}
use test_dbug.Command.Kept.Tables.{
  command_break-Goes, command_show-Goes, command_showbps-Goes, command_showreg-Goes,
}
use test_dbug.Command.Kept.Watch.{command_watch-Goes}
use test_dbug.Command.Kept.Refused.{Refuses}
use test_dbug.Command.Kept.Refused.Round.{refused_round-IsSession}

-- What a command asks of the words: one that reads word 1 finds a text there. The two commands that
-- take on another process are not ordinary.
abbrev pub Suits : CommandFun → Arr Str → Type 0
Suits cmd_break cmds = HasText (cmds.elts 1)
Suits cmd_watch cmds = HasText (cmds.elts 1)
Suits cmd_dbug cmds = ⊥
Suits cmd_attach cmds = ⊥
Suits cmd_continue cmds = Unit
Suits cmd_show cmds = Unit
Suits cmd_showreg cmds = Unit
Suits cmd_exit cmds = Unit
Suits cmd_showbps cmds = Unit

-- The words that a call of `get_command` leaves.
abbrev pub words_left : {S : Type 0} → Outcome S ℤ → Option (Arr Str)
words_left (done r w) = w.dbug.cmd
words_left (exited n w) = none
words_left (replaced w) = none
words_left (unread w) = none
words_left fault = none

-- The line that a round reads leaves a text in word 0 and suits the command that it names, if any.
abbrev pub IsOrdinary : {S : Type 0} → Env S → World S → Type 0
IsOrdinary env w =
    (b : Arr Str)
    → words_left (get_command env w) ≡ some b
    → HasText (b.elts 0)
      × ((fun : CommandFun) → choose (b.elts 0) cmd_set ≡ some (some fun) → Suits fun b)

module _ {S : Type 0} (env : Env S) {mem : S → Pid → ℕ → ℕ} {mapped : S → Pid → ℕ → Bool}
    {code : ℕ → Bool} {text : ℕ → ℕ} (m : IsMemory env.kernel mem mapped)
    (still : IsStill env.kernel mem mapped code) (roomy : IsRoomyBps env.ngx mem mapped) where
  -- Every function of the table but the two that take on a process keeps the invariant, or ends the
  -- program with 0: it does not fault, whatever the system answers to the calls that can fail.
  pub run_fun-Goes :
      (fun : CommandFun) (cmds : Arr Str) (w : World S)
      → IsSession mem mapped code text w
      → Suits fun cmds
      → Goes mem mapped code text (run_fun env fun cmds w)
  unfolding run_fun command_exit
  run_fun-Goes cmd_break cmds w h (word, is) = command_break-Goes env m roomy cmds w h word is
  run_fun-Goes cmd_continue cmds w h suits = command_continue-Goes env m still cmds w h
  run_fun-Goes cmd_show cmds w h suits = command_show-Goes env cmds w h
  run_fun-Goes cmd_dbug cmds w h suits = absurd suits
  run_fun-Goes cmd_attach cmds w h suits = absurd suits
  run_fun-Goes cmd_showreg cmds w h suits = command_showreg-Goes env cmds w h
  run_fun-Goes cmd_watch cmds w h (word, is) = command_watch-Goes env still roomy cmds w h word is
  run_fun-Goes cmd_exit cmds w h suits = refl
  run_fun-Goes cmd_showbps cmds w h suits = command_showbps-Goes env cmds w h

  run_chosen-Goes :
      (found : Option CommandFun) (cmds : Arr Str) (w : World S)
      → IsSession mem mapped code text w
      → ((fun : CommandFun) → found ≡ some fun → Suits fun cmds)
      → Goes mem mapped code text (run_chosen env (some found) cmds w)
  unfolding run_chosen
  run_chosen-Goes none cmds w h suits = IsSession-out w h w.dbug.regs _
  run_chosen-Goes (some fun) cmds w h suits =
      Goes-then (run_fun env fun cmds w) (λ r. pure (pos 0))
        (run_fun-Goes fun cmds w h (suits fun refl)) (λ r w' e h'. h')

  module _ (room : IsRoomy env.ngx mem mapped) where
    -- A round on an ordinary line, with the invariant in force and memory to be had, either returns
    -- with the invariant in force again or ends the program with 0: there is no fault.
    pub main_round-Goes :
        (w : World S)
        → IsSession mem mapped code text w
        → IsOrdinary env w
        → Goes mem mapped code text (main_round env w)
    unfolding main_round play_command
    main_round-Goes w h ordinary =
        let (b, s', runs, holds, apart) = get_command-Holds env room w h.words h.is_words in
        let d = w.dbug in
        let w1 : World S = record w {
          os = s';
          dbug = record d { cmd = some b };
          input = (take_line 49 w.input).1;
          out = w.out ++ prompt ∷ [];
        } in
        let (has_text, suits) = ordinary b (ap words_left runs) in
        let (found, chosen) = choose-some (b.elts 0) cmd_set has_text in
        let h1 = IsSession-words w h b s' (take_line 49 w.input).1 (w.out ++ prompt ∷ []) apart in
        subst (Goes mem mapped code text)
          (sym (
            then-done (λ _. play_command env >> pure tt) runs
            ∙ ap (λ c. and_then (run_chosen env c b w1) (λ _. pure tt)) chosen))
          (Goes-then (run_chosen env (some found) b w1) (λ _. pure tt)
            (run_chosen-Goes found b w1 h1 (λ fun is. suits fun (chosen ∙ ap some is)))
            (λ r w' e h'. h'))

-- The worlds that the loop of `main` comes to from the world `w`, where the code was `text`, each with
-- the program's own code there: by rounds on ordinary lines and on lines that ask for another process
-- and get none, which keep that code, and, while there are no breakpoints, by lines that take on
-- another process, which has another code.
pub data Reaches {S : Type 0} (env : Env S) (mem : S → Pid → ℕ → ℕ) (mapped : S → Pid → ℕ → Bool)
    (code : ℕ → Bool) (text : ℕ → ℕ) (w : World S) : (ℕ → ℕ) → World S → Type 0 where
  start : Reaches env mem mapped code text w text w
  round :
      {own : ℕ → ℕ} {u v : World S}
      → Reaches env mem mapped code text w own u
      → IsOrdinary env u
      → main_round env u ≡ done tt v
      → Reaches env mem mapped code text w own v
  refused :
      {own : ℕ → ℕ} {u v : World S}
      → Reaches env mem mapped code text w own u
      → (name : Text) (more : List Text)
      → words none (until 0 (take_line 49 u.input).0).0 ≡ name ∷ more
      → Refuses env mem mapped code u.dbug.pid u.os u.dbug.status name more
      → main_round env u ≡ done tt v
      → Reaches env mem mapped code text w own v
  taken :
      {own : ℕ → ℕ} {u v : World S}
      → Reaches env mem mapped code text w own u
      → (a : Arr Breakpoint) (name : Text) (more : List Text) (funs : FunArr) (pid : Pid)
      → u.dbug.bps ≡ some a
      → a.nelts ≡ 0
      → words none (until 0 (take_line 49 u.input).0).0 ≡ name ∷ more
      → TakesOn env mem mapped code funs u.os u.dbug.status name more pid
      → main_round env u ≡ done tt v
      → Reaches env mem mapped code text w (mem v.os pid) v

-- The world behind a call that returns, or the one given.
abbrev pub world_after : {S A : Type 0} → World S → Outcome S A → World S
world_after w (done a v) = v
world_after w (exited n v) = w
world_after w (replaced v) = w
world_after w (unread v) = w
world_after w fault = w

module _ {S : Type 0} (env : Env S) {mem : S → Pid → ℕ → ℕ} {mapped : S → Pid → ℕ → Bool}
    {code : ℕ → Bool} {text : ℕ → ℕ} (m : IsMemory env.kernel mem mapped)
    (still : IsStill env.kernel mem mapped code) (roomy : IsRoomyBps env.ngx mem mapped)
    (room : IsRoomy env.ngx mem mapped) where
  -- With the invariant in force, memory to be had and a process whose code nothing but the debugger
  -- writes: every world that the loop of `main` comes to, by rounds on ordinary lines, on lines that
  -- ask for another process and get none, and, while there are no breakpoints, on lines that take on
  -- another process with its functions in the code, has the invariant, for the code of the process that was taken on last.
  pub Reaches-IsSession :
      {w v : World S} {own : ℕ → ℕ}
      → IsSession mem mapped code text w
      → Reaches env mem mapped code text w own v
      → IsSession mem mapped code own v
  Reaches-IsSession h start = h
  Reaches-IsSession h (round {own} {u} before ordinary e) =
      subst (Goes mem mapped code own) e
        (main_round-Goes env m still roomy room u (Reaches-IsSession h before) ordinary)
  Reaches-IsSession h (refused {own} {u} before name more line refuses e) =
      let (v, runs, same) =
        refused_round-IsSession env room u name more (Reaches-IsSession h before) line refuses in
      subst (IsSession mem mapped code own) (ap (world_after u) (sym runs ∙ e)) same
  Reaches-IsSession h (taken {own} {u} before a name more funs pid is_bps empty line takes e) =
      let old = Reaches-IsSession h before in
      let (v, runs, new) =
        first_round-IsSession env code room u a (old.words) name more funs pid is_bps empty
          (old.is_words) line takes in
      subst (λ v. IsSession mem mapped code (mem v.os pid) v) (ap (world_after u) (sym runs ∙ e))
        new

-- The lines of the next `n` rounds are ordinary, as far as the rounds return.
abbrev pub AreOrdinary : {S : Type 0} → Env S → ℕ → World S → Type 0
AreOrdinary env zero w = Unit
AreOrdinary {S} env (suc n) w =
    IsOrdinary env w × ((v : World S) → main_round env w ≡ done tt v → AreOrdinary env n v)

module _ {S : Type 0} (env : Env S) {mem : S → Pid → ℕ → ℕ} {mapped : S → Pid → ℕ → Bool}
    {code : ℕ → Bool} {text : ℕ → ℕ} (m : IsMemory env.kernel mem mapped)
    (still : IsStill env.kernel mem mapped code) (roomy : IsRoomyBps env.ngx mem mapped)
    (room : IsRoomy env.ngx mem mapped) where
  -- With the invariant in force, memory to be had and a process whose code nothing but the debugger
  -- writes: any number of rounds of the loop of `main` on ordinary lines either return with the
  -- invariant in force again or end the program with 0. There is no fault, however the process stops
  -- or ends.
  pub main_rounds-Goes :
      (n : ℕ) (w : World S)
      → IsSession mem mapped code text w
      → AreOrdinary env n w
      → Goes mem mapped code text (main_rounds env n w)
  unfolding main_rounds
  main_rounds-Goes zero w h ordinary = h
  main_rounds-Goes (suc n) w h (ordinary, later) =
      Goes-then (main_round env w) (λ _. main_rounds env n)
        (main_round-Goes env m still roomy room w h ordinary)
        (λ r v e k. main_rounds-Goes n v k (later v e))
