-- ===== src/Command/Play.antt =====
-- The table of commands, `play_command`, and the loop of main.c.
pub mod Dispatch
pub mod Ends
use test_dbug.Common.{
  ℕ, zero, suc, Bool, true, false, ◌&&◌, List, [], ◌∷◌, Option, none, some, ℤ, pos, minus_one, ◌==◌,
  length, Text, codes, starts_with,
}
use test_dbug.Output.{not_command}
use test_dbug.Session.{
  Str, Arr, Dbug, Env, World, Outcome, done, fault, Cmd, pure, abort, ◌>>=◌, ◌>>◌, get_dbug, print,
  deref,
}
use test_dbug.Dbug.Start.{init_dbug}
use test_dbug.Command.Read.{get_command}
use test_dbug.Command.Handlers.{
  command_break, command_continue, command_show, command_dbug, command_attach, command_showreg,
  command_watch, command_exit, command_showbps,
}

-- The functions that the table holds.
pub data CommandFun : Type 0 where
  cmd_break cmd_continue cmd_show cmd_dbug cmd_attach cmd_showreg cmd_watch cmd_exit cmd_showbps :
      CommandFun

-- `cmd_set`, without the element that ends it.
abbrev pub cmd_set : List (Text × CommandFun)
cmd_set =
    (codes "b", cmd_break)
    ∷ (codes "c", cmd_continue)
    ∷ (codes "show", cmd_show)
    ∷ (codes "dbug", cmd_dbug)
    ∷ (codes "attach", cmd_attach)
    ∷ (codes "showreg", cmd_showreg)
    ∷ (codes "watch", cmd_watch)
    ∷ (codes "q", cmd_exit)
    ∷ (codes "exit", cmd_exit)
    ∷ (codes "quit", cmd_exit)
    ∷ (codes "showbps", cmd_showbps)
    ∷ []

-- The test of the loop on a word of the right length.
unfoldable pub names_word : Str → Text → Option Bool
names_word str name = elim (str.len == length name) [
  | false ↦ some false
  | true ↦ elim str.chars [ none ↦ none | some word ↦ some (starts_with name word) ]
]

-- The loop over the table: a fault, no entry, or the function of the first entry that fits.
unfoldable pub choose : Str → List (Text × CommandFun) → Option (Option CommandFun)
choose str [] = some none
choose str ((name, fun) ∷ table) = elim (names_word str name) [
  | none ↦ none
  | some fits ↦ elim fits [ true ↦ some (some fun) | false ↦ choose str table ]
]

module _ {S : Type 0} (env : Env S) where
  unfoldable pub run_fun : CommandFun → Arr Str → Cmd S ℤ
  run_fun cmd_break = command_break env
  run_fun cmd_continue = command_continue env
  run_fun cmd_show = command_show env
  run_fun cmd_dbug = command_dbug env
  run_fun cmd_attach = command_attach env
  run_fun cmd_showreg = command_showreg env
  run_fun cmd_watch = command_watch env
  run_fun cmd_exit = command_exit env
  run_fun cmd_showbps = command_showbps env

  -- What follows the loop over the table.
  unfoldable pub run_chosen : Option (Option CommandFun) → Arr Str → Cmd S ℤ
  run_chosen none cmds = abort
  run_chosen (some none) cmds = do print (not_command (cmds.elts 0).chars); pure minus_one
  run_chosen (some (some fun)) cmds = do run_fun fun cmds; pure (pos 0)

  unfoldable pub play_command : Cmd S ℤ
  play_command = do d ← get_dbug; cmds ← deref d.cmd; run_chosen (choose (cmds.elts 0) cmd_set) cmds

  -- One round of the loop of `main`, and a number of rounds; the loop itself has no end of its own.
  unfoldable pub main_round : Cmd S (Unit {0})
  main_round = do get_command env; play_command; pure tt

  unfoldable pub main_rounds : ℕ → Cmd S (Unit {0})
  main_rounds zero = pure tt
  main_rounds (suc n) = main_round >> main_rounds n

  unfoldable pub main : ℕ → Cmd S (Unit {0})
  main n = do init_dbug env; main_rounds n
