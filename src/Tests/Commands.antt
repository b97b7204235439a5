-- ===== src/Tests/Commands.antt =====
-- Lines that are read and commands that are run in the session of Tests/System.antt.
use test_dbug.Common.{
  ℕ, zero, suc, ◌^◌, ◌<◌, ◌≡◌, refl, arith, true, List, [], ◌∷◌, ◌++◌, none, some, ◌⊎◌, pos,
  minus_one, codes, get_elem?, Text, text_eq, until, isspace,
}
use mathlib.Core.List.{map}
use test_dbug.Output.{Line, prompt}
use test_dbug.Kernel.{Regs, SameTracee}
use test_dbug.Machine.{Machine, machine, machine_mem, machine_mapped, machine-IsMemory, next_trap}
use test_dbug.Elf.Functions.{FuncOrg}
use test_dbug.Elf.Lookup.{HasNames, NoMatch}
use test_dbug.Session.{Str, Arr, World, done, pure, ◌>>◌}
use test_dbug.Command.Read.{take_line, split_loop, get_command}
use test_dbug.Command.Read.Words.{words, add_words, split_loop-words}
use test_dbug.Command.Read.Typed.{line_of, IsWord, split_loop-line_of}
use test_dbug.Command.Read.Slots.{Holds, get_command-Holds}
use test_dbug.Command.Handlers.{argv_from, command_break, command_continue}
use test_dbug.Command.Handlers.Argv.{argv_from-Holds}
use test_dbug.Command.Handlers.Armed.{IsArmed}
use test_dbug.Command.Handlers.Break.{Added, command_break-Added}
use test_dbug.Command.Handlers.Trap.{Ran}
use test_dbug.Command.Handlers.Continue.{after_wait, command_continue-Ran}
use test_dbug.Command.Play.{cmd_break, cmd_set, run_fun, play_command, main_round}
use test_dbug.Command.Play.Dispatch.{find_name, play_command-run_fun, main_round_repeats}
use test_dbug.Tests.System.{
  env, fresh, trapped, one_bp, no_bps, funs, code, text, words_of, session, room-IsRoomy,
  room-IsRoomyBps, machine-IsStill, fresh-IsArmed, trapped-IsArmed,
}

abbrev b_main : Arr Str
b_main = words_of 2 (codes "b") (codes "main") []

abbrev at_start : World Machine
at_start = session fresh no_bps b_main []

abbrev at_trap : World Machine
at_trap = session trapped one_bp (words_of 1 (codes "c") [] []) []

funs-HasNames : HasNames 2 funs.items
funs-HasNames = ((codes "main_loop", refl), ((codes "main", refl), tt))

funs_places :
    (j : ℕ) (f : FuncOrg)
    → j < 2
    → get_elem? funs.items j ≡ some f
    → (f.addr < 2 ^ 64) × (machine_mapped fresh 7 f.addr ≡ true) × (code f.addr ≡ true)
funs_places zero f below e = (ground arith, ground arith, ground arith)
funs_places (suc zero) f below e = (ground arith, ground arith, ground arith)
funs_places (suc (suc j)) f below e = absurd (omega arith)

command_break-Added_example :
    ((command_break env b_main at_start ≡ done minus_one at_start)
      × NoMatch (codes "main") funs.items 2)
    ⊎ ((j : ℕ) × (f : FuncOrg) × (rest : Text) × (j < 2)
        × (get_elem? funs.items j ≡ some f)
        × (f.name ≡ some (codes "main" ++ rest))
        × NoMatch (codes "main") funs.items j
        × Added machine_mem machine_mapped code text f at_start no_bps
            (command_break env b_main at_start))
command_break-Added_example =
    command_break-Added env machine-IsMemory room-IsRoomyBps b_main at_start no_bps funs
      (codes "main") refl refl refl funs-HasNames fresh-IsArmed funs_places

command_continue-Ran_example :
    (s' : Machine) × (regs' : Regs) × (lines : List Line) × (let w = at_trap in
      let d = w.dbug in
      command_continue env b_main at_trap
      ≡ done (pos 0) (record w {
        os = s';
        dbug = record d { status = (after_wait env at_trap).0; regs = regs' };
        out = lines;
      }))
    × Ran machine machine_mem machine_mapped code text 7 one_bp
        (machine.getregs (after_wait env at_trap).1 7 at_trap.dbug.regs).1
        (after_wait env at_trap).1
        s'
        regs'
    × IsArmed machine_mem code text 7 one_bp s'
    × ((a : ℕ) → machine_mapped s' 7 a ≡ machine_mapped trapped 7 a)
unfolding next_trap
command_continue-Ran_example =
    command_continue-Ran env machine-IsMemory machine-IsStill b_main at_trap one_bp refl
      trapped-IsArmed (λ i below kind. (omega arith, refl)) refl refl

-- A session in front of a line of input.
abbrev typed : World Machine
typed = session fresh no_bps (words_of 0 [] [] []) (codes "b  main\nc\n")

get_command-Holds_example :
    (b : Arr Str) × (s' : Machine) × (let w = typed in
      let d = w.dbug in
      get_command env typed
      ≡ done (pos 0) (record w {
        os = s';
        dbug = record d { cmd = some b };
        input = (take_line 49 w.input).1;
        out = prompt ∷ [];
      }))
    × Holds b 0 (words none (until 0 (take_line 49 typed.input).0).0)
    × SameTracee machine_mem machine_mapped typed.os s'
get_command-Holds_example = get_command-Holds env room-IsRoomy typed (words_of 0 [] [] []) refl

split_loop-words_example :
    split_loop env 8 (codes "b  main\n") at_start
    ≡ add_words env (words none (codes "b  main\n")) at_start
split_loop-words_example = split_loop-words env 8 (codes "b  main\n") at_start (omega arith)

b-IsWord : IsWord (codes "b")
unfolding isspace
b-IsWord = (refl, tt)

main-IsWord : IsWord (codes "main")
unfolding isspace
main-IsWord = (refl, (refl, (refl, (refl, tt))))

split_loop-line_of_example :
    split_loop env 7 (codes "b main\n") at_start
    ≡ add_words env (codes "b" ∷ codes "main" ∷ []) at_start
unfolding line_of
split_loop-line_of_example =
    split_loop-line_of env (codes "b") (codes "main" ∷ []) at_start b-IsWord (main-IsWord, tt)

finds_break : find_name (codes "b") cmd_set ≡ some cmd_break
unfolding find_name text_eq
finds_break = refl

play_command-run_fun_example :
    play_command env at_start ≡ (run_fun env cmd_break b_main >> pure (pos 0)) at_start
play_command-run_fun_example =
    play_command-run_fun env at_start b_main refl (codes "b") refl cmd_break finds_break

main_round_repeats_example :
    (let w = at_start in
      let d = w.dbug in
      let again : Arr Str = words_of 0 (codes "b") (codes "main") [] in
      main_round env at_start
      ≡ (run_fun env cmd_break again >> pure tt)
          (record w { dbug = record d { cmd = some again }; out = prompt ∷ [] }))
main_round_repeats_example =
    main_round_repeats env at_start b_main refl (codes "b") cmd_break refl finds_break refl

abbrev dbug_ls : Arr Str
dbug_ls = words_of 3 (codes "dbug") (codes "/bin/ls") (codes "-l")

argv_from-Holds_example :
    argv_from dbug_ls.elts 3 0
    ≡ map (λ t. some t) (codes "/bin/ls" ∷ codes "-l" ∷ []) ++ (dbug_ls.elts 3).chars ∷ []
argv_from-Holds_example =
    argv_from-Holds dbug_ls (codes "dbug") (codes "/bin/ls" ∷ codes "-l" ∷ [])
      (refl, (refl, (refl, refl)))
