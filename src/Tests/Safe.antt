-- ===== src/Tests/Safe.antt =====
-- Rounds of `main` from its start, on a few lines.
use test_dbug.Common.{
  ◌≡◌, refl, subst, [], true, Option, none, some, codes, text_eq, until, isspace,
}
use test_dbug.Machine.{Machine, machine_mapped}
use test_dbug.Elf.Functions.{FunArr}
use test_dbug.Elf.Lookup.{HasNames}
use test_dbug.Session.{Arr, Breakpoint, World}
use test_dbug.Command.Read.{take_line}
use test_dbug.Command.Read.Words.{words}
use test_dbug.Command.Play.{main, main_rounds}
use test_dbug.Command.Play.Dispatch.{find_name}
use test_dbug.Command.Safe.{IsSane, Grows}
use test_dbug.Command.Safe.Words.{words_then, is_full, are_full, lines_left}
use test_dbug.Command.Safe.Lines.{Runs, main-Works, main_rounds-Works}
use test_dbug.Tests.System.{fresh, one_bp, no_bps, words_of, session, room-IsRoomy, room-IsRoomyBps}
use test_dbug.Tests.Tables.{funs-HasNames}
use test_dbug.Tests.Programs.{table}
use test_dbug.Tests.Sessions.{room-IsFresh}
use test_dbug.Tests.Taken.{disk_env}

-- A process is started, and gets two breakpoints; `what` names no command. Two rounds more find the
-- end of the input.
abbrev pub at_start : World Machine
at_start =
    let w =
      session fresh no_bps (words_of 0 [] [] []) (codes "dbug /x\nb print\nwatch 64\nwhat\nc\n") in
    let d = w.dbug in
    record w { dbug = record d { pool = none; pid = 0; bps = none; cmd = none; funs = none } }

seven_rounds : are_full [] 7 (codes "dbug /x\nb print\nwatch 64\nwhat\nc\n") ≡ true
unfolding are_full is_full words_then words until take_line isspace find_name text_eq
seven_rounds = refl

main-Works_example :
    (a : Arr Breakpoint) × (a.nelts ≡ 0)
    × Runs disk_env Grows a
        (lines_left 7 (codes "dbug /x\nb print\nwatch 64\nwhat\nc\n"))
        (main disk_env 7 at_start)
main-Works_example =
    main-Works disk_env (room-IsRoomy {mapped = machine_mapped}) room-IsRoomyBps 7 at_start
      room-IsFresh refl seven_rounds

-- The session has a breakpoint already.
abbrev in_session : World Machine
in_session = session fresh one_bp (words_of 0 [] [] []) (codes "b main_loop\nshowbps\n")

abbrev Named : Option FunArr → Type 0
Named none = Unit
Named (some table) = HasNames table.size table.items

abbrev in_session-IsSane : IsSane (words_of 0 [] [] []) in_session.dbug
in_session-IsSane = record {
  table = one_bp;
  is_table = refl;
  is_words = refl;
  names = λ table is. subst Named is funs-HasNames;
}

two_lines : are_full [] 2 (codes "b main_loop\nshowbps\n") ≡ true
unfolding are_full is_full words_then words until take_line isspace find_name text_eq
two_lines = refl

main_rounds-Works_example :
    Runs disk_env Grows one_bp
      (lines_left 2 (codes "b main_loop\nshowbps\n"))
      (main_rounds disk_env 2 in_session)
main_rounds-Works_example =
    main_rounds-Works disk_env (room-IsRoomy {mapped = machine_mapped}) room-IsRoomyBps 2 []
      (words_of 0 [] [] []) in_session in_session-IsSane tt two_lines
