-- ===== src/Tests/Whole.antt =====
-- A run from the start of `main`, and a breakpoint that the program meets.
use test_dbug.Common.{
  [], arith, codes, isspace, refl, some, starts_with, text_eq, true, until, ℕ, ◌<◌, ◌∷◌, ◌≡◌,
}
use test_dbug.Machine.{Machine, machine_mem, machine_mapped, machine-IsMemory, next_trap, patch}
use test_dbug.Session.{Arr, Breakpoint, put, World, done}
use test_dbug.Dbug.{
  int_3, insert_int3_bp, find_current_sf_bp, find_current_hw_bp, sf_loop, hw_loop,
  resume_int3_bp_next,
}
use test_dbug.Command.Read.{take_line, read_line, word_end, add_word, split_loop, get_command}
use test_dbug.Command.Read.Words.{words}
use test_dbug.Command.Handlers.{
  command_break, break_index, add_breakpoint, fill_last, store_last, command_continue, on_stop,
  on_trap, sf_index, hw_index,
}
use test_dbug.Command.Play.{
  names_word, choose, run_chosen, run_fun, play_command, main_round, main_rounds, main,
}
use test_dbug.Command.Play.Dispatch.{find_name}
use test_dbug.Command.Kept.{IsSession, Goes}
use test_dbug.Command.Kept.Main.{TakesOn, by_dbug}
use test_dbug.Command.Kept.Plain.{is_plain, are_plain}
use test_dbug.Command.Kept.Whole.{main-Goes, main_rounds-IsTrapped}
use test_dbug.Command.Kept.View.{Means, broken, overlay, main_round-Means}
use test_dbug.Elf.Lookup.{find_func}
use test_dbug.Command.Safe.Words.{words_then, is_full, line_words}
use test_dbug.Tests.System.{
  bp_100, code, fresh, funs, machine-IsStill, one_bp, room-IsRoomy, room-IsRoomyBps, text,
}
use test_dbug.Tests.Programs.{table}
use test_dbug.Tests.Sessions.{room-IsFresh, starts}
use test_dbug.Tests.Taken.{disk_env, opens, table_in_code}
use test_dbug.Tests.Rounds.{typed, typed-IsSession, behind}
use test_dbug.Tests.Safe.{at_start}

first_line : line_words (at_start.input) ≡ codes "dbug" ∷ codes "/x" ∷ []
unfolding words until take_line isspace
first_line = refl

-- Two rounds of these find the end of the input.
six_rounds : are_plain (codes "dbug" ∷ codes "/x" ∷ []) 6 (take_line 49 (at_start.input)).1 ≡ true
unfolding are_plain words_then is_plain is_full words until take_line isspace find_name text_eq
six_rounds = refl

dbug_TakesOn :
    TakesOn disk_env machine_mem machine_mapped code table fresh 0
      (codes "dbug")
      (codes "/x" ∷ [])
      7
dbug_TakesOn =
    by_dbug 6 starts refl
      (λ s same. (refl, (refl, opens 7, table_in_code, λ c in_c. (ground arith, ground arith))))

main-Goes_example :
    (w' : World Machine) × (main disk_env 7 at_start ≡ main_rounds disk_env 6 w')
    × IsSession machine_mem machine_mapped code (machine_mem w'.os 7) w'
    × Goes machine_mem machine_mapped code (machine_mem w'.os 7) (main_rounds disk_env 6 w')
main-Goes_example =
    main-Goes disk_env machine-IsMemory machine-IsStill room-IsRoomyBps room-IsRoomy 6 at_start
      (codes "dbug") (codes "/x" ∷ []) table 7 room-IsFresh refl first_line dbug_TakesOn six_rounds

-- The program runs into the trap and on.
abbrev stopped : World Machine
stopped = behind (main_rounds disk_env 1 (typed (codes "c\n")))

c_line : are_plain [] 1 (codes "c\n") ≡ true
unfolding are_plain words_then is_plain is_full words until take_line isspace find_name text_eq
c_line = refl

stops : main_rounds disk_env 1 (typed (codes "c\n")) ≡ done tt stopped
unfolding main_rounds main_round get_command read_line take_line until split_loop word_end add_word
    isspace put play_command choose names_word starts_with run_chosen run_fun command_continue
    on_stop on_trap sf_index hw_index find_current_sf_bp find_current_hw_bp sf_loop hw_loop
    resume_int3_bp_next next_trap patch
stops = refl

main_rounds-IsTrapped_example :
    (b : Arr Breakpoint) × (stopped.dbug.bps ≡ some b)
    × (0 < b.nelts)
    × (b.elts 0 ≡ bp_100)
    × (machine_mem stopped.os stopped.dbug.pid 100 ≡ int_3)
unfolding typed-IsSession
main_rounds-IsTrapped_example =
    main_rounds-IsTrapped disk_env machine-IsMemory machine-IsStill room-IsRoomyBps room-IsRoomy 1 0
      [] (typed (codes "c\n")) stopped (typed-IsSession (codes "c\n")) tt c_line stops (omega arith)
      refl

-- A breakpoint at a second function.
abbrev two_traps : World Machine
two_traps = behind (main_round disk_env (typed (codes "b main_loop\n")))

b_line : words_then [] (line_words (codes "b main_loop\n")) ≡ codes "b" ∷ codes "main_loop" ∷ []
unfolding words_then words until take_line isspace
b_line = refl

b_plain : is_plain (codes "b" ∷ codes "main_loop" ∷ []) ≡ true
unfolding is_plain is_full find_name text_eq
b_plain = refl

sets : main_round disk_env (typed (codes "b main_loop\n")) ≡ done tt two_traps
unfolding main_round get_command read_line take_line until split_loop word_end add_word isspace put
    play_command choose names_word starts_with run_chosen run_fun command_break break_index
    add_breakpoint fill_last store_last find_func insert_int3_bp
sets = refl

main_round-Means_example :
    (h : IsSession machine_mem machine_mapped code text two_traps) × Means funs
      (codes "b")
      (codes "main_loop" ∷ [])
      (broken one_bp)
      (broken h.table)
    × ((a : ℕ)
        → code a ≡ true
        → machine_mem two_traps.os two_traps.dbug.pid a ≡ overlay (broken h.table) text a)
unfolding typed-IsSession
main_round-Means_example =
    main_round-Means disk_env machine-IsMemory machine-IsStill room-IsRoomyBps room-IsRoomy []
      (typed (codes "b main_loop\n")) two_traps (codes "b") (codes "main_loop" ∷ [])
      (typed-IsSession (codes "b main_loop\n")) tt b_line b_plain sets
