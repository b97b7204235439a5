-- ===== src/Tests/Rounds.antt =====
-- Rounds of the loop of `main` in the sessions of Tests/System.antt.
use test_dbug.Common.{
  ℕ, zero, suc, ◌≤◌, ◌<◌, ◌^◌, ◌≡◌, refl, sym, ap, subst, ◌∙◌, arith, true, List, [], ◌∷◌, ◌++◌,
  Option, none, some, pos, codes, get_elem?, Text, text_eq, starts_with, until, isspace,
}
use test_dbug.Kernel.{SameTracee}
use test_dbug.Machine.{Machine, machine, machine_mem, machine_mapped, next_trap, patch}
use test_dbug.Elf.Functions.{FuncOrg}
use test_dbug.Session.{Str, Arr, put, Env, World, Outcome, done, exited, replaced, unread, fault}
use test_dbug.Dbug.{find_current_sf_bp, find_current_hw_bp, sf_loop, hw_loop, resume_int3_bp_next}
use test_dbug.Command.Read.{take_line, read_line, word_end, add_word, split_loop, get_command}
use test_dbug.Command.Read.Words.{words}
use test_dbug.Command.Read.Slots.{Holds}
use test_dbug.Command.Read.Bounds.{copied, get_command-bounds}
use test_dbug.Command.Handlers.{command_continue, on_stop, on_trap, sf_index, hw_index}
use test_dbug.Command.Play.{
  CommandFun, cmd_continue, cmd_show, cmd_exit, cmd_set, names_word, choose, run_chosen, run_fun,
  play_command, main_round, main_rounds,
}
use test_dbug.Command.Play.Dispatch.{HasText, find_name}
use test_dbug.Command.Play.Ends.{main_rounds-exited}
use test_dbug.Command.Kept.{IsSession}
use test_dbug.Command.Kept.Rounds.{Suits, words_left, IsOrdinary, AreOrdinary}
use test_dbug.Tests.System.{
  env, trapped, one_bp, funs, code, text, words_of, session, room-IsRoomy, trapped-IsArmed,
}
use test_dbug.Tests.Tables.{funs-HasNames}

pub funs_in_code :
    (j : ℕ) (f : FuncOrg) → j < 2 → get_elem? funs.items j ≡ some f → code f.addr ≡ true
funs_in_code zero f below e = ground arith
funs_in_code (suc zero) f below e = ground arith
funs_in_code (suc (suc j)) f below e = absurd (omega arith)

pub code_reach : (a : ℕ) → code a ≡ true → (a < 2 ^ 64) × (machine_mapped trapped 7 a ≡ true)
code_reach a c = (ground arith, ground arith)

-- A session with one breakpoint, in front of a line.
abbrev pub typed : Text → World Machine
typed line = session trapped one_bp (words_of 0 [] [] []) line

unfoldable pub typed-IsSession :
    (line : Text) → IsSession machine_mem machine_mapped code text (typed line)
typed-IsSession line = record {
  table = one_bp;
  funs = funs;
  words = words_of 0 [] [] [];
  is_table = refl;
  is_funs = refl;
  is_words = refl;
  names = funs-HasNames;
  places = funs_in_code;
  reach = code_reach;
  armed = trapped-IsArmed;
}

-- The array with the one word `c`, which was put in element 0.
abbrev c_words : Arr Str
c_words = put (words_of 1 [] [] []) 0 (record { len = 1; chars = some (codes "c") })

chosen : choose (c_words.elts 0) cmd_set ≡ some (some cmd_continue)
unfolding choose names_word starts_with put
chosen = refl

-- What a search that found a function asks of the words.
abbrev SuitsFound : Option (Option CommandFun) → Arr Str → Type 0
SuitsFound none cmds = Unit
SuitsFound (some none) cmds = Unit
SuitsFound (some (some fun)) cmds = Suits fun cmds

the_words : Option (Arr Str) → Arr Str
the_words none = c_words
the_words (some b) = b

-- A line is ordinary where the words that it leaves name a function that they suit.
pub ordinary_lem :
    (e : Env Machine) (w : World Machine) (b : Arr Str) (word : Text) (fun : CommandFun)
    → words_left (get_command e w) ≡ some b
    → (b.elts 0).chars ≡ some word
    → choose (b.elts 0) cmd_set ≡ some (some fun)
    → Suits fun b
    → IsOrdinary e w
unfolding the_words
ordinary_lem e w b word fun leaves is_word names suits c is_c =
    subst
      (λ (b : Arr Str).
        HasText (b.elts 0)
        × ((fun : CommandFun) → choose (b.elts 0) cmd_set ≡ some (some fun) → Suits fun b))
      (ap the_words (sym leaves ∙ is_c))
      ((word, is_word), λ other is. subst (λ f. SuitsFound f b) (sym names ∙ is) suits)

typed-IsOrdinary :
    (more : Text)
    → words_left (get_command env (typed (codes "c\n" ++ more))) ≡ some c_words
    → IsOrdinary env (typed (codes "c\n" ++ more))
unfolding put
typed-IsOrdinary more leaves =
    ordinary_lem env (typed (codes "c\n" ++ more)) c_words (codes "c") cmd_continue leaves refl
      chosen tt

-- The world behind a call that returns.
abbrev pub behind : Outcome Machine (Unit {0}) → World Machine
behind (done a w) = w
behind (exited n w) = w
behind (replaced w) = w
behind (unread w) = w
behind fault = typed []

-- The two lines that the loop reads.
abbrev c_show : World Machine
c_show = typed (codes "c\nshow\n")

abbrev stopped_again : World Machine
stopped_again = behind (main_round env c_show)

c_left : words_left (get_command env c_show) ≡ some c_words
unfolding get_command read_line take_line until split_loop word_end add_word isspace
c_left = refl

continues : main_round env c_show ≡ done tt stopped_again
unfolding main_round get_command read_line take_line until split_loop word_end add_word isspace put
    play_command choose names_word starts_with run_chosen run_fun command_continue on_stop on_trap
    sf_index hw_index find_current_sf_bp find_current_hw_bp sf_loop hw_loop resume_int3_bp_next
    next_trap patch
continues = refl

abbrev show_words : Arr Str
show_words = put c_words 0 (record { len = 4; chars = some (codes "show") })

show_left : words_left (get_command env stopped_again) ≡ some show_words
unfolding main_round get_command read_line take_line until split_loop word_end add_word isspace put
    play_command choose names_word starts_with run_chosen run_fun command_continue on_stop on_trap
    sf_index hw_index find_current_sf_bp find_current_hw_bp sf_loop hw_loop resume_int3_bp_next
    next_trap patch
show_left = refl

shows : choose (show_words.elts 0) cmd_set ≡ some (some cmd_show)
unfolding choose names_word starts_with put
shows = refl

stopped_again-IsOrdinary : IsOrdinary env stopped_again
unfolding put
stopped_again-IsOrdinary =
    ordinary_lem env stopped_again show_words (codes "show") cmd_show show_left refl shows tt

c_show-AreOrdinary : AreOrdinary env 2 c_show
c_show-AreOrdinary = (
  typed-IsOrdinary (codes "show\n") c_left,
  λ v e.
      subst (λ v. AreOrdinary env 1 v) (ap behind (sym continues ∙ e))
        (stopped_again-IsOrdinary, λ u e'. tt),
)

quits : find_name (codes "q") cmd_set ≡ some cmd_exit
unfolding find_name text_eq
quits = refl

q_line : words none (until 0 (take_line 49 (codes "q\n")).0).0 ≡ codes "q" ∷ []
unfolding words until take_line isspace
q_line = refl

main_rounds-exited_example :
    (w' : World Machine) × (s : Machine) × (main_rounds env 4 (typed (codes "q\n")) ≡ exited 0 w')
    × SameTracee machine_mem machine_mapped trapped s
    × (w'.os ≡ machine.kill s 7)
    × (w'.input ≡ (take_line 49 (codes "q\n")).1)
main_rounds-exited_example =
    main_rounds-exited env room-IsRoomy 3 (typed (codes "q\n")) (words_of 0 [] [] []) (codes "q") []
      refl q_line quits

get_command-bounds_example :
    (b : Arr Str) × (w' : World Machine) × (ws : List Text) × (get_command env
        (typed (codes "b main\n"))
      ≡ done (pos 0) w')
    × (w'.dbug.cmd ≡ some b)
    × Holds b 0 ws
    × (copied ws ≤ 49)
    × (b.nelts ≤ 49)
    × ((i : ℕ) → i < b.nelts → (b.elts i).len ≤ 48)
get_command-bounds_example =
    get_command-bounds env (room-IsRoomy {mapped = machine_mapped}) (typed (codes "b main\n"))
      (words_of 0 [] [] []) refl
