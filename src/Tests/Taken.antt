-- ===== src/Tests/Taken.antt =====
-- A session with no breakpoints that goes on with another process.
use test_dbug.Common.{
  false, ℕ, zero, suc, ◌<◌, ◌≡◌, refl, arith, [], ◌∷◌, none, some, inl, codes, get_elem?, true,
  text_eq, until, isspace, if◌then◌else◌, starts_with, le_bytes, le_word, sscanf_lx, scan_signed,
  scan_unsigned, skip_spaces, hex_digit, hex_digits, is_hex,
}
use test_dbug.Machine.{Machine, machine_mem, machine_mapped, machine-IsMemory}
use test_dbug.Elf.Image.{field_at, string_at, ehdr_at, shdr_at, sym_at}
use test_dbug.Elf.File.{fread, read_chunks, get_file_size, get_file_word, buffer_room, load_word}
use test_dbug.Elf.Section.{section_name, find_section, get_section_addr}
use test_dbug.Elf.Functions.{FuncOrg, is_func, store, func_of, pick_funcs, get_all_func}
use test_dbug.Output.{prompt, error_line}
use test_dbug.Dbug.Start.{attach_pro}
use test_dbug.Command.Kept.Refused.{Refuses, no_attach}
use test_dbug.Command.Handlers.{command_showbps, command_attach, bp_lines}
use test_dbug.Elf.Maps.{
  Files, dec_digits, proc_path, read_exe, split_fields, assign_fields, fits_buffers, is_base_line,
  base_of, fgets_lines, check_line, scan_maps, get_pid_base,
}
use test_dbug.Elf.Open.{symbol_count, blank, blank_funs, section_of, parse_funs, open_funs}
use test_dbug.Session.{Str, Arr, put, Env, World, done}
use test_dbug.Command.Read.{take_line, read_line, word_end, add_word, split_loop, get_command}
use test_dbug.Command.Read.Words.{words}
use test_dbug.Command.Play.{
  cmd_attach, cmd_showbps, cmd_set, names_word, choose, run_chosen, run_fun, play_command,
  main_round,
}
use test_dbug.Command.Play.Dispatch.{find_name}
use test_dbug.Command.Kept.{IsSession}
use test_dbug.Command.Kept.Main.{TakesOn, by_attach, first_round-IsSession}
use test_dbug.Command.Kept.Rounds.{
  words_left, IsOrdinary, start, round, refused, taken, Reaches-IsSession,
}
use test_dbug.Tests.System.{
  env, no_bps, funs, fresh, code, text, words_of, session, room-IsRoomy, room-IsRoomyBps,
  machine-IsStill, fresh-IsArmed,
}
use test_dbug.Tests.Tables.{funs-HasNames}
use test_dbug.Tests.Programs.{image, table}
use test_dbug.Tests.Rounds.{funs_in_code, ordinary_lem}
use test_dbug.Command.Handlers.{atoi, dec_value}

-- The program that every process runs is the small file.
abbrev disk : Files
disk = record {
  link = λ path. some (codes "/x");
  fails = λ path. false;
  content = λ path. if text_eq path (codes "/x") then some image else some [];
}

abbrev pub disk_env : Env Machine
disk_env = let e = env in record e { files = λ s. disk }

pub opens : (pid : ℕ) → open_funs disk pid ≡ some (some table)
unfolding open_funs parse_funs section_of symbol_count load_word get_file_size buffer_room
    blank_funs blank get_all_func pick_funcs func_of is_func store sym_at ehdr_at get_file_word
    read_chunks fread get_section_addr find_section section_name shdr_at field_at string_at le_bytes
    le_word until get_pid_base proc_path dec_digits read_exe scan_maps check_line fgets_lines
    split_fields assign_fields fits_buffers is_base_line base_of text_eq starts_with sscanf_lx
    scan_signed scan_unsigned skip_spaces isspace hex_digit hex_digits is_hex
opens pid = refl

abbrev no_words : Arr Str
no_words = words_of 0 [] [] []

-- In front of three lines; the first asks for a process that is not there.
abbrev at_first : World Machine
at_first = session fresh no_bps no_words (codes "attach 0\nshowbps\nattach 7\n")

at_first-IsSession : IsSession machine_mem machine_mapped code text at_first
at_first-IsSession = record {
  table = no_bps;
  funs = funs;
  words = no_words;
  is_table = refl;
  is_funs = refl;
  is_words = refl;
  names = funs-HasNames;
  places = funs_in_code;
  reach = λ a c. (ground arith, ground arith);
  armed = fresh-IsArmed;
}

abbrev attach_words : Arr Str
attach_words =
    let name = put (words_of 1 [] [] []) 0 (record { len = 6; chars = some (codes "attach") }) in
    put (record name { nelts = 2 }) 1 (record { len = 1; chars = some (codes "0") })

-- In front of the second line.
abbrev before : World Machine
before =
    let w = session fresh no_bps attach_words (codes "showbps\nattach 7\n") in
    record w { out = prompt ∷ error_line (codes "ATTACH err") ∷ [] }

refuses : main_round disk_env at_first ≡ done tt before
unfolding main_round get_command read_line take_line until split_loop word_end add_word isspace put
    play_command choose names_word starts_with run_chosen run_fun command_attach attach_pro atoi
    dec_value skip_spaces
refuses = refl

first_line :
    words none (until 0 (take_line 49 (at_first.input)).0).0 ≡ codes "attach" ∷ codes "0" ∷ []
unfolding words until take_line isspace
first_line = refl

is_0 : atoi (codes "0") ≡ 0
unfolding atoi dec_value skip_spaces isspace
is_0 = refl

abbrev showbps_words : Arr Str
showbps_words =
    put (record attach_words { nelts = 1 }) 0 (record { len = 7; chars = some (codes "showbps") })

showbps_left : words_left (get_command disk_env before) ≡ some showbps_words
unfolding get_command read_line take_line until split_loop word_end add_word isspace
showbps_left = refl

chosen : choose (showbps_words.elts 0) cmd_set ≡ some (some cmd_showbps)
unfolding choose names_word starts_with put
chosen = refl

-- In front of the third line.
abbrev between : World Machine
between =
    let w = session fresh no_bps showbps_words (codes "attach 7\n") in
    record w { out = prompt ∷ error_line (codes "ATTACH err") ∷ prompt ∷ [] }

shows : main_round disk_env before ≡ done tt between
unfolding main_round get_command read_line take_line until split_loop word_end add_word isspace put
    play_command choose names_word starts_with run_chosen run_fun command_showbps bp_lines
shows = refl

before-IsOrdinary : IsOrdinary disk_env before
unfolding put
before-IsOrdinary =
    ordinary_lem disk_env before showbps_words (codes "showbps") cmd_showbps showbps_left refl
      chosen tt

attach_line :
    words none (until 0 (take_line 49 (codes "attach 7\n")).0).0 ≡ codes "attach" ∷ codes "7" ∷ []
unfolding words until take_line isspace
attach_line = refl

pub table_in_code :
    (j : ℕ) (f : FuncOrg) → j < 1 → get_elem? table.items j ≡ some f → code f.addr ≡ true
table_in_code zero f below e = ground arith
table_in_code (suc j) f below e = absurd (omega arith)

attaches : find_name (codes "attach") cmd_set ≡ some cmd_attach
unfolding find_name text_eq
attaches = refl

is_7 : atoi (codes "7") ≡ 7
unfolding atoi dec_value skip_spaces isspace
is_7 = refl

attach_TakesOn :
    TakesOn disk_env machine_mem machine_mapped code table fresh 0
      (codes "attach")
      (codes "7" ∷ [])
      7
attach_TakesOn =
    by_attach (codes "7") [] attaches refl is_7
      (λ s same. (refl, (refl, opens 7, table_in_code, λ c in_c. (ground arith, ground arith))))

at_first-Refuses :
    Refuses disk_env machine_mem machine_mapped code 7 fresh 0 (codes "attach") (codes "0" ∷ [])
at_first-Refuses =
    no_attach (codes "0") [] attaches refl
      (λ s same. rw is_0 (inl (refl, (λ a c. refl, λ a. refl))))

-- What the round on the last line does.
behind_attach :
    (w : World Machine) × (main_round disk_env between ≡ done tt w)
    × IsSession machine_mem machine_mapped code (machine_mem w.os 7) w
behind_attach =
    first_round-IsSession disk_env code room-IsRoomy between no_bps showbps_words (codes "attach")
      (codes "7" ∷ []) table 7 refl refl refl attach_line attach_TakesOn

Reaches-IsSession_example :
    IsSession machine_mem machine_mapped code (machine_mem (behind_attach.0.os) 7) (behind_attach.0)
Reaches-IsSession_example =
    Reaches-IsSession disk_env machine-IsMemory machine-IsStill room-IsRoomyBps room-IsRoomy
      at_first-IsSession
      (taken
        (round (refused start (codes "attach") (codes "0" ∷ []) first_line at_first-Refuses refuses)
          before-IsOrdinary shows)
        no_bps (codes "attach") (codes "7" ∷ []) table 7 refl refl attach_line attach_TakesOn
        (behind_attach.1))
