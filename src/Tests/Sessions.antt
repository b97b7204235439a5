-- ===== src/Tests/Sessions.antt =====
-- Processes that are started and attached to, and a watch.
use test_dbug.Common.{
  text_eq, ℕ, Bool, ◌+◌, ◌<◌, ◌≡◌, refl, [], ◌∷◌, some, pos, codes, sscanf_lx, scan_signed,
  scan_unsigned, skip_spaces, isspace, starts_with, hex_digit, hex_digits, is_hex,
}
use test_dbug.Output.{watch_at}
use test_dbug.Machine.{Machine, machine_mem}
use test_dbug.Command.Kept.Main.{IsFresh}
use test_dbug.Command.Play.{cmd_dbug, cmd_set}
use test_dbug.Command.Play.Dispatch.{find_name}
use test_dbug.Kernel.{Pid, SameTracee-refl}
use test_dbug.Session.{Arr, Breakpoint, Env, World, done}
use test_dbug.Dbug.{hwbp}
use test_dbug.Command.Handlers.{command_watch}
use test_dbug.Command.Handlers.Watch.{command_watch_lem}
use test_dbug.Tests.System.{
  env, room, fresh, no_bps, words_of, session, machine_dr, machine-IsDebugRegs, room-IsRoomyBps,
}
use test_dbug.Tests.Tables.{disk}

abbrev at_start : World Machine
at_start = session fresh no_bps (words_of 2 (codes "watch") (codes "0x1f") []) []

-- The machine with the files of Tests/Tables.antt.
abbrev disk_env : Env Machine
disk_env = let e = env in record e { files = λ s. disk }

scans : sscanf_lx (codes "0x1f") ≡ some 0x1f
unfolding sscanf_lx scan_signed scan_unsigned skip_spaces isspace starts_with hex_digit hex_digits
    is_hex
scans = refl

command_watch_lem_example :
    (b : Arr Breakpoint) × (s' : Machine) × (let w = at_start in
      let d = w.dbug in
      command_watch env (words_of 2 (codes "watch") (codes "0x1f") []) at_start
      ≡ done
          (pos 0)
          (record w { os = s'; dbug = record d { bps = some b }; out = watch_at 0x1f ∷ [] }))
    × (b.nelts ≡ 0 + 1)
    × ((i : ℕ) → i < 0 → b.elts i ≡ no_bps.elts i)
    × ((b.elts 0).addr ≡ 0x1f)
    × ((b.elts 0).type ≡ hwbp)
    × (machine_dr s' 7 0 ≡ 0x1f)
    × (machine_dr s' 7 7 ≡ 3)
command_watch_lem_example =
    command_watch_lem env machine-IsDebugRegs room-IsRoomyBps
      (words_of 2 (codes "watch") (codes "0x1f") []) at_start no_bps (codes "0x1f") 0x1f refl refl
      scans (λ s n v. refl)

pub room-IsFresh : {mapped : Machine → Pid → ℕ → Bool} → IsFresh room machine_mem mapped
room-IsFresh = record {
  pool = λ s n. (1, s, refl, SameTracee-refl s);
  bps = λ s p n. (no_bps, s, refl, refl, SameTracee-refl s);
  cmd = λ s p n. (_, s, refl, SameTracee-refl s);
}

pub starts : find_name (codes "dbug") cmd_set ≡ some cmd_dbug
unfolding find_name text_eq
starts = refl
