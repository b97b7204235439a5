-- ===== src/Tests/Breakpoints.antt =====
-- Breakpoints of the session of Tests/System.antt.
use test_dbug.Common.{◌≡◌, refl, arith, [], some, pos, codes}
use test_dbug.Machine.{Machine, machine, machine_mem, machine_mapped, machine-IsMemory}
use test_dbug.Session.{Breakpoint, World, done}
use test_dbug.Dbug.{is_sf, hwbp, find_current_sf_bp, insert_hard_break, resume_int3_bp_next}
use test_dbug.Dbug.Find.{hits, trap_addr, IsFound, find_current_sf_bp-IsFound}
use test_dbug.Dbug.Resume.{Stepped, resume_int3_bp_next-Stepped}
use test_dbug.Dbug.Watch.{insert_hard_break_twice}
use test_dbug.Tests.System.{
  env, fresh, trapped, bp_100, blank_bp, one_bp, no_bps, regs_at, words_of, session, machine_dr,
  machine-IsDebugRegs,
}

abbrev at_trap : World Machine
at_trap = session trapped one_bp (words_of 1 (codes "c") [] []) []

abbrev at_start : World Machine
at_start = session fresh no_bps (words_of 2 (codes "b") (codes "main") []) []

-- A breakpoint of hardware at 100.
abbrev watch_100 : Breakpoint
watch_100 = let b = bp_100 in record b { type = 2 }

find_current_sf_bp-IsFound_example :
    IsFound
      (λ j. hits is_sf (trap_addr (regs_at 101)) (one_bp.elts j))
      1
      (find_current_sf_bp one_bp (regs_at 101))
find_current_sf_bp-IsFound_example = find_current_sf_bp-IsFound one_bp (regs_at 101)

resume_int3_bp_next-Stepped_example :
    (before : Machine) × (after : Machine) × (resume_int3_bp_next env 7
        (some bp_100)
        (regs_at 101)
        at_trap
      ≡ done (pos 0, regs_at 100) (let w = at_trap in record w { os = after }))
    × Stepped machine machine_mem machine_mapped 7 bp_100 (regs_at 101) trapped before after
resume_int3_bp_next-Stepped_example =
    resume_int3_bp_next-Stepped env machine-IsMemory (λ s p r a. refl) 7 bp_100 (regs_at 101)
      at_trap refl (omega arith) refl

insert_hard_break_twice_example :
    (s' s'' : Machine) × (insert_hard_break env 7 bp_100 at_start
      ≡ done (pos 0, watch_100) (let w = at_start in record w { os = s' }))
    × (insert_hard_break env 7 blank_bp (let w = at_start in record w { os = s' })
        ≡ done
            (pos 0, let b = blank_bp in record b { type = hwbp })
            (let w = at_start in record w { os = s'' }))
    × (machine_dr s'' 7 0 ≡ 0)
    × (machine_dr s'' 7 7 ≡ 3)
    × ((machine_dr s'' 7 1 ≡ 0) × (machine_dr s'' 7 2 ≡ 0) × (machine_dr s'' 7 3 ≡ 0))
insert_hard_break_twice_example =
    insert_hard_break_twice env machine-IsDebugRegs 7 bp_100 blank_bp at_start (λ s n v. refl)
