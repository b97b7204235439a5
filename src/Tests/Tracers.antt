-- ===== src/Tests/Tracers.antt =====
-- The tracers of blog/ on the machine.
use test_dbug.Common.{
  ℕ, ◌≡◌, ◌≢◌, refl, arith, false, [], ◌∷◌, Option, none, some, Text, codes, ◌==◌, if◌then◌else◌,
}
use test_dbug.Output.{stop_at}
use test_dbug.Mem.Write.{Wrote}
use test_dbug.Dbug.{int_3}
use test_dbug.Machine.{Machine, machine, machine_mem, machine_mapped, machine-IsMemory}
use test_dbug.Blog.{Step, state_of}
use test_dbug.Blog.Break.{Tracer, go_on, one_step, break_stop}
use test_dbug.Blog.Break.Traps.{IsTrapped, break_stop-Wrote}
use test_dbug.Blog.Child.{in_parent}
use test_dbug.Blog.Calls.{Calls, getsyscall_program, dbug_program}
use test_dbug.Blog.Calls.Programs.{Prints, word_text, programs-Prints}
use test_dbug.Blog.Soft.{softbreak_program}
use test_dbug.Blog.Soft.Programs.{softbreak_program-IsTrapped}
use test_dbug.Tests.System.{fresh, trapped, code, text, regs_at, machine-IsStill}

abbrev at_start : Tracer Machine
at_start = record { os = fresh; status = 0x57f; regs = regs_at 0; out = [] }

-- The stop one byte behind the trap at 100.
abbrev at_trap : Tracer Machine
at_trap = record {
  os = let s = trapped in record s { regs = regs_at 101 };
  status = 0x57f;
  regs = regs_at 0;
  out = [];
}

at_trap-IsTrapped : IsTrapped machine_mem machine_mapped code text 7 100 at_trap.os
at_trap-IsTrapped = record { can_access = refl; trap = refl; rest = λ a c other. ground arith }

break_stop-Wrote_example :
    (before after : Machine) × (break_stop machine 7 100 0x90 at_trap
      ≡ go_on machine 7
          (record { os = after; status = 0x57f; regs = regs_at 100; out = stop_at 101 ∷ [] }))
    × (machine_mem before 7 100 ≡ 0x90)
    × ((a : ℕ) → a ≢ 100 → machine_mem before 7 a ≡ machine_mem at_trap.os 7 a)
    × Wrote machine_mem machine_mapped 7 100
        (int_3 ∷ [])
        (one_step machine 7 (regs_at 100) before)
        after
break_stop-Wrote_example =
    break_stop-Wrote machine machine-IsMemory machine-IsStill text 7 100 (omega arith) refl 0x90
      (omega arith) at_trap at_trap-IsTrapped refl refl

-- A process that stands at calls of `write`.
abbrev writing : Machine
writing =
    let s = fresh in
    let r = regs_at 90 in record s { regs = record r { orig_rax = 1; rdi = 1; rsi = 64; rdx = 8 } }

abbrev forked_writing : Machine
forked_writing = (machine.fork writing).1

-- The tracer has a text at 64, and nothing anywhere else.
abbrev own_texts : ℕ → Option Text
own_texts a = if a == 64 then some (codes "hi") else none

programs-Prints_example :
    (let c : Calls = record { iscalling = false; arg1 = 0; arg2 = 0; arg3 = 0 } in
      Prints machine 7
        (λ s a. own_texts a)
        4
        (regs_at 0)
        forked_writing
        0x57f
        (getsyscall_program machine own_texts (regs_at 0) c 4 writing)
      × Prints machine 7
          (word_text machine 7)
          4
          (regs_at 0)
          forked_writing
          0x57f
          (dbug_program machine (regs_at 0) c 4 writing))
programs-Prints_example =
    programs-Prints machine (regs_at 0) (record { iscalling = false; arg1 = 0; arg2 = 0; arg3 = 0 })
      4 6 writing refl refl refl refl own_texts

softbreak_program-IsTrapped_example :
    (step : Step (Tracer Machine)) × (softbreak_program machine 100 (regs_at 0) 3 fresh
      ≡ in_parent step)
    × IsTrapped machine_mem machine_mapped code text 7 100 (state_of step).os
softbreak_program-IsTrapped_example =
    softbreak_program-IsTrapped machine machine-IsMemory machine-IsStill text 6 100 (omega arith)
      (λ a above below. ground arith) (regs_at 0) 3 fresh refl refl refl refl (λ a c. refl)
