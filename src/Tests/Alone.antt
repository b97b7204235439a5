-- ===== src/Tests/Alone.antt =====
-- The program under the debugger against the program alone, on the small machine.
use test_dbug.Common.{
  ℕ, zero, suc, ◌+◌, ◌-◌, ◌<◌, ◌≡◌, ◌≢◌, refl, sym, ap, subst, ◌∙◌, arith, Bool, true, false, inl,
  inr, pos, codes, [], ◌⊎◌, ltb, ◌==◌, ◌&&◌, Bool-cases, if◌then◌else◌,
}
use native.Mathlib.Decide.{ℕ_discrete}
use test_dbug.Kernel.{Pid, Regs}
use test_dbug.Machine.{
  Machine, machine, machine_mem, machine_mapped, machine-IsMemory, limit, next_trap, patch, stop_at,
}
use test_dbug.Session.{Str, Arr, World, done}
use test_dbug.Dbug.{
  int_3, wstopsig, sigtrap, sf_loop, hw_loop, find_current_sf_bp, find_current_hw_bp,
  resume_int3_bp_next,
}
use test_dbug.Dbug.Find.{trap_addr}
use test_dbug.Command.Handlers.{sf_index, hw_index, on_trap, on_stop, command_continue}
use test_dbug.Command.Handlers.Continue.{after_wait}
use test_dbug.Command.Kept.{IsSession}
use test_dbug.Command.Kept.Plain.{and_parts}
use test_dbug.Command.Kept.View.{broken, any_below}
use test_dbug.Command.Kept.Rounds.{world_after}
use test_dbug.Command.Kept.Passes.{count, none_yet, one_more, Passes-alone}
use test_dbug.Command.Kept.Cpu.{after, IsCpu}
use test_dbug.Command.Kept.Alone.{command_continue-Arrives}
use test_dbug.Tests.System.{env, code, text, one_bp, words_of, machine-IsStill}
use test_dbug.Tests.Rounds.{typed, typed-IsSession}

-- An instruction is one byte, and takes the next address.
abbrev machine_state : Machine → Pid → Regs
machine_state s p = s.regs

abbrev machine_pc : Regs → ℕ
machine_pc r = r.rip

abbrev machine_reads : Regs → ℕ → Bool
machine_reads r a = code a && (a == r.rip)

abbrev machine_exec : (ℕ → ℕ) → Regs → Regs
machine_exec f r = record r { rip = r.rip + 1 }

after-rip : (f : ℕ → ℕ) (n : ℕ) (r : Regs) → after machine_exec f n r ≡ record r { rip = r.rip + n }
unfolding after
after-rip f zero r = ap (λ a. record r { rip = a }) (omega arith)
after-rip f (suc n) r =
    ap (machine_exec f) (after-rip f n r) ∙ ap (λ a. record r { rip = a }) (omega arith)

next_trap-first :
    (f : ℕ → ℕ) (n a : ℕ)
    → (j : ℕ) × (next_trap f a n ≡ a + j) × ((i : ℕ) → i < j → f (a + i) ≢ int_3)
unfolding next_trap
next_trap-first f zero a = (0, omega arith, λ i below. absurd (omega arith))
next_trap-first f (suc n) a = elim (Bool-cases (f a == 0xcc)) [
  | inl here ↦ (0, rw here (omega arith), λ i below. absurd (omega arith))
  | inr other ↦
      let (j, is, free) = next_trap-first f n (a + 1) in
      (
        j + 1,
        rw other (is ∙ omega arith),
        λ i below. elim (ℕ_discrete i 0) [
          | yes first ↦ ground arith
          | no later ↦
              let i_is : a + 1 + (i - 1) ≡ a + i = omega arith in
              subst (λ c. f c ≢ int_3) i_is (free (i - 1) (omega arith))
        ],
      )
]

-- A stop by SIGTRAP is one at a trap of the memory.
stop_at-trap : (f : ℕ → ℕ) (t : ℕ) → wstopsig (stop_at f t) ≡ sigtrap → (t < limit) × (f t ≡ int_3)
stop_at-trap f t trapped = elim (Bool-cases (ltb t limit && (f t == 0xcc))) [
  | inl both ↦
      let (below, is) = and_parts (ltb t limit) (f t == 0xcc) both in (ground arith, ground arith)
  | inr other ↦
      let clash : wstopsig 0x137f ≡ sigtrap =
        ap (λ (b : Bool). wstopsig (if b then 0x57f else 0x137f)) (sym other) ∙ trapped in
      absurd (omega (arith, clash))
]

machine-IsCpu : IsCpu machine machine_mem code machine_state machine_pc machine_reads machine_exec
machine-IsCpu = record {
  in_code = λ q a read. (and_parts (code a) (a == q.rip) read).0;
  local = λ f g q same. refl;
  poke = λ s p a word same. elim (Bool-cases (ltb a limit)) [
    | inl ok ↦ rw ok refl
    | inr bad ↦ rw bad refl
  ];
  setregs = λ s t p r same. refl;
  singlestep = λ s p. refl;
  cont = λ s p old r stands trapped.
      let f = machine_mem s p in
      let (j, is, free) = next_trap-first f 64 s.regs.rip in
      let (below, here) = stop_at-trap f (next_trap f s.regs.rip 64) trapped in
      let at : (i : ℕ) → machine_pc (after machine_exec f i s.regs) ≡ s.regs.rip + i =
        λ i. ap machine_pc (after-rip f i s.regs) in
      (
        j,
        (
          λ i less trap. free i less (ap f (sym (at i)) ∙ trap),
          ap f (at j ∙ sym is) ∙ here,
          omega (arith, at j, is, below),
          ap (λ a. let q = s.regs in record q { rip = a }) (at j) ∙ sym (after-rip f j s.regs),
        ),
      );
}

-- In front of a breakpoint at 100, with the instruction pointer at 90.
abbrev at_90 : World Machine
at_90 = typed (codes "c\n")

abbrev no_words : Arr Str
no_words = words_of 0 [] [] []

abbrev there : ℕ → Regs
there n = after machine_exec text n at_90.os.regs

command_continue-Arrives_example :
    (n : ℕ) × (w' : World Machine) × (command_continue env no_words at_90 ≡ done (pos 0) w')
    × (h' : IsSession machine_mem machine_mapped code text w') × (h'.table ≡ one_bp)
    × (w'.dbug.pid ≡ 7)
    × ((i : ℕ) → i < n → broken one_bp (there i).rip ≡ false)
    × (trap_addr (after_wait env at_90).1.regs ≡ (there n).rip)
    × (((broken one_bp (there n).rip ≡ true) × (w'.os.regs ≡ there (suc n)))
        ⊎ ((broken one_bp (there n).rip ≡ false)
            × (w'.os ≡ (after_wait env at_90).1)
            × (code (there n).rip ≡ true → text (there n).rip ≡ int_3)))
unfolding typed-IsSession next_trap
command_continue-Arrives_example =
    command_continue-Arrives env machine-IsMemory machine-IsStill machine_state machine_pc
      machine_reads machine_exec machine-IsCpu at_90 (typed-IsSession (codes "c\n")) no_words
      (λ i a read behind. absurd (behind (ground arith))) refl refl

abbrev passed : World Machine
passed = world_after at_90 (command_continue env no_words at_90)

continues : command_continue env no_words at_90 ≡ done (pos 0) passed
unfolding command_continue on_stop on_trap sf_index hw_index find_current_sf_bp find_current_hw_bp
    sf_loop hw_loop resume_int3_bp_next next_trap patch
continues = refl

Passes-alone_example :
    (n : ℕ) × (h' : IsSession machine_mem machine_mapped code text passed) × (h'.table ≡ one_bp)
    × (passed.dbug.pid ≡ 7)
    × (passed.os.regs ≡ there n)
    × (count (λ i. broken one_bp (there i).rip) n ≡ 1)
unfolding typed-IsSession next_trap any_below
Passes-alone_example =
    Passes-alone env machine-IsMemory machine-IsStill machine_state machine_pc machine_reads
      machine_exec machine-IsCpu at_90 (typed-IsSession (codes "c\n")) no_words
      (λ i a read behind. absurd (behind (ground arith)))
      (one_more none_yet refl refl refl continues)
