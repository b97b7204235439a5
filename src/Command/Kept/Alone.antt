-- ===== src/Command/Kept/Alone.antt =====
-- The program under the debugger against the program alone.
use test_dbug.Common.{
  ℕ, zero, suc, ◌<◌, ◌≤◌, ◌≡◌, ◌≢◌, refl, sym, ap, subst, ◌∙◌, arith, Bool, true, false, ◌⊎◌, inl,
  inr, pos, Bool-cases, if◌then◌else◌,
}
use native.Mathlib.Decide.{ℕ_discrete}
use test_dbug.Kernel.{Pid, Regs, IsMemory}
use test_dbug.Session.{Breakpoint, Str, Arr, Env, World, done}
use test_dbug.Dbug.{int_3, wifexited, wstopsig, sigtrap}
use test_dbug.Dbug.Find.{trap_addr}
use test_dbug.Dbug.Resume.{stepped}
use test_dbug.Command.Handlers.{command_continue}
use test_dbug.Command.Handlers.Armed.{IsStill, Wrote-there}
use test_dbug.Command.Handlers.Trap.{RunsOwn}
use test_dbug.Command.Handlers.Continue.{after_wait, woken-mem, command_continue-Ran}
use test_dbug.Command.Kept.{IsSession, IsSession-run}
use test_dbug.Command.Kept.Stop.{IsSession-AreMapped}
use test_dbug.Command.Kept.View.{broken, any_below-true, hit_parts, IsSession-overlay}
use test_dbug.Command.Kept.Cpu.{after, IsCpu, any_below-hit, any_below-none}

module _ {S P : Type 0} (env : Env S) {mem : S → Pid → ℕ → ℕ} {mapped : S → Pid → ℕ → Bool}
    {code : ℕ → Bool} {text : ℕ → ℕ} (m : IsMemory env.kernel mem mapped)
    (still : IsStill env.kernel mem mapped code) (state : S → Pid → P) (pc : P → ℕ)
    (reads : P → ℕ → Bool) (exec : (ℕ → ℕ) → P → P)
    (cpu : IsCpu env.kernel mem code state pc reads exec) (w : World S)
    (h : IsSession mem mapped code text w) where
  -- The program alone, `n` instructions from here.
  abbrev pub alone : ℕ → P
  alone n = after exec text n (state w.os w.dbug.pid)

  -- No instruction that the program alone comes to has a breakpoint behind its first byte.
  abbrev pub IsAligned : Type 0
  IsAligned = (i a : ℕ) → reads (alone i) a ≡ true → a ≢ pc (alone i) → broken h.table a ≡ false

  broken-trap : (a : ℕ) → broken h.table a ≡ true → mem w.os w.dbug.pid a ≡ int_3
  broken-trap a at =
      let (i, below, hit) = any_below-true h.table.elts h.table.nelts a at in
      let (soft, here) = hit_parts a (h.table.elts i) hit in
      ap (λ c. mem w.os w.dbug.pid c) (sym here) ∙ h.armed.trap i below soft

  unbroken-text :
      (a : ℕ) → code a ≡ true → broken h.table a ≡ false → mem w.os w.dbug.pid a ≡ text a
  unbroken-text a in_code free =
      IsSession-overlay w h a in_code ∙ ap (λ (b : Bool). if b then int_3 else text a) free

  -- As long as no trap is met, the memory with the traps runs as the program alone does.
  after-same :
      IsAligned
      → (n : ℕ)
      → ((i : ℕ)
          → i < n
          → mem w.os w.dbug.pid (pc (after exec (mem w.os w.dbug.pid) i (state w.os w.dbug.pid)))
            ≢ int_3)
      → after exec (mem w.os w.dbug.pid) n (state w.os w.dbug.pid) ≡ alone n
  unfolding after
  after-same aligned zero free = refl
  after-same aligned (suc n) free =
      let before = after-same aligned n (λ i below. free i (omega arith)) in
      let here = subst (λ q. mem w.os w.dbug.pid (pc q) ≢ int_3) before (free n (omega arith)) in
      ap (exec (mem w.os w.dbug.pid)) before
      ∙ cpu.local (mem w.os w.dbug.pid) text (alone n) (λ a read.
        elim (Bool-cases (broken h.table a)) [
          | inl at ↦
              let there : a ≢ pc (alone n) =
                λ same. here (ap (mem w.os w.dbug.pid) (sym same) ∙ broken-trap a at) in
              let clash : true ≡ false = sym at ∙ aligned n a read there in absurd (cc clash)
          | inr other ↦ unbroken-text a (cpu.in_code (alone n) a read) other
        ])

  -- The instruction at the breakpoint, from the state that the program alone comes to there.
  own-alone :
      IsAligned
      → (n : ℕ) (bp : Breakpoint) (regs : Regs) (before s' : S) → code bp.addr ≡ true
      → bp.addr ≡ pc (alone n)
      → RunsOwn env.kernel mem mapped code text w.dbug.pid bp regs (after_wait env w).1 before s'
      → state
          (env.kernel.setregs (after_wait env w).1 w.dbug.pid (record regs { rip = bp.addr }))
          w.dbug.pid
        ≡ alone n
      → state s' w.dbug.pid ≡ alone (suc n)
  unfolding after
  own-alone aligned n bp regs before s' in_code at own set =
      let pid = w.dbug.pid in
      let t = (after_wait env w).1 in
      let r : Regs = record regs { rip = bp.addr } in
      let ready = env.kernel.setregs before pid r in
      let ran = stepped env.kernel pid r before in
      let (word, is) = own.restored_by in
      let (word', is') = own.rearmed_by in
      let other : (b : ℕ) → code b ≡ false → b ≢ bp.addr = λ b out same.
        let clash : true ≡ false = sym in_code ∙ ap code (sym same) ∙ out in absurd (cc clash) in
      let restored : state before pid ≡ state t pid =
        ap (λ s. state s pid) is
        ∙ cpu.poke t pid bp.addr word
            (λ b out. ap (λ s. mem s pid b) (sym is) ∙ own.frame b (other b out)) in
      let stands : state ready pid ≡ alone n = cpu.setregs before t pid r restored ∙ set in
      let steps : state ran pid ≡ exec (mem ready pid) (alone n) =
        cpu.singlestep ready pid ∙ ap (exec (mem ready pid)) stands in
      let rearmed : state s' pid ≡ state ran pid =
        ap (λ s. state s pid) is'
        ∙ cpu.poke ran pid bp.addr word'
            (λ b out. ap (λ s. mem s pid b) (sym is') ∙ Wrote-there own.rearmed b (other b out)) in
      rearmed
      ∙ steps
      ∙ cpu.local (mem ready pid) text (alone n) (λ a read.
        let in_c = cpu.in_code (alone n) a read in
        still.setregs before pid r a in_c ∙ elim (ℕ_discrete a bp.addr) [
          | yes here ↦ ap (mem before pid) here ∙ own.own ∙ ap text (sym here)
          | no there ↦
              own.frame a there
              ∙ woken-mem env still w a in_c
              ∙ unbroken-text a in_c (aligned n a read (λ e. there (e ∙ sym at)))
        ])

  -- Where `c` leaves the process, after `n` instructions of the program alone: over the one at the first
  -- breakpoint that it came to, or, behind a trap of the program's own, as the wait left it.
  abbrev pub Arrives : ℕ → S → Type 0
  Arrives n s' =
      ((broken h.table (pc (alone n)) ≡ true) × (state s' w.dbug.pid ≡ alone (suc n)))
      ⊎ ((broken h.table (pc (alone n)) ≡ false)
          × (s' ≡ (after_wait env w).1)
          × (code (pc (alone n)) ≡ true → text (pc (alone n)) ≡ int_3))

  -- `c` is transparent: with the invariant in force and a process without hardware breakpoints whose
  -- code nothing but the debugger writes, where no instruction that the program alone comes to has a
  -- breakpoint behind its first byte and the process is next stopped by SIGTRAP, the call returns 0 with the
  -- invariant in force, and the process is as the program alone would be, run without a debugger
  -- to the first instruction at a breakpoint and over it; or it stands at a trap of the
  -- program's own, which was met first.
  pub command_continue-Arrives :
      (cmds : Arr Str)
      → IsAligned
      → wifexited (after_wait env w).0 ≡ false
      → wstopsig (after_wait env w).0 ≡ sigtrap
      → (n : ℕ) × (w' : World S) × (command_continue env cmds w ≡ done (pos 0) w')
        × (h' : IsSession mem mapped code text w') × (h'.table ≡ h.table)
        × (w'.dbug.pid ≡ w.dbug.pid)
        × ((i : ℕ) → i < n → broken h.table (pc (alone i)) ≡ false)
        × (trap_addr (env.kernel.getregs (after_wait env w).1 w.dbug.pid w.dbug.regs).1
            ≡ pc (alone n))
        × Arrives n w'.os
  unfolding IsSession-run
  command_continue-Arrives cmds aligned stands trapped =
      let pid = w.dbug.pid in
      let (n, (free, trap, at, set)) = cpu.cont w.os pid w.dbug.status w.dbug.regs stands trapped in
      let regs = (env.kernel.getregs (after_wait env w).1 pid w.dbug.regs).1 in
      let same : (i : ℕ) → i ≤ n → after exec (mem w.os pid) i (state w.os pid) ≡ alone i =
        λ i le. after-same aligned i (λ j below. free j (omega arith)) in
      let there : trap_addr regs ≡ pc (alone n) = at ∙ ap pc (same n (omega arith)) in
      let (s', regs', lines, runs, ran, armed, mapping) =
        command_continue-Ran env m still cmds w h.table h.is_table h.armed
          (IsSession-AreMapped env m still w h) stands trapped in
      (
        n,
        _,
        runs,
        IsSession-run w h s' (after_wait env w).0 regs' lines armed mapping,
        refl,
        refl,
        λ i below. elim (Bool-cases (broken h.table (pc (alone i)))) [
          | inl hit ↦ absurd (
              free i below (
                ap (λ q. mem w.os pid (pc q)) (same i (omega arith))
                ∙ broken-trap (pc (alone i)) hit))
          | inr other ↦ other
        ],
        there,
        elim ran [
          | inl (none_at, is, kept) ↦
              let unbroken =
                ap (broken h.table) (sym there)
                ∙ any_below-none h.table.elts h.table.nelts (trap_addr regs) none_at in
              inr (
                unbroken,
                is,
                λ in_c.
                    sym (unbroken-text (pc (alone n)) in_c unbroken)
                    ∙ ap (λ q. mem w.os pid (pc q)) (sym (same n (omega arith)))
                    ∙ trap,
              )
          | inr (i, before, below, hit, first, own, kept) ↦
              let (soft, here) = hit_parts (trap_addr regs) (h.table.elts i) hit in
              let place : (h.table.elts i).addr ≡ pc (alone n) = here ∙ there in
              inl (
                ap (broken h.table) (sym there)
                    ∙ any_below-hit h.table.elts h.table.nelts (trap_addr regs) i below hit,
                own-alone aligned n (h.table.elts i) regs before s' (h.armed.inside i below soft)
                    place own
                    (subst
                      (λ a.
                        state
                          (env.kernel.setregs (after_wait env w).1 pid (record regs { rip = a }))
                          pid
                        ≡ alone n)
                      (sym (here ∙ at)) (set ∙ same n (omega arith))),
              )
        ],
      )
