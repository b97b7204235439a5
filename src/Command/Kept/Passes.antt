-- ===== src/Command/Kept/Passes.antt =====
-- Any number of runs with `c` against the program alone.
use test_dbug.Common.{
  ℕ, zero, suc, ◌+◌, ◌<◌, ◌≡◌, ◌≢◌, refl, sym, ap, subst, ◌∙◌, arith, Bool, true, false, inl, inr,
  pos, if◌then◌else◌,
}
use test_dbug.Kernel.{Pid, IsMemory}
use test_dbug.Session.{Breakpoint, Str, Arr, Env, World, done}
use test_dbug.Dbug.{wifexited, wstopsig, sigtrap}
use test_dbug.Dbug.Find.{trap_addr}
use test_dbug.Command.Handlers.{command_continue}
use test_dbug.Command.Handlers.Armed.{IsStill}
use test_dbug.Command.Handlers.Continue.{after_wait}
use test_dbug.Command.Kept.{IsSession}
use test_dbug.Command.Kept.View.{broken}
use test_dbug.Command.Kept.Cpu.{after, IsCpu}
use test_dbug.Command.Kept.Rounds.{world_after}
use test_dbug.Command.Kept.Alone.{command_continue-Arrives}

after-plus :
    {P : Type 0} (exec : (ℕ → ℕ) → P → P) (f : ℕ → ℕ) (i n : ℕ) (q : P)
    → after exec f i (after exec f n q) ≡ after exec f (i + n) q
unfolding after
after-plus exec f zero n q = ap (λ k. after exec f k q) (omega arith)
after-plus exec f (suc i) n q =
    let same : suc (i + n) ≡ suc i + n = omega arith in
    ap (exec f) (after-plus exec f i n q) ∙ ap (λ k. after exec f k q) same

-- How many of the first `n` numbers pass the test.
unfoldable pub count : (ℕ → Bool) → ℕ → ℕ
count test zero = 0
count test (suc n) = count test n + (if test n then 1 else 0)

count-free :
    (test : ℕ → Bool) (i n : ℕ)
    → ((j : ℕ) → j < i → test (j + n) ≡ false)
    → count test (i + n) ≡ count test n
unfolding count
count-free test zero n free = ap (count test) (omega arith)
count-free test (suc i) n free =
    let same : suc i + n ≡ suc (i + n) = omega arith in
    let here = free i (omega arith) in
    ap (count test) same
    ∙ (rw here (omega (arith, count-free test i n (λ j below. free j (omega arith)))))

count-next :
    (test : ℕ → Bool) (i n : ℕ)
    → ((j : ℕ) → j < i → test (j + n) ≡ false)
    → test (i + n) ≡ true
    → count test (suc i + n) ≡ suc (count test n)
unfolding count
count-next test i n free here =
    let same : suc i + n ≡ suc (i + n) = omega arith in
    ap (count test) same ∙ (rw here (omega (arith, count-free test i n free)))

-- The worlds behind calls of `command_continue`, each of which stopped at a breakpoint of the table.
pub data Passes {S : Type 0} (env : Env S) (cmds : Arr Str) (table : Arr Breakpoint) (w : World S)
    : ℕ → World S → Type 0 where
  none_yet : Passes env cmds table w zero w
  one_more :
      {k : ℕ} {u v : World S}
      → Passes env cmds table w k u
      → wifexited (after_wait env u).0 ≡ false
      → wstopsig (after_wait env u).0 ≡ sigtrap
      → broken table (trap_addr (env.kernel.getregs (after_wait env u).1 u.dbug.pid u.dbug.regs).1)
        ≡ true
      → command_continue env cmds u ≡ done (pos 0) v
      → Passes env cmds table w (suc k) v

module _ {S P : Type 0} (env : Env S) {mem : S → Pid → ℕ → ℕ} {mapped : S → Pid → ℕ → Bool}
    {code : ℕ → Bool} {text : ℕ → ℕ} (m : IsMemory env.kernel mem mapped)
    (still : IsStill env.kernel mem mapped code) (state : S → Pid → P) (pc : P → ℕ)
    (reads : P → ℕ → Bool) (exec : (ℕ → ℕ) → P → P)
    (cpu : IsCpu env.kernel mem code state pc reads exec) (w : World S)
    (h : IsSession mem mapped code text w) where
  -- The program alone, `n` instructions from here.
  abbrev alone : ℕ → P
  alone n = after exec text n (state w.os w.dbug.pid)

  abbrev at_breakpoint : ℕ → Bool
  at_breakpoint n = broken h.table (pc (alone n))

  -- What is so behind `k` calls that each stopped at a breakpoint.
  abbrev HasPassed : ℕ → World S → Type 0
  HasPassed k v =
      (n : ℕ) × (h' : IsSession mem mapped code text v) × (h'.table ≡ h.table)
      × (v.dbug.pid ≡ w.dbug.pid)
      × (state v.os v.dbug.pid ≡ alone n)
      × (count at_breakpoint n ≡ k)

  -- With the invariant in force and a process without hardware breakpoints whose code nothing but the
  -- debugger writes, where no instruction that the program alone comes to has a breakpoint behind
  -- its first byte: behind `k` calls of `command_continue` that each stopped at a breakpoint the
  -- invariant is in force with the same table, and the process is as the program alone would be after
  -- some number of instructions, of which exactly `k` are at breakpoints.
  pub Passes-alone :
      (cmds : Arr Str)
      → ((i a : ℕ) → reads (alone i) a ≡ true → a ≢ pc (alone i) → broken h.table a ≡ false)
      → {k : ℕ} {v : World S} → Passes env cmds h.table w k v
      → (n : ℕ) × (h' : IsSession mem mapped code text v) × (h'.table ≡ h.table)
        × (v.dbug.pid ≡ w.dbug.pid)
        × (state v.os v.dbug.pid ≡ alone n)
        × (count at_breakpoint n ≡ k)
  unfolding after count
  Passes-alone cmds aligned none_yet = (0, h, refl, refl, refl, refl)
  Passes-alone cmds aligned (one_more {k} {u} {v} before stands trapped hit e) =
      let (n, h1, table, pid, at, counts) = Passes-alone cmds aligned before in
      let later : (i : ℕ) → after exec text i (state u.os u.dbug.pid) ≡ alone (i + n) =
        λ i. ap (after exec text i) at ∙ after-plus exec text i n (state w.os w.dbug.pid) in
      let aligned' : (i a : ℕ)
          → reads (after exec text i (state u.os u.dbug.pid)) a ≡ true
          → a ≢ pc (after exec text i (state u.os u.dbug.pid))
          → broken h1.table a ≡ false =
        λ i a read behind.
          ap (λ t. broken t a) table
          ∙ aligned (i + n) a (ap (λ q. reads q a) (sym (later i)) ∙ read)
              (λ same. behind (same ∙ ap pc (sym (later i)))) in
      let (i, w', runs, h2, table', pid', free, there, arrives) =
        command_continue-Arrives env m still state pc reads exec cpu u h1 cmds aligned' stands
          trapped in
      let now : (j : ℕ)
          → broken h1.table (pc (after exec text j (state u.os u.dbug.pid)))
            ≡ at_breakpoint (j + n) =
        λ j.
          ap (λ t. broken t (pc (after exec text j (state u.os u.dbug.pid)))) table
          ∙ ap (λ q. broken h.table (pc q)) (later j) in
      let free' : (j : ℕ) → j < i → at_breakpoint (j + n) ≡ false =
        λ j below. sym (now j) ∙ free j below in
      subst (HasPassed (suc k)) (ap (world_after u) (sym runs ∙ e)) (elim arrives [
        | inr (none_there, left, own) ↦
            let clash : true ≡ false =
              sym hit
              ∙ ap
                  (λ t.
                    broken t (
                      trap_addr (env.kernel.getregs (after_wait env u).1 u.dbug.pid u.dbug.regs).1))
                  (sym table)
              ∙ ap (broken h1.table) there
              ∙ none_there in
            absurd (cc clash)
        | inl (is_there, over) ↦ (
          suc i + n,
          h2,
          table' ∙ table,
          pid' ∙ pid,
          ap (state w'.os) pid' ∙ over ∙ later (suc i),
          count-next at_breakpoint i n free' (sym (now i) ∙ is_there) ∙ ap suc counts,
        )
      ])
