-- ===== src/Dbug/Watch.antt =====
-- `insert_hard_break`: the debug registers.
use test_dbug.Common.{ℕ, ◌≡◌, refl, ◌∙◌, arith, false, List, pos, is_neg, codes}
use test_dbug.Output.{Line}
use test_dbug.Kernel.{Pid, Kernel}
use test_dbug.Session.{Breakpoint, Env, World, done, then-done, call, pure, ◌>>=◌, ◌>>◌}
use test_dbug.Dbug.{hwbp, dr7_word, perror, insert_hard_break}
use test_dbug.Dbug.Adopt.{perror-done}

-- What `ptrace` documents of the debug registers: a poke that succeeds sets the one register.
pub record IsDebugRegs {S : Type 0} (k : Kernel S) (dr : S → Pid → ℕ → ℕ) : Type 0 where
  pub poke_self :
      (s : S) (p : Pid) (n v : ℕ)
      → is_neg (k.pokeuser s p n v).0 ≡ false
      → dr (k.pokeuser s p n v).1 p n ≡ v
  pub poke_other :
      (s : S) (p : Pid) (n v j : ℕ) → ¬ (j ≡ n) → dr (k.pokeuser s p n v).1 p j ≡ dr s p j

-- The system behind the two pokes.
abbrev pub poked : {S : Type 0} → Kernel S → Pid → ℕ → S → S
poked k pid addr s = (k.pokeuser (k.pokeuser s pid 0 addr).1 pid 7 3).1

-- A watch returns whether or not the pokes succeed, with the breakpoint marked as one of hardware.
pub insert_hard_break-done :
    {S : Type 0} (env : Env S) (pid : Pid) (bp : Breakpoint) (w : World S)
    → (lines : List Line) × (insert_hard_break env pid bp w
        ≡ done
            (pos 0, record bp { type = hwbp })
            (record w { os = poked env.kernel pid bp.addr w.os; out = lines }))
insert_hard_break-done {S} env pid bp w =
    let (r0, s0) = env.kernel.pokeuser w.os pid 0 bp.addr in
    let (r7, s7) = env.kernel.pokeuser s0 pid 7 3 in
    let (lines, said) =
      perror-done env (is_neg r0) (codes "tracer, faile to set DR_0\n") (record w { os = s0 }) in
    let (lines', said') =
      perror-done env (is_neg r7) (codes "tracer, faile to set DR_7\n")
        (record w { os = s7; out = lines }) in
    (
      lines',
      unfold insert_hard_break dr7_word in
          then-done
            (λ (_ : Unit {0}). do
              r ← call (λ s. env.kernel.pokeuser s pid 7 3)
              perror env (is_neg r) (codes "tracer, faile to set DR_7\n")
              pure (pos 0, record bp { type = hwbp }))
            said
          ∙ then-done (λ (_ : Unit {0}). pure (pos 0, record bp { type = hwbp })) said',
    )

module _ {S : Type 0} (env : Env S) {dr : S → Pid → ℕ → ℕ} (h : IsDebugRegs env.kernel dr)
    (pid : Pid) where
  -- Where both pokes succeed, a watch returns 0 with the breakpoint marked as one of hardware, puts
  -- its address in register 0, enables that register alone (local and global, break on execution,
  -- one byte) and leaves registers 1 to 3 as they were.
  pub insert_hard_break_lem :
      (bp : Breakpoint) (w : World S)
      → is_neg (env.kernel.pokeuser w.os pid 0 bp.addr).0 ≡ false
      → is_neg (env.kernel.pokeuser (env.kernel.pokeuser w.os pid 0 bp.addr).1 pid 7 3).0 ≡ false
      → (s' : S) × (insert_hard_break env pid bp w
          ≡ done (pos 0, record bp { type = hwbp }) (record w { os = s' }))
        × (dr s' pid 0 ≡ bp.addr)
        × (dr s' pid 7 ≡ 3)
        × ((dr s' pid 1 ≡ dr w.os pid 1)
            × (dr s' pid 2 ≡ dr w.os pid 2)
            × (dr s' pid 3 ≡ dr w.os pid 3))
  insert_hard_break_lem bp w first second = (
    s2,
    runs,
    h.poke_other s1 pid 7 3 0 (ground arith) ∙ h.poke_self w.os pid 0 bp.addr first,
    h.poke_self s1 pid 7 3 second,
    (
      keeps 1 (ground arith) (ground arith),
      keeps 2 (ground arith) (ground arith),
      keeps 3 (ground arith) (ground arith),
    ),
  )
    where
      s1 : S
      s1 = (env.kernel.pokeuser w.os pid 0 bp.addr).1

      s2 : S
      s2 = (env.kernel.pokeuser s1 pid 7 3).1

      keeps : (j : ℕ) → ¬ (j ≡ 7) → ¬ (j ≡ 0) → dr s2 pid j ≡ dr w.os pid j
      keeps j p q = h.poke_other s1 pid 7 3 j p ∙ h.poke_other w.os pid 0 bp.addr j q

      runs :
          insert_hard_break env pid bp w
          ≡ done (pos 0, record bp { type = hwbp }) (record w { os = s2 })
      runs = unfold insert_hard_break dr7_word in rw (first, second) refl

  -- Where no poke fails, a second watch takes the register of the first one: register 0 then holds the
  -- second address, which alone is enabled, and registers 1 to 3 are as they were before the first.
  pub insert_hard_break_twice :
      (bp other : Breakpoint) (w : World S)
      → ((s : S) (n v : ℕ) → is_neg (env.kernel.pokeuser s pid n v).0 ≡ false)
      → (s' s'' : S) × (insert_hard_break env pid bp w
          ≡ done (pos 0, record bp { type = hwbp }) (record w { os = s' }))
        × (insert_hard_break env pid other (record w { os = s' })
            ≡ done (pos 0, record other { type = hwbp }) (record w { os = s'' }))
        × (dr s'' pid 0 ≡ other.addr)
        × (dr s'' pid 7 ≡ 3)
        × ((dr s'' pid 1 ≡ dr w.os pid 1)
            × (dr s'' pid 2 ≡ dr w.os pid 2)
            × (dr s'' pid 3 ≡ dr w.os pid 3))
  insert_hard_break_twice bp other w ok =
      let a = insert_hard_break_lem bp w (ok _ _ _) (ok _ _ _) in
      let b = insert_hard_break_lem other (record w { os = a.0 }) (ok _ _ _) (ok _ _ _) in
      (a.0, b.0, a.1, b.1, b.2, b.3, (b.4.0 ∙ a.4.0, b.4.1 ∙ a.4.1, b.4.2 ∙ a.4.2))
