-- ===== src/Command/Kept/Cpu.antt =====
-- What is relied on of the processor.
use test_dbug.Common.{ℕ, zero, suc, ◌<◌, ◌≡◌, ◌≢◌, refl, sym, ap, ◌∙◌, arith, Bool, true, false}
use native.Mathlib.Decide.{ℕ_discrete}
use test_dbug.Kernel.{Pid, Regs, Kernel}
use test_dbug.Session.{Breakpoint}
use test_dbug.Dbug.{is_sf, int_3, wifexited, wstopsig, sigtrap}
use test_dbug.Dbug.Find.{trap_addr, hits}
use test_dbug.Command.Kept.View.{any_below}

-- The state after `n` instructions from the state `q`, with the bytes of `f` as the code.
unfoldable pub after : {P : Type 0} → ((ℕ → ℕ) → P → P) → (ℕ → ℕ) → ℕ → P → P
after exec f zero q = q
after exec f (suc n) q = exec f (after exec f n q)

-- What the processor and `ptrace` document. `state` is all of a process but its code, `pc` the address
-- of the next instruction, `reads` tells from which bytes of the code that one is read, and `exec` is what it
-- does to the state.
pub record IsCpu {S P : Type 0} (k : Kernel S) (mem : S → Pid → ℕ → ℕ) (code : ℕ → Bool)
    (state : S → Pid → P) (pc : P → ℕ) (reads : P → ℕ → Bool) (exec : (ℕ → ℕ) → P → P)
    : Type 0 where
  pub in_code : (q : P) (a : ℕ) → reads q a ≡ true → code a ≡ true
  pub local : (f g : ℕ → ℕ) (q : P) → ((a : ℕ) → reads q a ≡ true → f a ≡ g a) → exec f q ≡ exec g q
  -- a write to the code alone
  pub poke :
      (s : S) (p : Pid) (a word : ℕ)
      → ((b : ℕ) → code b ≡ false → mem (k.poketext s p a word).1 p b ≡ mem s p b)
      → state (k.poketext s p a word).1 p ≡ state s p
  pub setregs :
      (s t : S) (p : Pid) (r : Regs)
      → state s p ≡ state t p
      → state (k.setregs s p r) p ≡ state (k.setregs t p r) p
  pub singlestep :
      (s : S) (p : Pid) → state (k.wait (k.singlestep s p) 0).1 p ≡ exec (mem s p) (state s p)
  -- a process without hardware breakpoints that is stopped by SIGTRAP ran to the first trap in its
  -- memory, which moved the instruction pointer by one byte and did nothing else
  pub cont :
      (s : S) (p : Pid) (old : ℕ) (r : Regs)
      → (let (status, t) = k.wait (k.cont s p).1 old in
          wifexited status ≡ false
          → wstopsig status ≡ sigtrap
          → (n : ℕ) × (let q = after exec (mem s p) n (state s p) in
              let regs = (k.getregs t p r).1 in
              ((i : ℕ) → i < n → mem s p (pc (after exec (mem s p) i (state s p))) ≢ int_3)
              × (mem s p (pc q) ≡ int_3)
              × (trap_addr regs ≡ pc q)
              × (state (k.setregs t p (record regs { rip = pc q })) p ≡ q)))

pub any_below-hit :
    (elts : ℕ → Breakpoint) (n a i : ℕ)
    → i < n
    → hits is_sf a (elts i) ≡ true
    → any_below elts n a ≡ true
unfolding any_below
any_below-hit elts zero a i below hit = absurd (omega arith)
any_below-hit elts (suc n) a i below hit = elim (ℕ_discrete i n) [
  | yes last ↦ let here = ap (λ j. hits is_sf a (elts j)) (sym last) ∙ hit in rw here refl
  | no before ↦ let later = any_below-hit elts n a i (omega arith) hit in ground arith
]

pub any_below-none :
    (elts : ℕ → Breakpoint) (n a : ℕ)
    → ((i : ℕ) → i < n → hits is_sf a (elts i) ≡ false)
    → any_below elts n a ≡ false
unfolding any_below
any_below-none elts zero a none_at = refl
any_below-none elts (suc n) a none_at =
    let here = none_at n (omega arith) in
    rw here (any_below-none elts n a (λ i below. none_at i (omega arith)))
