-- ===== src/Dbug/Find.antt =====
-- The two searches for the breakpoint that stopped the program.
use test_dbug.Common.{
  ℕ, zero, suc, ◌+◌, ◌-◌, ◌%◌, ◌^◌, ◌≤◌, ◌<◌, ◌≡◌, refl, arith, Bool, true, false, ◌&&◌, ◌⊎◌, inl,
  inr, ℤ, pos, minus_one, ◌==◌, if◌then◌else◌, Bool-cases,
}
use native.Mathlib.Decide.{ℕ_discrete}
use test_dbug.Kernel.{Regs}
use test_dbug.Session.{Breakpoint, Arr}
use test_dbug.Dbug.{is_sf, is_hw, sf_loop, hw_loop, find_current_sf_bp, find_current_hw_bp}

-- The address in front of the instruction pointer, in 64 bits.
abbrev pub trap_addr : Regs → ℕ
trap_addr regs = (regs.rip + 2 ^ 64 - 1) % 2 ^ 64

-- A breakpoint of a kind at an address.
abbrev pub hits : (Breakpoint → Bool) → ℕ → Breakpoint → Bool
hits kind target bp = kind bp && (bp.addr == target)

-- The answer of a search: the first index that passes the test, or -1 where none below `n` does.
abbrev pub IsFound : (ℕ → Bool) → ℕ → ℤ → Type 0
IsFound test n r =
    ((i : ℕ) × (r ≡ pos i) × (i < n) × (test i ≡ true) × ((j : ℕ) → j < i → test j ≡ false))
    ⊎ ((r ≡ minus_one) × ((j : ℕ) → j < n → test j ≡ false))

-- Where a loop over the indexes from `lo` to `hi` ends.
record IsEnd (test : ℕ → Bool) (lo hi i : ℕ) : Type 0 where
  above : lo ≤ i
  below : i ≤ hi
  here : i < hi → test i ≡ true
  before : (j : ℕ) → lo ≤ j → j < i → test j ≡ false

module _ (test : ℕ → Bool) where
  IsEnd-zero : (i : ℕ) → IsEnd test i (i + 0) i
  IsEnd-zero i = record {
    above = omega arith;
    below = omega arith;
    here = λ h. absurd (omega arith);
    before = λ j p q. absurd (omega arith);
  }

  IsEnd-hit : (n i : ℕ) → test i ≡ true → IsEnd test i (i + suc n) i
  IsEnd-hit n i hit = record {
    above = omega arith;
    below = omega arith;
    here = λ h. hit;
    before = λ j p q. absurd (omega arith);
  }

  IsEnd-miss :
      (n i k : ℕ) → test i ≡ false → IsEnd test (i + 1) (i + 1 + n) k → IsEnd test i (i + suc n) k
  IsEnd-miss n i k miss e = record {
    above = omega (arith, e.above);
    below = omega (arith, e.below);
    here = λ h. e.here (omega arith);
    before = λ j p q. elim (ℕ_discrete j i) [
      | yes first ↦ rw first miss
      | no later ↦ e.before j (omega arith) q
    ];
  }

  IsEnd-IsFound :
      (n i : ℕ) → IsEnd test 0 (0 + n) i → IsFound test n (if i == n then minus_one else pos i)
  IsEnd-IsFound n i e = elim (ℕ_discrete i n) [
    | yes end ↦
        let is_end : (i == n) ≡ true = ground arith in
        rw is_end (inr (refl, λ j h. e.before j (omega arith) (omega arith)))
    | no within ↦
        let not_end : (i == n) ≡ false = ground arith in
        rw not_end (
          inl (
            i,
            refl,
            omega (arith, e.below),
            e.here (omega (arith, e.below)),
            λ j h. e.before j (omega arith) h,
          ))
  ]

module _ (bps : ℕ → Breakpoint) (target : ℕ) where
  sf_loop-IsEnd :
      (n i : ℕ) → IsEnd (λ j. hits is_sf target (bps j)) i (i + n) (sf_loop bps target n i)
  unfolding sf_loop
  sf_loop-IsEnd zero i = IsEnd-zero _ i
  sf_loop-IsEnd (suc n) i = elim (Bool-cases (is_sf (bps i))) [
    | inr other ↦ rw other (IsEnd-miss _ n i _ (rw other refl) (sf_loop-IsEnd n (i + 1)))
    | inl kind ↦ elim (Bool-cases ((bps i).addr == target)) [
      | inl hit ↦ rw (kind, hit) (IsEnd-hit _ n i (rw (kind, hit) refl))
      | inr miss ↦
          rw (kind, miss) (IsEnd-miss _ n i _ (rw (kind, miss) refl) (sf_loop-IsEnd n (i + 1)))
    ]
  ]

  hw_loop-IsEnd :
      (n i : ℕ) → IsEnd (λ j. hits is_hw target (bps j)) i (i + n) (hw_loop bps target n i)
  unfolding hw_loop
  hw_loop-IsEnd zero i = IsEnd-zero _ i
  hw_loop-IsEnd (suc n) i = elim (Bool-cases (is_hw (bps i))) [
    | inr other ↦ rw other (IsEnd-miss _ n i _ (rw other refl) (hw_loop-IsEnd n (i + 1)))
    | inl kind ↦ elim (Bool-cases ((bps i).addr == target)) [
      | inl hit ↦ rw (kind, hit) (IsEnd-hit _ n i (rw (kind, hit) refl))
      | inr miss ↦
          rw (kind, miss) (IsEnd-miss _ n i _ (rw (kind, miss) refl) (hw_loop-IsEnd n (i + 1)))
    ]
  ]

-- The search finds the first software breakpoint one byte in front of the instruction pointer, and
-- answers -1 exactly where there is none.
pub find_current_sf_bp-IsFound :
    (bps : Arr Breakpoint) (regs : Regs)
    → IsFound
        (λ j. hits is_sf (trap_addr regs) (bps.elts j))
        bps.nelts
        (find_current_sf_bp bps regs)
unfolding find_current_sf_bp
find_current_sf_bp-IsFound bps regs =
    IsEnd-IsFound _ bps.nelts _ (sf_loop-IsEnd bps.elts (trap_addr regs) bps.nelts 0)

-- The search finds the first hardware breakpoint at the instruction pointer, and answers -1 exactly
-- where there is none.
pub find_current_hw_bp-IsFound :
    (bps : Arr Breakpoint) (regs : Regs)
    → IsFound (λ j. hits is_hw regs.rip (bps.elts j)) bps.nelts (find_current_hw_bp bps regs)
unfolding find_current_hw_bp
find_current_hw_bp-IsFound bps regs =
    IsEnd-IsFound _ bps.nelts _ (hw_loop-IsEnd bps.elts regs.rip bps.nelts 0)
