-- ===== src/Command/Handlers/Armed.antt =====
-- The invariant of a session: the tracee's code is the program's own, but for a trap at each software
-- breakpoint, and the first breakpoint at an address keeps the program's byte.
use test_dbug.Common.{
  ℕ, suc, ◌≤◌, ◌<◌, ◌≡◌, ◌≢◌, sym, ap, subst, ◌∙◌, arith, Bool, true, false, [], ◌∷◌, bytes_at,
}
use native.Mathlib.Decide.{ℕ_discrete}
use test_dbug.Kernel.{Pid, Regs, Kernel}
use test_dbug.Mem.Write.{Wrote}
use test_dbug.Session.{Breakpoint, Arr}
use test_dbug.Dbug.{is_sf, int_3}
use test_dbug.Dbug.Find.{hits}
use test_dbug.Dbug.Insert.{code_byte}
use test_dbug.Dbug.Resume.{stepped}

-- None of the breakpoints below `n` is a software breakpoint at the address.
abbrev pub NoneAt : Arr Breakpoint → ℕ → ℕ → Type 0
NoneAt bps n a = (j : ℕ) → j < n → hits is_sf a (bps.elts j) ≡ false

-- `code` are the addresses of the program's code, `text` the bytes that the program has there.
pub record IsArmed {S : Type 0} (mem : S → Pid → ℕ → ℕ) (code : ℕ → Bool) (text : ℕ → ℕ) (pid : Pid)
    (bps : Arr Breakpoint) (s : S) : Type 0 where
  pub inside : (i : ℕ) → i < bps.nelts → is_sf (bps.elts i) ≡ true → code (bps.elts i).addr ≡ true
  pub trap :
      (i : ℕ) → i < bps.nelts → is_sf (bps.elts i) ≡ true → mem s pid (bps.elts i).addr ≡ int_3
  pub kept :
      (i : ℕ)
      → i < bps.nelts
      → is_sf (bps.elts i) ≡ true
      → NoneAt bps i (bps.elts i).addr
      → code_byte (bps.elts i) ≡ text (bps.elts i).addr
  pub rest : (a : ℕ) → code a ≡ true → NoneAt bps bps.nelts a → mem s pid a ≡ text a

-- What the tracee and the system do while it runs or stands: its code stays as it is.
pub record IsStill {S : Type 0} (k : Kernel S) (mem : S → Pid → ℕ → ℕ) (mapped : S → Pid → ℕ → Bool)
    (code : ℕ → Bool) : Type 0 where
  pub setregs :
      (s : S) (p : Pid) (r : Regs) (a : ℕ) → code a ≡ true → mem (k.setregs s p r) p a ≡ mem s p a
  pub singlestep :
      (s : S) (p : Pid) (a : ℕ) → code a ≡ true → mem (k.singlestep s p) p a ≡ mem s p a
  pub cont : (s : S) (p : Pid) (a : ℕ) → code a ≡ true → mem (k.cont s p).1 p a ≡ mem s p a
  pub wait : (s : S) (p : Pid) (old a : ℕ) → code a ≡ true → mem (k.wait s old).1 p a ≡ mem s p a
  pub pokeuser :
      (s : S) (p : Pid) (n v a : ℕ) → code a ≡ true → mem (k.pokeuser s p n v).1 p a ≡ mem s p a
  pub setregs_mapped :
      (s : S) (p : Pid) (r : Regs) (a : ℕ) → mapped (k.setregs s p r) p a ≡ mapped s p a
  pub singlestep_mapped : (s : S) (p : Pid) (a : ℕ) → mapped (k.singlestep s p) p a ≡ mapped s p a
  pub cont_mapped : (s : S) (p : Pid) (a : ℕ) → mapped (k.cont s p).1 p a ≡ mapped s p a
  pub pokeuser_mapped :
      (s : S) (p : Pid) (n v a : ℕ) → mapped (k.pokeuser s p n v).1 p a ≡ mapped s p a
  pub wait_mapped : (s : S) (p : Pid) (old a : ℕ) → mapped (k.wait s old).1 p a ≡ mapped s p a

module _ {S : Type 0} {k : Kernel S} {mem : S → Pid → ℕ → ℕ} {mapped : S → Pid → ℕ → Bool}
    {code : ℕ → Bool} (still : IsStill k mem mapped code) (p : Pid) (r : Regs) (s : S) (a : ℕ) where
  pub stepped-mem : code a ≡ true → mem (stepped k p r s) p a ≡ mem s p a
  stepped-mem c =
      still.wait (k.singlestep (k.setregs s p r) p) p 0 a c
      ∙ still.singlestep (k.setregs s p r) p a c
      ∙ still.setregs s p r a c

  pub stepped-mapped : mapped (stepped k p r s) p a ≡ mapped s p a
  stepped-mapped =
      still.wait_mapped (k.singlestep (k.setregs s p r) p) p 0 a
      ∙ still.singlestep_mapped (k.setregs s p r) p a
      ∙ still.setregs_mapped s p r a

module _ {S : Type 0} {mem : S → Pid → ℕ → ℕ} {mapped : S → Pid → ℕ → Bool} {pid : Pid} {a b : ℕ}
    {s s' : S} (w : Wrote mem mapped pid a (b ∷ []) s s') where
  pub Wrote-here : mem s' pid a ≡ b
  Wrote-here = let e = w.holds in unfold bytes_at in cc e

  pub Wrote-there : (c : ℕ) → c ≢ a → mem s' pid c ≡ mem s pid c
  Wrote-there c ne = w.frame c (grind arith)

module _ {S : Type 0} {mem : S → Pid → ℕ → ℕ} {code : ℕ → Bool} {text : ℕ → ℕ} {pid : Pid} where
  -- Memories that agree on the code are armed alike.
  pub IsArmed-same :
      (bps : Arr Breakpoint) {s s' : S}
      → IsArmed mem code text pid bps s
      → ((a : ℕ) → code a ≡ true → mem s' pid a ≡ mem s pid a)
      → IsArmed mem code text pid bps s'
  IsArmed-same bps h same = record {
    inside = h.inside;
    trap = λ i p q. same _ (h.inside i p q) ∙ h.trap i p q;
    kept = h.kept;
    rest = λ a c none_at. same a c ∙ h.rest a c none_at;
  }

  -- So are they where the trap of a breakpoint is written once more.
  pub IsArmed-rearm :
      {mapped : S → Pid → ℕ → Bool} (bps : Arr Breakpoint) (i : ℕ) {s t s' : S}
      → IsArmed mem code text pid bps s
      → i < bps.nelts
      → is_sf (bps.elts i) ≡ true
      → ((c : ℕ) → code c ≡ true → c ≢ (bps.elts i).addr → mem t pid c ≡ mem s pid c)
      → Wrote mem mapped pid (bps.elts i).addr (int_3 ∷ []) t s'
      → IsArmed mem code text pid bps s'
  IsArmed-rearm bps i {s} {t} {s'} h below kind same w = record {
    inside = h.inside;
    trap = λ j p q. elim (ℕ_discrete (bps.elts j).addr (bps.elts i).addr) [
      | yes here ↦ ap (mem s' pid) here ∙ Wrote-here w
      | no there ↦ Wrote-there w _ there ∙ same _ (h.inside j p q) there ∙ h.trap j p q
    ];
    kept = h.kept;
    rest = λ c in_code none_at.
        let there : c ≢ (bps.elts i).addr = ground (arith, none_at i below) in
        Wrote-there w c there ∙ same c in_code there ∙ h.rest c in_code none_at;
  }

  -- A trap that is written at a new breakpoint, which keeps the byte that was there.
  module _ {mapped : S → Pid → ℕ → Bool} (a b : Arr Breakpoint) {s s' : S}
      (h : IsArmed mem code text pid a s) (count : b.nelts ≡ suc a.nelts)
      (old : (i : ℕ) → i < a.nelts → b.elts i ≡ a.elts i) (kind : is_sf (b.elts a.nelts) ≡ true)
      (in_code : code (b.elts a.nelts).addr ≡ true)
      (byte : code_byte (b.elts a.nelts) ≡ mem s pid (b.elts a.nelts).addr)
      (w : Wrote mem mapped pid (b.elts a.nelts).addr (int_3 ∷ []) s s') where
    old_kind : (i : ℕ) → i < a.nelts → is_sf (b.elts i) ≡ true → is_sf (a.elts i) ≡ true
    old_kind i below q = ap is_sf (sym (old i below)) ∙ q

    old_none : (c i : ℕ) → i ≤ a.nelts → NoneAt b i c → NoneAt a i c
    old_none c i le none_at j below =
        ap (hits is_sf c) (sym (old j (omega arith))) ∙ none_at j below

    new_inside : (i : ℕ) → i < b.nelts → is_sf (b.elts i) ≡ true → code (b.elts i).addr ≡ true
    new_inside i p q = elim (ℕ_discrete i a.nelts) [
      | yes new ↦ ap (λ j. code (b.elts j).addr) new ∙ in_code
      | no other ↦
          let below : i < a.nelts = omega arith in
          ap (λ x. code x.addr) (old i below) ∙ h.inside i below (old_kind i below q)
    ]

    new_trap : (i : ℕ) → i < b.nelts → is_sf (b.elts i) ≡ true → mem s' pid (b.elts i).addr ≡ int_3
    new_trap i p q = elim (ℕ_discrete (b.elts i).addr (b.elts a.nelts).addr) [
      | yes here ↦ ap (mem s' pid) here ∙ Wrote-here w
      | no there ↦
          let other : i ≢ a.nelts = λ e. there (ap (λ j. (b.elts j).addr) e) in
          let below : i < a.nelts = omega arith in
          Wrote-there w _ there
          ∙ ap (λ x. mem s pid x.addr) (old i below)
          ∙ h.trap i below (old_kind i below q)
    ]

    last_kept :
        NoneAt b a.nelts (b.elts a.nelts).addr
        → code_byte (b.elts a.nelts) ≡ text (b.elts a.nelts).addr
    last_kept none_at =
        byte
        ∙ h.rest (b.elts a.nelts).addr in_code
            (old_none (b.elts a.nelts).addr a.nelts (omega arith) none_at)

    new_kept :
        (i : ℕ)
        → i < b.nelts
        → is_sf (b.elts i) ≡ true
        → NoneAt b i (b.elts i).addr
        → code_byte (b.elts i) ≡ text (b.elts i).addr
    new_kept i p q none_at = elim (ℕ_discrete i a.nelts) [
      | yes new ↦
          ap (λ m. code_byte (b.elts m)) new
          ∙ last_kept (subst (λ m. NoneAt b m (b.elts m).addr) new none_at)
          ∙ ap (λ m. text (b.elts m).addr) (sym new)
      | no other ↦
          let below : i < a.nelts = omega arith in
          ap code_byte (old i below)
          ∙ h.kept i below (old_kind i below q) (
              subst (λ x. NoneAt a i x.addr) (old i below)
                (old_none (b.elts i).addr i (omega arith) none_at))
          ∙ ap (λ x. text x.addr) (sym (old i below))
    ]

    new_rest : (c : ℕ) → code c ≡ true → NoneAt b b.nelts c → mem s' pid c ≡ text c
    new_rest c in_c none_at =
        let there : c ≢ (b.elts a.nelts).addr = ground (arith, none_at a.nelts (omega arith)) in
        Wrote-there w c there
        ∙ h.rest c in_c (old_none c a.nelts (omega arith) (λ j below. none_at j (omega arith)))

    pub IsArmed-push : IsArmed mem code text pid b s'
    IsArmed-push = record { inside = new_inside; trap = new_trap; kept = new_kept; rest = new_rest }
