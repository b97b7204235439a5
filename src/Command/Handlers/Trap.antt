-- ===== src/Command/Handlers/Trap.antt =====
-- `command_continue` at a stop by SIGTRAP: the program runs on from a breakpoint with its own code.
use test_dbug.Common.{
  ℕ, ◌^◌, ◌<◌, ◌≡◌, ◌≢◌, refl, sym, ap, subst, ◌∙◌, arith, Bool, true, List, [], ◌∷◌, ◌++◌, ◌⊎◌,
  inl, inr, ℤ, pos, negsuc,
}
use test_dbug.Output.{Line, trigger}
use test_dbug.Kernel.{Pid, Regs, Kernel, IsMemory}
use test_dbug.Mem.Write.{Wrote}
use test_dbug.Session.{
  Breakpoint, Arr, Env, World, done, pure, get_dbug, set_dbug, ◌>>=◌, ◌>>◌, then-done,
}
use test_dbug.Dbug.{is_sf, int_3, find_current_hw_bp}
use test_dbug.Dbug.Find.{trap_addr, hits, IsFound, find_current_sf_bp-IsFound}
use test_dbug.Dbug.Resume.{stepped, Stepped, resume_int3_bp_next-Stepped}
use test_dbug.Command.Handlers.{sf_index, hw_index, on_trap}
use test_dbug.Command.Handlers.Armed.{
  NoneAt, IsArmed, IsStill, stepped-mem, stepped-mapped, Wrote-here, Wrote-there, IsArmed-rearm,
}

-- What a stop at the breakpoint `i` comes to: the instruction at its address runs from a state
-- `before` in which the program's own byte is there and the rest of its code is as at the stop.
pub record RunsOwn {S : Type 0} (k : Kernel S) (mem : S → Pid → ℕ → ℕ) (mapped : S → Pid → ℕ → Bool)
    (code : ℕ → Bool) (text : ℕ → ℕ) (pid : Pid) (bp : Breakpoint) (regs : Regs)
    (s before after : S) : Type 0 where
  pub own : mem before pid bp.addr ≡ text bp.addr
  pub frame : (a : ℕ) → a ≢ bp.addr → mem before pid a ≡ mem s pid a
  pub rearmed :
      Wrote mem mapped pid bp.addr
        (int_3 ∷ [])
        (stepped k pid (record regs { rip = bp.addr }) before)
        after
  pub restored_by : (word : ℕ) × (before ≡ (k.poketext s pid bp.addr word).1)
  pub rearmed_by :
      (word : ℕ) × (after
        ≡ (k.poketext (stepped k pid (record regs { rip = bp.addr }) before) pid bp.addr word).1)

-- The step leaves the memory accessible that was.
Stepped-mapped :
    {S : Type 0} {k : Kernel S} {mem : S → Pid → ℕ → ℕ} {mapped : S → Pid → ℕ → Bool}
    {code : ℕ → Bool} {pid : Pid} {bp : Breakpoint} {regs : Regs} {s before after : S}
    → IsStill k mem mapped code
    → Stepped k mem mapped pid bp regs s before after
    → (a : ℕ) → mapped after pid a ≡ mapped s pid a
Stepped-mapped {pid} {before} still st a =
    st.rearmed.same a ∙ stepped-mapped still pid _ before a ∙ st.restored.same a

module _ {S : Type 0} (env : Env S) {mem : S → Pid → ℕ → ℕ} {mapped : S → Pid → ℕ → Bool}
    {code : ℕ → Bool} {text : ℕ → ℕ} (m : IsMemory env.kernel mem mapped)
    (still : IsStill env.kernel mem mapped code) where
  own_code :
      (bps : Arr Breakpoint) (pid : Pid) (i : ℕ) (regs : Regs) (s before after : S)
      → IsArmed mem code text pid bps s
      → i < bps.nelts
      → is_sf (bps.elts i) ≡ true
      → NoneAt bps i (bps.elts i).addr
      → Stepped env.kernel mem mapped pid (bps.elts i) regs s before after
      → RunsOwn env.kernel mem mapped code text pid (bps.elts i) regs s before after
  own_code bps pid i regs s before after armed below kind first st = record {
    own = Wrote-here st.restored ∙ armed.kept i below kind first;
    frame = λ a ne. Wrote-there st.restored a ne;
    rearmed = st.rearmed;
    restored_by = st.restored_by;
    rearmed_by = st.rearmed_by;
  }

  after-IsArmed :
      (bps : Arr Breakpoint) (pid : Pid) (i : ℕ) (regs : Regs) (s before after : S)
      → IsArmed mem code text pid bps s
      → i < bps.nelts
      → is_sf (bps.elts i) ≡ true
      → Stepped env.kernel mem mapped pid (bps.elts i) regs s before after
      → IsArmed mem code text pid bps after
  after-IsArmed bps pid i regs s before after armed below kind st =
      IsArmed-rearm bps i armed below kind
        (λ c in_code ne. stepped-mem still pid _ before c in_code ∙ Wrote-there st.restored c ne)
        st.rearmed

-- What became of a stop by SIGTRAP with the registers `regs`. Where no software breakpoint lies in
-- front of the instruction pointer, nothing; at the first one that does, its instruction ran as the
-- program's own, and the instruction pointer that is kept is the breakpoint's address.
abbrev pub Ran :
    {S : Type 0}
    → Kernel S
    → (S → Pid → ℕ → ℕ)
    → (S → Pid → ℕ → Bool)
    → (ℕ → Bool)
    → (ℕ → ℕ)
    → Pid
    → Arr Breakpoint
    → Regs
    → S
    → S
    → Regs
    → Type 0
Ran {S} k mem mapped code text pid bps regs s s' regs' =
    (NoneAt bps bps.nelts (trap_addr regs) × (s' ≡ s) × (regs' ≡ regs))
    ⊎ ((i : ℕ) × (before : S) × (i < bps.nelts)
        × (hits is_sf (trap_addr regs) (bps.elts i) ≡ true)
        × NoneAt bps i (trap_addr regs)
        × RunsOwn k mem mapped code text pid (bps.elts i) regs s before s'
        × (regs' ≡ record regs { rip = (bps.elts i).addr }))

-- Where a breakpoint passes the test of a search, its kind and its address are those looked for.
hits-both :
    (target : ℕ) (bp : Breakpoint)
    → hits is_sf target bp ≡ true
    → (is_sf bp ≡ true) × (bp.addr ≡ target)
hits-both target bp h = (ground arith, ground arith)

hw_index-done :
    {S : Type 0} (env : Env S) (bps : Arr Breakpoint) (r : ℤ) (w : World S)
    → (lines : List Line) × (hw_index env bps r w ≡ done tt (record w { out = lines }))
unfolding hw_index
hw_index-done env bps (pos i) w = (_, refl)
hw_index-done env bps (negsuc n) w = (w.out, refl)

-- The places of the software breakpoints can be accessed.
abbrev pub AreMapped : {S : Type 0} → (S → Pid → ℕ → Bool) → Pid → Arr Breakpoint → S → Type 0
AreMapped mapped pid bps s =
    (i : ℕ)
    → i < bps.nelts
    → is_sf (bps.elts i) ≡ true
    → ((bps.elts i).addr < 2 ^ 64) × (mapped s pid (bps.elts i).addr ≡ true)

module _ {S : Type 0} (env : Env S) {mem : S → Pid → ℕ → ℕ} {mapped : S → Pid → ℕ → Bool}
    {code : ℕ → Bool} {text : ℕ → ℕ} (m : IsMemory env.kernel mem mapped)
    (still : IsStill env.kernel mem mapped code) where
  sf_index-Ran :
      (bps : Arr Breakpoint) (w : World S) (r : ℤ)
      → IsArmed mem code text w.dbug.pid bps w.os
      → AreMapped mapped w.dbug.pid bps w.os
      → IsFound (λ j. hits is_sf (trap_addr w.dbug.regs) (bps.elts j)) bps.nelts r
      → (s' : S) × (regs' : Regs) × (lines : List Line) × (let d = w.dbug in
          sf_index env bps r w
          ≡ done tt (record w { os = s'; dbug = record d { regs = regs' }; out = lines }))
        × Ran env.kernel mem mapped code text w.dbug.pid bps w.dbug.regs w.os s' regs'
        × IsArmed mem code text w.dbug.pid bps s'
        × ((a : ℕ) → mapped s' w.dbug.pid a ≡ mapped w.os w.dbug.pid a)
  unfolding sf_index
  sf_index-Ran bps w r armed places found = elim found [
    | inr (none_found, none_at) ↦ (
      w.os,
      w.dbug.regs,
      w.out,
      ap (λ i. sf_index env bps i w) none_found,
      inl (none_at, refl, refl),
      armed,
      λ a. refl,
    )
    | inl (i, at, below, hit, first) ↦
        let (kind, here) = hits-both _ (bps.elts i) hit in
        let (fits, ok) = places i below kind in
        let w1 : World S = record w {
          out = w.out ++ trigger (bps.elts i).addr (bps.elts i).name ∷ [];
        } in
        let (before, after, runs, st) =
          resume_int3_bp_next-Stepped env m (λ s p r a. stepped-mapped still p r s a) w.dbug.pid
            (bps.elts i) w.dbug.regs w1 kind fits ok in
        let first' : NoneAt bps i (bps.elts i).addr = subst (NoneAt bps i) (sym here) first in
        (
          after,
          (let r = w.dbug.regs in record r { rip = (bps.elts i).addr }),
          w1.out,
          ap (λ i. sf_index env bps i w) at
              ∙ then-done (λ (x : ℤ × Regs). set_dbug (let d = w.dbug in record d { regs = x.1 }))
                  runs,
          inr (
            i,
            before,
            below,
            hit,
            first,
            own_code env m still bps w.dbug.pid i w.dbug.regs w.os before after armed below kind
                first' st,
            refl,
          ),
          after-IsArmed env m still bps w.dbug.pid i w.dbug.regs w.os before after armed below kind
              st,
          Stepped-mapped still st,
        )
  ]

  pub on_trap-Ran :
      (bps : Arr Breakpoint) (w : World S)
      → IsArmed mem code text w.dbug.pid bps w.os
      → AreMapped mapped w.dbug.pid bps w.os
      → (s' : S) × (regs' : Regs) × (lines : List Line) × (let d = w.dbug in
          on_trap env bps w
          ≡ done (pos 0) (record w { os = s'; dbug = record d { regs = regs' }; out = lines }))
        × Ran env.kernel mem mapped code text w.dbug.pid bps w.dbug.regs w.os s' regs'
        × IsArmed mem code text w.dbug.pid bps s'
        × ((a : ℕ) → mapped s' w.dbug.pid a ≡ mapped w.os w.dbug.pid a)
  unfolding on_trap
  on_trap-Ran bps w armed places =
      let (s', regs', lines, runs, ran, armed', same) =
        sf_index-Ran bps w _ armed places (find_current_sf_bp-IsFound bps w.dbug.regs) in
      let w1 : World S =
        (let d = w.dbug in record w { os = s'; dbug = record d { regs = regs' }; out = lines }) in
      let (lines', runs') = hw_index-done env bps (find_current_hw_bp bps regs') w1 in
      (
        s',
        regs',
        lines',
        then-done
              (λ (_ : Unit {0}). do
                d ← get_dbug
                hw_index env bps (find_current_hw_bp bps d.regs)
                pure (pos 0))
              runs
            ∙ then-done (λ (_ : Unit {0}). pure (pos 0)) runs',
        ran,
        armed',
        same,
      )
