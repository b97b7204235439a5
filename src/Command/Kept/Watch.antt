-- ===== src/Command/Kept/Watch.antt =====
-- The invariant over `command_watch`.
use test_dbug.Common.{
  ℕ, ◌+◌, ◌-◌, ◌≤◌, ◌<◌, ◌≡◌, refl, sym, ap, subst, ◌∙◌, arith, Bool, true, false, [], ◌∷◌, ◌++◌,
  some, pos, Text,
}
use native.Mathlib.Decide.{ℕ_discrete}
use test_dbug.Output.{watch_at}
use test_dbug.Kernel.{Pid}
use test_dbug.Session.{
  Breakpoint, Str, Arr, put, put_self, put_other, nelts-put, Env, World, then-done, then-deref,
  then-call_ngx, call_ngx, deref, ◌>>=◌,
}
use test_dbug.Dbug.{hwbp, is_sf}
use test_dbug.Dbug.Insert.{code_byte}
use test_dbug.Dbug.Find.{hits}
use test_dbug.Dbug.Watch.{insert_hard_break-done, poked}
use test_dbug.Command.Handlers.{command_watch, scan_addr, watch_last}
use test_dbug.Command.Handlers.Armed.{NoneAt, IsArmed, IsStill, IsArmed-same}
use test_dbug.Command.Handlers.Break.{IsRoomyBps}
use test_dbug.Command.Handlers.Watch.{store_watch, watch_last-store}
use test_dbug.Command.Kept.{IsSession, IsSession-table, Goes}

module _ {S : Type 0} {mem : S → Pid → ℕ → ℕ} {code : ℕ → Bool} {text : ℕ → ℕ} {pid : Pid}
    (a b : Arr Breakpoint) (s : S) (h : IsArmed mem code text pid a s)
    (count : b.nelts ≡ a.nelts + 1) (old : (i : ℕ) → i < a.nelts → b.elts i ≡ a.elts i)
    (other : is_sf (b.elts a.nelts) ≡ false) where
  soft_below : (i : ℕ) → i < b.nelts → is_sf (b.elts i) ≡ true → i < a.nelts
  soft_below i p q = elim (ℕ_discrete i a.nelts) [
    | yes new ↦
        let clash : true ≡ false = sym q ∙ ap (λ j. is_sf (b.elts j)) new ∙ other in
        absurd (cc clash)
    | no before ↦ omega arith
  ]

  -- A breakpoint of another kind behind those of the table changes nothing.
  IsArmed-push_other : IsArmed mem code text pid b s
  IsArmed-push_other =
      let kind : (i : ℕ) → i < a.nelts → is_sf (b.elts i) ≡ true → is_sf (a.elts i) ≡ true =
        λ i p q. ap is_sf (sym (old i p)) ∙ q in
      let none_old : (n c : ℕ) → n ≤ a.nelts → NoneAt b n c → NoneAt a n c =
        λ n c le none_at j q. ap (hits is_sf c) (sym (old j (omega arith))) ∙ none_at j q in
      record {
        inside = λ i p q.
            let r = soft_below i p q in ap (λ x. code x.addr) (old i r) ∙ h.inside i r (kind i r q);
        trap = λ i p q.
            let r = soft_below i p q in
            ap (λ x. mem s pid x.addr) (old i r) ∙ h.trap i r (kind i r q);
        kept = λ i p q none_at.
            let r = soft_below i p q in
            ap code_byte (old i r)
            ∙ h.kept i r (kind i r q) (
                subst (λ x. NoneAt a i x.addr) (old i r)
                  (none_old i (b.elts i).addr (omega arith) none_at))
            ∙ ap (λ x. text x.addr) (sym (old i r));
        rest = λ c in_c none_at.
            h.rest c in_c (none_old a.nelts c (omega arith) (λ j q. none_at j (omega arith)));
      }

module _ {S : Type 0} (env : Env S) {mem : S → Pid → ℕ → ℕ} {mapped : S → Pid → ℕ → Bool}
    {code : ℕ → Bool} {text : ℕ → ℕ} (still : IsStill env.kernel mem mapped code)
    (roomy : IsRoomyBps env.ngx mem mapped) where
  -- With a word to read, `watch` keeps the invariant, whether or not the word is a number and the
  -- debug registers can be set.
  pub command_watch-Goes :
      (cmds : Arr Str) (w : World S) (h : IsSession mem mapped code text w) (word : Text)
      → (cmds.elts 1).chars ≡ some word
      → Goes mem mapped code text (command_watch env cmds w)
  unfolding command_watch
  command_watch-Goes cmds w h word is_word =
      let a = h.table in
      let (b, s, pushed, count, old, same_mem, same_mapped) = roomy.push w.os a in
      let slot = b.elts (b.nelts - 1) in
      let bp = scan_addr word slot in
      let w1 : World S = record w { os = s } in
      let w2 : World S = record w { os = s; out = w.out ++ watch_at bp.addr ∷ [] } in
      let (lines, runs) = insert_hard_break-done env w.dbug.pid bp w2 in
      let c : Arr Breakpoint = put b (b.nelts - 1) (record bp { type = hwbp }) in
      let last : b.nelts - 1 ≡ a.nelts = omega arith in
      let new : c.elts a.nelts ≡ record bp { type = hwbp } =
        ap (λ i. (put b i (record bp { type = hwbp })).elts a.nelts) last
        ∙ put_self b a.nelts (record bp { type = hwbp }) in
      let s0 = (env.kernel.pokeuser s w.dbug.pid 0 bp.addr).1 in
      let s' = poked env.kernel w.dbug.pid bp.addr s in
      let enters : command_watch env cmds w
          ≡ store_watch w.dbug b (pos 0, record bp { type = hwbp })
              (record w { os = s'; out = lines }) =
        then-deref w
          (λ bps.
            call_ngx (λ s. env.ngx.push_bp s bps)
            >>= (λ b. deref (cmds.elts 1).chars >>= watch_last env b))
          h.is_table
        ∙ then-call_ngx w (λ b. deref (cmds.elts 1).chars >>= watch_last env b)
            (λ s. env.ngx.push_bp s a) pushed
        ∙ then-deref w1 (watch_last env b) is_word
        ∙ watch_last-store env b word w1 refl
        ∙ then-done (store_watch w.dbug b) runs in
      let same : (e : ℕ) → code e ≡ true → mem s' w.dbug.pid e ≡ mem w.os w.dbug.pid e = λ e in_c.
        still.pokeuser s0 w.dbug.pid 7 3 e in_c
        ∙ still.pokeuser s w.dbug.pid 0 bp.addr e in_c
        ∙ same_mem w.dbug.pid e in
      subst (Goes mem mapped code text) (sym enters) (
        IsSession-table w h c s' lines
          (IsArmed-push_other a c s' (IsArmed-same a h.armed same)
            (nelts-put b (b.nelts - 1) (record bp { type = hwbp }) ∙ count)
            (λ i below.
              put_other b (b.nelts - 1) (record bp { type = hwbp }) i (omega arith) ∙ old i below)
            (ap is_sf new))
          (λ e.
            still.pokeuser_mapped s0 w.dbug.pid 7 3 e
            ∙ still.pokeuser_mapped s w.dbug.pid 0 bp.addr e
            ∙ same_mapped w.dbug.pid e))
