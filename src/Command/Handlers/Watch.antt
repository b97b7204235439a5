-- ===== src/Command/Handlers/Watch.antt =====
-- `command_watch`: a hardware breakpoint at an address.
use test_dbug.Common.{
  ℕ, ◌+◌, ◌-◌, ◌<◌, ◌≡◌, refl, ap, ◌∙◌, arith, Bool, false, [], ◌∷◌, ◌++◌, some, ℤ, pos, is_neg,
  Text, sscanf_lx,
}
use test_dbug.Output.{watch_at}
use test_dbug.Kernel.{Pid}
use test_dbug.Session.{
  Breakpoint, Str, Arr, put, put_self, put_other, nelts-put, Dbug, Env, World, done, Cmd, pure,
  set_dbug, then-done, then-deref, then-call_ngx, call_ngx, deref, ◌>>=◌, ◌>>◌,
}
use test_dbug.Dbug.{hwbp, insert_hard_break}
use test_dbug.Dbug.Watch.{IsDebugRegs, insert_hard_break_lem}
use test_dbug.Command.Handlers.{scan_addr, watch_last, command_watch}
use test_dbug.Command.Handlers.Break.{IsRoomyBps}

-- The end of the handler.
abbrev pub store_watch : {S : Type 0} → Dbug → Arr Breakpoint → ℤ × Breakpoint → Cmd S ℤ
store_watch d bps (r, bp) =
    set_dbug (record d { bps = some (put bps (bps.nelts - 1) bp) }) >> pure (pos 0)

module _ {S : Type 0} (env : Env S) where
  pub watch_last-store :
      (bps : Arr Breakpoint) (word : Text) (w : World S) {bp : Breakpoint}
      → scan_addr word (bps.elts (bps.nelts - 1)) ≡ bp
      → watch_last env bps word w
        ≡ (insert_hard_break env w.dbug.pid bp >>= store_watch w.dbug bps)
            (record w { out = w.out ++ watch_at bp.addr ∷ [] })
  unfolding watch_last
  watch_last-store bps word w e =
      ap
        (λ (x : Breakpoint).
          (insert_hard_break env w.dbug.pid x >>= store_watch w.dbug bps)
            (record w { out = w.out ++ watch_at x.addr ∷ [] }))
        e

module _ {S : Type 0} (env : Env S) {dr : S → Pid → ℕ → ℕ} {mem : S → Pid → ℕ → ℕ}
    {mapped : S → Pid → ℕ → Bool} (h : IsDebugRegs env.kernel dr)
    (roomy : IsRoomyBps env.ngx mem mapped) where
  -- Where no poke fails, `watch` with a number in hexadecimal returns 0, puts a hardware breakpoint at
  -- that address behind those of the table, and leaves the address in debug register 0, which alone is
  -- enabled.
  pub command_watch_lem :
      (cmds : Arr Str) (w : World S) (a : Arr Breakpoint) (word : Text) (num : ℕ)
      → w.dbug.bps ≡ some a
      → (cmds.elts 1).chars ≡ some word
      → sscanf_lx word ≡ some num
      → ((s : S) (n v : ℕ) → is_neg (env.kernel.pokeuser s w.dbug.pid n v).0 ≡ false)
      → (b : Arr Breakpoint) × (s' : S) × (let d = w.dbug in
          command_watch env cmds w
          ≡ done (pos 0) (record w {
            os = s';
            dbug = record d { bps = some b };
            out = w.out ++ watch_at num ∷ [];
          }))
        × (b.nelts ≡ a.nelts + 1)
        × ((i : ℕ) → i < a.nelts → b.elts i ≡ a.elts i)
        × ((b.elts a.nelts).addr ≡ num)
        × ((b.elts a.nelts).type ≡ hwbp)
        × (dr s' w.dbug.pid 0 ≡ num)
        × (dr s' w.dbug.pid 7 ≡ 3)
  unfolding command_watch
  command_watch_lem cmds w a word num is is_word scans ok =
      let (b, s, pushed, count, old, same_mem, same_mapped) = roomy.push w.os a in
      let slot = b.elts (b.nelts - 1) in
      let bp : Breakpoint = record slot { addr = num } in
      let scanned : scan_addr word slot ≡ bp = unfold scan_addr in rw (scans, scan_addr) refl in
      let w1 : World S = record w { os = s } in
      let w2 : World S = record w { os = s; out = w.out ++ watch_at num ∷ [] } in
      let (s', runs, dr0, dr7, others) =
        insert_hard_break_lem env h w.dbug.pid bp w2 (ok _ _ _) (ok _ _ _) in
      let c : Arr Breakpoint = put b (b.nelts - 1) (record bp { type = hwbp }) in
      let last : b.nelts - 1 ≡ a.nelts = omega arith in
      let new : c.elts a.nelts ≡ record bp { type = hwbp } =
        ap (λ i. (put b i (record bp { type = hwbp })).elts a.nelts) last
        ∙ put_self b a.nelts (record bp { type = hwbp }) in
      (
        c,
        s',
        then-deref w
              (λ bps.
                call_ngx (λ s. env.ngx.push_bp s bps)
                >>= (λ b. deref (cmds.elts 1).chars >>= watch_last env b))
              is
            ∙ then-call_ngx w (λ b. deref (cmds.elts 1).chars >>= watch_last env b)
                (λ s. env.ngx.push_bp s a) pushed
            ∙ then-deref w1 (watch_last env b) is_word
            ∙ watch_last-store env b word w1 scanned
            ∙ then-done (store_watch w.dbug b) runs,
        nelts-put b (b.nelts - 1) (record bp { type = hwbp }) ∙ count,
        λ i below.
            put_other b (b.nelts - 1) (record bp { type = hwbp }) i (omega arith) ∙ old i below,
        ap (λ x. x.addr) new,
        ap (λ x. x.type) new,
        dr0,
        dr7,
      )
