-- ===== src/Command/Handlers/Break.antt =====
-- `command_break`: the breakpoint of a function.
use test_dbug.Common.{
  ℕ, suc, ◌+◌, ◌-◌, ◌%◌, ◌^◌, ◌<◌, ◌≡◌, sym, ap, subst, ◌∙◌, arith, Bool, true, [], ◌∷◌, ◌++◌, some,
  ◌⊎◌, inl, inr, ℤ, pos, minus_one, ◌==◌, get_elem?, Text,
}
use test_dbug.Output.{break_at}
use test_dbug.Kernel.{Pid, IsMemory}
use test_dbug.Mem.Write.{Wrote}
use test_dbug.Elf.Functions.{FuncOrg, FunArr}
use test_dbug.Elf.Lookup.{find_func, HasNames, NoMatch, find_func-Answers, name_at-get_elem?}
use test_dbug.Session.{
  Breakpoint, Str, Arr, put, put_self, put_other, nelts-put, Ngx, Env, World, Outcome, done,
  then-done, then-deref, then-call_ngx, call_ngx, deref, ◌>>=◌,
}
use test_dbug.Dbug.{is_sf, int_3}
use test_dbug.Dbug.Insert.{code_byte, insert_int3_bp-Wrote}
use test_dbug.Command.Handlers.{store_last, fill_last, add_breakpoint, break_index, command_break}
use test_dbug.Command.Handlers.Armed.{IsArmed, IsArmed-push, IsArmed-same}

-- What the array of breakpoints promises while memory lasts; a push does not reach the tracee.
pub record IsRoomyBps {S : Type 0} (ngx : Ngx S) (mem : S → Pid → ℕ → ℕ)
    (mapped : S → Pid → ℕ → Bool) : Type 0 where
  pub push :
      (s : S) (a : Arr Breakpoint)
      → (b : Arr Breakpoint) × (s' : S) × (ngx.push_bp s a ≡ some (b, s'))
        × (b.nelts ≡ a.nelts + 1)
        × ((i : ℕ) → i < a.nelts → b.elts i ≡ a.elts i)
        × ((p : Pid) (c : ℕ) → mem s' p c ≡ mem s p c)
        × ((p : Pid) (c : ℕ) → mapped s' p c ≡ mapped s p c)

-- How a session goes on after a breakpoint was added: the table has one software breakpoint more,
-- with the name and the address of the function, the invariant holds, and the same memory can be
-- accessed.
abbrev pub Added :
    {S : Type 0} (mem : S → Pid → ℕ → ℕ) (mapped : S → Pid → ℕ → Bool) (code : ℕ → Bool)
    (text : ℕ → ℕ)
    → FuncOrg
    → World S
    → Arr Breakpoint
    → Outcome S ℤ
    → Type 0
Added {S} mem mapped code text f w a result =
    (b : Arr Breakpoint) × (s' : S) × (let d = w.dbug in
      result
      ≡ done (pos 0) (record w {
        os = s';
        dbug = record d { bps = some b };
        out = w.out ++ break_at f.addr f.name ∷ [];
      }))
    × (b.nelts ≡ suc a.nelts)
    × ((i : ℕ) → i < a.nelts → b.elts i ≡ a.elts i)
    × (is_sf (b.elts a.nelts) ≡ true)
    × ((b.elts a.nelts).addr ≡ f.addr)
    × ((b.elts a.nelts).name ≡ f.name)
    × IsArmed mem code text w.dbug.pid b s'
    × ((c : ℕ) → mapped s' w.dbug.pid c ≡ mapped w.os w.dbug.pid c)

module _ {S : Type 0} (env : Env S) {mem : S → Pid → ℕ → ℕ} {mapped : S → Pid → ℕ → Bool}
    {code : ℕ → Bool} {text : ℕ → ℕ} (m : IsMemory env.kernel mem mapped)
    (roomy : IsRoomyBps env.ngx mem mapped) where
  pub add_breakpoint-Added :
      (f : FuncOrg) (w : World S) (a : Arr Breakpoint)
      → w.dbug.bps ≡ some a
      → IsArmed mem code text w.dbug.pid a w.os
      → f.addr < 2 ^ 64
      → mapped w.os w.dbug.pid f.addr ≡ true
      → code f.addr ≡ true
      → Added mem mapped code text f w a (add_breakpoint env f w)
  unfolding add_breakpoint
  add_breakpoint-Added f w a is armed fits ok in_code =
      let (b, s, pushed, count, old, same_mem, same_mapped) = roomy.push w.os a in
      let w1 : World S = record w { os = s } in
      let slot = b.elts (b.nelts - 1) in
      let bp : Breakpoint = record slot { name = f.name; addr = f.addr } in
      let (bp', s', runs, kind, addr, name, byte, wrote) =
        insert_int3_bp-Wrote env m w.dbug.pid bp w1 fits (same_mapped w.dbug.pid f.addr ∙ ok) in
      let last : b.nelts - 1 ≡ a.nelts = omega arith in
      let new : (put b (b.nelts - 1) bp').elts a.nelts ≡ bp' =
        ap (λ i. (put b i bp').elts a.nelts) last ∙ put_self b a.nelts bp' in
      let others : (i : ℕ) → i < a.nelts → (put b (b.nelts - 1) bp').elts i ≡ a.elts i =
        λ i below. put_other b (b.nelts - 1) bp' i (omega arith) ∙ old i below in
      let size : (put b (b.nelts - 1) bp').nelts ≡ suc a.nelts =
        nelts-put b (b.nelts - 1) bp' ∙ omega arith in
      let is_soft : is_sf ((put b (b.nelts - 1) bp').elts a.nelts) ≡ true =
        ap is_sf new ∙ ap (λ (t : ℕ). t % 2 == 1) kind in
      (
        put b (b.nelts - 1) bp',
        s',
        then-deref w (λ bps. call_ngx (λ s. env.ngx.push_bp s bps) >>= fill_last env f) is
            ∙ then-call_ngx w (fill_last env f) (λ s. env.ngx.push_bp s a) pushed
            ∙ then-done (λ (r, bp). store_last env b bp) runs,
        size,
        others,
        is_soft,
        ap (λ x. x.addr) new ∙ addr,
        ap (λ x. x.name) new ∙ name,
        IsArmed-push a (put b (b.nelts - 1) bp')
            (IsArmed-same a armed (λ c in_c. same_mem w.dbug.pid c)) size others is_soft
            (ap (λ x. code x.addr) new ∙ ap code addr ∙ in_code)
            (ap code_byte new ∙ byte ∙ ap (mem s w.dbug.pid) (sym (ap (λ x. x.addr) new ∙ addr)))
            (subst (λ c. Wrote mem mapped w.dbug.pid c (int_3 ∷ []) s s')
              (sym (ap (λ x. x.addr) new ∙ addr)) wrote),
        λ c. wrote.same c ∙ same_mapped w.dbug.pid c,
      )

  -- With a table of named functions whose addresses are code that can be accessed, `b word` either
  -- returns -1 and changes nothing, where no function's name begins with the word, or it sets a
  -- breakpoint at the first function whose name does; the invariant is kept.
  pub command_break-Added :
      (cmds : Arr Str) (w : World S) (a : Arr Breakpoint) (funs : FunArr) (word : Text)
      → w.dbug.bps ≡ some a
      → w.dbug.funs ≡ some funs
      → (cmds.elts 1).chars ≡ some word
      → HasNames funs.size funs.items
      → IsArmed mem code text w.dbug.pid a w.os
      → ((j : ℕ) (f : FuncOrg)
          → j < funs.size
          → get_elem? funs.items j ≡ some f
          → (f.addr < 2 ^ 64) × (mapped w.os w.dbug.pid f.addr ≡ true) × (code f.addr ≡ true))
      → ((command_break env cmds w ≡ done minus_one w) × NoMatch word funs.items funs.size)
        ⊎ ((j : ℕ) × (f : FuncOrg) × (rest : Text) × (j < funs.size)
            × (get_elem? funs.items j ≡ some f)
            × (f.name ≡ some (word ++ rest))
            × NoMatch word funs.items j
            × Added mem mapped code text f w a (command_break env cmds w))
  unfolding command_break break_index
  command_break-Added cmds w a funs word is_bps is_funs is_word names armed places =
      let (r, found, answer) = find_func-Answers funs word names in
      let searched : find_func w.dbug.funs (cmds.elts 1).chars ≡ some r =
        ap (λ t. find_func t (cmds.elts 1).chars) is_funs
        ∙ ap (find_func (some funs)) is_word
        ∙ found in
      let enters : command_break env cmds w ≡ break_index env r w =
        then-deref w (break_index env) searched in
      elim answer [
        | inr (none_found, no_match) ↦
            inl (enters ∙ ap (λ i. break_index env i w) none_found, no_match)
        | inl (j, rest, at, below, here, before) ↦
            let (f, is_f, name) = name_at-get_elem? funs.items j here in
            let (fits, ok, in_code) = places j f below is_f in
            let index : r ≡ pos j = at ∙ ap pos (omega arith) in
            let runs : command_break env cmds w ≡ add_breakpoint env f w =
              enters
              ∙ ap (λ i. break_index env i w) index
              ∙ then-deref w (λ t. deref (get_elem? t.items j) >>= add_breakpoint env) is_funs
              ∙ then-deref w (add_breakpoint env) is_f in
            inr (
              j,
              f,
              rest,
              below,
              is_f,
              name,
              before,
              subst (Added mem mapped code text f w a) (sym runs)
                  (add_breakpoint-Added f w a is_bps armed fits ok in_code),
            )
      ]
