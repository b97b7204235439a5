-- ===== src/Blog/Break/Traps.antt =====
-- The loop of blog/dbug_break.c against the tracee's memory.
use test_dbug.Common.{
  ℕ, zero, suc, ◌+◌, ◌-◌, ◌%◌, ◌^◌, ◌<◌, ◌≡◌, ◌≢◌, refl, sym, ap, subst, ◌∙◌, arith, Bool, true, [],
  ◌∷◌, ◌++◌, is_neg, Bool-cases, inl, inr, bytes_at,
}
use test_dbug.Output.{stop_at}
use test_dbug.Kernel.{Pid, Regs, Kernel, IsMemory}
use test_dbug.Mem.{read_pro_mem, write_pro_mem}
use test_dbug.Mem.Read.{read_pro_mem-bytes_at}
use test_dbug.Mem.Write.{Wrote, write_pro_mem-Wrote}
use test_dbug.Dbug.{int_3, wifexited}
use test_dbug.Command.Handlers.Armed.{IsStill, stepped-mem, stepped-mapped, Wrote-here, Wrote-there}
use test_dbug.Blog.{state_of, and_go-state_of}
use test_dbug.Blog.Break.{
  Tracer, go_on, with_own_code, with_trap, one_step, break_stop, break_round, break_loop,
  break_at_addr, first_byte,
}

-- The tracee's code is the program's own but for a trap at one address, which can be accessed.
pub record IsTrapped {S : Type 0} (mem : S → Pid → ℕ → ℕ) (mapped : S → Pid → ℕ → Bool)
    (code : ℕ → Bool) (text : ℕ → ℕ) (pid : Pid) (addr : ℕ) (s : S) : Type 0 where
  pub can_access : mapped s pid addr ≡ true
  pub trap : mem s pid addr ≡ int_3
  pub rest : (a : ℕ) → code a ≡ true → a ≢ addr → mem s pid a ≡ text a

module _ {S : Type 0} (k : Kernel S) {mem : S → Pid → ℕ → ℕ} {mapped : S → Pid → ℕ → Bool}
    (m : IsMemory k mem mapped) (pid : Pid) (addr : ℕ) (fits : addr < 2 ^ 64) where
  one-Wrote :
      (b : ℕ) (s : S)
      → b < 256
      → mapped s pid addr ≡ true
      → Wrote mem mapped pid addr (b ∷ []) s (write_pro_mem k pid addr (b ∷ []) 1 s).1
  one-Wrote b s small ok =
      (write_pro_mem-Wrote k m pid addr 1 (b ∷ []) s (omega arith) (small, tt) (omega arith)
        (λ a above below. let same : a ≡ addr = omega arith in rw same ok)).1

  -- The byte that the program keeps is the one that was there.
  first_byte-mem :
      (s : S)
      → mapped s pid addr ≡ true
      → first_byte (read_pro_mem k pid addr (0 ∷ []) 1 s).1 ≡ mem s pid addr
  unfolding bytes_at
  first_byte-mem s ok =
      ap (λ r. first_byte r.1)
        (read_pro_mem-bytes_at k m pid s addr 1 (0 ∷ []) (omega arith)
          (λ a above below. let same : a ≡ addr = omega arith in rw same ok))

go_on-os :
    {S : Type 0} (k : Kernel S) (pid : Pid) (t : Tracer S)
    → (state_of (go_on k pid t)).os ≡ (k.cont t.os pid).1
unfolding go_on
go_on-os k pid t = elim (Bool-cases (is_neg (k.cont t.os pid).0)) [
  | inl failed ↦ rw failed refl
  | inr ok ↦ rw ok refl
]

module _ {S : Type 0} (k : Kernel S) {mem : S → Pid → ℕ → ℕ} {mapped : S → Pid → ℕ → Bool}
    {code : ℕ → Bool} (m : IsMemory k mem mapped) (still : IsStill k mem mapped code) (text : ℕ → ℕ)
    (pid : Pid) (addr : ℕ) (fits : addr < 2 ^ 64) (in_code : code addr ≡ true) where
  pub same-IsTrapped :
      (s s' : S)
      → IsTrapped mem mapped code text pid addr s
      → ((a : ℕ) → code a ≡ true → mem s' pid a ≡ mem s pid a)
      → mapped s' pid addr ≡ mapped s pid addr
      → IsTrapped mem mapped code text pid addr s'
  same-IsTrapped s s' h same keeps = record {
    can_access = keeps ∙ h.can_access;
    trap = same addr in_code ∙ h.trap;
    rest = λ a c ne. same a c ∙ h.rest a c ne;
  }

  go_on-IsTrapped :
      (t : Tracer S)
      → IsTrapped mem mapped code text pid addr t.os
      → IsTrapped mem mapped code text pid addr (state_of (go_on k pid t)).os
  go_on-IsTrapped t h = subst (IsTrapped mem mapped code text pid addr) (sym (go_on-os k pid t)) (
      same-IsTrapped t.os (k.cont t.os pid).1 h (still.cont t.os pid)
        (still.cont_mapped t.os pid addr))

  -- Setting the trap where the code is the program's own.
  with_trap-IsTrapped :
      (s : S)
      → mapped s pid addr ≡ true
      → ((a : ℕ) → code a ≡ true → a ≢ addr → mem s pid a ≡ text a)
      → IsTrapped mem mapped code text pid addr (with_trap k pid addr s)
  with_trap-IsTrapped s ok own =
      let w = one-Wrote k m pid addr fits int_3 s (omega arith) ok in
      record {
        can_access = w.same addr ∙ ok;
        trap = Wrote-here w;
        rest = λ a c ne. Wrote-there w a ne ∙ own a c ne;
      }

  module _ (orig : ℕ) (small : orig < 256) where
    break_stop-IsTrapped :
        (t : Tracer S)
        → IsTrapped mem mapped code text pid addr t.os
        → IsTrapped mem mapped code text pid addr (state_of (break_stop k pid addr orig t)).os
    unfolding break_stop
    break_stop-IsTrapped t h =
        let w = one-Wrote k m pid addr fits orig t.os small h.can_access in
        let r = (k.getregs t.os pid t.regs).1 in
        let back : Regs = record r { rip = (r.rip + 2 ^ 64 - 1) % 2 ^ 64 } in
        let own = with_own_code k pid addr orig t.os in
        go_on-IsTrapped
          (record t {
            os = with_trap k pid addr (one_step k pid back own);
            regs = back;
            out = t.out ++ stop_at r.rip ∷ [];
          })
          (with_trap-IsTrapped (one_step k pid back own)
            (stepped-mapped still pid back own addr ∙ w.same addr ∙ h.can_access)
            (λ a c ne. stepped-mem still pid back own a c ∙ Wrote-there w a ne ∙ h.rest a c ne))

    break_round-IsTrapped :
        (t : Tracer S)
        → IsTrapped mem mapped code text pid addr t.os
        → IsTrapped mem mapped code text pid addr (state_of (break_round k pid addr orig t)).os
    unfolding break_round
    break_round-IsTrapped t h =
        let (status, s) = k.wait t.os t.status in
        let waited : IsTrapped mem mapped code text pid addr s =
          same-IsTrapped t.os s h (still.wait t.os pid t.status)
            (still.wait_mapped t.os pid t.status addr) in
        elim (Bool-cases (wifexited status)) [
          | inl exits ↦ rw exits waited
          | inr stops ↦
              rw stops (break_stop-IsTrapped (record t { os = s; status = status }) waited)
        ]

    pub break_loop-IsTrapped :
        (n : ℕ) (t : Tracer S)
        → IsTrapped mem mapped code text pid addr t.os
        → IsTrapped mem mapped code text pid addr (state_of (break_loop k pid addr orig n t)).os
    unfolding break_loop
    break_loop-IsTrapped zero t h = h
    break_loop-IsTrapped (suc n) t h =
        and_go-state_of (λ (u : Tracer S). IsTrapped mem mapped code text pid addr u.os)
          (break_round k pid addr orig t) (break_loop k pid addr orig n) (break_round-IsTrapped t h)
          (break_loop-IsTrapped n)

    -- A stop one byte behind the trap, where `orig` is the program's byte: the instruction runs at the
    -- trap's address, from a state with the program's byte there and the rest as at the stop, and the
    -- trap is written again before the program goes on.
    pub break_stop-Wrote :
        (t : Tracer S)
        → IsTrapped mem mapped code text pid addr t.os
        → orig ≡ text addr
        → (k.getregs t.os pid t.regs).1.rip ≡ addr + 1
        → (before after : S) × (let r = (k.getregs t.os pid t.regs).1 in
            break_stop k pid addr orig t
            ≡ go_on k pid (record t {
              os = after;
              regs = record r { rip = addr };
              out = t.out ++ stop_at (addr + 1) ∷ [];
            }))
          × (mem before pid addr ≡ text addr)
          × ((a : ℕ) → a ≢ addr → mem before pid a ≡ mem t.os pid a)
          × (let r = (k.getregs t.os pid t.regs).1 in
              Wrote mem mapped pid addr
                (int_3 ∷ [])
                (one_step k pid (record r { rip = addr }) before)
                after)
    break_stop-Wrote t h is_text at =
        let w = one-Wrote k m pid addr fits orig t.os small h.can_access in
        let r = (k.getregs t.os pid t.regs).1 in
        let back : Regs = record r { rip = addr } in
        let own = with_own_code k pid addr orig t.os in
        let ran = one_step k pid back own in
        (
          own,
          with_trap k pid addr ran,
          unfold break_stop in rw (at, back_one) refl,
          Wrote-here w ∙ is_text,
          λ a ne. Wrote-there w a ne,
          one-Wrote k m pid addr fits int_3 ran (omega arith)
              (stepped-mapped still pid back own addr ∙ w.same addr ∙ h.can_access),
        )
      where
        back_one : (addr + 1 + 2 ^ 64 - 1) % 2 ^ 64 ≡ addr
        back_one = omega arith

  -- From a stopped program with its own code, in which the address lies: the loop, over any number of
  -- rounds and however it ends, leaves the code as it was but for the trap.
  pub break_at_addr-IsTrapped :
      (n : ℕ) (t : Tracer S)
      → mapped t.os pid addr ≡ true
      → ((a : ℕ) → code a ≡ true → mem t.os pid a ≡ text a)
      → IsTrapped mem mapped code text pid addr (state_of (break_at_addr k pid addr n t)).os
  unfolding break_at_addr
  break_at_addr-IsTrapped n t ok own =
      let set = with_trap-IsTrapped t.os ok (λ a c ne. own a c) in
      let t' : Tracer S = record t { os = with_trap k pid addr t.os } in
      let orig = first_byte (read_pro_mem k pid addr (0 ∷ []) 1 t.os).1 in
      let small : orig < 256 =
        subst (λ (b : ℕ). b < 256) (sym (first_byte-mem k m pid addr fits t.os ok))
          (m.byte t.os pid addr) in
      and_go-state_of (λ (u : Tracer S). IsTrapped mem mapped code text pid addr u.os)
        (go_on k pid t') (break_loop k pid addr orig n) (go_on-IsTrapped t' set)
        (break_loop-IsTrapped orig small n)
