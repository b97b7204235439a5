-- ===== src/Blog/Soft/Traps.antt =====
-- The loop of blog/softbreak.c against the tracee's memory.
use test_dbug.Common.{
  ℕ, zero, suc, ◌+◌, ◌-◌, ◌/◌, ◌%◌, ◌^◌, ◌≤◌, ◌<◌, ◌≡◌, ◌≢◌, refl, sym, ap, subst, ◌∙◌, arith, Bool,
  true, false, List, [], ◌∷◌, ◌++◌, is_neg, Bool-cases, inl, inr, to_u64, le_bytes, bytes_at,
  bytes_at_ext, le_bytes-le_word,
}
use test_dbug.Output.{stop_at, pointer_line}
use test_dbug.Kernel.{Pid, Regs, Kernel, IsMemory}
use test_dbug.Mem.Write.{Wrote, Wrote-poke}
use test_dbug.Dbug.{int_3, wifexited}
use test_dbug.Command.Handlers.Armed.{IsStill, stepped-mem, stepped-mapped, Wrote-here, Wrote-there}
use test_dbug.Blog.{state_of, and_go-state_of}
use test_dbug.Blog.Break.{Tracer, one_step}
use test_dbug.Blog.Break.Traps.{IsTrapped, same-IsTrapped}
use test_dbug.Blog.Soft.{trap_word, with_word, soft_go, soft_stop, soft_round, soft_loop, soft_main}

-- The trap's word has the trap in its low byte, and the bytes of the old word above it.
le_bytes-trap_word : (orig : ℕ) → le_bytes 8 (trap_word orig) ≡ int_3 ∷ le_bytes 7 (orig / 256)
unfolding le_bytes
le_bytes-trap_word orig =
    let low : trap_word orig % 256 ≡ int_3 = omega arith in
    let high : trap_word orig / 256 ≡ orig / 256 = omega arith in rw (low, high) refl

-- The parts of a word that holds the program's bytes.
word_parts :
    (text : ℕ → ℕ) (bar orig : ℕ)
    → le_bytes 8 orig ≡ bytes_at text bar 8
    → (orig % 256 ≡ text bar) × (le_bytes 7 (orig / 256) ≡ bytes_at text (bar + 1) 7)
word_parts text bar orig e = (ap head_of h, ap tail_of h)
  where
    h : (orig % 256) ∷ le_bytes 7 (orig / 256) ≡ text bar ∷ bytes_at text (bar + 1) 7
    h = unfold le_bytes bytes_at in e

    head_of : List ℕ → ℕ
    head_of [] = 0
    head_of (x ∷ xs) = x

    tail_of : List ℕ → List ℕ
    tail_of [] = []
    tail_of (x ∷ xs) = xs

soft_go-os :
    {S : Type 0} (k : Kernel S) (pid bar : ℕ) (t : Tracer S)
    → (state_of (soft_go k pid bar t)).os ≡ (k.cont t.os pid).1
unfolding soft_go
soft_go-os k pid bar t = elim (Bool-cases (is_neg (k.cont t.os pid).0)) [
  | inl failed ↦ rw failed refl
  | inr ok ↦ rw ok refl
]

module _ {S : Type 0} (k : Kernel S) {mem : S → Pid → ℕ → ℕ} {mapped : S → Pid → ℕ → Bool}
    {code : ℕ → Bool} (m : IsMemory k mem mapped) (still : IsStill k mem mapped code) (text : ℕ → ℕ)
    (pid : Pid) (bar : ℕ) (fits : bar < 2 ^ 64)
    (in_code : (a : ℕ) → bar ≤ a → a < bar + 8 → code a ≡ true) where
  -- Where the code around the low byte is the program's, a word that differs from the program's at
  -- most in its low byte writes just that byte.
  word-Wrote :
      (s : S) (w b : ℕ)
      → mapped s pid bar ≡ true
      → ((a : ℕ) → code a ≡ true → a ≢ bar → mem s pid a ≡ text a)
      → le_bytes 8 w ≡ b ∷ bytes_at text (bar + 1) 7
      → Wrote mem mapped pid bar (b ∷ []) s (with_word k pid bar w s)
  word-Wrote s w b ok own e = Wrote-poke k m pid s bar w (b ∷ []) ok (omega arith) (
      e
      ∙ ap (λ bs. b ∷ bs)
          (sym (
            bytes_at_ext (mem s pid) text (bar + 1) 7
              (λ a p q. own a (in_code a (omega arith) (omega arith)) (ground arith)))))

  -- Setting the trap where the code is the program's own, with a word of the program's bytes.
  trap_word-IsTrapped :
      (s : S) (orig : ℕ)
      → mapped s pid bar ≡ true
      → ((a : ℕ) → code a ≡ true → a ≢ bar → mem s pid a ≡ text a)
      → le_bytes 8 orig ≡ bytes_at text bar 8
      → IsTrapped mem mapped code text pid bar (with_word k pid bar (trap_word orig) s)
  trap_word-IsTrapped s orig ok own is =
      let w =
        word-Wrote s (trap_word orig) int_3 ok own
          (le_bytes-trap_word orig ∙ ap (λ bs. int_3 ∷ bs) (word_parts text bar orig is).1) in
      record {
        can_access = w.same bar ∙ ok;
        trap = Wrote-here w;
        rest = λ a c ne. Wrote-there w a ne ∙ own a c ne;
      }

  soft_go-IsTrapped :
      (t : Tracer S)
      → IsTrapped mem mapped code text pid bar t.os
      → IsTrapped mem mapped code text pid bar (state_of (soft_go k pid bar t)).os
  soft_go-IsTrapped t h =
      subst (IsTrapped mem mapped code text pid bar) (sym (soft_go-os k pid bar t)) (
        same-IsTrapped k m still text pid bar fits (in_code bar (omega arith) (omega arith)) t.os
          (k.cont t.os pid).1 h (still.cont t.os pid) (still.cont_mapped t.os pid bar))

  module _ (orig : ℕ) (is : le_bytes 8 orig ≡ bytes_at text bar 8) where
    soft_stop-IsTrapped :
        (t : Tracer S)
        → IsTrapped mem mapped code text pid bar t.os
        → IsTrapped mem mapped code text pid bar (state_of (soft_stop k pid bar orig t)).os
    unfolding soft_stop
    soft_stop-IsTrapped t h =
        let w =
          word-Wrote t.os orig (text bar) h.can_access h.rest (is ∙ unfold bytes_at in refl) in
        let r = (k.getregs t.os pid t.regs).1 in
        let back : Regs = record r { rip = (r.rip + 2 ^ 64 - 1) % 2 ^ 64 } in
        let own = with_word k pid bar orig t.os in
        let ran = one_step k pid back own in
        soft_go-IsTrapped
          (record t {
            os = with_word k pid bar (trap_word orig) ran;
            regs = back;
            out = t.out ++ stop_at r.rip ∷ pointer_line bar ∷ [];
          })
          (trap_word-IsTrapped ran orig
            (stepped-mapped still pid back own bar ∙ w.same bar ∙ h.can_access)
            (λ a c ne. stepped-mem still pid back own a c ∙ Wrote-there w a ne ∙ h.rest a c ne) is)

    soft_round-IsTrapped :
        (t : Tracer S)
        → IsTrapped mem mapped code text pid bar t.os
        → IsTrapped mem mapped code text pid bar (state_of (soft_round k pid bar orig t)).os
    unfolding soft_round
    soft_round-IsTrapped t h =
        let (status, s) = k.wait t.os t.status in
        let waited : IsTrapped mem mapped code text pid bar s =
          same-IsTrapped k m still text pid bar fits (in_code bar (omega arith) (omega arith)) t.os
            s h (still.wait t.os pid t.status) (still.wait_mapped t.os pid t.status bar) in
        elim (Bool-cases (wifexited status)) [
          | inl exits ↦ rw exits waited
          | inr stops ↦ rw stops (soft_stop-IsTrapped (record t { os = s; status = status }) waited)
        ]

    soft_loop-IsTrapped :
        (n : ℕ) (t : Tracer S)
        → IsTrapped mem mapped code text pid bar t.os
        → IsTrapped mem mapped code text pid bar (state_of (soft_loop k pid bar orig n t)).os
    unfolding soft_loop
    soft_loop-IsTrapped zero t h = h
    soft_loop-IsTrapped (suc n) t h =
        and_go-state_of (λ (u : Tracer S). IsTrapped mem mapped code text pid bar u.os)
          (soft_round k pid bar orig t) (soft_loop k pid bar orig n) (soft_round-IsTrapped t h)
          (soft_loop-IsTrapped n)

  -- From a program that stands with its own code: over any number of rounds and however the loop ends,
  -- the code is as it was but for the trap at `bar`, although whole words are written.
  pub soft_main-IsTrapped :
      (n : ℕ) (t : Tracer S)
      → wifexited t.status ≡ false
      → mapped t.os pid bar ≡ true
      → ((a : ℕ) → code a ≡ true → mem t.os pid a ≡ text a)
      → IsTrapped mem mapped code text pid bar (state_of (soft_main k pid bar n t)).os
  unfolding soft_main
  soft_main-IsTrapped n t stands ok own =
      let orig = to_u64 (k.peektext t.os pid bar) in
      let t' : Tracer S = record t { os = with_word k pid bar (trap_word orig) t.os } in
      let is : le_bytes 8 orig ≡ bytes_at text bar 8 =
        ap (le_bytes 8) (m.peek_word t.os pid bar ok)
        ∙ le_bytes-le_word (mem t.os pid) (m.byte t.os pid) 8 8 bar (omega arith)
        ∙ bytes_at_ext (mem t.os pid) text bar 8 (λ a p q. own a (in_code a p q)) in
      rw stands (
        and_go-state_of (λ (u : Tracer S). IsTrapped mem mapped code text pid bar u.os)
          (soft_go k pid bar t') (soft_loop k pid bar orig n)
          (soft_go-IsTrapped t' (trap_word-IsTrapped t.os orig ok (λ a c ne. own a c) is))
          (soft_loop-IsTrapped orig is n))
