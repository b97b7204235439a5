-- ===== src/Command/Safe/Lines.antt =====
-- The loop of `main` on lines of commands.
use test_dbug.Common.{
  List, [], Text, ℕ, zero, suc, ◌≡◌, refl, sym, ap, subst, ◌∙◌, Bool, true, none, some, arith,
}
use test_dbug.Kernel.{Pid}
use test_dbug.Elf.Open.{open_funs}
use test_dbug.Session.{
  Breakpoint, Str, Arr, Outcome, done, exited, replaced, unread, fault, Cmd, and_then, then-done,
  Env, World,
}
use test_dbug.Command.Read.Slots.{IsRoomy}
use test_dbug.Command.Handlers.Break.{IsRoomyBps}
use test_dbug.Command.Play.{main_round, main_rounds, main}
use test_dbug.Command.Kept.Main.{IsFresh, init_dbug-empty}
use test_dbug.Command.Safe.{IsSane, Works, Grows, Grows-refl, Grows-trans}
use test_dbug.Command.Safe.Words.{line_words, words_then, are_full, lines_left}
use test_dbug.Command.Safe.Slots.{Keeps}
use test_dbug.Command.Safe.Round.{round_of_words}

-- What `Works` says, for whatever array of words the session then has.
abbrev pub Runs :
    {S A : Type 0}
    → Env S
    → (Arr Breakpoint → Arr Breakpoint → Type 0)
    → Arr Breakpoint
    → Text
    → Outcome S A
    → Type 0
Runs env R a input (done x w) =
    (b : Arr Str) × (h : IsSane b w.dbug) × (w.input ≡ input) × R a h.table
Runs env R a input (exited n w) = n ≡ 0
Runs env R a input (replaced w) = Unit
Runs env R a input (unread w) = open_funs (env.files w.os) w.dbug.pid ≡ none
Runs env R a input fault = ⊥

Runs-grown :
    {S A : Type 0} (env : Env S) {a b : Arr Breakpoint} (rest : Text) (o : Outcome S A)
    → Grows a b
    → Runs env Grows b rest o
    → Runs env Grows a rest o
Runs-grown env rest (done x w) grows (c, sane, same, more) =
    (c, sane, same, Grows-trans _ sane.table grows more)
Runs-grown env rest (exited n w) grows h = h
Runs-grown env rest (replaced w) grows h = h
Runs-grown env rest (unread w) grows h = h
Runs-grown env rest fault grows h = h

Runs-then :
    {S A B : Type 0} (env : Env S) (b : Arr Str) (a : Arr Breakpoint) {input : Text} (rest : Text)
    (o : Outcome S A) (k : A → Cmd S B)
    → Works env b Grows a input o
    → ((x : A) (w : World S) (h : IsSane b w.dbug)
        → w.input ≡ input
        → Runs env Grows h.table rest (k x w))
    → Runs env Grows a rest (and_then o k)
Runs-then env b a rest (done x w) k (sane, same, grows) f =
    Runs-grown env rest (k x w) grows (f x w sane same)
Runs-then env b a rest (exited n w) k h f = h
Runs-then env b a rest (replaced w) k h f = h
Runs-then env b a rest (unread w) k h f = h
Runs-then env b a rest fault k h f = h

module _ {S : Type 0} (env : Env S) {mem : S → Pid → ℕ → ℕ} {mapped : S → Pid → ℕ → Bool}
    (room : IsRoomy env.ngx mem mapped) (roomy : IsRoomyBps env.ngx mem mapped) where
  -- While memory lasts, from a session with its two arrays, the words `before` in one of them: where each of the next `n` lines has a
  -- word, and a second one where its command reads it, or has none and repeats such a line, as at the end of
  -- the input, `n` rounds of `main` read just these lines and leave every breakpoint at its
  -- index, with new ones behind them, or end the program with 0, or another program takes the place
  -- of a child. The only fault is one of `open_funs` itself, on the files of the process that a line has just
  -- taken on; there is no other, whatever the system answers.
  pub main_rounds-Works :
      (n : ℕ) (before : List Text) (c : Arr Str) (w : World S) (h : IsSane c w.dbug)
      → Keeps c 0 before
      → are_full before n w.input ≡ true
      → Runs env Grows h.table (lines_left n w.input) (main_rounds env n w)
  unfolding main_rounds are_full lines_left
  main_rounds-Works zero before c w h keeps full = (c, h, refl, Grows-refl h.table)
  main_rounds-Works (suc n) before c w h keeps full =
      let now = words_then before (line_words w.input) in
      let (b, kept, works) =
        round_of_words env room roomy before now w h keeps refl (ground arith) in
      Runs-then env b h.table (lines_left (suc n) w.input) (main_round env w)
        (λ _. main_rounds env n) works
        (λ _ v sane same.
          subst (λ s. Runs env Grows sane.table s (main_rounds env n v)) (ap (lines_left n) same)
            (main_rounds-Works n now b v sane kept (ap (are_full now n) same ∙ ground arith)))

  -- From its start, on a session with nothing in it, while memory lasts: where each of the next `n` lines of the input has a word, and
  -- a second one where its command reads it, or has none and repeats such a line, as at the end of the
  -- input, `n` rounds of `main` read just these lines, or end the program with 0, or another
  -- program takes the place of a child. The only fault is one of `open_funs` itself, on the files of the process
  -- that a line has just taken on; there is no other, whatever the system answers, and whether or
  -- not a process was taken on.
  pub main-Works :
      (n : ℕ) (w : World S)
      → IsFresh env.ngx mem mapped
      → w.dbug.funs ≡ none
      → are_full [] n w.input ≡ true
      → (a : Arr Breakpoint) × (a.nelts ≡ 0)
        × Runs env Grows a (lines_left n w.input) (main env n w)
  unfolding main
  main-Works n w fresh no_funs full =
      let (p, a, cmds, s, starts, empty, same) = init_dbug-empty env fresh w in
      let d = w.dbug in
      let w1 : World S = record w {
        os = s;
        dbug = record d { pool = some p; bps = some a; cmd = some cmds };
      } in
      let sane : IsSane cmds w1.dbug = record {
        table = a;
        is_table = refl;
        is_words = refl;
        names = λ funs is. let clash : none ≡ some funs = sym no_funs ∙ is in absurd (cc clash);
      } in
      (
        a,
        empty,
        subst (Runs env Grows a (lines_left n w.input))
            (sym (then-done (λ _. main_rounds env n) starts))
            (main_rounds-Works n [] cmds w1 sane tt full),
      )
