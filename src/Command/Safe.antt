-- ===== src/Command/Safe.antt =====
-- What a session needs between two rounds of `main` (command.c, main.c) for its commands, so that the
-- only fault is one of `open_funs`; before a process is taken on, too.
pub mod Moves
pub mod Handlers
pub mod Start
pub mod Stop
pub mod Words
pub mod Slots
pub mod Round
pub mod Lines
use test_dbug.Common.{
  ℕ, suc, arith, ◌+◌, ◌-◌, ◌≤◌, ◌<◌, ◌∙◌, ◌≡◌, refl, ap, sym, subst, Bool, List, ◌++◌, Option, none,
  some, Text,
}
use test_dbug.Output.{Line}
use test_dbug.Kernel.{Pid, Regs}
use test_dbug.Elf.Functions.{FunArr}
use test_dbug.Elf.Lookup.{HasNames}
use test_dbug.Elf.Open.{open_funs}
use test_dbug.Session.{
  Breakpoint, Str, Arr, put, put_self, put_other, nelts-put, Dbug, Env, World, Outcome, done,
  exited, replaced, unread, fault, Cmd, and_then, then-done, then-deref, then-call_ngx, pure, deref,
  call_ngx,
}
use test_dbug.Dbug.{perror}
use test_dbug.Dbug.Adopt.{perror-done}

-- There are a table of breakpoints and the array of words `c`, and a table of functions, if there is one,
-- has a name for each of them.
pub record IsSane (c : Arr Str) (d : Dbug) : Type 0 where
  pub table : Arr Breakpoint
  pub is_table : d.bps ≡ some table
  pub is_words : d.cmd ≡ some c
  pub names : (funs : FunArr) → d.funs ≡ some funs → HasNames funs.size funs.items

-- A table with the breakpoints of `a` at their places, and more behind them.
abbrev pub Grows : Arr Breakpoint → Arr Breakpoint → Type 0
Grows a b = (a.nelts ≤ b.nelts) × ((i : ℕ) → i < a.nelts → b.elts i ≡ a.elts i)

pub Grows-refl : (a : Arr Breakpoint) → Grows a a
Grows-refl a = (omega arith, λ i below. refl)

pub Grows-trans : {a : Arr Breakpoint} (b c : Arr Breakpoint) → Grows a b → Grows b c → Grows a c
Grows-trans b c (le, same) (le', same') =
    (omega arith, λ i below. same' i (omega arith) ∙ same i below)

-- The table is the same.
abbrev pub Stays : Arr Breakpoint → Arr Breakpoint → Type 0
Stays a b = b ≡ a

pub Stays-trans : {a : Arr Breakpoint} (b c : Arr Breakpoint) → Stays a b → Stays b c → Stays a c
Stays-trans b c e e' = e' ∙ e

pub Stays-Grows : {a : Arr Breakpoint} (b : Arr Breakpoint) → Stays a b → Grows a b
Stays-Grows {a} b e = (rw e (omega arith), λ i below. ap (λ c. c.elts i) e)

-- One element was pushed behind those of `a`.
abbrev pub Pushes : Arr Breakpoint → Arr Breakpoint → Type 0
Pushes a b = (b.nelts ≡ suc a.nelts) × ((i : ℕ) → i < a.nelts → b.elts i ≡ a.elts i)

pub Pushes-Grows : {a : Arr Breakpoint} (b : Arr Breakpoint) → Pushes a b → Grows a b
Pushes-Grows b (count, old) = (omega arith, old)

-- The pushed element is the one that is filled.
pub put-Pushes :
    (a b : Arr Breakpoint) (bp : Breakpoint)
    → b.nelts ≡ a.nelts + 1
    → ((i : ℕ) → i < a.nelts → b.elts i ≡ a.elts i)
    → Pushes a (put b (b.nelts - 1) bp) × ((put b (b.nelts - 1) bp).elts a.nelts ≡ bp)
put-Pushes a b bp count old =
    let last : a.nelts ≡ b.nelts - 1 = omega arith in
    (
      (
        nelts-put b (b.nelts - 1) bp ∙ count ∙ omega arith,
        λ i below. put_other b (b.nelts - 1) bp i (omega arith) ∙ old i below,
      ),
      ap (put b (b.nelts - 1) bp).elts last ∙ put_self b (b.nelts - 1) bp,
    )

-- A call that returns leaves a sane session whose table has the relation `R` to `a`, and `input` to be
-- read; one that ends the program ends it with 0; another program may take the place of the
-- process, in a child. The only fault is that of `open_funs` on the files of the process that was just taken on.
abbrev pub Works :
    {S A : Type 0}
    → Env S
    → Arr Str
    → (Arr Breakpoint → Arr Breakpoint → Type 0)
    → Arr Breakpoint
    → Text
    → Outcome S A
    → Type 0
Works env c R a input (done x w) = (h : IsSane c w.dbug) × (w.input ≡ input) × R a h.table
Works env c R a input (exited n w) = n ≡ 0
Works env c R a input (replaced w) = Unit
Works env c R a input (unread w) = open_funs (env.files w.os) w.dbug.pid ≡ none
Works env c R a input fault = ⊥

pub Works-weaken :
    {S A : Type 0} (env : Env S) (c : Arr Str) (R Q : Arr Breakpoint → Arr Breakpoint → Type 0)
    {a b : Arr Breakpoint} (rest : Text) (o : Outcome S A)
    → ((t : Arr Breakpoint) → R a t → Q b t)
    → Works env c R a rest o
    → Works env c Q b rest o
Works-weaken env c R Q rest (done x w) f (sane, same, related) = (sane, same, f sane.table related)
Works-weaken env c R Q rest (exited n w) f h = h
Works-weaken env c R Q rest (replaced w) f h = h
Works-weaken env c R Q rest (unread w) f h = h
Works-weaken env c R Q rest fault f h = h

-- The result is dropped for another.
pub Works-pure :
    {S A B : Type 0} (env : Env S) (c : Arr Str) (R : Arr Breakpoint → Arr Breakpoint → Type 0)
    (a : Arr Breakpoint) (rest : Text) (o : Outcome S A) (x : B)
    → Works env c R a rest o
    → Works env c R a rest (and_then o (λ _. pure x))
Works-pure env c R a rest (done y w) x h = h
Works-pure env c R a rest (exited n w) x h = h
Works-pure env c R a rest (replaced w) x h = h
Works-pure env c R a rest (unread w) x h = h
Works-pure env c R a rest fault x h = h

module _ {S A B : Type 0} (env : Env S) (c : Arr Str) (R : Arr Breakpoint → Arr Breakpoint → Type 0)
    (a : Arr Breakpoint) (rest : Text) (k : A → Cmd S B) where
  pub Works-then :
      {input : Text}
      → ((b t : Arr Breakpoint) → R a b → R b t → R a t)
      → (o : Outcome S A) → Works env c R a input o
      → ((x : A) (w : World S) (h : IsSane c w.dbug)
          → w.input ≡ input
          → Works env c R h.table rest (k x w))
      → Works env c R a rest (and_then o k)
  Works-then trans (done x w) (sane, same, related) f =
      Works-weaken env c R R rest (k x w) (λ t. trans sane.table t related) (f x w sane same)
  Works-then trans (exited n w) h f = h
  Works-then trans (replaced w) h f = h
  Works-then trans (unread w) h f = h
  Works-then trans fault h f = h

  -- The steps of a block that go on, one at a time.
  pub Works-done :
      {o : Outcome S A} {x : A} {w : World S}
      → o ≡ done x w
      → Works env c R a rest (k x w)
      → Works env c R a rest (and_then o k)
  Works-done e h = subst (Works env c R a rest) (sym (then-done k e)) h

  pub Works-deref :
      (w : World S) {p : Option A} {x : A}
      → p ≡ some x
      → Works env c R a rest (k x w)
      → Works env c R a rest (and_then (deref p w) k)
  Works-deref w e h = subst (Works env c R a rest) (sym (then-deref w k e)) h

  pub Works-call_ngx :
      (w : World S) (f : S → Option (A × S)) {x : A} {s : S}
      → f w.os ≡ some (x, s)
      → Works env c R a rest (k x (record w { os = s }))
      → Works env c R a rest (and_then (call_ngx f w) k)
  Works-call_ngx w f e h = subst (Works env c R a rest) (sym (then-call_ngx w k f e)) h

pub Works-perror :
    {S B : Type 0} (env : Env S) (c : Arr Str) (R : Arr Breakpoint → Arr Breakpoint → Type 0)
    (a : Arr Breakpoint) (rest : Text) (k : Unit {0} → Cmd S B) (failed : Bool) (t : Text)
    (w : World S)
    → ((lines : List Line) → Works env c R a rest (k tt (record w { out = lines })))
    → Works env c R a rest (and_then (perror env failed t w) k)
Works-perror env c R a rest k failed t w f =
    let (lines, said) = perror-done env failed t w in Works-done env c R a rest k said (f lines)

module _ {c : Arr Str} {d : Dbug} (h : IsSane c d) where
  -- The process has run, or been looked at.
  abbrev pub IsSane-run :
      (status : ℕ) (regs : Regs) → IsSane c (record d { status = status; regs = regs })
  IsSane-run status regs = record {
    table = h.table;
    is_table = h.is_table;
    is_words = h.is_words;
    names = h.names;
  }

  -- The table of breakpoints has changed.
  abbrev pub IsSane-table : (b : Arr Breakpoint) → IsSane c (record d { bps = some b })
  IsSane-table b = record { table = b; is_table = refl; is_words = h.is_words; names = h.names }

  -- A process was taken on.
  abbrev pub IsSane-funs :
      (pid : Pid) (status : ℕ) (table : Option FunArr)
      → ((funs : FunArr) → table ≡ some funs → HasNames funs.size funs.items)
      → IsSane c (record d { pid = pid; status = status; funs = table })
  IsSane-funs pid status table names = record {
    table = h.table;
    is_table = h.is_table;
    is_words = h.is_words;
    names = names;
  }

  -- A line was read.
  abbrev pub IsSane-words : (b : Arr Str) → IsSane b (record d { cmd = some b })
  IsSane-words b = record {
    table = h.table;
    is_table = h.is_table;
    is_words = refl;
    names = h.names;
  }
