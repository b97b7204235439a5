-- ===== src/Command/Kept.antt =====
-- The invariant of a session between two rounds of `main` (command.c, main.c), and what is asked of a
-- handler's outcome.
pub mod Stop
pub mod Tables
pub mod Watch
pub mod Rounds
pub mod Start
pub mod Refused
pub mod Main
pub mod Plain
pub mod Whole
pub mod View
pub mod Cpu
pub mod Alone
pub mod Passes
use test_dbug.Common.{ℕ, ◌^◌, ◌<◌, ◌≡◌, refl, ◌∙◌, Bool, true, List, Option, some, get_elem?, Text}
use test_dbug.Output.{Line}
use test_dbug.Kernel.{Pid, Regs, SameTracee}
use test_dbug.Elf.Functions.{FuncOrg, FunArr}
use test_dbug.Elf.Lookup.{HasNames}
use test_dbug.Session.{
  Breakpoint, Str, Arr, World, Outcome, done, exited, replaced, unread, fault, Cmd, and_then,
}
use test_dbug.Command.Handlers.Armed.{IsArmed, IsArmed-same}

-- A process is traced: there are a table of breakpoints, one of functions and an array of words; each
-- function has a name and lies in the code; the code can be accessed, and is the program's own but for
-- the traps.
pub record IsSession {S : Type 0} (mem : S → Pid → ℕ → ℕ) (mapped : S → Pid → ℕ → Bool)
    (code : ℕ → Bool) (text : ℕ → ℕ) (w : World S) : Type 0 where
  pub table : Arr Breakpoint
  pub funs : FunArr
  pub words : Arr Str
  pub is_table : w.dbug.bps ≡ some table
  pub is_funs : w.dbug.funs ≡ some funs
  pub is_words : w.dbug.cmd ≡ some words
  pub names : HasNames funs.size funs.items
  pub places :
      (j : ℕ) (f : FuncOrg) → j < funs.size → get_elem? funs.items j ≡ some f → code f.addr ≡ true
  pub reach : (a : ℕ) → code a ≡ true → (a < 2 ^ 64) × (mapped w.os w.dbug.pid a ≡ true)
  pub armed : IsArmed mem code text w.dbug.pid table w.os

-- A call that returns leaves the invariant, one that ends the program ends it with 0, and there is no
-- other outcome: no fault, and no other program in the debugger's place.
abbrev pub Goes :
    {S A : Type 0}
    → (S → Pid → ℕ → ℕ)
    → (S → Pid → ℕ → Bool)
    → (ℕ → Bool)
    → (ℕ → ℕ)
    → Outcome S A
    → Type 0
Goes mem mapped code text (done a w) = IsSession mem mapped code text w
Goes mem mapped code text (exited n w) = n ≡ 0
Goes mem mapped code text (replaced w) = ⊥
Goes mem mapped code text (unread w) = ⊥
Goes mem mapped code text fault = ⊥

module _ {S : Type 0} {mem : S → Pid → ℕ → ℕ} {mapped : S → Pid → ℕ → Bool} {code : ℕ → Bool}
    {text : ℕ → ℕ} where
  pub Goes-then :
      {A B : Type 0} (o : Outcome S A) (k : A → Cmd S B)
      → Goes mem mapped code text o
      → ((a : A) (w : World S)
          → o ≡ done a w
          → IsSession mem mapped code text w
          → Goes mem mapped code text (k a w))
      → Goes mem mapped code text (and_then o k)
  Goes-then (done a w) k h f = f a w refl h
  Goes-then (exited n w) k h f = h
  Goes-then (replaced w) k h f = h
  Goes-then (unread w) k h f = h
  Goes-then fault k h f = h

  module _ (w : World S) (h : IsSession mem mapped code text w) where
    -- The table has changed, and the system.
    pub IsSession-table :
        (b : Arr Breakpoint) (s : S) (out : List Line)
        → IsArmed mem code text w.dbug.pid b s
        → ((a : ℕ) → mapped s w.dbug.pid a ≡ mapped w.os w.dbug.pid a)
        → (let d = w.dbug in
            IsSession mem mapped code text
              (record w { os = s; dbug = record d { bps = some b }; out = out }))
    IsSession-table b s out armed same = record {
      table = b;
      funs = h.funs;
      words = h.words;
      is_table = refl;
      is_funs = h.is_funs;
      is_words = h.is_words;
      names = h.names;
      places = h.places;
      reach = λ a c. let (fits, ok) = h.reach a c in (fits, same a ∙ ok);
      armed = armed;
    }

    -- The process has run, or been looked at.
    pub IsSession-run :
        (s : S) (status : ℕ) (regs : Regs) (out : List Line)
        → IsArmed mem code text w.dbug.pid h.table s
        → ((a : ℕ) → mapped s w.dbug.pid a ≡ mapped w.os w.dbug.pid a)
        → (let d = w.dbug in
            IsSession mem mapped code text
              (record w { os = s; dbug = record d { status = status; regs = regs }; out = out }))
    IsSession-run s status regs out armed same = record {
      table = h.table;
      funs = h.funs;
      words = h.words;
      is_table = h.is_table;
      is_funs = h.is_funs;
      is_words = h.is_words;
      names = h.names;
      places = h.places;
      reach = λ a c. let (fits, ok) = h.reach a c in (fits, same a ∙ ok);
      armed = armed;
    }

    -- Lines were printed and the registers read.
    pub IsSession-out :
        (regs : Regs) (out : List Line)
        → (let d = w.dbug in
            IsSession mem mapped code text
              (record w { dbug = record d { regs = regs }; out = out }))
    IsSession-out regs out = IsSession-run w.os w.dbug.status regs out h.armed (λ a. refl)

    -- A line was read.
    pub IsSession-words :
        (b : Arr Str) (s : S) (input : Text) (out : List Line)
        → SameTracee mem mapped w.os s
        → (let d = w.dbug in
            IsSession mem mapped code text
              (record w { os = s; dbug = record d { cmd = some b }; input = input; out = out }))
    IsSession-words b s input out same = record {
      table = h.table;
      funs = h.funs;
      words = b;
      is_table = h.is_table;
      is_funs = h.is_funs;
      is_words = refl;
      names = h.names;
      places = h.places;
      reach = λ a c. let (fits, ok) = h.reach a c in (fits, same.mapping w.dbug.pid a ∙ ok);
      armed = IsArmed-same h.table h.armed (λ a c. same.memory w.dbug.pid a);
    }
