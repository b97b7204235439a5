-- ===== src/Session.antt =====
-- The state of a debugging session (dbug.h) and the programs over it.
-- `ngx_pool_t` and `ngx_array_t` come from the copy of another library under ngx/, so their functions
-- are parameters; the array structure itself is read and written by the code, as `elts` and `nelts`.
use test_dbug.Common.{
  ℕ, ◌≡◌, ◌≢◌, refl, ap, arith, false, ==_refl, List, [], ◌∷◌, ◌++◌, Option, none, some, ◌==◌,
  if◌then◌else◌, Text,
}
use test_dbug.Output.{Line}
use test_dbug.Kernel.{Pid, Regs, Kernel}
use test_dbug.Elf.Maps.{Files}
use test_dbug.Elf.Functions.{FunArr}

-- `struct breakpoint`; a null name is `none`.
pub record Breakpoint : Type 0 where
  pub name : Option Text
  pub type : ℕ
  pub htype : ℕ
  pub addr : ℕ
  pub orig_code : ℕ

-- `ngx_str_t`; its `data` is a C string or null.
pub record Str : Type 0 where
  pub len : ℕ
  pub chars : Option Text

-- `ngx_array_t`: `elts` is what lies in memory from `elts` on, behind the `nelts` elements too.
pub record Arr (A : Type 0) : Type 0 where
  pub nelts : ℕ
  pub elts : ℕ → A

-- A store to an element through a pointer into the array.
unfoldable pub put : {A : Type 0} → Arr A → ℕ → A → Arr A
put a i x = record a { elts = λ j. if j == i then x else a.elts j }

module _ {A : Type 0} (a : Arr A) (i : ℕ) (x : A) where
  pub put_self : (put a i x).elts i ≡ x
  unfolding put
  put_self = rw (==_refl i) refl

  pub put_other : (j : ℕ) → j ≢ i → (put a i x).elts j ≡ a.elts j
  unfolding put
  put_other j h = let miss : (j == i) ≡ false = ground arith in rw miss refl

  pub nelts-put : (put a i x).nelts ≡ a.nelts
  unfolding put
  nelts-put = refl

-- `struct dbug_struct`. `current_bp` is never used.
pub record Dbug : Type 0 where
  pub pool : Option ℕ
  pub pid : Pid
  pub status : ℕ
  pub bps : Option (Arr Breakpoint)
  pub cmd : Option (Arr Str)
  pub regs : Regs
  pub funs : Option FunArr
  pub current_bp : Option ℕ

-- The functions of ngx/ that are called; `none` is a null result. A pushed element holds whatever
-- its memory held.
pub record Ngx (S : Type 0) : Type 0 where
  pub create_pool : S → ℕ → Option (ℕ × S)
  pub destroy_pool : S → Option ℕ → S
  -- `none` is the null pointer that they return
  pub create_bps : S → ℕ → ℕ → Option (Arr Breakpoint) × S
  pub create_cmd : S → ℕ → ℕ → Option (Arr Str) × S
  pub pcalloc : S → Option ℕ → ℕ → Option S
  pub push_bp : S → Arr Breakpoint → Option (Arr Breakpoint × S)
  pub push_str : S → Arr Str → Option (Arr Str × S)

-- All that the program stands on.
pub record Env (S : Type 0) : Type 0 where
  pub kernel : Kernel S
  pub ngx : Ngx S
  pub files : S → Files

-- The system, the debugger's structure, standard input that is still to be read, and what was
-- printed.
pub record World (S : Type 0) : Type 0 where
  pub os : S
  pub dbug : Dbug
  pub input : Text
  pub out : List Line

-- `exited` is a call of `exit`, `replaced` a successful `execvp`, and `fault` what C leaves
-- undefined, such as a read through a null pointer. `unread` is such a fault of `open_funs`, on the files of
-- the process that the world then has.
pub data Outcome (S A : Type 0) : Type 0 where
  done : A → World S → Outcome S A
  exited : ℕ → World S → Outcome S A
  replaced : World S → Outcome S A
  unread : World S → Outcome S A
  fault : Outcome S A

abbrev pub Cmd : Type 0 → Type 0 → Type 0
Cmd S A = World S → Outcome S A

module _ {S A : Type 0} where
  abbrev pub pure : A → Cmd S A
  pure a w = done a w

  abbrev pub abort : Cmd S A
  abort w = fault

  abbrev pub exit : ℕ → Cmd S A
  exit n w = exited n w

module _ {S A B : Type 0} where
  abbrev pub and_then : Outcome S A → (A → Cmd S B) → Outcome S B
  and_then (done a w) f = f a w
  and_then (exited n w) f = exited n w
  and_then (replaced w) f = replaced w
  and_then (unread w) f = unread w
  and_then fault f = fault

  infixl 5 ◌>>=◌ ◌>>◌
  abbrev pub ◌>>=◌ : Cmd S A → (A → Cmd S B) → Cmd S B
  ◌>>=◌ m f w = and_then (m w) f

  abbrev pub ◌>>◌ : Cmd S A → Cmd S B → Cmd S B
  ◌>>◌ m n w = and_then (m w) (λ _. n)

module _ {S : Type 0} where
  abbrev pub get_dbug : Cmd S Dbug
  get_dbug w = done w.dbug w

  abbrev pub set_dbug : Dbug → Cmd S (Unit {0})
  set_dbug d w = done tt (record w { dbug = d })

  abbrev pub print : Line → Cmd S (Unit {0})
  print l w = done tt (record w { out = w.out ++ l ∷ [] })

  -- A call of the system that returns a value and leaves a new state.
  abbrev pub call : {A : Type 0} → (S → A × S) → Cmd S A
  call f w = let (a, s) = f w.os in done a (record w { os = s })

  abbrev pub call_void : (S → S) → Cmd S (Unit {0})
  call_void f w = done tt (record w { os = f w.os })

  -- A pointer is followed; a null one is a fault.
  abbrev pub deref : {A : Type 0} → Option A → Cmd S A
  deref none w = fault
  deref (some a) w = done a w

  -- A call of ngx/ whose result is used without a test.
  abbrev pub call_ngx : {A : Type 0} → (S → Option (A × S)) → Cmd S A
  call_ngx f w = elim (f w.os) [ none ↦ fault | some (a, s) ↦ done a (record w { os = s }) ]

-- The steps of a block that go on, one at a time.
module _ {S A B : Type 0} (k : A → Cmd S B) where
  pub then-done : {o : Outcome S A} {a : A} {w' : World S} → o ≡ done a w' → and_then o k ≡ k a w'
  then-done e = ap (λ o. and_then o k) e

module _ {S A B : Type 0} (w : World S) (k : A → Cmd S B) where
  pub then-deref : {p : Option A} {a : A} → p ≡ some a → and_then (deref p w) k ≡ k a w
  then-deref e = ap (λ p. and_then (deref p w) k) e

  pub then-call_ngx :
      (f : S → Option (A × S)) {a : A} {s : S}
      → f w.os ≡ some (a, s)
      → and_then (call_ngx f w) k ≡ k a (record w { os = s })
  then-call_ngx f e =
      ap (λ r. and_then (elim r [ none ↦ fault | some (a, s) ↦ done a (record w { os = s }) ]) k) e
