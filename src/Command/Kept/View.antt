-- ===== src/Command/Kept/View.antt =====
-- The debugger as its user thinks of it: a set of addresses with a breakpoint, over the program's own code.
use test_dbug.Common.{
  ℕ, zero, suc, ◌<◌, ◌≡◌, ◌≢◌, refl, ap, sym, subst, ◌∙◌, arith, Bool, true, false, ◌||◌, ◌&&◌,
  ◌==◌, List, ◌∷◌, some, inl, inr, Bool-cases, if◌then◌else◌, Text,
}
use native.Mathlib.Decide.{ℕ_discrete}
use test_dbug.Kernel.{Pid, IsMemory}
use test_dbug.Elf.Functions.{FuncOrg, FunArr}
use test_dbug.Session.{Breakpoint, Arr, Env, World, done}
use test_dbug.Dbug.{is_sf, int_3}
use test_dbug.Dbug.Find.{hits}
use test_dbug.Command.Read.{take_line}
use test_dbug.Command.Read.Slots.{IsRoomy}
use test_dbug.Command.Handlers.Armed.{IsStill}
use test_dbug.Command.Handlers.Break.{IsRoomyBps}
use test_dbug.Command.Play.{cmd_break, cmd_watch, cmd_set, main_round}
use test_dbug.Command.Play.Dispatch.{find_name}
use test_dbug.Command.Kept.{IsSession, Goes}
use test_dbug.Command.Kept.Rounds.{main_round-Goes}
use test_dbug.Command.Kept.Plain.{
  and_parts, is_plain, is_plain-is_full, plain-IsOrdinary, IsSession-IsSane,
}
use test_dbug.Command.Safe.{Works, Pushes}
use test_dbug.Command.Safe.Moves.{Found, Missed, Moves, breaks, watches, stays, not_break}
use test_dbug.Command.Safe.Words.{words_then, line_words}
use test_dbug.Command.Safe.Slots.{Keeps}
use test_dbug.Command.Safe.Round.{main_round-Works}

-- One of the first `n` breakpoints is one of software at the address.
unfoldable pub any_below : (ℕ → Breakpoint) → ℕ → ℕ → Bool
any_below elts zero a = false
any_below elts (suc n) a = hits is_sf a (elts n) || any_below elts n a

-- The set of addresses of a table.
abbrev pub broken : Arr Breakpoint → ℕ → Bool
broken table a = any_below table.elts table.nelts a

-- The program's code with a trap at each address of a set.
abbrev pub overlay : (ℕ → Bool) → (ℕ → ℕ) → ℕ → ℕ
overlay set text a = if set a then int_3 else text a

-- What a line means for the set: `b` adds the address of the first function whose name begins
-- with the word, if there is one, and any other line leaves the set as it is.
pub data Means (funs : FunArr) (name : Text) (more : List Text) (set set' : ℕ → Bool) : Type 0 where
  adds :
      (word : Text) (rest : List Text) (f : FuncOrg)
      → find_name name cmd_set ≡ some cmd_break
      → more ≡ word ∷ rest
      → Found (some funs) word f
      → ((a : ℕ) → set' a ≡ (f.addr == a) || set a)
      → Means funs name more set set'
  misses :
      (word : Text) (rest : List Text)
      → find_name name cmd_set ≡ some cmd_break
      → more ≡ word ∷ rest
      → Missed (some funs) word
      → ((a : ℕ) → set' a ≡ set a)
      → Means funs name more set set'
  keeps :
      (find_name name cmd_set ≢ some cmd_break)
      → ((a : ℕ) → set' a ≡ set a)
      → Means funs name more set set'

or_parts : (x y : Bool) → x || y ≡ false → (x ≡ false) × (y ≡ false)
or_parts x y h = (ground arith, ground arith)

pub any_below-true :
    (elts : ℕ → Breakpoint) (n a : ℕ)
    → any_below elts n a ≡ true
    → (i : ℕ) × (i < n) × (hits is_sf a (elts i) ≡ true)
unfolding any_below
any_below-true elts zero a h = absurd (cc h)
any_below-true elts (suc n) a h = elim (Bool-cases (hits is_sf a (elts n))) [
  | inl here ↦ (n, omega arith, here)
  | inr other ↦
      let (i, below, there) = any_below-true elts n a (ground arith) in (i, omega arith, there)
]

pub any_below-false :
    (elts : ℕ → Breakpoint) (n a : ℕ)
    → any_below elts n a ≡ false
    → (i : ℕ) → i < n
    → hits is_sf a (elts i) ≡ false
unfolding any_below
any_below-false elts zero a h i below = absurd (omega arith)
any_below-false elts (suc n) a h i below =
    let (here, others) = or_parts (hits is_sf a (elts n)) (any_below elts n a) h in
    elim (ℕ_discrete i n) [
      | yes last ↦ ap (λ j. hits is_sf a (elts j)) last ∙ here
      | no before ↦ any_below-false elts n a others i (omega arith)
    ]

any_below-same :
    (elts elts' : ℕ → Breakpoint) (n a : ℕ)
    → ((i : ℕ) → i < n → elts' i ≡ elts i)
    → any_below elts' n a ≡ any_below elts n a
unfolding any_below
any_below-same elts elts' zero a same = refl
any_below-same elts elts' (suc n) a same =
    ap (λ b. hits is_sf a b || any_below elts' n a) (same n (omega arith))
    ∙ ap (λ x. hits is_sf a (elts n) || x)
        (any_below-same elts elts' n a (λ i below. same i (omega arith)))

-- A pushed breakpoint is in the set, if it is one of software, and all that was there.
broken-Pushes :
    (a b : Arr Breakpoint) (c : ℕ)
    → Pushes a b
    → broken b c ≡ hits is_sf c (b.elts a.nelts) || broken a c
unfolding any_below
broken-Pushes a b c (count, old) =
    ap (λ n. any_below b.elts n c) count
    ∙ ap (λ x. hits is_sf c (b.elts a.nelts) || x) (any_below-same a.elts b.elts a.nelts c old)

pub hit_parts :
    (a : ℕ) (bp : Breakpoint) → hits is_sf a bp ≡ true → (is_sf bp ≡ true) × (bp.addr ≡ a)
hit_parts a bp hit =
    let (soft, at) = and_parts (is_sf bp) (bp.addr == a) hit in (soft, ground arith)

-- With the invariant in force the memory of the process is the program's code with the traps.
pub IsSession-overlay :
    {S : Type 0} {mem : S → Pid → ℕ → ℕ} {mapped : S → Pid → ℕ → Bool} {code : ℕ → Bool}
    {text : ℕ → ℕ} (w : World S) (h : IsSession mem mapped code text w) (a : ℕ)
    → code a ≡ true
    → mem w.os w.dbug.pid a ≡ overlay (broken h.table) text a
IsSession-overlay {mem} w h a in_code = elim (Bool-cases (broken h.table a)) [
  | inl trapped ↦
      let (i, below, hit) = any_below-true h.table.elts h.table.nelts a trapped in
      let (soft, at) = hit_parts a (h.table.elts i) hit in
      rw trapped (ap (λ c. mem w.os w.dbug.pid c) (sym at) ∙ h.armed.trap i below soft)
  | inr free ↦ rw free (h.armed.rest a in_code (any_below-false h.table.elts h.table.nelts a free))
]

-- What a line does to the table is what it means for the set.
Moves-Means :
    (funs : FunArr) (name : Text) (more : List Text) (a b : Arr Breakpoint)
    → Moves (some funs) name more a b
    → Means funs name more (broken a) (broken b)
Moves-Means funs name more a b (breaks word rest names is_more (inl (missed, same))) =
    misses word rest names is_more missed (λ c. ap (λ t. broken t c) same)
Moves-Means funs name more a b
      (breaks word rest names is_more (inr (f, first, (pushes, soft, addr, named)))) =
    adds word rest f names is_more first (λ c.
      broken-Pushes a b c pushes
      ∙ ap (λ x. (x && ((b.elts a.nelts).addr == c)) || broken a c) soft
      ∙ ap (λ d. (d == c) || broken a c) addr)
Moves-Means funs name more a b (watches names (pushes, other)) =
    keeps (not_break name (some cmd_watch) names refl) (λ c.
      broken-Pushes a b c pushes
      ∙ ap (λ x. (x && ((b.elts a.nelts).addr == c)) || broken a c) other)
Moves-Means funs name more a b (stays other same) = keeps other (λ c. ap (λ t. broken t c) same)

module _ {S : Type 0} (env : Env S) {mem : S → Pid → ℕ → ℕ} {mapped : S → Pid → ℕ → Bool}
    {code : ℕ → Bool} {text : ℕ → ℕ} (m : IsMemory env.kernel mem mapped)
    (still : IsStill env.kernel mem mapped code) (roomy : IsRoomyBps env.ngx mem mapped)
    (room : IsRoomy env.ngx mem mapped) where
  -- With the invariant in force, memory to be had and a process whose code nothing but the debugger writes: where a round of `main` on a plain line, one of another command than `attach` and `dbug` with the word it reads, returns, or
  -- on a line without a word behind a plain one, it has done what the words mean. The set of addresses with a software breakpoint has the
  -- function's address more at `b`, where there is such a function, and is the same at any other
  -- plain line; and the process's memory is the program's own code with a trap at each address of the set.
  pub main_round-Means :
      (before : List Text) (w v : World S) (name : Text) (more : List Text)
      (h : IsSession mem mapped code text w)
      → Keeps h.words 0 before
      → words_then before (line_words w.input) ≡ name ∷ more
      → is_plain (name ∷ more) ≡ true
      → main_round env w ≡ done tt v
      → (h' : IsSession mem mapped code text v) × Means h.funs name more
          (broken h.table)
          (broken h'.table)
        × ((a : ℕ) → code a ≡ true → mem v.os v.dbug.pid a ≡ overlay (broken h'.table) text a)
  main_round-Means before w v name more h lie line plain e =
      let h' = subst (Goes mem mapped code text) e (
        main_round-Goes env m still roomy room w h
          (plain-IsOrdinary env room before (name ∷ more) w h.words h.is_words lie line plain)) in
      let (b, kept, works) =
        main_round-Works env room roomy before w name more (IsSession-IsSane w h) lie line
          (is_plain-is_full (name ∷ more) plain) in
      let (sane, input, moves) =
        subst (Works env b (Moves w.dbug.funs name more) h.table (take_line 49 w.input).1) e
          works in
      let both : some sane.table ≡ some h'.table = sym (sane.is_table) ∙ h'.is_table in
      let tables : sane.table ≡ h'.table = cc both in
      (
        h',
        Moves-Means h.funs name more h.table h'.table (
            subst (λ b. Moves (some h.funs) name more h.table b) tables
              (subst (λ f. Moves f name more h.table sane.table) h.is_funs moves)),
        λ a in_code. IsSession-overlay v h' a in_code,
      )
