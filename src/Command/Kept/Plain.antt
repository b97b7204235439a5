-- ===== src/Command/Kept/Plain.antt =====
-- The invariant over lines as they are typed, from the start of `main` on.
use test_dbug.Common.{
  ℕ, zero, suc, ◌≡◌, refl, sym, ap, subst, ◌∙◌, arith, Bool, true, false, ◌&&◌, not, List, [], ◌∷◌,
  Option, none, some, Text,
}
use test_dbug.Kernel.{Pid}
use test_dbug.Elf.Functions.{FunArr}
use test_dbug.Elf.Lookup.{HasNames}
use test_dbug.Session.{Str, Arr, Env, World}
use test_dbug.Command.Read.{take_line}
use test_dbug.Command.Read.Slots.{IsRoomy}
use test_dbug.Command.Handlers.Break.{IsRoomyBps}
use test_dbug.Command.Play.{
  CommandFun, cmd_break, cmd_continue, cmd_show, cmd_dbug, cmd_attach, cmd_showreg, cmd_watch,
  cmd_exit, cmd_showbps, cmd_set, choose,
}
use test_dbug.Command.Play.Dispatch.{find_name, choose-find_name}
use test_dbug.Command.Kept.{IsSession}
use test_dbug.Command.Kept.Rounds.{Suits, words_left, IsOrdinary, AreOrdinary}
use test_dbug.Command.Safe.{IsSane, Works, Grows}
use test_dbug.Command.Safe.Words.{words_then, line_words, is_full, are_full, single_short}
use test_dbug.Command.Safe.Slots.{Keeps, get_command-Keeps}
use test_dbug.Command.Safe.Round.{round_of_words}

pub and_parts : (a b : Bool) → a && b ≡ true → (a ≡ true) × (b ≡ true)
and_parts a b h = (ground arith, ground arith)

-- The words that lie in an array, if there is one.
abbrev AreHeld : List Text → Option (Arr Str) → Type 0
AreHeld ws none = ⊥
AreHeld ws (some b) = Keeps b 0 ws

abbrev AreNamed : Option FunArr → Type 0
AreNamed none = Unit
AreNamed (some funs) = HasNames funs.size funs.items

-- `dbug` and `attach` take on a process.
abbrev takes_on : Option CommandFun → Bool
takes_on (some cmd_dbug) = true
takes_on (some cmd_attach) = true
takes_on _ = false

-- A line has the words that its command reads, and the command takes on no process.
unfoldable pub is_plain : List Text → Bool
unfolding is_full
is_plain [] = false
is_plain (name ∷ more) = is_full (name ∷ more) && not (takes_on (find_name name cmd_set))

-- The words that each of the next `n` rounds finds are such ones, `before` are the words of the line
-- before.
unfoldable pub are_plain : List Text → ℕ → Text → Bool
unfolding is_plain words_then
are_plain before zero input = true
are_plain before (suc n) input =
    let now = words_then before (line_words input) in
    is_plain now && are_plain now n (take_line 49 input).1

pub is_plain-is_full : (ws : List Text) → is_plain ws ≡ true → is_full ws ≡ true
unfolding is_plain is_full
is_plain-is_full [] plain = absurd (cc plain)
is_plain-is_full (name ∷ more) plain =
    (and_parts (is_full (name ∷ more)) (not (takes_on (find_name name cmd_set))) plain).0

pub are_plain-are_full :
    (before : List Text) (n : ℕ) (input : Text)
    → are_plain before n input ≡ true
    → are_full before n input ≡ true
unfolding are_plain are_full
are_plain-are_full before zero input plain = refl
are_plain-are_full before (suc n) input plain =
    let words = words_then before (line_words input) in
    let (now, later) =
      and_parts (is_plain words) (are_plain words n (take_line 49 input).1) plain in
    let full = is_plain-is_full words now in
    let rest = are_plain-are_full words n (take_line 49 input).1 later in ground arith

plain_takes :
    (name : Text) (more : List Text) {fun : CommandFun}
    → find_name name cmd_set ≡ some fun
    → takes_on (some fun) ≡ true
    → is_plain (name ∷ more) ≡ true
    → ⊥
unfolding is_plain
plain_takes name more names takes plain =
    let other = and_parts (is_full (name ∷ more)) (not (takes_on (find_name name cmd_set))) plain in
    let clash : true ≡ false = sym (other.1) ∙ ap (λ f. not (takes_on f)) names ∙ ap not takes in
    cc clash

Suits-plain :
    (fun : CommandFun) (b : Arr Str) (name : Text) (more : List Text)
    → Keeps b 0 (name ∷ more)
    → find_name name cmd_set ≡ some fun
    → is_plain (name ∷ more) ≡ true
    → Suits fun b
Suits-plain cmd_break b name [] holds names plain =
    absurd (single_short name names refl (is_plain-is_full (name ∷ []) plain))
Suits-plain cmd_break b name (word ∷ more) (first, (second, rest)) names plain =
    (word, ap (λ x. x.chars) second)
Suits-plain cmd_watch b name [] holds names plain =
    absurd (single_short name names refl (is_plain-is_full (name ∷ []) plain))
Suits-plain cmd_watch b name (word ∷ more) (first, (second, rest)) names plain =
    (word, ap (λ x. x.chars) second)
Suits-plain cmd_dbug b name more holds names plain = absurd (plain_takes name more names refl plain)
Suits-plain cmd_attach b name more holds names plain =
    absurd (plain_takes name more names refl plain)
Suits-plain cmd_continue b name more holds names plain = tt
Suits-plain cmd_show b name more holds names plain = tt
Suits-plain cmd_showreg b name more holds names plain = tt
Suits-plain cmd_exit b name more holds names plain = tt
Suits-plain cmd_showbps b name more holds names plain = tt

module _ {S : Type 0} (env : Env S) {mem : S → Pid → ℕ → ℕ} {mapped : S → Pid → ℕ → Bool}
    (room : IsRoomy env.ngx mem mapped) where
  pub plain-IsOrdinary :
      (before ws : List Text) (w : World S) (a : Arr Str)
      → w.dbug.cmd ≡ some a
      → Keeps a 0 before
      → words_then before (line_words w.input) ≡ ws
      → is_plain ws ≡ true
      → IsOrdinary env w
  unfolding is_plain
  plain-IsOrdinary before [] w a is keeps line plain c left = absurd (cc plain)
  plain-IsOrdinary before (name ∷ more) w a is keeps line plain c left =
      let (b, s, runs, kept) =
        get_command-Keeps env room before (line_words w.input) w a is keeps refl in
      let same : some b ≡ some c = sym (ap words_left runs) ∙ left in
      let held = subst (AreHeld (name ∷ more)) same (subst (Keeps b 0) line kept) in
      (
        (name, ap (λ x. x.chars) (held.0)),
        λ fun chosen.
            let found : some (find_name name cmd_set) ≡ some (some fun) =
              sym (choose-find_name name cmd_set)
              ∙ ap (λ x. choose x cmd_set) (sym (held.0))
              ∙ chosen in
            Suits-plain fun c name more held (cc found) plain,
      )

abbrev pub IsSession-IsSane :
    {S : Type 0} {mem : S → Pid → ℕ → ℕ} {mapped : S → Pid → ℕ → Bool} {code : ℕ → Bool}
    {text : ℕ → ℕ} (w : World S)
    → (h : IsSession mem mapped code text w) → IsSane h.words w.dbug
IsSession-IsSane w h = record {
  table = h.table;
  is_table = h.is_table;
  is_words = h.is_words;
  names = λ funs is. subst AreNamed (sym h.is_funs ∙ is) h.names;
}

module _ {S : Type 0} (env : Env S) {mem : S → Pid → ℕ → ℕ} {mapped : S → Pid → ℕ → Bool}
    (room : IsRoomy env.ngx mem mapped) (roomy : IsRoomyBps env.ngx mem mapped) where
  pub plain-AreOrdinary :
      (n : ℕ) (before : List Text) (c : Arr Str) (w : World S)
      → IsSane c w.dbug
      → Keeps c 0 before
      → are_plain before n w.input ≡ true
      → AreOrdinary env n w
  unfolding are_plain
  plain-AreOrdinary zero before c w h keeps plain = tt
  plain-AreOrdinary (suc n) before c w h keeps plain =
      let rest = (take_line 49 w.input).1 in
      let words = words_then before (line_words w.input) in
      let (now, later) = and_parts (is_plain words) (are_plain words n rest) plain in
      let (b, kept, works) =
        round_of_words env room roomy before words w h keeps refl (is_plain-is_full words now) in
      (
        plain-IsOrdinary env room before words w c h.is_words keeps refl now,
        λ v e.
            let (sane, input, grows) = subst (Works env b Grows h.table rest) e works in
            plain-AreOrdinary n words b v sane kept (ap (are_plain words n) input ∙ later),
      )
