-- ===== src/Command/Safe/Slots.antt =====
-- The words that a call of `get_command` leaves, those of a line before with them.
use test_dbug.Common.{ℕ, ◌≡◌, refl, ap, subst, Bool, List, [], ◌∷◌, ◌++◌, some, pos, Text}
use test_dbug.Output.{prompt}
use test_dbug.Kernel.{Pid}
use test_dbug.Session.{Str, Arr, Env, World}
use test_dbug.Command.Read.{take_line}
use test_dbug.Command.Read.Slots.{Holds, IsRoomy, get_command-Holds}
use test_dbug.Session.{done}
use test_dbug.Command.Safe.Words.{line_words, words_then}
use test_dbug.Command.Read.{get_command, read_line, split_loop}
use test_dbug.Common.{length, until, arith, ◌+◌, ◌∙◌}
use test_dbug.Command.Read.Words.{add_words, split_loop-words}
use test_dbug.Command.Read.Slots.{str_of}

-- `words` lie in the array from index `n` on, whatever its number of elements is.
abbrev pub Keeps : Arr Str → ℕ → List Text → Type 0
Keeps a n [] = Unit
Keeps a n (word ∷ more) = (a.elts n ≡ str_of word) × Keeps a (n + 1) more

Holds-Keeps : (a : Arr Str) (n : ℕ) (ws : List Text) → Holds a n ws → Keeps a n ws
Holds-Keeps a n [] holds = tt
Holds-Keeps a n (word ∷ more) (here, later) = (here, Holds-Keeps a (n + 1) more later)

Keeps-emptied :
    (a : Arr Str) (n : ℕ) (ws : List Text) → Keeps a n ws → Keeps (record a { nelts = 0 }) n ws
Keeps-emptied a n [] keeps = tt
Keeps-emptied a n (word ∷ more) (here, later) = (here, Keeps-emptied a (n + 1) more later)

module _ {S : Type 0} (env : Env S) {mem : S → Pid → ℕ → ℕ} {mapped : S → Pid → ℕ → Bool}
    (room : IsRoomy env.ngx mem mapped) where
  -- What a call of `get_command` leaves of the session: other words in the array, or, where the line has
  -- none, those of the line before.
  pub get_command-Keeps :
      (before ws : List Text) (w : World S) (a : Arr Str)
      → w.dbug.cmd ≡ some a
      → Keeps a 0 before
      → line_words w.input ≡ ws
      → (b : Arr Str) × (s : S) × (let d = w.dbug in
          get_command env w
          ≡ done (pos 0) (record w {
            os = s;
            dbug = record d { cmd = some b };
            input = (take_line 49 w.input).1;
            out = w.out ++ prompt ∷ [];
          }))
        × Keeps b 0 (words_then before ws)
  unfolding words_then
  get_command-Keeps before (name ∷ more) w a is keeps line =
      let (b, s, runs, holds, apart) = get_command-Holds env room w a is in
      (b, s, runs, Holds-Keeps b 0 (name ∷ more) (subst (Holds b 0) line holds))
  get_command-Keeps before [] w a is keeps line =
      let d = w.dbug in
      let typed = (until 0 (take_line 49 w.input).0).0 in
      let emptied : Arr Str = record a { nelts = 0 } in
      let w1 : World S = record w {
        dbug = record d { cmd = some emptied };
        input = (take_line 49 w.input).1;
        out = w.out ++ prompt ∷ [];
      } in
      let nothing : split_loop env (length typed) typed w1 ≡ done tt w1 =
        split_loop-words env (length typed) typed w1 (omega arith)
        ∙ ap (λ ws. add_words env ws w1) line
        ∙ unfold add_words in refl in
      (
        emptied,
        w.os,
        unfold get_command read_line in rw is (rw nothing refl),
        Keeps-emptied a 0 before keeps,
      )
