-- ===== src/Command/Safe/Words.antt =====
-- What a line has to have for its command not to fault.
use test_dbug.Common.{
  ℕ, zero, suc, ◌≡◌, sym, ap, ◌∙◌, Bool, true, false, ◌&&◌, not, List, [], ◌∷◌, Option, none, some,
  Text, until,
}
use test_dbug.Command.Read.{take_line}
use test_dbug.Command.Read.Words.{words}
use test_dbug.Command.Play.{CommandFun, cmd_break, cmd_attach, cmd_watch, cmd_set}
use test_dbug.Command.Play.Dispatch.{find_name}

-- The words that `get_command` makes of the line at the front of the input.
abbrev pub line_words : Text → List Text
line_words input = words none (until 0 (take_line 49 input).0).0

-- `b`, `attach` and `watch` read word 1.
abbrev pub needs_word : Option CommandFun → Bool
needs_word (some cmd_break) = true
needs_word (some cmd_attach) = true
needs_word (some cmd_watch) = true
needs_word _ = false

-- A line has a word, and a second one where its command reads it.
unfoldable pub is_full : List Text → Bool
is_full [] = false
is_full (name ∷ []) = not (needs_word (find_name name cmd_set))
is_full (name ∷ word ∷ more) = true

-- A line with no word, as at the end of the input, leaves the words of the line before in the array.
unfoldable pub words_then : List Text → List Text → List Text
words_then before [] = before
words_then before (name ∷ more) = name ∷ more

-- The words that each of the next `n` rounds finds are such ones, `before` are the words of the line before.
unfoldable pub are_full : List Text → ℕ → Text → Bool
unfolding is_full words_then
are_full before zero input = true
are_full before (suc n) input =
    let now = words_then before (line_words input) in
    is_full now && are_full now n (take_line 49 input).1

-- What `n` lines leave of the input.
unfoldable pub lines_left : ℕ → Text → Text
lines_left zero input = input
lines_left (suc n) input = lines_left n (take_line 49 input).1

pub single_short :
    (name : Text) {fun : CommandFun}
    → find_name name cmd_set ≡ some fun
    → needs_word (some fun) ≡ true
    → is_full (name ∷ []) ≡ true
    → ⊥
unfolding is_full
single_short name names needs full =
    let clash : true ≡ false = sym full ∙ ap (λ f. not (needs_word f)) names ∙ ap not needs in
    cc clash
