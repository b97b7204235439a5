-- ===== src/Command/Read/Typed.antt =====
-- Words that are written on a line, and what `get_command` reads of it.
use test_dbug.Common.{
  ℕ, ◌≡◌, refl, ap, ◌∙◌, arith, true, false, List, [], ◌∷◌, ◌++◌, append_assoc, append-nil, none,
  some, ◌==◌, length, Text, isspace,
}
use test_dbug.Session.{Env, World}
use test_dbug.Command.Read.{split_loop}
use test_dbug.Command.Read.Words.{
  words, add_words, words_letter, words_stop, words_more, split_loop-words,
}

-- A word of letters only, and one that is not empty.
abbrev pub Letters : Text → Type 0
Letters [] = Unit
Letters (c ∷ s) = (isspace c ≡ false) × Letters s

abbrev pub IsWord : Text → Type 0
IsWord [] = ⊥
IsWord (c ∷ s) = (isspace c ≡ false) × Letters s

abbrev pub AreWords : List Text → Type 0
AreWords [] = Unit
AreWords (word ∷ more) = IsWord word × AreWords more

-- The line of one word and more, with a blank between two and the end of the line behind the last.
unfoldable pub line_of : Text → List Text → Text
line_of word [] = word ++ 10 ∷ []
line_of word (next ∷ more) = word ++ 32 ∷ line_of next more

words_more_stop :
    (t : Text) (c : ℕ) (s word : Text)
    → Letters t
    → isspace c ≡ true
    → words (some word) (t ++ c ∷ s) ≡ (word ++ t) ∷ words none s
words_more_stop [] c s word h k = rw append-nil (words_stop c s word k)
words_more_stop (d ∷ t) c s word h k =
    words_more d (t ++ c ∷ s) word h.0
    ∙ words_more_stop t c s (word ++ d ∷ []) h.1 k
    ∙ ap (λ x. x ∷ words none s) (append_assoc word (d ∷ []) t)

letter-ne-blank : (c : ℕ) → isspace c ≡ false → (c == 32) ≡ false
unfolding isspace
letter-ne-blank c h = ground arith

words-IsWord :
    (t : Text) (c : ℕ) (s : Text)
    → IsWord t
    → isspace c ≡ true
    → words none (t ++ c ∷ s) ≡ t ∷ words none s
words-IsWord [] c s h k = absurd h
words-IsWord (d ∷ t) c s h k =
    words_letter d (t ++ c ∷ s) (letter-ne-blank d h.0) h.0 ∙ words_more_stop t c s (d ∷ []) h.1 k

words-line_of :
    (word : Text) (more : List Text)
    → IsWord word
    → AreWords more
    → words none (line_of word more) ≡ word ∷ more
unfolding line_of words isspace
words-line_of word [] h k = words-IsWord word 10 [] h refl
words-line_of word (next ∷ more) h k =
    words-IsWord word 32 (line_of next more) h refl
    ∙ ap (λ ws. word ∷ ws) (words-line_of next more k.0 k.1)

-- Words of no white space, written on a line with one blank between two of them, are just what the
-- loops of `get_command` add for that line.
pub split_loop-line_of :
    {S : Type 0} (env : Env S) (word : Text) (more : List Text) (w : World S)
    → IsWord word
    → AreWords more
    → split_loop env (length (line_of word more)) (line_of word more) w
      ≡ add_words env (word ∷ more) w
split_loop-line_of env word more w h k =
    split_loop-words env (length (line_of word more)) (line_of word more) w (omega arith)
    ∙ ap (λ ws. add_words env ws w) (words-line_of word more h k)
