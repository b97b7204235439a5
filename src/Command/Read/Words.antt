-- ===== src/Command/Read/Words.antt =====
-- The two loops of `get_command` against a reading of the line in one pass.
use mathlib.Core.Path.{fun_ext}
use test_dbug.Common.{
  ℕ, zero, suc, ◌≤◌, ◌<◌, ◌≡◌, refl, sym, ap, ◌∙◌, arith, true, false, List, [], ◌∷◌, ◌++◌,
  append_assoc, append-nil, Option, none, some, ◌==◌, Bool-cases, Option-cases, inl, inr, length,
  Text, isspace,
}
use test_dbug.Session.{Env, Cmd, World, done, pure, ◌>>◌}
use test_dbug.Command.Read.{word_end, add_word, split_loop}

-- The words of a line. Between words blanks are passed over, and other white space makes an empty
-- word; white space ends a word; a word that nothing ends is dropped.
-- The first argument is the word that has begun, if any.
unfoldable pub words : Option Text → Text → List Text
words word [] = []
words none (c ∷ s) = elim (c == 32) [
  | true ↦ words none s
  | false ↦ elim (isspace c) [ true ↦ [] ∷ words none s | false ↦ words (some (c ∷ [])) s ]
]
words (some word) (c ∷ s) = elim (isspace c) [
  | true ↦ word ∷ words none s
  | false ↦ words (some (word ++ c ∷ [])) s
]

-- The words are added one after another.
unfoldable pub add_words : {S : Type 0} → Env S → List Text → Cmd S (Unit {0})
add_words env [] = pure tt
add_words env (word ∷ more) = add_word env word >> add_words env more

-- One character, case by case.
module _ (c : ℕ) (s : Text) where
  pub words_blank : (c == 32) ≡ true → words none (c ∷ s) ≡ words none s
  unfolding words
  words_blank h = rw (h, words) refl

  pub words_space : (c == 32) ≡ false → isspace c ≡ true → words none (c ∷ s) ≡ [] ∷ words none s
  unfolding words
  words_space h k = rw (h, k, words) refl

  pub words_letter :
      (c == 32) ≡ false → isspace c ≡ false → words none (c ∷ s) ≡ words (some (c ∷ [])) s
  unfolding words
  words_letter h k = rw (h, k, words) refl

  pub words_stop :
      (word : Text) → isspace c ≡ true → words (some word) (c ∷ s) ≡ word ∷ words none s
  unfolding words
  words_stop word k = rw (k, words) refl

  pub words_more :
      (word : Text)
      → isspace c ≡ false
      → words (some word) (c ∷ s) ≡ words (some (word ++ c ∷ [])) s
  unfolding words
  words_more word k = rw (k, words) refl

  word_end_stop : isspace c ≡ true → word_end (c ∷ s) ≡ some ([], s)
  unfolding word_end
  word_end_stop k = rw (k, word_end) refl

  word_end_more :
      isspace c ≡ false
      → word_end (c ∷ s)
        ≡ elim (word_end s) [ none ↦ none | some (word, rest) ↦ some (c ∷ word, rest) ]
  unfolding word_end
  word_end_more k = rw (k, word_end) refl

-- What the inner loop finds is what a word that has begun goes on with.
words-word_end :
    (s word : Text) {t rest : Text}
    → word_end s ≡ some (t, rest)
    → words (some word) s ≡ (word ++ t) ∷ words none rest
unfolding word_end
words-word_end [] word e = absurd (cc)
words-word_end (c ∷ s) word {t} {rest} e = elim (Bool-cases (isspace c)) [
  | inl blank ↦
      let at : t ≡ [] = ground arith in
      let same : rest ≡ s = ground arith in rw (at, same, append-nil) (words_stop c s word blank)
  | inr letter ↦ elim (Option-cases (word_end s)) [
    | inl open_end ↦ absurd (ground arith)
    | inr ((u, more), is) ↦
        let at : t ≡ c ∷ u = ground arith in
        let same : rest ≡ more = ground arith in
        rw (at, same)
          (words_more c s word letter
            ∙ words-word_end s (word ++ c ∷ []) is
            ∙ ap (λ x. x ∷ words none more) (append_assoc word (c ∷ []) u))
  ]
]

-- A word that nothing ends is dropped.
words_open : (s word : Text) → word_end s ≡ none → words (some word) s ≡ []
unfolding words word_end
words_open [] word e = refl
words_open (c ∷ s) word e = elim (Bool-cases (isspace c)) [
  | inl blank ↦ absurd (ground arith)
  | inr letter ↦ elim (Option-cases (word_end s)) [
    | inl open_end ↦ words_more c s word letter ∙ words_open s (word ++ c ∷ []) open_end
    | inr (p, is) ↦ absurd (ground arith)
  ]
]

word_end_shorter : (s : Text) {t rest : Text} → word_end s ≡ some (t, rest) → length rest < length s
unfolding word_end
word_end_shorter [] e = absurd (cc)
word_end_shorter (c ∷ s) {t} {rest} e = elim (Bool-cases (isspace c)) [
  | inl blank ↦ let same : rest ≡ s = ground arith in rw same (omega arith)
  | inr letter ↦ elim (Option-cases (word_end s)) [
    | inl open_end ↦ absurd (ground arith)
    | inr ((u, more), is) ↦
        let same : rest ≡ more = ground arith in rw same (omega (arith, word_end_shorter s is))
  ]
]

-- Where no white space is left behind a character, none is left in the rest.
word_end_tail : (c : ℕ) (s : Text) → word_end (c ∷ s) ≡ none → word_end s ≡ none
unfolding word_end
word_end_tail c s e = elim (Bool-cases (isspace c)) [
  | inl blank ↦ absurd (ground arith)
  | inr letter ↦ elim (Option-cases (word_end s)) [
    | inl open_end ↦ open_end
    | inr (p, is) ↦ absurd (ground arith)
  ]
]

-- Where no white space is left there is no word to come.
words_no_end : (s : Text) → word_end s ≡ none → words none s ≡ []
unfolding words word_end
words_no_end [] e = refl
words_no_end (c ∷ s) e = elim (Bool-cases (c == 32)) [
  | inl space ↦ words_blank c s space ∙ words_no_end s (word_end_tail c s e)
  | inr other ↦ elim (Bool-cases (isspace c)) [
    | inl blank ↦ absurd (ground arith)
    | inr letter ↦ words_letter c s other letter ∙ words_open s (c ∷ []) (word_end_tail c s e)
  ]
]

words_word :
    (c : ℕ) (s : Text) {t rest : Text}
    → (c == 32) ≡ false
    → word_end (c ∷ s) ≡ some (t, rest)
    → words none (c ∷ s) ≡ t ∷ words none rest
unfolding word_end
words_word c s {t} {rest} other e = elim (Bool-cases (isspace c)) [
  | inl blank ↦
      let at : t ≡ [] = ground arith in
      let same : rest ≡ s = ground arith in rw (at, same) (words_space c s other blank)
  | inr letter ↦ elim (Option-cases (word_end s)) [
    | inl open_end ↦ absurd (ground arith)
    | inr ((u, more), is) ↦
        let at : t ≡ c ∷ u = ground arith in
        let same : rest ≡ more = ground arith in
        rw (at, same) (words_letter c s other letter ∙ words-word_end s (c ∷ []) is)
  ]
]

module _ {S : Type 0} (env : Env S) where
  split_loop_no_end :
      (n : ℕ) (s : Text) (w : World S) → word_end s ≡ none → split_loop env n s w ≡ done tt w
  unfolding split_loop
  split_loop_no_end zero s w e = refl
  split_loop_no_end (suc n) [] w e = refl
  split_loop_no_end (suc n) (c ∷ s) w e =
      let tail = split_loop_no_end n s w (word_end_tail c s e) in
      elim (Bool-cases (c == 32)) [
        | inl space ↦ rw (space, split_loop) tail
        | inr other ↦ rw (other, e, split_loop) tail
      ]

  -- With a round for each character, the loops of `get_command` add exactly the words of the line,
  -- in their order.
  pub split_loop-words :
      (n : ℕ) (s : Text) (w : World S)
      → length s ≤ n
      → split_loop env n s w ≡ add_words env (words none s) w
  unfolding split_loop words add_words
  split_loop-words zero [] w h = refl
  split_loop-words zero (c ∷ s) w h = absurd (omega arith)
  split_loop-words (suc n) [] w h = refl
  split_loop-words (suc n) (c ∷ s) w h = elim (Bool-cases (c == 32)) [
    | inl space ↦
        rw (space, split_loop)
          (split_loop-words n s w (omega arith)
            ∙ ap (λ ws. add_words env ws w) (sym (words_blank c s space)))
    | inr other ↦ elim (Option-cases (word_end (c ∷ s))) [
      | inl open_end ↦
          split_loop_no_end (suc n) (c ∷ s) w open_end
          ∙ ap (λ ws. add_words env ws w) (sym (words_no_end (c ∷ s) open_end))
      | inr ((t, rest), is) ↦
          rw (other, is, split_loop)
            (ap (λ (f : Cmd S (Unit {0})). (add_word env t >> f) w)
                (fun_ext
                  λ w'. split_loop-words n rest w' (omega (arith, word_end_shorter (c ∷ s) is)))
              ∙ ap (λ ws. add_words env ws w) (sym (words_word c s other is)))
    ]
  ]
