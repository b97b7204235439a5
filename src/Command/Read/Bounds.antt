-- ===== src/Command/Read/Bounds.antt =====
-- How much of the pool and of the array of words a line takes.
use test_dbug.Common.{
  ℕ, zero, suc, ◌+◌, ◌≤◌, ◌<◌, ◌≡◌, refl, ap, ◌∙◌, arith, Bool, List, [], ◌∷◌, ◌++◌, Option, none,
  some, pos, ◌==◌, Bool-cases, inl, inr, length, length-append, Text, isspace, until,
}
use native.Mathlib.Decide.{ℕ_discrete}
use test_dbug.Kernel.{Pid}
use test_dbug.Session.{Str, Arr, Env, World, done}
use test_dbug.Command.Read.{take_line, get_command}
use test_dbug.Command.Read.Words.{
  words, words_blank, words_space, words_letter, words_stop, words_more,
}
use test_dbug.Command.Read.Slots.{Holds, IsRoomy, get_command-Holds}

-- The characters of the words, with a NUL behind each, as they are copied to the pool.
unfoldable pub copied : List Text → ℕ
copied [] = 0
copied (word ∷ more) = length word + 1 + copied more

-- The characters of the word that has begun.
abbrev begun : Option Text → ℕ
begun none = 0
begun (some word) = length word

copied-words : (word : Option Text) (s : Text) → copied (words word s) ≤ begun word + length s
unfolding copied words
copied-words word [] = omega arith
copied-words none (c ∷ s) = elim (Bool-cases (c == 32)) [
  | inl blank ↦ rw (words_blank c s blank) (omega (arith, copied-words none s))
  | inr other ↦ elim (Bool-cases (isspace c)) [
    | inl space ↦ rw (words_space c s other space) (omega (arith, copied-words none s))
    | inr letter ↦
        rw (words_letter c s other letter) (omega (arith, copied-words (some (c ∷ [])) s))
  ]
]
copied-words (some word) (c ∷ s) = elim (Bool-cases (isspace c)) [
  | inl space ↦ rw (words_stop c s word space) (omega (arith, copied-words none s))
  | inr letter ↦
      rw (words_more c s word letter)
        (omega (arith, copied-words (some (word ++ c ∷ [])) s, length-append word (c ∷ [])))
]

length-take_line : (n : ℕ) (s : Text) → length (take_line n s).0 ≤ n
unfolding take_line
length-take_line zero s = omega arith
length-take_line (suc n) [] = omega arith
length-take_line (suc n) (c ∷ s) = elim (Bool-cases (c == 10)) [
  | inl end ↦ rw end (omega arith)
  | inr more ↦ rw more (omega (arith, length-take_line n s))
]

length-until : (c : ℕ) (s : Text) → length (until c s).0 ≤ length s
unfolding until
length-until c [] = omega arith
length-until c (d ∷ s) = elim (Bool-cases (d == c)) [
  | inl end ↦ rw end (omega arith)
  | inr more ↦ rw more (omega (arith, length-until c s))
]

-- The words of an array from index `n` on, where `total` characters were copied for them.
Holds-bounds :
    (b : Arr Str) (n : ℕ) (ws : List Text)
    → Holds b n ws
    → (b.nelts ≤ n + copied ws) × ((i : ℕ) → n ≤ i → i < b.nelts → (b.elts i).len < copied ws)
unfolding copied
Holds-bounds b n [] h = (omega arith, λ i p q. absurd (omega arith))
Holds-bounds b n (word ∷ more) (here, h) =
    let (count, lens) = Holds-bounds b (n + 1) more h in
    (
      omega arith,
      λ i p q. elim (ℕ_discrete i n) [
        | yes first ↦
            let len : (b.elts i).len ≡ length word =
              ap (λ j. (b.elts j).len) first ∙ ap (λ x. x.len) here in
            omega arith
        | no later ↦ omega (arith, lens i (omega arith) q)
      ],
    )

module _ {S : Type 0} (env : Env S) {mem : S → Pid → ℕ → ℕ} {mapped : S → Pid → ℕ → Bool}
    (room : IsRoomy env.ngx mem mapped) where
  -- While memory lasts, however long the input, a call of `get_command` leaves at most 49 words, each
  -- of at most 48 characters, and the copies of them all, each with its NUL, take at most 49 bytes of the pool.
  pub get_command-bounds :
      (w : World S) (a : Arr Str)
      → w.dbug.cmd ≡ some a
      → (b : Arr Str) × (w' : World S) × (ws : List Text) × (get_command env w ≡ done (pos 0) w')
        × (w'.dbug.cmd ≡ some b)
        × Holds b 0 ws
        × (copied ws ≤ 49)
        × (b.nelts ≤ 49)
        × ((i : ℕ) → i < b.nelts → (b.elts i).len ≤ 48)
  get_command-bounds w a is =
      let line = (until 0 (take_line 49 w.input).0).0 in
      let (b, s', runs, holds, apart) = get_command-Holds env room w a is in
      let (count, lens) = Holds-bounds b 0 (words none line) holds in
      let total : copied (words none line) ≤ 49 = omega (
        arith,
        copied-words none line,
        length-until 0 (take_line 49 w.input).0,
        length-take_line 49 w.input,
      ) in
      (
        b,
        _,
        words none line,
        runs,
        refl,
        holds,
        total,
        omega arith,
        λ i below. omega (arith, lens i (omega arith) below),
      )
