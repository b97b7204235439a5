-- ===== src/Command/Play/Dispatch.antt =====
-- Which function a line runs.
use test_dbug.Common.{
  ◌≡◌, refl, sym, ap, ◌∙◌, arith, Bool, true, false, ◌&&◌, List, [], ◌∷◌, ◌++◌, Option, none, some,
  ℤ, pos, minus_one, ◌==◌, Bool-cases, inl, inr, length, Text, starts_with, text_eq, until,
}
use test_dbug.Output.{prompt, not_command}
use test_dbug.Session.{
  Str, Arr, Env, World, Outcome, done, exited, replaced, unread, fault, pure, ◌>>◌, and_then, deref,
}
use test_dbug.Command.Read.{take_line, read_line, split_loop, get_command}
use test_dbug.Command.Read.Slots.{str_of}
use test_dbug.Command.Play.{
  CommandFun, cmd_set, names_word, choose, run_chosen, run_fun, play_command, main_round,
}

-- The function of the first entry with exactly this name.
unfoldable pub find_name : Text → List (Text × CommandFun) → Option CommandFun
find_name word [] = none
find_name word ((name, fun) ∷ table) = elim (text_eq name word) [
  | true ↦ some fun
  | false ↦ find_name word table
]

abbrev pub HasText : Str → Type 0
HasText str = (word : Text) × (str.chars ≡ some word)

names_word-some :
    (str : Str) (name : Text) → HasText str → (fits : Bool) × (names_word str name ≡ some fits)
unfolding names_word
names_word-some str name (word, is) = elim (Bool-cases (str.len == length name)) [
  | inl same ↦ (starts_with name word, rw (same, is, names_word) refl)
  | inr other ↦ (false, rw (other, names_word) refl)
]

-- Where word 0 is a text the search of the table ends without a fault.
pub choose-some :
    (str : Str) (table : List (Text × CommandFun))
    → HasText str
    → (found : Option CommandFun) × (choose str table ≡ some found)
unfolding choose
choose-some str [] h = (none, refl)
choose-some str ((name, fun) ∷ table) h =
    let (fits, e) = names_word-some str name h in
    let (found, rest) = choose-some str table h in
    elim (Bool-cases fits) [
      | inl hit ↦ (some fun, rw (e, hit, choose) refl)
      | inr miss ↦ (found, rw (e, miss, choose) rest)
    ]

same_length-text_eq :
    (name word : Text)
    → (length word == length name) ≡ true
    → starts_with name word ≡ text_eq name word
unfolding starts_with text_eq
same_length-text_eq [] [] h = refl
same_length-text_eq [] (c ∷ word) h = absurd (ground arith)
same_length-text_eq (d ∷ name) [] h = absurd (ground arith)
same_length-text_eq (d ∷ name) (c ∷ word) h =
    ap (λ b. (d == c) && b) (same_length-text_eq name word (ground arith))

other_length-text_eq :
    (name word : Text) → (length word == length name) ≡ false → text_eq name word ≡ false
unfolding text_eq
other_length-text_eq [] [] h = absurd (ground arith)
other_length-text_eq [] (c ∷ word) h = refl
other_length-text_eq (d ∷ name) [] h = refl
other_length-text_eq (d ∷ name) (c ∷ word) h =
    rw (other_length-text_eq name word (ground arith)) (ground arith)

-- The test of length and bytes is equality of texts.
names_word-text_eq : (word name : Text) → names_word (str_of word) name ≡ some (text_eq name word)
unfolding names_word
names_word-text_eq word name = elim (Bool-cases (length word == length name)) [
  | inl same ↦ rw (same, names_word) (ap some (same_length-text_eq name word same))
  | inr other ↦ rw (other, names_word) (ap some (sym (other_length-text_eq name word other)))
]

module _ (str : Str) (name : Text) (fun : CommandFun) (table : List (Text × CommandFun)) where
  choose_hit : names_word str name ≡ some true → choose str ((name, fun) ∷ table) ≡ some (some fun)
  unfolding choose
  choose_hit h = rw (h, choose) refl

  choose_miss :
      names_word str name ≡ some false → choose str ((name, fun) ∷ table) ≡ choose str table
  unfolding choose
  choose_miss h = rw (h, choose) refl

pub choose-find_name :
    (word : Text) (table : List (Text × CommandFun))
    → choose (str_of word) table ≡ some (find_name word table)
unfolding find_name choose
choose-find_name word [] = refl
choose-find_name word ((name, fun) ∷ table) = elim (Bool-cases (text_eq name word)) [
  | inl fits ↦
      choose_hit (str_of word) name fun table (names_word-text_eq word name ∙ ap some fits)
      ∙ rw (fits, find_name) refl
  | inr other ↦
      choose_miss (str_of word) name fun table (names_word-text_eq word name ∙ ap some other)
      ∙ choose-find_name word table
      ∙ rw (other, find_name) refl
]

then_pure :
    {S : Type 0} (o : Outcome S ℤ)
    → and_then (and_then o (λ _. pure (pos 0))) (λ _. pure tt) ≡ and_then o (λ _. pure tt)
then_pure (done r w) = refl
then_pure (exited n w) = refl
then_pure (replaced w) = refl
then_pure (unread w) = refl
then_pure fault = refl

module _ {S : Type 0} (env : Env S) (w : World S) (a : Arr Str) (is : w.dbug.cmd ≡ some a)
    (word : Text) (first : a.elts 0 ≡ str_of word) where
  pub play_command_lem : play_command env w ≡ run_chosen env (some (find_name word cmd_set)) a w
  unfolding play_command
  play_command_lem =
      ap (λ c. and_then (deref c w) (λ cmds. run_chosen env (choose (cmds.elts 0) cmd_set) cmds)) is
      ∙ ap (λ s. run_chosen env (choose s cmd_set) a w) first
      ∙ ap (λ c. run_chosen env c a w) (choose-find_name word cmd_set)

  -- A line whose first word is the name of a command runs that command's function on the words, and
  -- its result is dropped for 0.
  pub play_command-run_fun :
      (fun : CommandFun)
      → find_name word cmd_set ≡ some fun
      → play_command env w ≡ (run_fun env fun a >> pure (pos 0)) w
  unfolding run_chosen
  play_command-run_fun fun e = play_command_lem ∙ ap (λ c. run_chosen env (some c) a w) e

  -- Any other first word prints the message and returns -1, with nothing else changed.
  pub play_command-not_command :
      find_name word cmd_set ≡ none
      → play_command env w
        ≡ done minus_one (record w { out = w.out ++ not_command (some word) ∷ [] })
  unfolding run_chosen
  play_command-not_command e =
      play_command_lem
      ∙ ap (λ c. run_chosen env (some c) a w) e
      ∙ ap (λ (s : Str). done minus_one (record w { out = w.out ++ not_command s.chars ∷ [] }))
          first

module _ {S : Type 0} (env : Env S) (w : World S) (a : Arr Str) (is : w.dbug.cmd ≡ some a) where
  -- At the end of the input `get_command` sets the word count to 0 and leaves the words.
  get_command_eof :
      w.input ≡ []
      → (let d = w.dbug in
          get_command env w
          ≡ done (pos 0) (record w {
            dbug = record d { cmd = some (record a { nelts = 0 }) };
            out = w.out ++ prompt ∷ [];
          }))
  unfolding get_command read_line take_line split_loop until
  get_command_eof end = rw (end, is) refl

  -- At the end of the input, with the name of a command in element 0 of the array, a round of the loop
  -- prints the prompt and runs that command again, with a word count of 0: the words of the last line
  -- are still in the array.
  pub main_round_repeats :
      (word : Text) (fun : CommandFun)
      → a.elts 0 ≡ str_of word
      → find_name word cmd_set ≡ some fun
      → w.input ≡ []
      → (let d = w.dbug in
          let again : Arr Str = record a { nelts = 0 } in
          main_round env w
          ≡ (run_fun env fun again >> pure tt)
              (record w { dbug = record d { cmd = some again }; out = w.out ++ prompt ∷ [] }))
  main_round_repeats word fun first e end =
      let d = w.dbug in
      let again : Arr Str = record a { nelts = 0 } in
      let w1 : World S = record w {
        dbug = record d { cmd = some again };
        out = w.out ++ prompt ∷ [];
      } in
      let played = play_command-run_fun env w1 again refl word first fun e in
      unfold main_round in rw (get_command_eof end, played) (then_pure (run_fun env fun again w1))
