-- ===== src/Command/Handlers/Argv.antt =====
-- The argument vector that `command_dbug` hands to `execvp`.
use test_dbug.Common.{
  ℕ, suc, ◌+◌, ◌≡◌, refl, ap, ap₂, ◌∙◌, arith, List, [], ◌∷◌, ◌++◌, some, length, Text,
}
use mathlib.Core.List.{map}
use test_dbug.Session.{Str, Arr}
use test_dbug.Command.Read.Slots.{Holds}
use test_dbug.Command.Handlers.{argv_from}

argv_from-map :
    (a : Arr Str) (i : ℕ) (ws : List Text)
    → Holds a (i + 1) ws
    → argv_from a.elts (suc (length ws)) i
      ≡ map (λ t. some t) ws ++ (a.elts (i + 1 + length ws)).chars ∷ []
unfolding argv_from
argv_from-map a i [] h = let plain : i + 1 + 0 ≡ i + 1 = omega arith in rw plain refl
argv_from-map a i (word ∷ more) h =
    let place : i + 1 + suc (length more) ≡ (i + 1) + 1 + length more = omega arith in
    rw place (ap₂ ◌∷◌ (ap (λ s. s.chars) (h.0)) (argv_from-map a (i + 1) more h.1))

-- For a line of a command and its arguments the vector holds the arguments, and then, in place of the
-- null pointer that has to end it, whatever lies in the array behind the last word.
pub argv_from-Holds :
    (a : Arr Str) (command : Text) (args : List Text)
    → Holds a 0 (command ∷ args)
    → argv_from a.elts (suc (length args)) 0
      ≡ map (λ t. some t) args ++ (a.elts (suc (length args))).chars ∷ []
argv_from-Holds a command args h =
    let place : 0 + 1 + length args ≡ suc (length args) = omega arith in
    argv_from-map a 0 args (h.1)
    ∙ ap (λ (n : ℕ). map (λ t. some t) args ++ (a.elts n).chars ∷ []) place
