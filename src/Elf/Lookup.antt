-- ===== src/Elf/Lookup.antt =====
-- `find_func`, `foreach_fun` and `close_funs`: the table of functions.
use test_dbug.Common.{
  ℕ, zero, suc, ◌+◌, ◌<◌, ◌≡◌, refl, ap, ◌∙◌, arith, Bool, true, false, List, [], ◌∷◌, ◌++◌, Option,
  none, some, ◌⊎◌, inl, inr, ℤ, pos, minus_one, Bool-cases, get_elem?, Text, starts_with,
  starts_with_split, starts_with-append,
}
use native.Mathlib.Decide.{dec_lt}
use test_dbug.Output.{Line, func_line}
use test_dbug.Elf.Functions.{FuncOrg, FunArr}

-- The loop of `find_func` at `i`, with rounds left and the elements from `data[i]` on. A read
-- behind the array or of a NULL name is a fault.
pub find_from : Text → ℕ → List FuncOrg → ℕ → Option ℤ
find_from func zero items i = some minus_one
find_from func (suc n) [] i = none
find_from func (suc n) (f ∷ items) i = elim f.name [
  | none ↦ none
  | some name ↦ elim (starts_with func name) [
    | true ↦ some (pos i)
    | false ↦ find_from func n items (i + 1)
  ]
]

unfoldable pub find_func : Option FunArr → Option Text → Option ℤ
unfolding find_from
find_func none func = some minus_one
find_func (some funs) none = some minus_one
find_func (some funs) (some func) = find_from func funs.size funs.items 0

foreach_from : ℕ → List FuncOrg → ℕ → Option (List Line)
foreach_from zero items i = some []
foreach_from (suc n) [] i = none
foreach_from (suc n) (f ∷ items) i = elim (foreach_from n items (i + 1)) [
  | none ↦ none
  | some lines ↦ some (func_line i f.name f.addr ∷ lines)
]

-- What `foreach_fun` prints.
unfoldable pub foreach_fun : Option FunArr → Option (List Line)
unfolding foreach_from
foreach_fun none = some []
foreach_fun (some funs) = foreach_from funs.size funs.items 0

-- The returned number, and whether the array and its image were freed.
pub close_funs : Option FunArr → ℤ × Bool
close_funs none = (minus_one, false)
close_funs (some funs) = (pos 0, true)

unfoldable pub name_at : List FuncOrg → ℕ → Option Text
name_at [] i = none
name_at (f ∷ items) zero = f.name
name_at (f ∷ items) (suc i) = name_at items i

-- The first `size` elements exist and have names, as `get_all_func` leaves them.
abbrev pub HasNames : ℕ → List FuncOrg → Type 0
HasNames zero items = Unit
HasNames (suc n) [] = ⊥
HasNames (suc n) (f ∷ items) = ((name : Text) × (f.name ≡ some name)) × HasNames n items

-- None of the elements below `n` has a name that begins with the text.
abbrev pub NoMatch : Text → List FuncOrg → ℕ → Type 0
NoMatch func items n =
    (j : ℕ) (name rest : Text) → j < n → name_at items j ≡ some name → ¬ (name ≡ func ++ rest)

foreach_from-some :
    (n : ℕ) (items : List FuncOrg) (i : ℕ)
    → HasNames n items
    → (lines : List Line) × (foreach_from n items i ≡ some lines)
unfolding foreach_from
foreach_from-some zero items i h = ([], refl)
foreach_from-some (suc n) [] i h = absurd h
foreach_from-some (suc n) (f ∷ items) i (is, h) =
    let (lines, e) = foreach_from-some n items (i + 1) h in
    (func_line i f.name f.addr ∷ lines, rw e refl)

-- A table whose elements have names is printed without a fault.
pub foreach_fun-some :
    (funs : FunArr)
    → HasNames funs.size funs.items
    → (lines : List Line) × (foreach_fun (some funs) ≡ some lines)
unfolding foreach_fun
foreach_fun-some funs h = foreach_from-some funs.size funs.items 0 h

-- What the search answers: the first element whose name begins with the text, or -1 if none does.
abbrev pub Answers : Text → List FuncOrg → ℕ → ℕ → ℤ → Type 0
Answers func items n k r =
    ((j : ℕ) × (rest : Text) × (r ≡ pos (k + j))
      × (j < n)
      × (name_at items j ≡ some (func ++ rest))
      × NoMatch func items j)
    ⊎ ((r ≡ minus_one) × NoMatch func items n)

NoMatch-cons :
    (func : Text) (f : FuncOrg) (items : List FuncOrg) (n : ℕ) {name : Text}
    → f.name ≡ some name
    → starts_with func name ≡ false
    → NoMatch func items n
    → NoMatch func (f ∷ items) (suc n)
unfolding name_at
NoMatch-cons func f items n is miss h zero t rest p q = λ e. cc (starts_with-append func rest)
NoMatch-cons func f items n is miss h (suc j) t rest p q = h j t rest (omega arith) q

find_from-Answers :
    (func : Text) (n : ℕ) (items : List FuncOrg) (k : ℕ)
    → HasNames n items
    → (r : ℤ) × (find_from func n items k ≡ some r) × Answers func items n k r
unfolding find_from name_at
find_from-Answers func zero items k h =
    (minus_one, refl, inr (refl, λ j t rest p. absurd (omega arith)))
find_from-Answers func (suc n) [] k h = absurd h
find_from-Answers func (suc n) (f ∷ items) k ((name, is), h) =
    elim (Bool-cases (starts_with func name)) [
      | inl hit ↦
          let (rest, e) = starts_with_split func name hit in
          (
            pos k,
            rw (is, hit) refl,
            inl (
              0,
              rest,
              ap pos (omega arith),
              omega arith,
              is ∙ ap some e,
              λ j t u p. absurd (omega arith),
            ),
          )
      | inr miss ↦
          let (r, found, answer) = find_from-Answers func n items (k + 1) h in
          (
            r,
            rw (is, miss) found,
            elim answer [
              | inl (j, rest, at, below, here, before) ↦ inl (
                suc j,
                rest,
                at ∙ ap pos (omega arith),
                omega arith,
                here,
                NoMatch-cons func f items j is miss before,
              )
              | inr (end, before) ↦ inr (end, NoMatch-cons func f items n is miss before)
            ],
          )
    ]

-- In a table whose elements have names, the search ends without a fault, at the first function whose name begins with the given text; it
-- is -1 exactly when no name does.
pub find_func-Answers :
    (funs : FunArr) (func : Text)
    → HasNames funs.size funs.items
    → (r : ℤ) × (find_func (some funs) (some func) ≡ some r) × Answers func funs.items funs.size 0 r
unfolding find_func
find_func-Answers funs func h = find_from-Answers func funs.size funs.items 0 h

-- Where the name at index `i` begins with the text, the search in a table whose elements have names
-- answers in front of any later index `j`, though the name there were the text itself.
pub find_func_shadowed :
    (funs : FunArr) (func rest : Text) (i j : ℕ)
    → HasNames funs.size funs.items
    → i < j
    → i < funs.size
    → name_at funs.items i ≡ some (func ++ rest)
    → (k : ℕ) × (find_func (some funs) (some func) ≡ some (pos k)) × (k < j)
find_func_shadowed funs func rest i j h before within is =
    let (r, found, answer) = find_func-Answers funs func h in
    elim answer [
      | inl (k, u, at, below, here, first) ↦ elim (dec_lt i k) [
        | yes late ↦ absurd (first i (func ++ rest) rest late is refl)
        | no early ↦ (0 + k, found ∙ ap some at, omega arith)
      ]
      | inr (end, none_has) ↦ absurd (none_has i (func ++ rest) rest within is refl)
    ]

find_from_empty :
    (n : ℕ) (items : List FuncOrg)
    → HasNames n items
    → 0 < n
    → find_from [] n items 0 ≡ some (pos 0)
unfolding find_from starts_with
find_from_empty zero items h some_funcs = absurd (omega arith)
find_from_empty (suc n) [] h some_funcs = absurd h
find_from_empty (suc n) (f ∷ items) ((name, is), h) some_funcs = rw is refl

-- The empty text finds the first function of any table that is not empty and whose elements have
-- names.
pub find_func_empty :
    (funs : FunArr)
    → HasNames funs.size funs.items
    → 0 < funs.size
    → find_func (some funs) (some []) ≡ some (pos 0)
unfolding find_func
find_func_empty funs h some_funcs = find_from_empty funs.size funs.items h some_funcs

pub name_at-get_elem? :
    (items : List FuncOrg) (j : ℕ) {name : Text}
    → name_at items j ≡ some name
    → (f : FuncOrg) × (get_elem? items j ≡ some f) × (f.name ≡ some name)
unfolding name_at
name_at-get_elem? [] j e = absurd (cc)
name_at-get_elem? (f ∷ items) zero e = (f, refl, e)
name_at-get_elem? (f ∷ items) (suc j) e = name_at-get_elem? items j e
