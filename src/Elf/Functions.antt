-- ===== src/Elf/Functions.antt =====
-- `get_all_func`: the function symbols are picked out of the symbol table in place.
pub mod Names
use test_dbug.Common.{
  ℕ, zero, suc, ◌+◌, ◌-◌, ◌%◌, ◌^◌, ◌≤◌, ◌<◌, ◌≡◌, refl, sym, ap, ◌∙◌, arith, Bool, true, false,
  ◌&&◌, not, List, [], ◌∷◌, ◌++◌, append_assoc, append-nil, Option, none, some, ◌==◌, if◌then◌else◌,
  Bool-cases, Option-cases, inl, inr, length, length-append, Text,
}
use test_dbug.Elf.Image.{◌>>=◌, Sym, sym_at, string_at}

-- `struct func_org`; the name is NULL in an element that was not filled.
pub record FuncOrg : Type 0 where
  pub name : Option Text
  pub addr : ℕ

-- `struct fun_arr`, with the elements that were allocated for `data`.
pub record FunArr : Type 0 where
  pub word : List ℕ
  pub size : ℕ
  pub items : List FuncOrg

-- `STT_FUNC`, in the low four bits of `st_info`.
abbrev pub stt_func : ℕ
stt_func = 2

unfoldable pub is_func : Sym → Bool
is_func s = (s.st_info % 2 ^ 4 == stt_func) && not (s.st_value == 0)

-- A store into `data[i]`; one outside of the array is a fault.
unfoldable pub store : List FuncOrg → ℕ → FuncOrg → Option (List FuncOrg)
store [] i f = none
store (x ∷ xs) zero f = some (f ∷ xs)
store (x ∷ xs) (suc i) f = elim (store xs i f) [ none ↦ none | some ys ↦ some (x ∷ ys) ]

module _ (word : List ℕ) (syns strtab : Option ℕ) (base : ℕ) where
  -- What is stored for a function symbol.
  unfoldable pub func_of : Sym → Option FuncOrg
  func_of s = do
    table ← strtab
    name ← string_at word (table + s.st_name)
    some (record { name = some name; addr = (s.st_value + base) % 2 ^ 64 })

  -- The loop at `i`, with rounds left, and `count` elements filled.
  unfoldable pub pick_funcs : ℕ → ℕ → ℕ → List FuncOrg → Option (ℕ × List FuncOrg)
  unfolding is_func store func_of
  pick_funcs zero i count items = some (count, items)
  pick_funcs (suc n) i count items = elim (sym_at word syns i) [
    | none ↦ none
    | some s ↦ elim (is_func s) [
      | false ↦ pick_funcs n (i + 1) count items
      | true ↦ elim (func_of s) [
        | none ↦ none
        | some f ↦ elim (store items count f) [
          | none ↦ none
          | some items' ↦ pick_funcs n (i + 1) (count + 1) items'
        ]
      ]
    ]
  ]

  -- The array after the call. The size is a C `int` that is not negative.
  unfoldable pub get_all_func : FunArr → Option FunArr
  unfolding pick_funcs
  get_all_func funs = do
    (count, items) ← pick_funcs funs.size 0 0 funs.items
    some (record funs { size = count; items = items })

  -- The specification: the function symbols among symbols `i`, `i + 1`, … in their order.
  unfoldable pub funcs_between : ℕ → ℕ → Option (List FuncOrg)
  funcs_between zero i = some []
  funcs_between (suc n) i = elim (sym_at word syns i) [
    | none ↦ none
    | some s ↦ elim (is_func s) [
      | false ↦ funcs_between n (i + 1)
      | true ↦ elim (func_of s) [
        | none ↦ none
        | some f ↦ elim (funcs_between n (i + 1)) [ none ↦ none | some fs ↦ some (f ∷ fs) ]
      ]
    ]
  ]

store-append :
    (xs : List FuncOrg) (y : FuncOrg) (ys : List FuncOrg) (f : FuncOrg)
    → store (xs ++ y ∷ ys) (length xs) f ≡ some (xs ++ f ∷ ys)
unfolding store
store-append [] y ys f = refl
store-append (x ∷ xs) y ys f = rw (store-append xs y ys f) refl

module _ (word : List ℕ) (syns strtab : Option ℕ) (base : ℕ) where
  pick_other :
      (n i c : ℕ) (items : List FuncOrg) {s : Sym}
      → sym_at word syns i ≡ some s
      → is_func s ≡ false
      → pick_funcs word syns strtab base (suc n) i c items
        ≡ pick_funcs word syns strtab base n (i + 1) c items
  unfolding pick_funcs
  pick_other n i c items is other = rw (is, other, pick_funcs) refl

  pick_hit :
      (n i c : ℕ) (items : List FuncOrg) {items' : List FuncOrg} {s : Sym} {f : FuncOrg}
      → sym_at word syns i ≡ some s
      → is_func s ≡ true
      → func_of word syns strtab base s ≡ some f
      → store items c f ≡ some items'
      → pick_funcs word syns strtab base (suc n) i c items
        ≡ pick_funcs word syns strtab base n (i + 1) (c + 1) items'
  unfolding pick_funcs
  pick_hit n i c items is hit is_f stored = rw (is, hit, is_f, stored, pick_funcs) refl

  -- From a filled front and room for the rest, the loop appends the specification's functions.
  pick_funcs-append :
      (n i : ℕ) (front room : List FuncOrg) {fs : List FuncOrg}
      → n ≤ length room
      → funcs_between word syns strtab base n i ≡ some fs
      → (rest : List FuncOrg) × (pick_funcs word syns strtab base n i (length front) (front ++ room)
          ≡ some (length front + length fs, (front ++ fs) ++ rest))
        × (length fs ≤ n)
  unfolding pick_funcs funcs_between
  pick_funcs-append zero i front room {fs} h e = (
    room,
    let same : fs ≡ [] = ground arith in
        rw (same, append-nil) (ap (λ (t : ℕ). some (t, front ++ room)) (omega arith)),
    let same : fs ≡ [] = ground arith in rw same (omega arith),
  )
  pick_funcs-append (suc n) i front [] h e = absurd (omega arith)
  pick_funcs-append (suc n) i front (x ∷ room) {fs} h e = elim (Option-cases (sym_at word syns i)) [
    | inl bad ↦ absurd (ground arith)
    | inr (s, is) ↦ elim (Bool-cases (is_func s)) [
      | inr other ↦
          let r =
            pick_funcs-append n (i + 1) front (x ∷ room) {fs = fs} (omega arith) (ground arith) in
          (
            r.0,
            pick_other n i (length front) (front ++ x ∷ room) is other ∙ r.1,
            omega (arith, r.2),
          )
      | inl hit ↦ elim (Option-cases (func_of word syns strtab base s)) [
        | inl bad ↦ absurd (ground arith)
        | inr (f, is_f) ↦ elim (Option-cases (funcs_between word syns strtab base n (i + 1))) [
          | inl bad ↦ absurd (ground arith)
          | inr (gs, is_gs) ↦
              let same : fs ≡ f ∷ gs = ground arith in
              let r =
                pick_funcs-append n (i + 1) (front ++ f ∷ []) room {fs = gs} (omega arith) is_gs in
              let one : length (front ++ f ∷ []) ≡ length front + 1 =
                length-append front (f ∷ []) in
              let place : (front ++ f ∷ []) ++ room ≡ front ++ f ∷ room =
                append_assoc front (f ∷ []) room in
              let tail : (front ++ f ∷ []) ++ gs ≡ front ++ f ∷ gs =
                append_assoc front (f ∷ []) gs in
              let counts : length front + 1 + length gs ≡ length front + suc (length gs) =
                omega arith in
              (
                r.0,
                pick_hit n i (length front) (front ++ x ∷ room) is hit is_f
                      (store-append front x room f)
                    ∙ rw same (rw (one, place, tail, counts) at (r.1)),
                rw same (omega (arith, r.2)),
              )
        ]
      ]
    ]
  ]

  -- Where all symbols and their names can be read, the call turns an array with room for them into the function symbols of the
  -- table in their order, sets the size to their number, and stores nothing outside of the array.
  pub get_all_func-funcs_between :
      (funs : FunArr) {fs : List FuncOrg}
      → funs.size ≤ length funs.items
      → funcs_between word syns strtab base funs.size 0 ≡ some fs
      → (rest : List FuncOrg) × (get_all_func word syns strtab base funs
          ≡ some (record { word = funs.word; size = length fs; items = fs ++ rest }))
        × (length fs ≤ funs.size)
  unfolding get_all_func
  get_all_func-funcs_between funs {fs} h e =
      let r = pick_funcs-append funs.size 0 [] funs.items {fs = fs} h e in
      let plain : 0 + length fs ≡ length fs = omega arith in (r.0, rw (r.1, plain) refl, r.2)
