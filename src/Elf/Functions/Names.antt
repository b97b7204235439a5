-- ===== src/Elf/Functions/Names.antt =====
-- Every element that `get_all_func` fills has a name, so its table can be searched.
use test_dbug.Common.{
  ℕ, zero, suc, ◌+◌, ◌≡◌, arith, List, [], ◌∷◌, Option, some, Bool-cases, Option-cases, inl, inr,
  Text,
}
use test_dbug.Elf.Image.{Sym, sym_at, string_at}
use test_dbug.Elf.Functions.{FuncOrg, FunArr, is_func, store, func_of, pick_funcs, get_all_func}
use test_dbug.Elf.Lookup.{HasNames}

store-HasNames :
    (items : List FuncOrg) (c : ℕ) (f : FuncOrg) {items' : List FuncOrg}
    → HasNames c items
    → ((name : Text) × (f.name ≡ some name))
    → store items c f ≡ some items'
    → HasNames (suc c) items'
unfolding store
store-HasNames [] zero f h is e = absurd (cc)
store-HasNames [] (suc c) f h is e = absurd h
store-HasNames (x ∷ xs) zero f {items'} h is e = let same : items' ≡ f ∷ xs = cc in rw same (is, tt)
store-HasNames (x ∷ xs) (suc c) f {items'} h is e = elim (Option-cases (store xs c f)) [
  | inl bad ↦ absurd (ground arith)
  | inr (ys, stored) ↦
      let same : items' ≡ x ∷ ys = ground arith in
      rw same (h.0, store-HasNames xs c f h.1 is stored)
]

module _ (word : List ℕ) (syns strtab : Option ℕ) (base : ℕ) where
  func_of-name :
      (s : Sym) {f : FuncOrg}
      → func_of word syns strtab base s ≡ some f
      → (name : Text) × (f.name ≡ some name)
  unfolding func_of
  func_of-name s {f} e = elim (Option-cases strtab) [
    | inl bad ↦ absurd (ground arith)
    | inr (table, is) ↦ elim (Option-cases (string_at word (table + s.st_name))) [
      | inl bad ↦ absurd (ground arith)
      | inr (name, is_name) ↦ (name, ground arith)
    ]
  ]

  pick_funcs-HasNames :
      (n i c : ℕ) (items : List FuncOrg) {c' : ℕ} {items' : List FuncOrg}
      → HasNames c items
      → pick_funcs word syns strtab base n i c items ≡ some (c', items')
      → HasNames c' items'
  unfolding pick_funcs
  pick_funcs-HasNames zero i c items {c'} {items'} h e =
      let count : c' ≡ c = ground arith in
      let same : items' ≡ items = ground arith in rw (count, same) h
  pick_funcs-HasNames (suc n) i c items {c'} {items'} h e =
      elim (Option-cases (sym_at word syns i)) [
        | inl bad ↦ absurd (ground arith)
        | inr (s, is) ↦ elim (Bool-cases (is_func s)) [
          | inr other ↦ pick_funcs-HasNames n (i + 1) c items h (ground arith)
          | inl hit ↦ elim (Option-cases (func_of word syns strtab base s)) [
            | inl bad ↦ absurd (ground arith)
            | inr (f, is_f) ↦ elim (Option-cases (store items c f)) [
              | inl bad ↦ absurd (ground arith)
              | inr (ys, stored) ↦
                  let one : c + 1 ≡ suc c = omega arith in
                  pick_funcs-HasNames n (i + 1) (c + 1) ys
                    (rw one (store-HasNames items c f h (func_of-name s is_f) stored))
                    (ground arith)
            ]
          ]
        ]
      ]

  pub get_all_func-HasNames :
      (funs : FunArr) {funs' : FunArr}
      → get_all_func word syns strtab base funs ≡ some funs'
      → HasNames funs'.size funs'.items
  unfolding get_all_func
  get_all_func-HasNames funs {funs'} e =
      elim (Option-cases (pick_funcs word syns strtab base funs.size 0 0 funs.items)) [
        | inl bad ↦ absurd (ground arith)
        | inr ((count, items), picked) ↦
            let size : funs'.size ≡ count = ground arith in
            let same : funs'.items ≡ items = ground arith in
            rw (size, same) (pick_funcs-HasNames funs.size 0 0 funs.items tt picked)
      ]
