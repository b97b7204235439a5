-- ===== src/Common/Lists.antt =====
-- Lists measured by native numbers, under the library's names.
use Prim.Native.Nat.{ℕ, zero, suc, ◌+◌, ◌-◌, ◌≤◌}
use mathlib.Core.Path.{◌≡◌, refl, ap}
use mathlib.Core.List.{List, [], ◌∷◌, ◌++◌}
use mathlib.Core.Option.{Option, none, some}
use native.Mathlib.Omega.{arith}

module _ {ℓ} {A : Type ℓ} where
  abbrev pub length : List A → ℕ
  length [] = 0
  length (x ∷ xs) = suc (length xs)

  abbrev pub get_elem? : List A → ℕ → Option A
  get_elem? [] i = none
  get_elem? (x ∷ xs) zero = some x
  get_elem? (x ∷ xs) (suc i) = get_elem? xs i

  abbrev pub take : ℕ → List A → List A
  take zero xs = []
  take (suc n) [] = []
  take (suc n) (x ∷ xs) = x ∷ take n xs

  abbrev pub drop : ℕ → List A → List A
  drop zero xs = xs
  drop (suc n) [] = []
  drop (suc n) (x ∷ xs) = drop n xs

  pub length-append : (xs ys : List A) → length (xs ++ ys) ≡ length xs + length ys
  length-append [] ys = omega arith
  length-append (x ∷ xs) ys = omega (arith, length-append xs ys)

  pub length-drop : (n : ℕ) (xs : List A) → length (drop n xs) ≡ length xs - n
  length-drop zero xs = omega arith
  length-drop (suc n) [] = omega arith
  length-drop (suc n) (x ∷ xs) = omega (arith, length-drop n xs)

  pub length-take : (n : ℕ) (xs : List A) → n ≤ length xs → length (take n xs) ≡ n
  length-take zero xs h = refl
  length-take (suc n) [] h = absurd (omega arith)
  length-take (suc n) (x ∷ xs) h = ap suc (length-take n xs (omega arith))

  -- Taking in two pieces.
  pub take_add : (m n : ℕ) (xs : List A) → take m xs ++ take n (drop m xs) ≡ take (m + n) xs
  take_add zero n xs = rw zero_plus refl
    where
      zero_plus : 0 + n ≡ n
      zero_plus = omega arith
  take_add (suc m) zero [] = rw suc_plus refl
    where
      suc_plus : suc m + zero ≡ suc (m + zero)
      suc_plus = omega arith
  take_add (suc m) (suc n) [] = rw suc_plus refl
    where
      suc_plus : suc m + suc n ≡ suc (m + suc n)
      suc_plus = omega arith
  take_add (suc m) n (x ∷ xs) = rw suc_plus (ap (λ t. x ∷ t) (take_add m n xs))
    where
      suc_plus : suc m + n ≡ suc (m + n)
      suc_plus = omega arith

  pub drop_add : (m n : ℕ) (xs : List A) → drop n (drop m xs) ≡ drop (m + n) xs
  drop_add zero n xs = rw zero_plus refl
    where
      zero_plus : 0 + n ≡ n
      zero_plus = omega arith
  drop_add (suc m) zero [] = rw suc_plus refl
    where
      suc_plus : suc m + zero ≡ suc (m + zero)
      suc_plus = omega arith
  drop_add (suc m) (suc n) [] = rw suc_plus refl
    where
      suc_plus : suc m + suc n ≡ suc (m + suc n)
      suc_plus = omega arith
  drop_add (suc m) n (x ∷ xs) = rw suc_plus (drop_add m n xs)
    where
      suc_plus : suc m + n ≡ suc (m + n)
      suc_plus = omega arith

  -- Two splits of one list at the same place.
  pub append_split :
      (xs ys : List A) {us vs : List A}
      → length xs ≡ length ys
      → xs ++ us ≡ ys ++ vs
      → (xs ≡ ys) × (us ≡ vs)
  append_split [] [] h e = (refl, e)
  append_split [] (y ∷ ys) h e = absurd (omega arith)
  append_split (x ∷ xs) [] h e = absurd (omega arith)
  append_split (x ∷ xs) (y ∷ ys) {us} {vs} h e =
      let tails : xs ++ us ≡ ys ++ vs = cc in
      let rest : (xs ≡ ys) × (us ≡ vs) = append_split xs ys (omega arith) tails in
      (cc (rest.0), rest.1)
