-- ===== src/Elf/Maps/Numbers.antt =====
-- The numbers of the maps file: what `sscanf` reads of an address written in hexadecimal.
use test_dbug.Common.{
  ℕ, ◌+◌, ◌*◌, ◌^◌, ◌<◌, ◌≡◌, refl, ap, Bool, ◌&&◌, ◌∙◌, arith, true, false, ◌≤◌, List, [], ◌∷◌,
  ◌++◌, Option, none, take, length, ◌-◌, some, Bool-cases, ◌⊎◌, inl, inr, ltb, leb, ◌==◌,
  if◌then◌else◌, Text, until, isspace, skip_spaces, starts_with, hex_digit, hex_digits, is_hex,
  scan_unsigned, scan_signed, sscanf_lx,
}
use mathlib.Core.List.{map}
use test_dbug.Elf.Maps.{fits_buffers, empty_fields, base_of, is_base_line, fgets_lines, scan_maps}
use test_dbug.Elf.Maps.Bases.{
  Row, row_fields, name_after, HasRows, first_base, scan_maps-first_base,
}
use test_dbug.Elf.Maps.Written.{AreShort, ended, text_of, fgets_lines-ended}

-- The character of a digit, and the number that digits stand for behind a value.
abbrev pub hex_char : ℕ → ℕ
hex_char d = if ltb d 10 then d + 48 else d + 87

unfoldable pub hex_value : ℕ → List ℕ → ℕ
hex_value v [] = v
hex_value v (d ∷ ds) = hex_value (v * 16 + d) ds

abbrev pub AreDigits : List ℕ → Type 0
AreDigits [] = Unit
AreDigits (d ∷ ds) = (d < 16) × AreDigits ds

hex_digit-hex_char : (d : ℕ) → d < 16 → hex_digit (hex_char d) ≡ some d
unfolding hex_digit
hex_digit-hex_char d h = elim (Bool-cases (ltb d 10)) [
  | inl low ↦ rw low (ground arith)
  | inr high ↦ rw high (ground arith)
]

hex_digits-hex_value :
    (v : ℕ) (ds : List ℕ) → AreDigits ds → hex_digits v (map hex_char ds) ≡ hex_value v ds
unfolding hex_digits hex_value
hex_digits-hex_value v [] h = refl
hex_digits-hex_value v (d ∷ ds) (small, h) =
    rw (hex_digit-hex_char d small, hex_digits) (hex_digits-hex_value (v * 16 + d) ds h)

-- No digit's character is white space, a sign or an `x`.
hex_char-bounds : (d : ℕ) → d < 16 → (48 ≤ hex_char d) × (hex_char d ≤ 102)
hex_char-bounds d h = elim (Bool-cases (ltb d 10)) [
  | inl low ↦ rw low (omega arith, omega arith)
  | inr high ↦ rw high (ground arith, omega arith)
]

until-minus :
    (ds : List ℕ) (rest : Text)
    → AreDigits ds
    → (until b'-' (map hex_char ds ++ b'-' ∷ rest)).0 ≡ map hex_char ds
unfolding until
until-minus [] rest h = refl
until-minus (d ∷ ds) rest (small, h) =
    let (low, high) = hex_char-bounds d small in
    let other : (hex_char d == b'-') ≡ false = ground arith in
    rw (other, until) (ap (λ t. hex_char d ∷ t) (until-minus ds rest h))

other_letter : (x d : ℕ) → d < 16 → 57 < x → (x < 97) ⊎ (102 < x) → (x == hex_char d) ≡ false
other_letter x d h above far = elim (Bool-cases (ltb d 10)) [
  | inl low ↦ rw low (ground arith)
  | inr high ↦ elim far [
    | inl before ↦ rw high (ground arith)
    | inr behind ↦ rw high (ground arith)
  ]
]

no_prefix :
    (x : ℕ) (d : ℕ) (ds : List ℕ)
    → AreDigits ds
    → 57 < x
    → (x < 97) ⊎ (102 < x)
    → starts_with (b'0' ∷ x ∷ []) (map hex_char (d ∷ ds)) ≡ false
unfolding starts_with
no_prefix x d [] h above far = ground arith
no_prefix x d (e ∷ ds) (next, h) above far = rw (other_letter x e next above far) (ground arith)

module _ (d : ℕ) (ds : List ℕ) (small : d < 16) (h : AreDigits ds)
    (fits : hex_value 0 (d ∷ ds) < 2 ^ 64) where
  is_hex-digits : is_hex (map hex_char (d ∷ ds)) ≡ true
  unfolding is_hex
  is_hex-digits = rw (hex_digit-hex_char d small, is_hex) refl

  scan_unsigned-hex_value : scan_unsigned (map hex_char (d ∷ ds)) ≡ some (hex_value 0 (d ∷ ds))
  unfolding scan_unsigned
  scan_unsigned-hex_value =
      let value = hex_digits-hex_value 0 (d ∷ ds) (small, h) in
      let fit : ltb (hex_value 0 (d ∷ ds)) (2 ^ 64) ≡ true = ground arith in
      rw
        (
          no_prefix b'x' d ds h (omega arith) (inr (omega arith)),
          no_prefix b'X' d ds h (omega arith) (inl (omega arith)),
          is_hex-digits,
          value,
          fit,
        )
        refl

  scan_signed-hex_value : scan_signed (map hex_char (d ∷ ds)) ≡ some (hex_value 0 (d ∷ ds))
  unfolding scan_signed
  scan_signed-hex_value =
      let (low, high) = hex_char-bounds d small in
      let minus : (hex_char d == b'-') ≡ false = ground arith in
      let plus : (hex_char d == b'+') ≡ false = ground arith in
      rw (minus, plus) scan_unsigned-hex_value

  skip_spaces-digits : skip_spaces (map hex_char (d ∷ ds)) ≡ map hex_char (d ∷ ds)
  unfolding skip_spaces isspace
  skip_spaces-digits =
      let (low, high) = hex_char-bounds d small in
      let blank : (hex_char d == 32) ≡ false = ground arith in
      let control : leb (hex_char d) 13 ≡ false = ground arith in
      let from_tab : leb 9 (hex_char d) ≡ true = ground arith in rw (blank, from_tab, control) refl

  sscanf_lx-hex_value : sscanf_lx (map hex_char (d ∷ ds)) ≡ some (hex_value 0 (d ∷ ds))
  unfolding sscanf_lx
  sscanf_lx-hex_value = ap scan_signed skip_spaces-digits ∙ scan_signed-hex_value

  base_of-hex_value :
      (rest : Text) → base_of (map hex_char (d ∷ ds) ++ b'-' ∷ rest) ≡ hex_value 0 (d ∷ ds)
  unfolding base_of
  base_of-hex_value rest =
      ap (λ t. elim (sscanf_lx t) [ none ↦ 0 | some num ↦ num ])
        (until-minus (d ∷ ds) rest (small, h))
      ∙ ap (λ r. elim r [ none ↦ 0 | some num ↦ num ]) sscanf_lx-hex_value

-- An entry of the maps file: the digits of its first address, which are not none, what follows the
-- minus sign behind them, its offset and its path, if it has one.
pub record Entry : Type 0 where
  pub first : ℕ
  pub digits : List ℕ
  pub end : Text
  pub offset : Text
  pub path : Option Text

abbrev pub start_of : Entry → ℕ
start_of e = hex_value 0 (e.first ∷ e.digits)

-- The address is one of 64 bits.
abbrev pub IsEntry : Entry → Type 0
IsEntry e = AreDigits (e.first ∷ e.digits) × (start_of e < 2 ^ 64)

abbrev pub AreEntries : List Entry → Type 0
AreEntries [] = Unit
AreEntries (e ∷ es) = IsEntry e × AreEntries es

-- The entry as it is written in a line.
abbrev pub row_of : Entry → Row
row_of e = record {
  addr = map hex_char (e.first ∷ e.digits) ++ b'-' ∷ e.end;
  offset = e.offset;
  path = e.path;
}

-- The start of the first entry that passes the test of the loop; 0 if there is none. An entry without a
-- path is tested with `name`, the one before it.
unfoldable pub first_start : Text → Text → List Entry → ℕ
first_start target name [] = 0
first_start target name (e ∷ es) =
    let later = first_start target (name_after name e.path) es in
    if is_base_line target (row_fields name (row_of e)) then start_of e else later

first_base-first_start :
    (target name : Text) (es : List Entry)
    → AreEntries es
    → first_base target name (map row_of es) ≡ first_start target name es
unfolding first_base first_start
first_base-first_start target name [] h = refl
first_base-first_start target name (e ∷ es) (((small, digits), fits), h) =
    rw
      (
        first_base-first_start target (name_after name e.path) es h,
        base_of-hex_value e.first e.digits small digits fits e.end,
      )
      refl

-- On a maps file of lines below 511 characters that ends with the end of a line, where each line has
-- six fields, or five if it has no path, that fit the buffers, and begins with an address of 64 bits in
-- hexadecimal: the loop answers with the address, as a number, of the first entry that passes the test, where
-- an entry without a path has that of the entry before; it is 0 where no entry passes.
pub scan_maps-first_start :
    (target : Text) (lines : List Text) (es : List Entry)
    → AreShort lines
    → AreEntries es
    → HasRows (ended lines) (map row_of es)
    → scan_maps target (fgets_lines 511 [] (text_of lines)) empty_fields
      ≡ some (first_start target [] es)
unfolding is_base_line starts_with fits_buffers
scan_maps-first_start target lines es short h written =
    ap (λ ls. scan_maps target ls empty_fields) (fgets_lines-ended lines short)
    ∙ scan_maps-first_base target (ended lines) (map row_of es) empty_fields refl (no_row target)
        written
    ∙ ap some (first_base-first_start target [] es h)
  where
    and_false : (b : Bool) → b && false ≡ false
    and_false true = refl
    and_false false = refl

    no_row : (target : Text) → is_base_line target empty_fields ≡ false
    no_row target = and_false (starts_with (take (length target - 1) target) [])
