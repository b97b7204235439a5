-- ===== src/Elf/Maps/Bases.antt =====
-- `get_pid_base` against the entries of a well-formed maps file.
use test_dbug.Common.{
  ℕ, ◌≡◌, refl, ◌∙◌, true, false, List, [], ◌∷◌, ◌++◌, Option, none, some, ap, Bool-cases, inl, inr,
  Text, if◌then◌else◌, until,
}
use test_dbug.Elf.Maps.{
  Fields, split_fields, assign_fields, fits_buffers, is_base_line, check_line, base_of, scan_maps,
}

-- What an entry of the maps file puts in the buffers. One of an anonymous mapping has no path, and
-- leaves the one of the entry before.
pub record Row : Type 0 where
  pub addr : Text
  pub offset : Text
  pub path : Option Text

unfoldable pub name_after : Text → Option Text → Text
name_after name none = name
name_after name (some path) = path

-- The buffers behind the row, with the path `name` in them before.
abbrev pub row_fields : Text → Row → Fields
row_fields name r = record {
  pro_addr = r.addr;
  pro_maps = r.offset;
  pro_name = name_after name r.path;
}

-- The fields that a line of five or of six of them has.
abbrev pub row_words : Row → Text → Text → Text → List Text
row_words r perms dev inode =
    r.addr ∷ perms ∷ r.offset ∷ dev ∷ inode ∷ elim r.path [ none ↦ [] | some path ↦ path ∷ [] ]

-- The line has the row's fields, and they fit the buffers.
abbrev pub HasRow : Text → Row → Type 0
HasRow line r =
    (perms : Text) × (dev : Text) × (inode : Text) × (split_fields 6 line
      ≡ row_words r perms dev inode)
    × (fits_buffers (row_fields [] r) ≡ true)

abbrev pub HasRows : List Text → List Row → Type 0
HasRows [] [] = Unit
HasRows [] (r ∷ rs) = ⊥
HasRows (line ∷ lines) [] = ⊥
HasRows (line ∷ lines) (r ∷ rs) = HasRow line r × HasRows lines rs

-- The base of the first row that passes the test, with the path `name` before it; 0 if there is none.
unfoldable pub first_base : Text → Text → List Row → ℕ
first_base target name [] = 0
first_base target name (r ∷ rs) =
    let later = first_base target (name_after name r.path) rs in
    if is_base_line target (row_fields name r) then base_of r.addr else later

module _ (target : Text) (e : Fields) (rest : Option ℕ) (fits : fits_buffers e ≡ true) where
  check_hit : is_base_line target e ≡ true → check_line target e rest ≡ some (base_of e.pro_addr)
  unfolding check_line
  check_hit hit = rw (fits, hit, check_line) refl

  check_miss : is_base_line target e ≡ false → check_line target e rest ≡ rest
  unfolding check_line
  check_miss miss = rw (fits, miss, check_line) refl

module _ (target line : Text) (lines : List Text) (f : Fields) {e : Fields}
    (same : assign_fields (split_fields 6 line) f ≡ e) (fits : fits_buffers e ≡ true) where
  scan_hit :
      is_base_line target e ≡ true → scan_maps target (line ∷ lines) f ≡ some (base_of e.pro_addr)
  unfolding scan_maps
  scan_hit hit = rw same (check_hit target e (scan_maps target lines e) fits hit)

  scan_miss :
      is_base_line target e ≡ false → scan_maps target (line ∷ lines) f ≡ scan_maps target lines e
  unfolding scan_maps
  scan_miss miss = rw same (check_miss target e (scan_maps target lines e) fits miss)

HasRow-assign :
    (line : Text) (r : Row) (f : Fields)
    → HasRow line r
    → assign_fields (split_fields 6 line) f ≡ row_fields f.pro_name r
unfolding assign_fields name_after
HasRow-assign line r f (perms, dev, inode, split, fits) =
    ap (λ ws. assign_fields ws f) split ∙ by_path r.path refl
  where
    by_path :
        (path : Option Text)
        → r.path ≡ path
        → assign_fields (row_words r perms dev inode) f ≡ row_fields f.pro_name r
    by_path none is = rw is refl
    by_path (some path) is = rw is refl

-- On lines of five or six fields each, which fit the buffers, and the empty one that the end of the file
-- gives, the loop finds the base of the first row that passes the test, if the buffers did not pass it
-- before.
pub scan_maps-first_base :
    (target : Text) (lines : List Text) (rows : List Row) (f : Fields)
    → fits_buffers f ≡ true
    → is_base_line target f ≡ false
    → HasRows lines rows
    → scan_maps target (lines ++ [] ∷ []) f ≡ some (first_base target f.pro_name rows)
unfolding scan_maps first_base split_fields until assign_fields fits_buffers
scan_maps-first_base target [] [] f fits miss h = check_miss target f (some 0) fits miss
scan_maps-first_base target [] (r ∷ rs) f fits miss h = absurd h
scan_maps-first_base target (line ∷ lines) [] f fits miss h = absurd h
scan_maps-first_base target (line ∷ lines) (r ∷ rs) f fits miss (row, h) =
    let same = HasRow-assign line r f row in
    let now = row_fields f.pro_name r in
    elim (Bool-cases (is_base_line target now)) [
      | inl hit ↦ scan_hit target line (lines ++ [] ∷ []) f same row.4 hit ∙ rw hit refl
      | inr other ↦
          scan_miss target line (lines ++ [] ∷ []) f same row.4 other
          ∙ scan_maps-first_base target lines rs now row.4 other h
          ∙ rw other refl
    ]
