-- ===== src/Elf/Maps/Written.antt =====
-- The lines that `fgets` gives of a text file.
use test_dbug.Common.{
  ℕ, suc, zero, ◌<◌, ◌≡◌, refl, ap, ◌∙◌, arith, Bool, true, false, not, ◌&&◌, List, [], ◌∷◌, ◌++◌,
  append_assoc, ◌==◌, length, Text,
}
use test_dbug.Elf.Maps.{fgets_lines}

-- No character ends the line.
abbrev pub has_no_end : Text → Bool
has_no_end [] = true
has_no_end (c ∷ s) = not (c == 10) && has_no_end s

parts : (a b : Bool) → not a && b ≡ true → (a ≡ false) × (b ≡ true)
parts true b h = absurd (cc h)
parts false b h = (refl, h)

-- Lines that each fit the buffer with their end and the NUL.

abbrev pub AreShort : List Text → Type 0
AreShort [] = Unit
AreShort (line ∷ lines) = (has_no_end line ≡ true) × (length line < 511) × AreShort lines

abbrev pub ended : List Text → List Text
ended [] = []
ended (line ∷ lines) = (line ++ 10 ∷ []) ∷ ended lines

abbrev pub text_of : List Text → Text
text_of [] = []
text_of (line ∷ lines) = line ++ 10 ∷ text_of lines

fgets_lines-line :
    (line : Text) (n : ℕ) (before rest : Text)
    → has_no_end line ≡ true
    → length line < n
    → fgets_lines n before (line ++ 10 ∷ rest)
      ≡ (before ++ (line ++ 10 ∷ [])) ∷ fgets_lines 511 [] rest
unfolding fgets_lines
fgets_lines-line line zero before rest clear short = absurd (omega arith)
fgets_lines-line [] (suc n) before rest clear short = refl
fgets_lines-line (c ∷ s) (suc n) before rest clear short =
    let (other, more) = parts (c == 10) (has_no_end s) clear in
    rw (other, fgets_lines)
      (fgets_lines-line s n (before ++ c ∷ []) rest more (omega arith)
        ∙ ap (λ t. t ∷ fgets_lines 511 [] rest) (append_assoc before (c ∷ []) (s ++ 10 ∷ [])))

-- The lines of a file that ends with the end of a line are read one at a time, and then an empty one.
pub fgets_lines-ended :
    (lines : List Text)
    → AreShort lines
    → fgets_lines 511 [] (text_of lines) ≡ ended lines ++ [] ∷ []
unfolding fgets_lines
fgets_lines-ended [] short = refl
fgets_lines-ended (line ∷ lines) (clear, fits, short) =
    fgets_lines-line line 511 [] (text_of lines) clear fits
    ∙ ap (λ ls. (line ++ 10 ∷ []) ∷ ls) (fgets_lines-ended lines short)
