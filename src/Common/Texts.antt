-- ===== src/Common/Texts.antt =====
-- C strings as lists of bytes, and the functions of the C library that the sources call on them.
use Prim.Native.Nat.{ℕ, ◌+◌, ◌-◌, ◌*◌, ◌%◌, ◌^◌}
use Prim.Native.Char.{code}
use Prim.Native.String.{String}
use mathlib.Core.Path.{◌≡◌, refl, ap₂}
use mathlib.Core.Bool.{Bool, true, false, ◌&&◌, ◌||◌}
use mathlib.Core.Option.{Option, none, some}
use mathlib.Core.List.{List, [], ◌∷◌, ◌++◌}
use native.Mathlib.Omega.{arith}
use test_dbug.Common.Tests.{ltb, leb, ◌==◌, if◌then◌else◌, ==_refl}

-- A C string, without its closing NUL.
abbrev pub Text : Type 0
Text = List ℕ

abbrev pub codes : String → Text
codes String.[] = []
codes (String.◌∷◌ c s) = code c ∷ codes s

-- `isspace` in the C locale.
unfoldable pub isspace : ℕ → Bool
isspace c = (c == 32) || (leb 9 c && leb c 13)

-- `memcmp(s, t, strlen(t)) == 0` on C strings: the NUL of a shorter `s` differs from a byte of `t`.
unfoldable pub starts_with : Text → Text → Bool
starts_with [] s = true
starts_with (c ∷ t) [] = false
starts_with (c ∷ t) (d ∷ s) = (c == d) && starts_with t s

-- `strcmp(s, t) == 0`
unfoldable pub text_eq : Text → Text → Bool
text_eq [] [] = true
text_eq [] (d ∷ t) = false
text_eq (c ∷ s) [] = false
text_eq (c ∷ s) (d ∷ t) = (c == d) && text_eq s t

pub text_eq_iff_to : (s t : Text) → text_eq s t ≡ true → s ≡ t
unfolding text_eq
text_eq_iff_to [] [] h = refl
text_eq_iff_to [] (d ∷ t) h = absurd (cc)
text_eq_iff_to (c ∷ s) [] h = absurd (cc)
text_eq_iff_to (c ∷ s) (d ∷ t) h = ap₂ ◌∷◌ (ground arith) (text_eq_iff_to s t (ground arith))

pub text_eq_self : (s : Text) → text_eq s s ≡ true
unfolding text_eq
text_eq_self [] = refl
text_eq_self (c ∷ s) = rw (==_refl c) (text_eq_self s)

-- Exactly the texts that begin with `t` start with it.
pub starts_with-append : (t r : Text) → starts_with t (t ++ r) ≡ true
unfolding starts_with
starts_with-append [] r = refl
starts_with-append (c ∷ t) r = rw (==_refl c) (starts_with-append t r)

pub starts_with_split : (t s : Text) → starts_with t s ≡ true → (r : Text) × (s ≡ t ++ r)
unfolding starts_with
starts_with_split [] s h = (s, refl)
starts_with_split (c ∷ t) [] h = absurd (cc)
starts_with_split (c ∷ t) (d ∷ s) h =
    let (r, e) = starts_with_split t s (ground arith) in (r, ap₂ ◌∷◌ (ground arith) e)

-- What `%[^c]` takes, and what it leaves.
unfoldable pub until : ℕ → Text → Text × Text
until c [] = ([], [])
until c (d ∷ s) = let rest = until c s in if d == c then ([], d ∷ s) else (d ∷ rest.0, rest.1)

unfoldable pub skip_spaces : Text → Text
unfolding isspace
skip_spaces [] = []
skip_spaces (d ∷ s) = let rest = skip_spaces s in if isspace d then rest else d ∷ s

unfoldable pub hex_digit : ℕ → Option ℕ
hex_digit c =
    if leb b'0' c && leb c b'9'
    then some (c - 48)
    else if leb b'a' c && leb c b'f'
    then some (c - 87)
    else if leb b'A' c && leb c b'F'
    then some (c - 55)
    else none

-- The value so far, whether there was a digit, and the rest; a value that does not fit 64 bits
-- becomes the largest one.
unfoldable pub hex_digits : ℕ → Text → ℕ
unfolding hex_digit
hex_digits v [] = v
hex_digits v (c ∷ s) = elim (hex_digit c) [ none ↦ v | some d ↦ hex_digits (v * 16 + d) s ]

unfoldable pub is_hex : Text → Bool
unfolding hex_digit
is_hex [] = false
is_hex (c ∷ s) = elim (hex_digit c) [ none ↦ false | some d ↦ true ]

abbrev pub saturate : ℕ → ℕ
saturate v = if ltb v (2 ^ 64) then v else 2 ^ 64 - 1

-- `sscanf(s, "%lx", &num)` past the white space and the sign; `none` leaves `num` as it was.
unfoldable pub scan_unsigned : Text → Option ℕ
unfolding is_hex hex_digits
scan_unsigned s =
    if starts_with (codes "0x") s || starts_with (codes "0X") s
    then elim s [
      | [] ↦ none
      | a ∷ t ↦ elim t [ [] ↦ none | b ∷ u ↦ some (saturate (hex_digits 0 u)) ]
    ]
    else if is_hex s
    then some (saturate (hex_digits 0 s))
    else none

unfoldable pub negate64 : ℕ → ℕ
negate64 v = (2 ^ 64 - v) % 2 ^ 64

unfoldable pub scan_signed : Text → Option ℕ
unfolding scan_unsigned negate64
scan_signed [] = none
scan_signed (c ∷ s) =
    if c == b'-'
    then elim (scan_unsigned s) [ none ↦ none | some v ↦ some (negate64 v) ]
    else if c == b'+'
    then scan_unsigned s
    else scan_unsigned (c ∷ s)

unfoldable pub sscanf_lx : Text → Option ℕ
unfolding skip_spaces scan_signed
sscanf_lx s = scan_signed (skip_spaces s)
