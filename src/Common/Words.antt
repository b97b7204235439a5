-- ===== src/Common/Words.antt =====
-- Little-endian words of x86-64 and the bytes they are made of, as `memcpy` moves them.
use Prim.Native.Nat.{ℕ, zero, suc, ◌+◌, ◌-◌, ◌*◌, ◌/◌, ◌%◌, ◌≤◌, ◌<◌}
use mathlib.Core.Path.{◌≡◌, refl, ap, ap₂}
use mathlib.Core.List.{List, [], ◌∷◌, ◌++◌}
use native.Mathlib.Omega.{arith}
use native.Mathlib.Decide.{ℕ_discrete}
use test_dbug.Common.Lists.{length, take, drop}

-- The `n` low bytes of a word, in the order in which they lie in memory.
unfoldable pub le_bytes : ℕ → ℕ → List ℕ
le_bytes zero w = []
le_bytes (suc n) w = (w % 256) ∷ le_bytes n (w / 256)

unfoldable pub le_word : List ℕ → ℕ
le_word [] = 0
le_word (b ∷ bs) = b + 256 * le_word bs

-- `memcpy(&word, bytes, length)`: the low bytes of the word are replaced.
unfoldable pub overlay : List ℕ → ℕ → ℕ
overlay [] w = w
overlay (b ∷ bs) w = b + 256 * overlay bs (w / 256)

-- `n` bytes of a memory from an address on.
unfoldable pub bytes_at : (ℕ → ℕ) → ℕ → ℕ → List ℕ
bytes_at f a zero = []
bytes_at f a (suc n) = f a ∷ bytes_at f (a + 1) n

abbrev pub IsBytes : List ℕ → Type 0
IsBytes [] = Unit
IsBytes (b ∷ bs) = (b < 256) × IsBytes bs

pub length-le_bytes : (n w : ℕ) → length (le_bytes n w) ≡ n
unfolding le_bytes
length-le_bytes zero w = refl
length-le_bytes (suc n) w = ap suc (length-le_bytes n (w / 256))

pub length-bytes_at : (f : ℕ → ℕ) (a n : ℕ) → length (bytes_at f a n) ≡ n
unfolding bytes_at
length-bytes_at f a zero = refl
length-bytes_at f a (suc n) = ap suc (length-bytes_at f (a + 1) n)

pub bytes_at-IsBytes : (f : ℕ → ℕ) → ((a : ℕ) → f a < 256) → (a n : ℕ) → IsBytes (bytes_at f a n)
unfolding bytes_at
bytes_at-IsBytes f h a zero = tt
bytes_at-IsBytes f h a (suc n) = (h a, bytes_at-IsBytes f h (a + 1) n)

-- Reading the low bytes of a word of memory gives the memory's bytes.
pub le_bytes-le_word :
    (f : ℕ → ℕ)
    → ((a : ℕ) → f a < 256)
    → (n m a : ℕ) → n ≤ m
    → le_bytes n (le_word (bytes_at f a m)) ≡ bytes_at f a n
unfolding le_bytes le_word bytes_at
le_bytes-le_word f h zero m a le = refl
le_bytes-le_word f h (suc n) zero a le = absurd (omega arith)
le_bytes-le_word f h (suc n) (suc m) a le =
    ap₂ ◌∷◌ low (rw high (le_bytes-le_word f h n m (a + 1) (omega arith)))
  where
    rest : ℕ
    rest = le_word (bytes_at f (a + 1) m)

    low : (f a + 256 * rest) % 256 ≡ f a
    low = omega (arith, h a)

    high : (f a + 256 * rest) / 256 ≡ rest
    high = omega (arith, h a)

-- The bytes of an overlaid word: the new ones, then those of the old word behind them.
pub le_bytes-overlay :
    (bs : List ℕ) (f : ℕ → ℕ)
    → ((a : ℕ) → f a < 256)
    → (m a : ℕ) → IsBytes bs
    → length bs ≤ m
    → le_bytes m (overlay bs (le_word (bytes_at f a m)))
      ≡ bs ++ bytes_at f (a + length bs) (m - length bs)
unfolding le_bytes le_word overlay bytes_at
le_bytes-overlay [] f h m a ok le = rw (plain, whole) (le_bytes-le_word f h m m a (omega arith))
  where
    plain : a + 0 ≡ a
    plain = omega arith

    whole : m - 0 ≡ m
    whole = omega arith
le_bytes-overlay (b ∷ bs) f h zero a ok le = absurd (omega arith)
le_bytes-overlay (b ∷ bs) f h (suc m) a ok le =
    ap₂ ◌∷◌ low (rw (high, old, place, left) (le_bytes-overlay bs f h m (a + 1) ok.1 (omega arith)))
  where
    rest : ℕ
    rest = le_word (bytes_at f (a + 1) m)

    old : (f a + 256 * rest) / 256 ≡ rest
    old = omega (arith, h a)

    behind : ℕ
    behind = overlay bs ((f a + 256 * rest) / 256)

    low : (b + 256 * behind) % 256 ≡ b
    low = omega (arith, ok.0)

    high : (b + 256 * behind) / 256 ≡ behind
    high = omega (arith, ok.0)

    place : a + suc (length bs) ≡ (a + 1) + length bs
    place = omega arith

    left : suc m - suc (length bs) ≡ m - length bs
    left = omega arith

-- A run of bytes in two pieces.
pub bytes_at_add :
    (f : ℕ → ℕ) (a m n : ℕ) → bytes_at f a (m + n) ≡ bytes_at f a m ++ bytes_at f (a + m) n
unfolding bytes_at
bytes_at_add f a zero n = rw (none_first, plain) refl
  where
    none_first : 0 + n ≡ n
    none_first = omega arith

    plain : a + 0 ≡ a
    plain = omega arith
bytes_at_add f a (suc m) n = rw (one_more, place) (ap (λ t. f a ∷ t) (bytes_at_add f (a + 1) m n))
  where
    one_more : suc m + n ≡ suc (m + n)
    one_more = omega arith

    place : a + suc m ≡ (a + 1) + m
    place = omega arith

-- Memories that agree on a run have the same bytes there.
pub bytes_at_ext :
    (f g : ℕ → ℕ) (a n : ℕ)
    → ((b : ℕ) → a ≤ b → b < a + n → f b ≡ g b)
    → bytes_at f a n ≡ bytes_at g a n
unfolding bytes_at
bytes_at_ext f g a zero h = refl
bytes_at_ext f g a (suc n) h =
    ap₂ ◌∷◌ (h a (omega arith) (omega arith))
      (bytes_at_ext f g (a + 1) n (λ b p q. h b (omega arith) (omega arith)))

-- And the other way round.
pub of_bytes_at :
    (f g : ℕ → ℕ) (a n : ℕ)
    → bytes_at f a n ≡ bytes_at g a n
    → (b : ℕ) → a ≤ b
    → b < a + n
    → f b ≡ g b
unfolding bytes_at
of_bytes_at f g a zero e b p q = absurd (omega arith)
of_bytes_at f g a (suc n) e b p q = elim (ℕ_discrete b a) [
  | yes here ↦ rw here (cc)
  | no there ↦ of_bytes_at f g (a + 1) n (cc) b (omega arith) (omega arith)
]

-- A word made of bytes has those bytes.
pub le_bytes-le_word_self : (bs : List ℕ) → IsBytes bs → le_bytes (length bs) (le_word bs) ≡ bs
unfolding le_bytes le_word
le_bytes-le_word_self [] ok = refl
le_bytes-le_word_self (b ∷ bs) ok = ap₂ ◌∷◌ low (rw high (le_bytes-le_word_self bs ok.1))
  where
    low : (b + 256 * le_word bs) % 256 ≡ b
    low = omega (arith, ok.0)

    high : (b + 256 * le_word bs) / 256 ≡ le_word bs
    high = omega (arith, ok.0)

pub IsBytes-take : (n : ℕ) (bs : List ℕ) → IsBytes bs → IsBytes (take n bs)
IsBytes-take zero bs ok = tt
IsBytes-take (suc n) [] ok = tt
IsBytes-take (suc n) (b ∷ bs) ok = (ok.0, IsBytes-take n bs ok.1)

pub IsBytes-drop : (n : ℕ) (bs : List ℕ) → IsBytes bs → IsBytes (drop n bs)
IsBytes-drop zero bs ok = ok
IsBytes-drop (suc n) [] ok = tt
IsBytes-drop (suc n) (b ∷ bs) ok = IsBytes-drop n bs ok.1

pub le_bytes-IsBytes : (n w : ℕ) → IsBytes (le_bytes n w)
unfolding le_bytes
le_bytes-IsBytes zero w = tt
le_bytes-IsBytes (suc n) w = (omega arith, le_bytes-IsBytes n (w / 256))
