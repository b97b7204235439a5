-- ===== src/Elf/File.antt =====
-- `get_file_size` and `get_file_word`: a file as the bytes that are in it.
use test_dbug.Common.{
  ℕ, zero, suc, ◌+◌, ◌-◌, ◌%◌, ◌^◌, ◌≤◌, ◌<◌, ◌≡◌, not, leb, ◌&&◌, refl, sym, ap, ◌∙◌, arith, Bool,
  true, false, List, [], ◌∷◌, ◌++◌, append_assoc, append-nil, Option, none, some, ℤ, pos, negsuc,
  minus_one, ltb, if◌then◌else◌, Bool-cases, inl, inr, length, take, drop, length-drop, length-take,
}

-- The conversion to a 32-bit `int`.
abbrev pub to_int : ℕ → ℤ
to_int n = let w = n % 2 ^ 32 in if ltb w (2 ^ 31) then pos w else negsuc (2 ^ 32 - 1 - w)

-- `none` is the null pointer.
unfoldable pub get_file_size : Option (List ℕ) → ℤ
get_file_size none = minus_one
get_file_size (some content) = to_int (length content)

-- An open file: what is left to read, whether a read behind that fails where it should meet the end,
-- and the end-of-file mark.
pub record Stream : Type 0 where
  pub left : List ℕ
  pub fails : Bool
  pub eof : Bool

abbrev pub opened_at : List ℕ → Bool → Stream
opened_at content fails = record { left = content; fails = fails; eof = false }

abbrev pub chunk : ℕ
chunk = 1024

-- `fread(p, 1, 1024, fp)`: the bytes read. The mark is set where fewer than asked for are left, and not
-- by a read that fails.
unfoldable pub fread : Stream → List ℕ × Stream
fread f = (
  take chunk f.left,
  record f { left = drop chunk f.left; eof = ltb (length f.left) chunk && not f.fails },
)

-- The bytes lie in the buffer of `room` bytes from `word + seek` on; `seek` is an `int`, here by its bits.
abbrev pub lands : ℕ → ℕ → List ℕ → Bool
lands room seek [] = true
lands room seek (b ∷ bs) = ltb seek (2 ^ 31) && leb (seek + length (b ∷ bs)) room

-- The loop of `get_file_word`: `word` is what lies in the buffer in front of `seek`. `none` is a store outside of the
-- buffer, or a loop that does not end within its fuel.
unfoldable pub read_chunks : ℕ → ℕ → Stream → ℕ → List ℕ → Option (List ℕ)
unfolding fread
read_chunks zero room f seek word = none
read_chunks (suc n) room f seek word = elim f.eof [
  | true ↦ some word
  | false ↦
      let (bytes, f') = fread f in
      elim (lands room seek bytes) [
        | true ↦ read_chunks n room f' ((seek + length bytes) % 2 ^ 32) (word ++ bytes)
        | false ↦ none
      ]
]

-- The returned number and what lies in the buffer, for a file and the room in the buffer, each of which may
-- be a null pointer. Enough rounds are given for any file that is read without an error.
unfoldable pub get_file_word : Option Stream → Option ℕ → Option (ℤ × List ℕ)
get_file_word none room = some (minus_one, [])
get_file_word (some f) none = some (minus_one, [])
get_file_word (some f) (some room) = elim (read_chunks (length f.left + 2) room f 0 []) [
  | none ↦ none
  | some word ↦ some (pos 0, word)
]

-- `calloc(1, filesize + 1)`: the room that there is, or a null pointer. The sum is an `int` and then a
-- `size_t`: below 0 it is more than any object can have.
unfoldable pub buffer_room : ℤ → Option ℕ
buffer_room (pos n) = if ltb (n + 1) (2 ^ 31) then some (n + 1) else none
buffer_room (negsuc zero) = some 0
buffer_room (negsuc (suc n)) = none

-- The size of a file, the buffer and its reading: the pointer to the buffer, with the NUL that `calloc` left. The outer `none`
-- is a store outside of the buffer or a reading that does not end.
unfoldable pub load_word : List ℕ → Bool → Option (Option (List ℕ))
load_word content fails = elim (buffer_room (get_file_size (some content))) [
  | none ↦ some none
  | some room ↦ elim (get_file_word (some (opened_at content fails)) (some room)) [
    | none ↦ none
    | some (r, word) ↦ some (some (word ++ 0 ∷ []))
  ]
]

take-drop : (n : ℕ) (xs : List ℕ) → take n xs ++ drop n xs ≡ xs
take-drop zero xs = refl
take-drop (suc n) [] = refl
take-drop (suc n) (x ∷ xs) = ap (λ t. x ∷ t) (take-drop n xs)

drop_all : (n : ℕ) (xs : List ℕ) → length xs ≤ n → drop n xs ≡ []
drop_all zero [] h = refl
drop_all zero (x ∷ xs) h = absurd (omega arith)
drop_all (suc n) [] h = refl
drop_all (suc n) (x ∷ xs) h = drop_all n xs (omega arith)

read_chunks-suc :
    (n room seek : ℕ) (content word : List ℕ) (fails : Bool)
    → lands room seek (take 1024 content) ≡ true
    → read_chunks (suc n) room (opened_at content fails) seek word
      ≡ read_chunks n room
          (record {
            left = drop 1024 content;
            fails = fails;
            eof = ltb (length content) 1024 && not fails;
          })
          ((seek + length (take 1024 content)) % 2 ^ 32)
          (word ++ take 1024 content)
unfolding read_chunks
read_chunks-suc n room seek content word fails fits = rw fits refl

lands-fits :
    (room seek : ℕ) (bs : List ℕ)
    → seek < 2 ^ 31
    → seek + length bs ≤ room
    → lands room seek bs ≡ true
lands-fits room seek [] low fits = refl
lands-fits room seek (b ∷ bs) low fits = ground arith

read_chunks-append :
    (n room seek : ℕ) (content word : List ℕ)
    → length content + 2 ≤ n
    → seek + length content < room
    → room ≤ 2 ^ 31
    → read_chunks n room (opened_at content false) seek word ≡ some (word ++ content)
read_chunks-append zero room seek content word h fits small = absurd (omega arith)
read_chunks-append (suc zero) room seek content word h fits small = absurd (omega arith)
read_chunks-append (suc (suc n)) room seek content word h fits small =
    elim (Bool-cases (ltb (length content) 1024)) [
      | inl short ↦
          read_chunks-suc (suc n) room seek content word false (
            lands-fits room seek (take 1024 content) (omega arith) (rw (whole short) (omega arith)))
          ∙ unfold read_chunks in rw (short, whole short) refl
      | inr long ↦
          let reads : 1024 ≤ length content = ground arith in
          let full = length-take 1024 content reads in
          let left = length-drop 1024 content in
          let same : (seek + length (take 1024 content)) % 2 ^ 32
              ≡ seek + length (take 1024 content) =
            omega arith in
          read_chunks-suc (suc n) room seek content word false
            (lands-fits room seek (take 1024 content) (omega arith) (omega arith))
          ∙ rw (long, same)
              (read_chunks-append (suc n) room (seek + length (take 1024 content))
                  (drop 1024 content) (word ++ take 1024 content) (omega arith) (omega arith) small
                ∙ ap some (
                    append_assoc word (take 1024 content) (drop 1024 content)
                    ∙ ap (λ t. word ++ t) (take-drop 1024 content)))
    ]
  where
    whole : ltb (length content) 1024 ≡ true → take 1024 content ≡ content
    whole e =
        sym (append-nil (take 1024 content))
        ∙ ap (λ t. take 1024 content ++ t) (sym (drop_all 1024 content (ground arith)))
        ∙ take-drop 1024 content

and_false : (b : Bool) → b && false ≡ false
and_false true = refl
and_false false = refl

-- A file whose reading fails never meets its end.
read_chunks_fails :
    (n room seek : ℕ) (content word : List ℕ)
    → read_chunks n room (opened_at content true) seek word ≡ none
unfolding read_chunks
read_chunks_fails zero room seek content word = refl
read_chunks_fails (suc n) room seek content word =
    elim (Bool-cases (lands room seek (take 1024 content))) [
      | inl fits ↦
          read_chunks-suc n room seek content word true fits
          ∙ rw (and_false (ltb (length content) 1024))
              (read_chunks_fails n room _ (drop 1024 content) (word ++ take 1024 content))
      | inr outside ↦ rw outside refl
    ]

-- Into a buffer with room for a file and one byte more, and not for more than 2 ^ 31 bytes, where `seek` is
-- an `int`: reading a file ends, returns 0 and leaves in the buffer exactly the bytes of the file, where
-- no read fails; and where one fails behind the bytes, no number of rounds ends the loop.
pub get_file_word-content :
    (content : List ℕ) (room : ℕ)
    → length content < room
    → room ≤ 2 ^ 31
    → (get_file_word (some (opened_at content false)) (some room) ≡ some (pos 0, content))
      × ((n : ℕ) → read_chunks n room (opened_at content true) 0 [] ≡ none)
unfolding get_file_word
get_file_word-content content room fits small = (
  rw
      (
        read_chunks-append (length content + 2) room 0 content [] (omega arith) (omega arith) small,
        get_file_word,
      )
      refl,
  λ n. read_chunks_fails n room 0 content [],
)

-- A file of less than 2 ^ 31 - 1 bytes is read whole.
pub load_word-content :
    (content : List ℕ)
    → length content < 2 ^ 31 - 1
    → load_word content false ≡ some (some (content ++ 0 ∷ []))
unfolding load_word
load_word-content content small =
    let whole : length content % 2 ^ 32 ≡ length content = omega arith in
    let positive : ltb (length content) (2 ^ 31) ≡ true = ground arith in
    let fits : ltb (length content + 1) (2 ^ 31) ≡ true = ground arith in
    let size : get_file_size (some content) ≡ pos (length content) =
      unfold get_file_size in rw (whole, positive) refl in
    let room : buffer_room (get_file_size (some content)) ≡ some (length content + 1) =
      ap buffer_room size ∙ unfold buffer_room in rw fits refl in
    let (reads, ends) =
      get_file_word-content content (length content + 1) (omega arith) (omega arith) in
    rw (room, load_word, reads) refl
