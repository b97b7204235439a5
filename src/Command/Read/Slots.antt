-- ===== src/Command/Read/Slots.antt =====
-- What `get_command` leaves in the array of words.
use test_dbug.Common.{
  ℕ, ◌+◌, ◌-◌, ◌<◌, ◌≡◌, refl, ap, ◌∙◌, arith, Bool, List, [], ◌∷◌, ◌++◌, Option, none, some, pos,
  length, Text, until,
}
use test_dbug.Output.{prompt}
use test_dbug.Kernel.{Pid, SameTracee, SameTracee-refl, SameTracee-trans}
use test_dbug.Session.{Str, Arr, put, put_self, put_other, nelts-put, Ngx, Env, World, done}
use test_dbug.Command.Read.{take_line, read_line, add_word, get_command}
use test_dbug.Command.Read.Words.{words, add_words, split_loop-words}

-- What the pool and the array of words promise while memory lasts: a push gives one element more,
-- and keeps those that were there; neither reaches the tracee.
pub record IsRoomy {S : Type 0} (ngx : Ngx S) (mem : S → Pid → ℕ → ℕ) (mapped : S → Pid → ℕ → Bool)
    : Type 0 where
  pub alloc :
      (s : S) (pool : Option ℕ) (n : ℕ)
      → (s' : S) × (ngx.pcalloc s pool n ≡ some s') × SameTracee mem mapped s s'
  pub push :
      (s : S) (a : Arr Str)
      → (b : Arr Str) × (s' : S) × (ngx.push_str s a ≡ some (b, s'))
        × (b.nelts ≡ a.nelts + 1)
        × ((i : ℕ) → i < a.nelts → b.elts i ≡ a.elts i)
        × SameTracee mem mapped s s'

abbrev pub str_of : Text → Str
str_of word = record { len = length word; chars = some word }

-- `words` lie in the array from index `n` on, and end it.
abbrev pub Holds : Arr Str → ℕ → List Text → Type 0
Holds a n [] = a.nelts ≡ n
Holds a n (word ∷ more) = (a.elts n ≡ str_of word) × Holds a (n + 1) more

module _ {S : Type 0} (env : Env S) {mem : S → Pid → ℕ → ℕ} {mapped : S → Pid → ℕ → Bool}
    (h : IsRoomy env.ngx mem mapped) where
  -- One word is put behind those that are there.
  add_word-put :
      (word : Text) (w : World S) (a : Arr Str)
      → w.dbug.cmd ≡ some a
      → (b : Arr Str) × (s' : S) × (let d = w.dbug in
          add_word env word w ≡ done tt (record w { os = s'; dbug = record d { cmd = some b } }))
        × (b.nelts ≡ a.nelts + 1)
        × (b.elts a.nelts ≡ str_of word)
        × ((i : ℕ) → i < a.nelts → b.elts i ≡ a.elts i)
        × SameTracee mem mapped w.os s'
  add_word-put word w a is = (
    put b (b.nelts - 1) (str_of word),
    s2,
    unfold add_word in rw (is, alloc.1, pushed.2) refl,
    count,
    rw (place) (put_self b a.nelts (str_of word)),
    λ i below.
        put_other b (b.nelts - 1) (str_of word) i (omega (arith, pushed.3)) ∙ pushed.4 i below,
    SameTracee-trans alloc.2 pushed.5,
  )
    where
      alloc :
          (s' : S) × (env.ngx.pcalloc w.os w.dbug.pool (length word + 1) ≡ some s')
          × SameTracee mem mapped w.os s'
      alloc = h.alloc w.os w.dbug.pool (length word + 1)

      pushed :
          (b : Arr Str) × (s' : S) × (env.ngx.push_str alloc.0 a ≡ some (b, s'))
          × (b.nelts ≡ a.nelts + 1)
          × ((i : ℕ) → i < a.nelts → b.elts i ≡ a.elts i)
          × SameTracee mem mapped alloc.0 s'
      pushed = h.push alloc.0 a

      b : Arr Str
      b = pushed.0

      s2 : S
      s2 = pushed.1

      count : (put b (b.nelts - 1) (str_of word)).nelts ≡ a.nelts + 1
      count = nelts-put b (b.nelts - 1) (str_of word) ∙ pushed.3

      place : b.nelts - 1 ≡ a.nelts
      place = omega (arith, pushed.3)

  add_words-Holds :
      (ws : List Text) (w : World S) (a : Arr Str)
      → w.dbug.cmd ≡ some a
      → (b : Arr Str) × (s' : S) × (let d = w.dbug in
          add_words env ws w ≡ done tt (record w { os = s'; dbug = record d { cmd = some b } }))
        × Holds b a.nelts ws
        × ((i : ℕ) → i < a.nelts → b.elts i ≡ a.elts i)
        × SameTracee mem mapped w.os s'
  unfolding add_words
  add_words-Holds [] w a is = (
    a,
    w.os,
    ap (λ c. let d = w.dbug in done tt (record w { dbug = record d { cmd = c } })) is,
    refl,
    λ i below. refl,
    SameTracee-refl w.os,
  )
  add_words-Holds (word ∷ more) w a is =
      let (b, s, runs, count, here, same, apart) = add_word-put word w a is in
      let d = w.dbug in
      let w1 : World S = record w { os = s; dbug = record d { cmd = some b } } in
      let (c, s', runs', holds, kept, apart') = add_words-Holds more w1 b refl in
      (
        c,
        s',
        rw runs runs',
        (kept a.nelts (omega (arith, count)) ∙ here, rw (← count) holds),
        λ i below. kept i (omega (arith, count)) ∙ same i below,
        SameTracee-trans apart apart',
      )

  -- While memory lasts, `get_command` returns 0, takes one line from the input and leaves in the
  -- array exactly the words of its first 49 characters, each with its length; it prints the prompt,
  -- changes nothing else of the session and does not reach the tracee's memory.
  pub get_command-Holds :
      (w : World S) (a : Arr Str)
      → w.dbug.cmd ≡ some a
      → (b : Arr Str) × (s' : S) × (let d = w.dbug in
          get_command env w
          ≡ done (pos 0) (record w {
            os = s';
            dbug = record d { cmd = some b };
            input = (take_line 49 w.input).1;
            out = w.out ++ prompt ∷ [];
          }))
        × Holds b 0 (words none (until 0 (take_line 49 w.input).0).0)
        × SameTracee mem mapped w.os s'
  get_command-Holds w a is =
      let d = w.dbug in
      let line = (until 0 (take_line 49 w.input).0).0 in
      let empty : Arr Str = record a { nelts = 0 } in
      let w1 : World S = record w {
        dbug = record d { cmd = some empty };
        input = (take_line 49 w.input).1;
        out = w.out ++ prompt ∷ [];
      } in
      let (b, s', runs, holds, kept, apart) = add_words-Holds (words none line) w1 empty refl in
      (
        b,
        s',
        unfold get_command read_line in
            rw is (rw (split_loop-words env (length line) line w1 (omega arith), runs) refl),
        holds,
        apart,
      )
