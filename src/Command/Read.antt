-- ===== src/Command/Read.antt =====
-- `get_command`: a line is read and split into the words of a command.
pub mod Words
pub mod Typed
pub mod Slots
pub mod Bounds
use test_dbug.Common.{
  ℕ, zero, suc, ◌+◌, ◌-◌, ◌*◌, Bool, true, false, List, [], ◌∷◌, ◌++◌, Option, none, some, ℤ, pos,
  ◌==◌, if◌then◌else◌, length, Text, isspace, until,
}
use test_dbug.Output.{prompt}
use test_dbug.Session.{
  Str, Arr, put, Dbug, Ngx, Env, World, Outcome, done, fault, Cmd, pure, ◌>>=◌, ◌>>◌, get_dbug,
  set_dbug, print, deref, call_ngx,
}

-- What `fgets` takes from the input with room for `n` characters, and what it leaves.
unfoldable pub take_line : ℕ → Text → Text × Text
take_line zero s = ([], s)
take_line (suc n) [] = ([], [])
take_line (suc n) (c ∷ s) =
    let more = take_line n s in if c == 10 then (c ∷ [], s) else (c ∷ more.0, more.1)

-- `fgets(buf, 50, stdin)` and `strlen(buf)`: at the end of the input `buf` stays all zeros.
unfoldable pub read_line : {S : Type 0} → Cmd S Text
read_line w =
    let (line, rest) = take_line 49 w.input in done (until 0 line).0 (record w { input = rest })

-- The inner loop from `buf + i` on: the characters in front of the first white space, and what
-- follows it; `none` where no white space is left.
unfoldable pub word_end : Text → Option (Text × Text)
word_end [] = none
word_end (c ∷ s) = elim (isspace c) [
  | true ↦ some ([], s)
  | false ↦ elim (word_end s) [ none ↦ none | some (word, rest) ↦ some (c ∷ word, rest) ]
]

module _ {S : Type 0} (env : Env S) where
  -- A word is copied to the pool and put behind the words that are there.
  unfoldable pub add_word : Text → Cmd S (Unit {0})
  add_word word = do
    d ← get_dbug
    call_ngx (λ s. elim (env.ngx.pcalloc s d.pool (length word + 1)) [
      | none ↦ none
      | some s' ↦ some (tt, s')
    ])
    cmds ← deref d.cmd
    cmds' ← call_ngx (λ s. env.ngx.push_str s cmds)
    let str : Str = record { len = length word; chars = some word }
    set_dbug (record d { cmd = some (put cmds' (cmds'.nelts - 1) str) })

  -- The outer loop from `buf + i` on. Each round leaves at least one character behind, so as many
  -- rounds as there are characters are enough.
  unfoldable pub split_loop : ℕ → Text → Cmd S (Unit {0})
  split_loop zero s = pure tt
  split_loop (suc n) [] = pure tt
  split_loop (suc n) (c ∷ s) = elim (c == 32) [
    | true ↦ split_loop n s
    | false ↦ elim (word_end (c ∷ s)) [
      | none ↦ split_loop n s
      | some (word, rest) ↦ add_word word >> split_loop n rest
    ]
  ]

  unfoldable pub get_command : Cmd S ℤ
  get_command = do
    print prompt
    buf ← read_line
    d ← get_dbug
    cmds ← deref d.cmd
    set_dbug (record d { cmd = some (record cmds { nelts = 0 }) })
    split_loop (length buf) buf
    pure (pos 0)
