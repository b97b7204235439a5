-- ===== src/Mem.antt =====
-- mem.c: reading and writing a tracee's memory by whole words.
-- A buffer is the list of its bytes from `current_p` on. The length is a C `int` that is not
-- negative, so the division by `sizeof(void *)` and the remainder are those of ℕ.
pub mod Read
pub mod Write
pub mod One
pub mod Errors
use test_dbug.Common.{
  ℕ, zero, suc, ◌+◌, ◌*◌, ◌/◌, ◌%◌, ◌^◌, Bool, List, ◌++◌, ℤ, pos, minus_one, is_neg, to_u64, ltb,
  ◌==◌, if◌then◌else◌, take, drop, le_bytes, le_word, overlay,
}
use test_dbug.Kernel.{Kernel, Pid}

-- `sizeof(void *)`
abbrev pub word_size : ℕ
word_size = 8

-- `addr + i * WORD`, in 64 bits.
abbrev pub word_addr : ℕ → ℕ → ℕ
word_addr addr i = (addr + i * word_size) % 2 ^ 64

module _ {S : Type 0} (k : Kernel S) (child : Pid) where
  -- What follows the loop of `read_pro_mem`, with `i` words read.
  pub read_rest : ℕ → ℕ → S → ℕ → List ℕ → ℤ × List ℕ
  read_rest addr len s i p =
      if len % word_size == 0
      then (pos 0, p)
      else let word = to_u64 (k.peektext s child (word_addr addr i)) in
        if ltb word 0
        then (minus_one, p)
        else (pos 0, le_bytes (len % word_size) word ++ drop (len % word_size) p)

  -- The loop of `read_pro_mem`: rounds left, `i`, and the buffer from `current_p` on. The result is
  -- compared with 0 as a `uint64_t`, as in the source.
  pub read_words : ℕ → ℕ → S → ℕ → ℕ → List ℕ → ℤ × List ℕ
  read_words addr len s zero i p = read_rest addr len s i p
  read_words addr len s (suc n) i p =
      let word = to_u64 (k.peektext s child (word_addr addr i)) in
      let rest = read_words addr len s n (i + 1) (drop word_size p) in
      if ltb word 0 then (minus_one, p) else (rest.0, le_bytes word_size word ++ rest.1)

  -- The returned number, and the buffer after the call.
  pub read_pro_mem : ℕ → List ℕ → ℕ → S → ℤ × List ℕ
  read_pro_mem addr str len s = read_words addr len s (len / word_size) 0 str

  -- What follows the loop of `write_pro_mem`: the word is read, its low bytes are replaced and it is
  -- written back.
  pub write_rest : ℕ → ℕ → ℕ → List ℕ → S → ℤ × S
  write_rest addr len i p s =
      if len % word_size == 0
      then (pos 0, s)
      else let word = to_u64 (k.peektext s child (word_addr addr i)) in
        if ltb word 0
        then (minus_one, s)
        else let (r, s') =
            k.poketext s child (word_addr addr i) (overlay (take (len % word_size) p) word) in
          if is_neg r then (minus_one, s') else (pos 0, s')

  pub write_words : ℕ → ℕ → ℕ → ℕ → List ℕ → S → ℤ × S
  write_words addr len zero i p s = write_rest addr len i p s
  write_words addr len (suc n) i p s =
      let (r, s') = k.poketext s child (word_addr addr i) (le_word (take word_size p)) in
      let rest = write_words addr len n (i + 1) (drop word_size p) s' in
      if is_neg r then (minus_one, s') else rest

  -- The returned number, and the system after the call.
  pub write_pro_mem : ℕ → List ℕ → ℕ → S → ℤ × S
  write_pro_mem addr str len s = write_words addr len (len / word_size) 0 str s
