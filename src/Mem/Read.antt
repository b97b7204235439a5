-- ===== src/Mem/Read.antt =====
-- `read_pro_mem` against the bytes of the tracee's memory.
use test_dbug.Common.{
  ℕ, zero, suc, ◌+◌, ◌-◌, ◌*◌, ◌/◌, ◌%◌, ◌^◌, ◌≤◌, ◌<◌, ◌≡◌, refl, ap, ◌∙◌, arith, Bool, true,
  false, List, ◌++◌, append_assoc, pos, to_u64, ltb, ◌==◌, Bool-cases, inl, inr, drop, drop_add,
  le_bytes, bytes_at, bytes_at_add, le_bytes-le_word,
}
use test_dbug.Kernel.{Kernel, Pid, IsMemory}
use test_dbug.Mem.{word_addr, read_rest, read_words, read_pro_mem}

-- Every word that begins in the range can be accessed.
abbrev pub IsMapped : {S : Type 0} → (S → Pid → ℕ → Bool) → S → Pid → ℕ → ℕ → Type 0
IsMapped mapped s p addr len = (a : ℕ) → addr ≤ a → a < addr + len → mapped s p a ≡ true

pub word_addr_lem : (addr i : ℕ) → addr + i * 8 < 2 ^ 64 → word_addr addr i ≡ addr + i * 8
word_addr_lem addr i h = omega arith

pub ltb-zero : (n : ℕ) → ltb n 0 ≡ false
ltb-zero n = ground arith

module _ {S : Type 0} (k : Kernel S) {mem : S → Pid → ℕ → ℕ} {mapped : S → Pid → ℕ → Bool}
    (m : IsMemory k mem mapped) (child : Pid) (s : S) where
  -- The low bytes of a word that is read are the memory's.
  pub le_bytes-peek :
      (n addr i : ℕ)
      → n ≤ 8
      → addr + i * 8 < 2 ^ 64
      → mapped s child (addr + i * 8) ≡ true
      → le_bytes n (to_u64 (k.peektext s child (word_addr addr i)))
        ≡ bytes_at (mem s child) (addr + i * 8) n
  le_bytes-peek n addr i le small ok =
      rw (word_addr_lem addr i small, m.peek_word s child (addr + i * 8) ok)
        (le_bytes-le_word (mem s child) (m.byte s child) n 8 (addr + i * 8) le)

  module _ (addr len : ℕ) (fits : addr + len ≤ 2 ^ 64) (ok : IsMapped mapped s child addr len) where
    read_rest_lem :
        (i : ℕ) (p : List ℕ)
        → i ≡ len / 8
        → read_rest k child addr len s i p
          ≡ (pos 0, bytes_at (mem s child) (addr + i * 8) (len - i * 8) ++ drop (len - i * 8) p)
    unfolding read_rest bytes_at
    read_rest_lem i p e = elim (Bool-cases (len % 8 == 0)) [
      | inl whole ↦ rw (whole, none_left whole) refl
      | inr part ↦
          rw (part, ltb-zero (to_u64 (k.peektext s child (word_addr addr i))), left)
            (ap (λ t. (pos 0, t ++ drop (len % 8) p))
              (le_bytes-peek (len % 8) addr i (omega arith) (ground arith)
                (ok (addr + i * 8) (omega arith) (ground arith))))
    ]
      where
        left : len - i * 8 ≡ len % 8
        left = omega arith

        none_left : (len % 8 == 0) ≡ true → len - i * 8 ≡ 0
        none_left h = ground arith

    read_words_lem :
        (n i : ℕ) (p : List ℕ)
        → n + i ≡ len / 8
        → read_words k child addr len s n i p
          ≡ (pos 0, bytes_at (mem s child) (addr + i * 8) (len - i * 8) ++ drop (len - i * 8) p)
    unfolding read_words
    read_words_lem zero i p e = read_rest_lem i p (omega arith)
    read_words_lem (suc n) i p e =
        rw
          (
            ltb-zero (to_u64 (k.peektext s child (word_addr addr i))),
            read_words_lem n (i + 1) (drop 8 p) (omega arith),
            le_bytes-peek 8 addr i (omega arith) (omega arith)
                (ok (addr + i * 8) (omega arith) (omega arith)),
            drop_add 8 (len - (i + 1) * 8) p,
            split,
            next,
            bytes_at_add (mem s child) (addr + i * 8) 8 (len - (i + 1) * 8),
            append_assoc,
          )
          refl
      where
        split : len - i * 8 ≡ 8 + (len - (i + 1) * 8)
        split = omega arith

        next : addr + (i + 1) * 8 ≡ addr + i * 8 + 8
        next = omega arith

  -- Reading `len` bytes of mapped memory below 2 ^ 64 returns 0, puts exactly those bytes at the front of the
  -- buffer and leaves what lies behind them alone.
  pub read_pro_mem-bytes_at :
      (addr len : ℕ) (str : List ℕ)
      → addr + len ≤ 2 ^ 64
      → IsMapped mapped s child addr len
      → read_pro_mem k child addr str len s
        ≡ (pos 0, bytes_at (mem s child) addr len ++ drop len str)
  unfolding read_pro_mem
  read_pro_mem-bytes_at addr len str fits ok =
      let plain : addr + 0 * 8 ≡ addr = omega arith in
      let whole : len - 0 * 8 ≡ len = omega arith in
      read_words_lem addr len fits ok (len / 8) 0 str (omega arith) ∙ rw (plain, whole) refl
