-- ===== src/Mem/Errors.antt =====
-- What mem.c does where the system refuses an access, and reading what was written.
use test_dbug.Common.{
  ℕ, zero, suc, ◌+◌, ◌/◌, ◌%◌, ◌^◌, ◌≤◌, ◌<◌, ◌≡◌, refl, sym, ap, ◌∙◌, arith, Bool, false, List,
  ◌∷◌, ◌++◌, pos, minus_one, to_u64, ◌==◌, Bool-cases, inl, inr, length, take, drop, le_bytes,
  le_word, overlay, bytes_at, IsBytes, length-take,
}
use test_dbug.Kernel.{Kernel, Pid, IsMemory}
use test_dbug.Mem.{
  word_addr, read_rest, read_words, read_pro_mem, write_rest, write_words, write_pro_mem,
}
use test_dbug.Mem.Read.{IsMapped, ltb-zero, read_pro_mem-bytes_at}
use test_dbug.Mem.Write.{Wrote, write_pro_mem-Wrote}

module _ {S : Type 0} (k : Kernel S) (child : Pid) (s : S) where
  read_words-pos : (addr len n i : ℕ) (p : List ℕ) → (read_words k child addr len s n i p).0 ≡ pos 0
  unfolding read_words read_rest
  read_words-pos addr len zero i p = elim (Bool-cases (len % 8 == 0)) [
    | inl whole ↦ rw whole refl
    | inr part ↦ rw (part, ltb-zero (to_u64 (k.peektext s child (word_addr addr i)))) refl
  ]
  read_words-pos addr len (suc n) i p =
      rw (ltb-zero (to_u64 (k.peektext s child (word_addr addr i))))
        (read_words-pos addr len n (i + 1) (drop 8 p))

  -- `read_pro_mem` returns 0 whatever the system answers, a refused access included.
  pub read_pro_mem-pos :
      (addr len : ℕ) (str : List ℕ) → (read_pro_mem k child addr str len s).0 ≡ pos 0
  unfolding read_pro_mem
  read_pro_mem-pos addr len str = read_words-pos addr len (len / 8) 0 str

module _ {S : Type 0} (k : Kernel S) {mem : S → Pid → ℕ → ℕ} {mapped : S → Pid → ℕ → Bool}
    (m : IsMemory k mem mapped) (child : Pid) (s : S) where
  -- A byte read from an address below 2 ^ 64 that cannot be accessed is 0xff, and the call returns 0.
  pub read_pro_mem_refused :
      (addr : ℕ) (str : List ℕ)
      → addr < 2 ^ 64
      → mapped s child addr ≡ false
      → read_pro_mem k child addr str 1 s ≡ (pos 0, 0xff ∷ drop 1 str)
  unfolding read_pro_mem read_words read_rest le_bytes
  read_pro_mem_refused addr str small bad =
      let plain : word_addr addr 0 ≡ addr = omega arith in
      rw (plain, m.peek_fails s child addr bad) refl

  -- Where the first word lies below 2 ^ 64 and cannot be accessed, a write of at least one byte returns -1 and changes
  -- nothing.
  pub write_pro_mem_refused :
      (addr len : ℕ) (str : List ℕ)
      → addr < 2 ^ 64
      → 0 < len
      → mapped s child addr ≡ false
      → write_pro_mem k child addr str len s ≡ (minus_one, s)
  unfolding write_pro_mem
  write_pro_mem_refused addr len str small some_bytes bad = go (len / 8) refl
    where
      plain : word_addr addr 0 ≡ addr
      plain = omega arith

      go : (n : ℕ) → n ≡ len / 8 → write_words k child addr len n 0 str s ≡ (minus_one, s)
      go zero e =
          let part : (len % 8 == 0) ≡ false = ground arith in
          unfold write_words write_rest in
          rw
            (
              part,
              ltb-zero (to_u64 (k.peektext s child (word_addr addr 0))),
              plain,
              m.poke_fails s child addr
                  (overlay (take (len % 8) str) (to_u64 (k.peektext s child addr))) bad,
            )
            refl
      go (suc n) e =
          unfold write_words in
          rw (plain, m.poke_fails s child addr (le_word (take 8 str)) bad) refl

  -- Where the word at an address below 2 ^ 64 cannot be accessed, a write of at least one byte returns
  -- -1 and changes nothing, while a read returns 0 all the same, and one of a single byte leaves 0xff
  -- in the buffer.
  pub accesses_refused :
      (addr len : ℕ) (str : List ℕ)
      → addr < 2 ^ 64
      → 0 < len
      → mapped s child addr ≡ false
      → (write_pro_mem k child addr str len s ≡ (minus_one, s))
        × ((read_pro_mem k child addr str len s).0 ≡ pos 0)
        × (read_pro_mem k child addr str 1 s ≡ (pos 0, 0xff ∷ drop 1 str))
  accesses_refused addr len str small some_bytes bad = (
    write_pro_mem_refused addr len str small some_bytes bad,
    read_pro_mem-pos k child s addr len str,
    read_pro_mem_refused addr str small bad,
  )

  -- On mapped memory below 2 ^ 64, `len` bytes that were written from a buffer of at least as many
  -- are read back, in front of the rest of the buffer that is read into.
  pub read_pro_mem-write_pro_mem :
      (addr len : ℕ) (str buf : List ℕ)
      → addr + len ≤ 2 ^ 64
      → IsBytes str
      → len ≤ length str
      → IsMapped mapped s child addr len
      → read_pro_mem k child addr buf len (write_pro_mem k child addr str len s).1
        ≡ (pos 0, take len str ++ drop len buf)
  read_pro_mem-write_pro_mem addr len str buf fits small long ok =
      read_pro_mem-bytes_at k m child s' addr len buf fits
        (λ a above below. done.1.same a ∙ ok a above below)
      ∙ ap (λ t. (pos 0, t ++ drop len buf)) back
    where
      s' : S
      s' = (write_pro_mem k child addr str len s).1

      done :
          ((write_pro_mem k child addr str len s).0 ≡ pos 0)
          × Wrote mem mapped child addr (take len str) s s'
      done = write_pro_mem-Wrote k m child addr len str s fits small long ok

      back : bytes_at (mem s' child) addr len ≡ take len str
      back = ap (bytes_at (mem s' child) addr) (sym (length-take len str long)) ∙ done.1.holds
