-- ===== src/Mem/One.antt =====
-- `write_pro_mem` for one byte: the word that is written.
use test_dbug.Common.{
  ℕ, ◌^◌, ◌<◌, ◌≡◌, ap, arith, List, Bool-cases, inl, inr, is_neg, to_u64, take, overlay,
}
use test_dbug.Kernel.{Kernel, Pid}
use test_dbug.Mem.{word_addr, write_rest, write_words, write_pro_mem}
use test_dbug.Mem.Read.{ltb-zero}

module _ {S : Type 0} (k : Kernel S) (child : Pid) where
  -- A write of one byte is one `PTRACE_POKETEXT` at its address.
  pub write_pro_mem-poke :
      (s : S) (a : ℕ) (str : List ℕ)
      → a < 2 ^ 64
      → (word : ℕ) × ((write_pro_mem k child a str 1 s).1 ≡ (k.poketext s child a word).1)
  write_pro_mem-poke s a str fits =
      let at : word_addr a 0 ≡ a = omega arith in
      let read = to_u64 (k.peektext s child (word_addr a 0)) in
      let word = overlay (take 1 str) read in
      let one : (k.poketext s child (word_addr a 0) word).1 ≡ (k.poketext s child a word).1 =
        ap (λ b. (k.poketext s child b word).1) at in
      (
        word,
        elim (Bool-cases (is_neg (k.poketext s child (word_addr a 0) word).0)) [
          | inl refused ↦
              unfold write_pro_mem write_words write_rest in rw (ltb-zero read, refused) one
          | inr done ↦ unfold write_pro_mem write_words write_rest in rw (ltb-zero read, done) one
        ],
      )
