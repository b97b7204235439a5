-- ===== src/Mem/Write.antt =====
-- `write_pro_mem` against the bytes of the tracee's memory.
use test_dbug.Common.{
  ℕ, zero, suc, ◌+◌, ◌-◌, ◌*◌, ◌/◌, ◌%◌, ◌^◌, ◌≤◌, ◌<◌, ◌≡◌, refl, sym, ap, ◌∙◌, arith, Bool, true,
  List, [], ◌++◌, append-nil, ◌⊎◌, pos, to_u64, ltb, ◌==◌, Bool-cases, inl, inr, length, take, drop,
  length-drop, length-take, length-append, take_add, append_split, le_bytes, le_word, overlay,
  bytes_at, bytes_at_add, bytes_at_ext, of_bytes_at, length-bytes_at, le_bytes-overlay,
  le_bytes-le_word_self, IsBytes, IsBytes-take, IsBytes-drop,
}
use test_dbug.Kernel.{Kernel, Pid, IsMemory}
use test_dbug.Mem.{word_addr, write_rest, write_words, write_pro_mem}
use test_dbug.Mem.Read.{IsMapped, word_addr_lem, ltb-zero}

-- From `s` to `s'` exactly the bytes `bs` were written at `a`.
pub record Wrote {S : Type 0} (mem : S → Pid → ℕ → ℕ) (mapped : S → Pid → ℕ → Bool) (child : Pid)
    (a : ℕ) (bs : List ℕ) (s s' : S) : Type 0 where
  pub holds : bytes_at (mem s' child) a (length bs) ≡ bs
  pub frame : (b : ℕ) → (b < a) ⊎ (a + length bs ≤ b) → mem s' child b ≡ mem s child b
  pub same : (b : ℕ) → mapped s' child b ≡ mapped s child b

module _ {S : Type 0} {mem : S → Pid → ℕ → ℕ} {mapped : S → Pid → ℕ → Bool} {child : Pid} where
  pub Wrote-nil : (a : ℕ) (s : S) → Wrote mem mapped child a [] s s
  unfolding bytes_at
  Wrote-nil a s = record { holds = refl; frame = λ b h. refl; same = λ b. refl }

  -- Two writes behind one another.
  pub Wrote-append :
      {a : ℕ} {bs cs : List ℕ} {s t u : S}
      → Wrote mem mapped child a bs s t
      → Wrote mem mapped child (a + length bs) cs t u
      → Wrote mem mapped child a (bs ++ cs) s u
  Wrote-append {a} {bs} {cs} {s} {t} {u} w v = record {
    holds =
        rw
          (
            length-append bs cs,
            bytes_at_add (mem u child) a (length bs) (length cs),
            v.holds,
            first,
          )
          refl;
    frame = λ b h.
        v.frame b (grind (arith, length-append bs cs))
        ∙ w.frame b (grind (arith, length-append bs cs));
    same = λ b. v.same b ∙ w.same b;
  }
    where
      first : bytes_at (mem u child) a (length bs) ≡ bs
      first =
          bytes_at_ext (mem u child) (mem t child) a (length bs) (λ b p q. v.frame b (inl q))
          ∙ w.holds

module _ {S : Type 0} (k : Kernel S) {mem : S → Pid → ℕ → ℕ} {mapped : S → Pid → ℕ → Bool}
    (m : IsMemory k mem mapped) (child : Pid) where
  -- A poked word that begins with `bs` and goes on with the old bytes writes just `bs`.
  pub Wrote-poke :
      (s : S) (a w : ℕ) (bs : List ℕ)
      → mapped s child a ≡ true
      → length bs ≤ 8
      → le_bytes 8 w ≡ bs ++ bytes_at (mem s child) (a + length bs) (8 - length bs)
      → Wrote mem mapped child a bs s (k.poketext s child a w).1
  Wrote-poke s a w bs ok le e = record {
    holds = parts.0;
    frame = λ b h. elim h [
      | inl before ↦ m.poke_frame s child a w b (inl before)
      | inr behind ↦ elim (Bool-cases (ltb b (a + 8))) [
        | inl near ↦ of_bytes_at _ _ (a + length bs) (8 - length bs) parts.1 b behind (ground arith)
        | inr far ↦ m.poke_frame s child a w b (inr (ground arith))
      ]
    ];
    same = λ b. m.poke_mapped s child a w b;
  }
    where
      s' : S
      s' = (k.poketext s child a w).1

      whole : length bs + (8 - length bs) ≡ 8
      whole = omega arith

      cut :
          bytes_at (mem s' child) a (length bs)
            ++ bytes_at (mem s' child) (a + length bs) (8 - length bs)
          ≡ bs ++ bytes_at (mem s child) (a + length bs) (8 - length bs)
      cut =
          sym (bytes_at_add (mem s' child) a (length bs) (8 - length bs))
          ∙ ap (bytes_at (mem s' child) a) whole
          ∙ m.poke_word s child a w ok
          ∙ e

      parts :
          (bytes_at (mem s' child) a (length bs) ≡ bs)
          × (bytes_at (mem s' child) (a + length bs) (8 - length bs)
              ≡ bytes_at (mem s child) (a + length bs) (8 - length bs))
      parts = append_split _ _ (length-bytes_at (mem s' child) a (length bs)) cut

  Wrote-word :
      (s : S) (a : ℕ) (bs : List ℕ)
      → mapped s child a ≡ true
      → IsBytes bs
      → length bs ≡ 8
      → Wrote mem mapped child a bs s (k.poketext s child a (le_word bs)).1
  unfolding bytes_at
  Wrote-word s a bs ok small len = Wrote-poke s a (le_word bs) bs ok (omega arith) whole
    where
      none_left : 8 - length bs ≡ 0
      none_left = omega arith

      whole : le_bytes 8 (le_word bs) ≡ bs ++ bytes_at (mem s child) (a + length bs) (8 - length bs)
      whole = rw (none_left, ← len, append-nil) (le_bytes-le_word_self bs small)

  Wrote-part :
      (s : S) (a : ℕ) (bs : List ℕ)
      → mapped s child a ≡ true
      → IsBytes bs
      → length bs ≤ 8
      → Wrote mem mapped child a bs s
          (k.poketext s child a (overlay bs (to_u64 (k.peektext s child a)))).1
  Wrote-part s a bs ok small le = Wrote-poke s a _ bs ok le (
      rw (m.peek_word s child a ok)
        (le_bytes-overlay bs (mem s child) (m.byte s child) 8 a small le))

  module _ (addr len : ℕ) (fits : addr + len ≤ 2 ^ 64) where
    write_rest_lem :
        (i : ℕ) (p : List ℕ) (s : S)
        → i ≡ len / 8
        → IsBytes p
        → len - i * 8 ≤ length p
        → IsMapped mapped s child addr len
        → ((write_rest k child addr len i p s).0 ≡ pos 0)
          × Wrote mem mapped child
              (addr + i * 8)
              (take (len - i * 8) p)
              s
              (write_rest k child addr len i p s).1
    unfolding write_rest
    write_rest_lem i p s e small long ok = elim (Bool-cases (len % 8 == 0)) [
      | inl whole ↦
          let none_left : len - i * 8 ≡ 0 = ground arith in
          rw (whole, none_left) (refl, Wrote-nil (addr + i * 8) s)
      | inr part ↦
          let left : len % 8 ≡ len - i * 8 = omega arith in
          let at : word_addr addr i ≡ addr + i * 8 = word_addr_lem addr i (ground arith) in
          let ok' : mapped s child (addr + i * 8) ≡ true =
            ok (addr + i * 8) (omega arith) (ground arith) in
          rw
            (
              part,
              ltb-zero (to_u64 (k.peektext s child (word_addr addr i))),
              at,
              left,
              m.poke_done s child (addr + i * 8)
                  (overlay (take (len - i * 8) p) (to_u64 (k.peektext s child (addr + i * 8)))) ok',
            )
            (
              refl,
              Wrote-part s (addr + i * 8) (take (len - i * 8) p) ok' (IsBytes-take _ p small)
                  (omega (arith, length-take (len - i * 8) p long)),
            )
    ]

    write_words_lem :
        (n i : ℕ) (p : List ℕ) (s : S)
        → n + i ≡ len / 8
        → IsBytes p
        → len - i * 8 ≤ length p
        → IsMapped mapped s child addr len
        → ((write_words k child addr len n i p s).0 ≡ pos 0)
          × Wrote mem mapped child
              (addr + i * 8)
              (take (len - i * 8) p)
              s
              (write_words k child addr len n i p s).1
    unfolding write_words
    write_words_lem zero i p s e small long ok = write_rest_lem i p s (omega arith) small long ok
    write_words_lem (suc n) i p s e small long ok =
        let at : word_addr addr i ≡ addr + i * 8 = word_addr_lem addr i (omega arith) in
        let ok' : mapped s child (addr + i * 8) ≡ true =
          ok (addr + i * 8) (omega arith) (omega arith) in
        let split : len - i * 8 ≡ 8 + (len - (i + 1) * 8) = omega arith in
        let next : addr + (i + 1) * 8 ≡ addr + i * 8 + 8 = omega arith in
        let len8 : length (take 8 p) ≡ 8 = length-take 8 p (omega arith) in
        let first = Wrote-word s (addr + i * 8) (take 8 p) ok' (IsBytes-take 8 p small) len8 in
        let rest =
          write_words_lem n (i + 1) (drop 8 p)
            (k.poketext s child (addr + i * 8) (le_word (take 8 p))).1 (omega arith)
            (IsBytes-drop 8 p small) (omega (arith, length-drop 8 p))
            (λ a above below.
              m.poke_mapped s child (addr + i * 8) (le_word (take 8 p)) a ∙ ok a above below) in
        rw
          (
            at,
            m.poke_done s child (addr + i * 8) (le_word (take 8 p)) ok',
            split,
            ← take_add 8 (len - (i + 1) * 8) p,
          )
          (rest.0, Wrote-append first (rw (len8, ← next) (rest.1)))

  -- Writing `len` bytes of a buffer to mapped memory returns 0, stores exactly those bytes and
  -- leaves every other byte alone, those that share a word with them included.
  pub write_pro_mem-Wrote :
      (addr len : ℕ) (str : List ℕ) (s : S)
      → addr + len ≤ 2 ^ 64
      → IsBytes str
      → len ≤ length str
      → IsMapped mapped s child addr len
      → ((write_pro_mem k child addr str len s).0 ≡ pos 0)
        × Wrote mem mapped child addr (take len str) s (write_pro_mem k child addr str len s).1
  unfolding write_pro_mem
  write_pro_mem-Wrote addr len str s fits small long ok =
      let plain : addr + 0 * 8 ≡ addr = omega arith in
      let whole : len - 0 * 8 ≡ len = omega arith in
      let loop =
        write_words_lem addr len fits (len / 8) 0 str s (omega arith) small (omega arith) ok in
      rw (plain, whole) at loop
