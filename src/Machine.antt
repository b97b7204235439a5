-- ===== src/Machine.antt =====
-- A small machine that shows that the hypotheses on the system can be met, and on which the tests
-- run: one tracee whose instructions are single bytes, with memory mapped below 4096.
use test_dbug.Common.{
  ℕ, zero, suc, ◌+◌, ◌/◌, ◌%◌, ◌^◌, ◌≤◌, ◌<◌, ◌≡◌, refl, ap, ap₂, ◌∙◌, arith, Bool, true, List, [],
  ◌∷◌, ◌⊎◌, none, pos, minus_one, to_u64, ltb, ◌==◌, ◌&&◌, if◌then◌else◌, Bool-cases, inl, inr,
  length, le_bytes, le_word, bytes_at, bytes_at_ext, length-le_bytes,
}
use test_dbug.Kernel.{Pid, Regs, Kernel, IsMemory}

pub record Machine : Type 0 where
  pub bytes : ℕ → ℕ
  pub regs : Regs
  pub debugregs : ℕ → ℕ
  -- what the next wait reports
  pub status : ℕ

abbrev pub limit : ℕ
limit = 4096

-- The bytes of a list in place of those from an address on.
unfoldable pub patch : (ℕ → ℕ) → ℕ → List ℕ → ℕ → ℕ
patch f a [] c = f c
patch f a (x ∷ xs) c = if c == a then x else patch f (a + 1) xs c

-- The next trap at or behind an address, among the next `n`.
unfoldable pub next_trap : (ℕ → ℕ) → ℕ → ℕ → ℕ
next_trap f a zero = a
next_trap f a (suc n) = let later = next_trap f (a + 1) n in if f a == 0xcc then a else later

abbrev stopped_by_trap : ℕ
stopped_by_trap = 0x57f

abbrev stopped_by_stop : ℕ
stopped_by_stop = 0x137f

abbrev pub machine_mem : Machine → Pid → ℕ → ℕ
machine_mem s p a = s.bytes a % 256

abbrev pub machine_mapped : Machine → Pid → ℕ → Bool
machine_mapped s p a = ltb a limit

-- What stops the program at an address: a trap that is there, or else a signal.
abbrev pub stop_at : (ℕ → ℕ) → ℕ → ℕ
stop_at f t = if ltb t limit && (f t == 0xcc) then stopped_by_trap else stopped_by_stop

abbrev pub machine : Kernel Machine
machine = record {
  peektext =
      λ s p a. if ltb a limit then pos (le_word (bytes_at (machine_mem s p) a 8)) else minus_one;
  poketext = λ s p a w.
      if ltb a limit
      then (pos 0, record s { bytes = patch s.bytes a (le_bytes 8 w) })
      else (minus_one, s);
  pokeuser = λ s p n v. (pos 0, record s { debugregs = patch s.debugregs n (v ∷ []) });
  getregs = λ s p old. (pos 0, s.regs);
  setregs = λ s p r. record s { regs = r };
  cont = λ s p. (
    pos 0,
    let r = s.regs in
        let t = next_trap (machine_mem s p) r.rip 64 in
        record s { regs = record r { rip = t + 1 }; status = stop_at (machine_mem s p) t },
  );
  singlestep = λ s p.
      let r = s.regs in record s { regs = record r { rip = r.rip + 1 }; status = stopped_by_trap };
  syscall = λ s p. (pos 0, s);
  peekdata =
      λ s p a. if ltb a limit then pos (le_word (bytes_at (machine_mem s p) a 8)) else minus_one;
  pokedata = λ s p a w.
      if ltb a limit
      then (pos 0, record s { bytes = patch s.bytes a (le_bytes 8 w) })
      else (minus_one, s);
  stop_self = λ s. (pos 0, record s { status = stopped_by_stop });
  -- there is no process 0
  attach = λ s p. if p == 0 then (minus_one, s) else (pos 0, record s { status = stopped_by_trap });
  traceme = λ s. (pos 0, s);
  wait = λ s old. (s.status, s);
  waitpid = λ s p old. (pos p, s.status, s);
  kill = λ s p. s;
  fork = λ s. (pos 7, record s { status = stopped_by_trap });
  execvp = λ s path argv. none;
}

patch_before : (f : ℕ → ℕ) (a : ℕ) (xs : List ℕ) (c : ℕ) → c < a → patch f a xs c ≡ f c
unfolding patch
patch_before f a [] c h = refl
patch_before f a (x ∷ xs) c h = ground (arith, patch_before f (a + 1) xs c)

patch_behind : (f : ℕ → ℕ) (a : ℕ) (xs : List ℕ) (c : ℕ) → a + length xs ≤ c → patch f a xs c ≡ f c
unfolding patch
patch_behind f a [] c h = refl
patch_behind f a (x ∷ xs) c h = ground (arith, patch_behind f (a + 1) xs c)

bytes_at-patch :
    (f : ℕ → ℕ) (a w n : ℕ) → bytes_at (λ c. patch f a (le_bytes n w) c % 256) a n ≡ le_bytes n w
unfolding patch le_bytes bytes_at
bytes_at-patch f a w zero = refl
bytes_at-patch f a w (suc n) =
    ap₂ ◌∷◌ (ground arith)
      (bytes_at_ext _ _ (a + 1) n (λ b p q. ground arith) ∙ bytes_at-patch f (a + 1) (w / 256) n)

le_word-lt : (f : ℕ → ℕ) (a : ℕ) → le_word (bytes_at (λ c. f c % 256) a 8) < 2 ^ 64
unfolding le_word bytes_at
le_word-lt f a = omega arith

peek_word_lem :
    (s : Machine) (p : Pid) (a : ℕ)
    → machine_mapped s p a ≡ true
    → to_u64 (machine.peektext s p a) ≡ le_word (bytes_at (machine_mem s p) a 8)
peek_word_lem s p a h = rw h (omega (arith, le_word-lt s.bytes a))

poke_word_lem :
    (s : Machine) (p : Pid) (a w : ℕ)
    → machine_mapped s p a ≡ true
    → bytes_at (machine_mem (machine.poketext s p a w).1 p) a 8 ≡ le_bytes 8 w
poke_word_lem s p a w h = rw h (bytes_at-patch s.bytes a w 8)

poke_frame_lem :
    (s : Machine) (p : Pid) (a w b : ℕ)
    → (b < a) ⊎ (a + 8 ≤ b)
    → machine_mem (machine.poketext s p a w).1 p b ≡ machine_mem s p b
poke_frame_lem s p a w b h = elim (Bool-cases (ltb a limit)) [
  | inl ok ↦ rw ok (
      ap (λ (t : ℕ). t % 256)
        (elim h [
          | inl before ↦ patch_before s.bytes a (le_bytes 8 w) b before
          | inr behind ↦
              patch_behind s.bytes a (le_bytes 8 w) b (omega (arith, length-le_bytes 8 w))
        ]))
  | inr bad ↦ rw bad refl
]

-- The machine's memory behaves as documented.
pub machine-IsMemory : IsMemory machine machine_mem machine_mapped
machine-IsMemory = record {
  byte = λ s p a. omega arith;
  peek_word = peek_word_lem;
  peek_fails = λ s p a h. rw h refl;
  poke_done = λ s p a w h. rw h refl;
  poke_word = poke_word_lem;
  poke_frame = poke_frame_lem;
  poke_mapped = λ s p a w b. refl;
  poke_fails = λ s p a w h. rw h refl;
}
