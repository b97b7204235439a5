-- ===== src/Kernel.antt =====
-- The operating system as dbug.c, mem.c and command.c call it: `ptrace`, `wait`, `waitpid`, `kill`,
-- `fork` and `execvp`. None of it is code of the repository, so it is a parameter, with the
-- documented behaviour of the calls that the proofs rely on as a record of hypotheses.
use test_dbug.Common.{
  ℕ, ◌+◌, ◌≤◌, ◌<◌, ◌≡◌, refl, ◌∙◌, ◌⊎◌, Bool, true, false, List, Option, Text, ℤ, pos, minus_one,
  to_u64, le_bytes, le_word, bytes_at,
}

abbrev pub Pid : Type 0
Pid = ℕ

-- `struct user_regs_struct` of `sys/user.h`.
pub record Regs : Type 0 where
  pub r15 : ℕ
  pub r14 : ℕ
  pub r13 : ℕ
  pub r12 : ℕ
  pub rbp : ℕ
  pub rbx : ℕ
  pub r11 : ℕ
  pub r10 : ℕ
  pub r9 : ℕ
  pub r8 : ℕ
  pub rax : ℕ
  pub rcx : ℕ
  pub rdx : ℕ
  pub rsi : ℕ
  pub rdi : ℕ
  pub orig_rax : ℕ
  pub rip : ℕ
  pub cs : ℕ
  pub eflags : ℕ
  pub rsp : ℕ
  pub ss : ℕ
  pub fs_base : ℕ
  pub gs_base : ℕ
  pub ds : ℕ
  pub es : ℕ
  pub fs : ℕ
  pub gs : ℕ

-- The calls, over an abstract state `S` of the system. A call that can fail returns the `long` or
-- `int` that C sees. A wait returns its result, and the status that it stores.
pub record Kernel (S : Type 0) : Type 0 where
  pub peektext : S → Pid → ℕ → ℤ
  pub poketext : S → Pid → ℕ → ℕ → ℤ × S
  -- the number is that of the debug register whose offset the code computes
  pub pokeuser : S → Pid → ℕ → ℕ → ℤ × S
  -- the registers as they were stay where the call fails
  pub getregs : S → Pid → Regs → ℤ × Regs
  pub setregs : S → Pid → Regs → S
  pub cont : S → Pid → ℤ × S
  pub singlestep : S → Pid → S
  pub syscall : S → Pid → ℤ × S
  pub peekdata : S → Pid → ℕ → ℤ
  pub pokedata : S → Pid → ℕ → ℕ → ℤ × S
  -- a `SIGSTOP` that a process sends to itself
  pub stop_self : S → ℤ × S
  pub attach : S → Pid → ℤ × S
  pub traceme : S → ℤ × S
  -- a wait for any child, and one for a given child
  pub wait : S → ℕ → ℕ × S
  pub waitpid : S → Pid → ℕ → ℤ × ℕ × S
  pub kill : S → Pid → S
  -- zero is returned in the child
  pub fork : S → ℤ × S
  -- it returns only where it fails
  pub execvp : S → Option Text → List (Option Text) → Option (ℤ × S)

-- What `ptrace` documents of a tracee's memory: `mem` gives its bytes and `mapped` tells whether the
-- word at an address can be accessed.
pub record IsMemory {S : Type 0} (k : Kernel S) (mem : S → Pid → ℕ → ℕ)
    (mapped : S → Pid → ℕ → Bool) : Type 0 where
  pub byte : (s : S) (p : Pid) (a : ℕ) → mem s p a < 256
  pub peek_word :
      (s : S) (p : Pid) (a : ℕ)
      → mapped s p a ≡ true
      → to_u64 (k.peektext s p a) ≡ le_word (bytes_at (mem s p) a 8)
  pub peek_fails : (s : S) (p : Pid) (a : ℕ) → mapped s p a ≡ false → k.peektext s p a ≡ minus_one
  pub poke_done : (s : S) (p : Pid) (a w : ℕ) → mapped s p a ≡ true → (k.poketext s p a w).0 ≡ pos 0
  pub poke_word :
      (s : S) (p : Pid) (a w : ℕ)
      → mapped s p a ≡ true
      → bytes_at (mem (k.poketext s p a w).1 p) a 8 ≡ le_bytes 8 w
  pub poke_frame :
      (s : S) (p : Pid) (a w b : ℕ)
      → (b < a) ⊎ (a + 8 ≤ b)
      → mem (k.poketext s p a w).1 p b ≡ mem s p b
  pub poke_mapped : (s : S) (p : Pid) (a w b : ℕ) → mapped (k.poketext s p a w).1 p b ≡ mapped s p b
  pub poke_fails :
      (s : S) (p : Pid) (a w : ℕ) → mapped s p a ≡ false → k.poketext s p a w ≡ (minus_one, s)

-- What is done between two states of the system reaches no process: its memory is the same.
pub record SameTracee {S : Type 0} (mem : S → Pid → ℕ → ℕ) (mapped : S → Pid → ℕ → Bool) (s s' : S)
    : Type 0 where
  pub memory : (p : Pid) (a : ℕ) → mem s' p a ≡ mem s p a
  pub mapping : (p : Pid) (a : ℕ) → mapped s' p a ≡ mapped s p a

module _ {S : Type 0} {mem : S → Pid → ℕ → ℕ} {mapped : S → Pid → ℕ → Bool} where
  pub SameTracee-refl : (s : S) → SameTracee mem mapped s s
  SameTracee-refl s = record { memory = λ p a. refl; mapping = λ p a. refl }

  pub SameTracee-trans :
      {s t u : S}
      → SameTracee mem mapped s t
      → SameTracee mem mapped t u
      → SameTracee mem mapped s u
  SameTracee-trans h k = record {
    memory = λ p a. k.memory p a ∙ h.memory p a;
    mapping = λ p a. k.mapping p a ∙ h.mapping p a;
  }
