-- ===== src/Dbug/Resume.antt =====
-- `resume_INT3_bp_next`: one instruction runs on the program's own code.
use test_dbug.Common.{
  ℕ, ◌/◌, ◌^◌, ◌<◌, ◌≡◌, refl, ◌∙◌, arith, Bool, true, [], ◌∷◌, some, pos, le_bytes,
  le_bytes-IsBytes,
}
use test_dbug.Kernel.{Pid, Regs, Kernel, IsMemory}
use test_dbug.Mem.{write_pro_mem}
use test_dbug.Mem.Write.{Wrote}
use test_dbug.Mem.One.{write_pro_mem-poke}
use test_dbug.Session.{Breakpoint, Env, World, done}
use test_dbug.Dbug.{is_sf, int_3, resume_int3_bp_next}
use test_dbug.Dbug.Insert.{code_byte, write-Wrote}

-- The system after the step: the registers are set, one instruction runs, and its end is waited for.
abbrev pub stepped : {S : Type 0} → Kernel S → Pid → Regs → S → S
stepped k pid regs s = (k.wait (k.singlestep (k.setregs s pid regs) pid) 0).1

-- How a call that steps goes: from `s` the kept byte is written, giving `before`; from there the
-- instruction at the breakpoint runs, and then the trap is written again, giving `after`.
pub record Stepped {S : Type 0} (k : Kernel S) (mem : S → Pid → ℕ → ℕ) (mapped : S → Pid → ℕ → Bool)
    (pid : Pid) (bp : Breakpoint) (regs : Regs) (s before after : S) : Type 0 where
  pub restored : Wrote mem mapped pid bp.addr (code_byte bp ∷ []) s before
  pub rearmed :
      Wrote mem mapped pid bp.addr
        (int_3 ∷ [])
        (stepped k pid (record regs { rip = bp.addr }) before)
        after
  -- each of the two is a write of one word
  pub restored_by : (word : ℕ) × (before ≡ (k.poketext s pid bp.addr word).1)
  pub rearmed_by :
      (word : ℕ) × (after
        ≡ (k.poketext (stepped k pid (record regs { rip = bp.addr }) before) pid bp.addr word).1)

module _ {S : Type 0} (env : Env S) {mem : S → Pid → ℕ → ℕ} {mapped : S → Pid → ℕ → Bool}
    (m : IsMemory env.kernel mem mapped)
    (still_mapped : (s : S) (p : Pid) (r : Regs) (a : ℕ)
      → mapped (stepped env.kernel p r s) p a ≡ mapped s p a)
    (pid : Pid) where
  -- On a software breakpoint whose address lies below 2 ^ 64 and can be accessed, in a system where
  -- a step leaves the mapping alone, the call returns 0, sets the instruction pointer to the breakpoint's
  -- address, runs one instruction with the program's byte in place and the rest as it was, and puts
  -- the trap back, each by one write of a word.
  pub resume_int3_bp_next-Stepped :
      (bp : Breakpoint) (regs : Regs) (w : World S)
      → is_sf bp ≡ true
      → bp.addr < 2 ^ 64
      → mapped w.os pid bp.addr ≡ true
      → (before : S) × (after : S) × (resume_int3_bp_next env pid (some bp) regs w
          ≡ done (pos 0, record regs { rip = bp.addr }) (record w { os = after }))
        × Stepped env.kernel mem mapped pid bp regs w.os before after
  resume_int3_bp_next-Stepped bp regs w kind fits ok = (
    before,
    after,
    runs,
    record {
      restored = first;
      rearmed =
          write-Wrote env m pid ran bp.addr int_3 [] (omega arith, tt) fits
            (still_mapped before pid _ bp.addr ∙ first.same bp.addr ∙ ok);
      restored_by = write_pro_mem-poke env.kernel pid w.os bp.addr (le_bytes 8 bp.orig_code) fits;
      rearmed_by = write_pro_mem-poke env.kernel pid ran bp.addr (int_3 ∷ []) fits;
    },
  )
    where
      before : S
      before = (write_pro_mem env.kernel pid bp.addr (le_bytes 8 bp.orig_code) 1 w.os).1

      ran : S
      ran = stepped env.kernel pid (record regs { rip = bp.addr }) before

      after : S
      after = (write_pro_mem env.kernel pid bp.addr (int_3 ∷ []) 1 ran).1

      runs :
          resume_int3_bp_next env pid (some bp) regs w
          ≡ done (pos 0, record regs { rip = bp.addr }) (record w { os = after })
      runs = unfold resume_int3_bp_next in rw kind refl

      first : Wrote mem mapped pid bp.addr (code_byte bp ∷ []) w.os before
      first =
          unfold le_bytes in
          write-Wrote env m pid w.os bp.addr (code_byte bp) (le_bytes 7 (bp.orig_code / 256))
            (omega arith, le_bytes-IsBytes 7 (bp.orig_code / 256)) fits ok
