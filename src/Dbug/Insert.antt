-- ===== src/Dbug/Insert.antt =====
-- `insert_INT3_bp` against the tracee's memory.
use test_dbug.Common.{
  ℕ, ◌%◌, ◌^◌, ◌<◌, ◌≡◌, refl, ap, ◌∙◌, arith, Bool, true, List, [], ◌∷◌, ◌++◌, some, pos, le_bytes,
  le_word, bytes_at, drop, IsBytes,
}
use test_dbug.Output.{break_at}
use test_dbug.Kernel.{Pid, IsMemory}
use test_dbug.Mem.{read_pro_mem, write_pro_mem}
use test_dbug.Mem.Read.{IsMapped, read_pro_mem-bytes_at}
use test_dbug.Mem.Write.{Wrote, write_pro_mem-Wrote}
use test_dbug.Session.{Breakpoint, Env, World, done}
use test_dbug.Dbug.{sfbp, int_3, insert_int3_bp}

-- The program's byte that a breakpoint keeps.
abbrev pub code_byte : Breakpoint → ℕ
code_byte bp = bp.orig_code % 256

-- The breakpoint after the call, for the low byte that was read.
abbrev pub armed_bp : Breakpoint → List ℕ → Breakpoint
armed_bp bp bytes = record bp { type = sfbp; orig_code = le_word bytes }

le_word-mod : (b : ℕ) (bs : List ℕ) → b < 256 → le_word (b ∷ bs) % 256 ≡ b
unfolding le_word
le_word-mod b bs h = omega arith

module _ {S : Type 0} (env : Env S) {mem : S → Pid → ℕ → ℕ} {mapped : S → Pid → ℕ → Bool}
    (m : IsMemory env.kernel mem mapped) (pid : Pid) where
  pub IsMapped-one : (s : S) (a : ℕ) → mapped s pid a ≡ true → IsMapped mapped s pid a 1
  IsMapped-one s a ok b above below = let same : b ≡ a = omega arith in rw same ok

  -- One byte of a buffer that is written.
  pub write-Wrote :
      (s : S) (a b : ℕ) (bs : List ℕ)
      → IsBytes (b ∷ bs)
      → a < 2 ^ 64
      → mapped s pid a ≡ true
      → Wrote mem mapped pid a (b ∷ []) s (write_pro_mem env.kernel pid a (b ∷ bs) 1 s).1
  write-Wrote s a b bs small fits ok =
      (write_pro_mem-Wrote env.kernel m pid a 1 (b ∷ bs) s (omega arith) small (omega arith)
        (IsMapped-one s a ok)).1

  -- Setting a breakpoint on mapped memory below 2 ^ 64 returns 0, keeps the byte that was there, puts the trap in
  -- its place and changes no other byte; name and address stay, and the line is printed.
  pub insert_int3_bp-Wrote :
      (bp : Breakpoint) (w : World S)
      → bp.addr < 2 ^ 64
      → mapped w.os pid bp.addr ≡ true
      → (bp' : Breakpoint) × (s' : S) × (insert_int3_bp env pid (some bp) w
          ≡ done
              (pos 0, some bp')
              (record w { os = s'; out = w.out ++ break_at bp.addr bp.name ∷ [] }))
        × (bp'.type ≡ sfbp)
        × (bp'.addr ≡ bp.addr)
        × (bp'.name ≡ bp.name)
        × (code_byte bp' ≡ mem w.os pid bp.addr)
        × Wrote mem mapped pid bp.addr (int_3 ∷ []) w.os s'
  unfolding insert_int3_bp
  insert_int3_bp-Wrote bp w fits ok = (
    armed_bp bp read,
    (write_pro_mem env.kernel pid bp.addr (int_3 ∷ []) 1 w.os).1,
    refl,
    refl,
    refl,
    refl,
    ap (λ bs. le_word bs % 256) got ∙ le_word-mod _ _ (m.byte w.os pid bp.addr),
    write-Wrote w.os bp.addr int_3 [] (omega arith, tt) fits ok,
  )
    where
      read : List ℕ
      read = (read_pro_mem env.kernel pid bp.addr (le_bytes 8 bp.orig_code) 1 w.os).1

      got : read ≡ mem w.os pid bp.addr ∷ drop 1 (le_bytes 8 bp.orig_code)
      got =
          unfold bytes_at in
          ap (λ r. r.1)
            (read_pro_mem-bytes_at env.kernel m pid w.os bp.addr 1 (le_bytes 8 bp.orig_code)
              (omega arith) (IsMapped-one w.os bp.addr ok))
