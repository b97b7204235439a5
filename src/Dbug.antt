-- ===== src/Dbug.antt =====
-- dbug.c: breakpoints, and the debug registers. The pointer to the session's structure is the
-- address of a variable of `main`, so the tests of it for null are left out.
pub mod Find
pub mod Insert
pub mod Resume
pub mod Watch
pub mod Start
pub mod Adopt
use test_dbug.Common.{
  ℕ, zero, suc, ◌+◌, ◌-◌, ◌*◌, ◌/◌, ◌%◌, ◌^◌, Bool, true, false, not, ◌&&◌, ◌||◌, List, [], ◌∷◌,
  Option, none, some, ℤ, pos, negsuc, minus_one, is_neg, ◌==◌, if◌then◌else◌, le_bytes, le_word,
  codes, Text,
}
use test_dbug.Output.{Line, break_at, error_line}
use test_dbug.Kernel.{Pid, Regs, Kernel}
use test_dbug.Mem.{read_pro_mem, write_pro_mem}
use test_dbug.Elf.Functions.{FunArr}
use test_dbug.Elf.Open.{open_funs}
use test_dbug.Session.{
  Breakpoint, Str, Arr, Dbug, Ngx, Env, World, Outcome, done, exited, replaced, fault, Cmd, pure,
  abort, ◌>>=◌, ◌>>◌, get_dbug, set_dbug, print, call, call_void, call_ngx,
}

abbrev pub int_3 : ℕ
int_3 = 0xcc

abbrev pub sfbp : ℕ
sfbp = 1

abbrev pub hwbp : ℕ
hwbp = 2

-- `type & SFBP` and `type & HWBP`
abbrev pub is_sf : Breakpoint → Bool
is_sf bp = bp.type % 2 == 1

abbrev pub is_hw : Breakpoint → Bool
is_hw bp = bp.type / 2 % 2 == 1

-- `struct DR7`, its fields in their order from the lowest bit on.
pub record Dr7 : Type 0 where
  pub l0 : ℕ
  pub g0 : ℕ
  pub l1 : ℕ
  pub g1 : ℕ
  pub l2 : ℕ
  pub g2 : ℕ
  pub l3 : ℕ
  pub g3 : ℕ
  pub res1 : ℕ
  pub rw0 : ℕ
  pub len0 : ℕ
  pub rw1 : ℕ
  pub len1 : ℕ
  pub rw2 : ℕ
  pub len2 : ℕ
  pub rw3 : ℕ
  pub len3 : ℕ
  pub res2 : ℕ

abbrev pub dr7_zero : Dr7
dr7_zero = record {
  l0 = 0;
  g0 = 0;
  l1 = 0;
  g1 = 0;
  l2 = 0;
  g2 = 0;
  l3 = 0;
  g3 = 0;
  res1 = 0;
  rw0 = 0;
  len0 = 0;
  rw1 = 0;
  len1 = 0;
  rw2 = 0;
  len2 = 0;
  rw3 = 0;
  len3 = 0;
  res2 = 0;
}

-- `memcpy(&dr7, &dr_7, 8)`: the fields as one word.
unfoldable pub dr7_word : Dr7 → ℕ
dr7_word d =
    d.l0
    + 2 * d.g0
    + 2 ^ 2 * d.l1
    + 2 ^ 3 * d.g1
    + 2 ^ 4 * d.l2
    + 2 ^ 5 * d.g2
    + 2 ^ 6 * d.l3
    + 2 ^ 7 * d.g3
    + 2 ^ 8 * d.res1
    + 2 ^ 16 * d.rw0
    + 2 ^ 18 * d.len0
    + 2 ^ 20 * d.rw1
    + 2 ^ 22 * d.len1
    + 2 ^ 24 * d.rw2
    + 2 ^ 26 * d.len2
    + 2 ^ 28 * d.rw3
    + 2 ^ 30 * d.len3
    + 2 ^ 32 * d.res2

-- Status words: `WIFEXITED` and `WSTOPSIG`.
abbrev pub wifexited : ℕ → Bool
wifexited status = status % 128 == 0

abbrev pub wstopsig : ℕ → ℕ
wstopsig status = status / 256 % 256

abbrev pub sigtrap : ℕ
sigtrap = 5

-- The loop of `find_current_SF_bp` at `i`, with rounds left: the `i` at which it ends.
unfoldable pub sf_loop : (ℕ → Breakpoint) → ℕ → ℕ → ℕ → ℕ
sf_loop bps target zero i = i
sf_loop bps target (suc n) i =
    let next = sf_loop bps target n (i + 1) in
    if not (is_sf (bps i)) then next else if (bps i).addr == target then i else next

unfoldable pub find_current_sf_bp : Arr Breakpoint → Regs → ℤ
unfolding sf_loop
find_current_sf_bp bps regs =
    let i = sf_loop bps.elts ((regs.rip + 2 ^ 64 - 1) % 2 ^ 64) bps.nelts 0 in
    if i == bps.nelts then minus_one else pos i

unfoldable pub hw_loop : (ℕ → Breakpoint) → ℕ → ℕ → ℕ → ℕ
hw_loop bps target zero i = i
hw_loop bps target (suc n) i =
    let next = hw_loop bps target n (i + 1) in
    if not (is_hw (bps i)) then next else if (bps i).addr == target then i else next

unfoldable pub find_current_hw_bp : Arr Breakpoint → Regs → ℤ
unfolding hw_loop
find_current_hw_bp bps regs =
    let i = hw_loop bps.elts regs.rip bps.nelts 0 in if i == bps.nelts then minus_one else pos i

module _ {S : Type 0} (env : Env S) where
  -- `write_pro_mem` and `read_pro_mem` in a session.
  abbrev pub write_mem : Pid → ℕ → List ℕ → ℕ → Cmd S ℤ
  write_mem pid addr str len = call (write_pro_mem env.kernel pid addr str len)

  abbrev pub read_mem : Pid → ℕ → List ℕ → ℕ → Cmd S (ℤ × List ℕ)
  read_mem pid addr str len w = done (read_pro_mem env.kernel pid addr str len w.os) w

  abbrev pub perror : Bool → Text → Cmd S (Unit {0})
  perror true t = print (error_line t)
  perror false t = pure tt

  -- The returned number, and `*bp` after the call. One byte is read into the low byte of
  -- `orig_code`; the results of the two memory calls are not looked at.
  unfoldable pub insert_int3_bp : Pid → Option Breakpoint → Cmd S (ℤ × Option Breakpoint)
  insert_int3_bp pid none = pure (minus_one, none)
  insert_int3_bp pid (some bp) = do
    (r, bytes) ← read_mem pid bp.addr (le_bytes 8 bp.orig_code) 1
    write_mem pid bp.addr (int_3 ∷ []) 1
    print (break_at bp.addr bp.name)
    pure (pos 0, some (record bp { type = sfbp; orig_code = le_word bytes }))

  unfoldable pub insert_hard_break : Pid → Breakpoint → Cmd S (ℤ × Breakpoint)
  insert_hard_break pid bp = do
    r ← call (λ s. env.kernel.pokeuser s pid 0 bp.addr)
    perror (is_neg r) (codes "tracer, faile to set DR_0\n")
    let d = dr7_zero
    r ← call (λ s. env.kernel.pokeuser s pid 7 (dr7_word (record d { l0 = 1; g0 = 1 })))
    perror (is_neg r) (codes "tracer, faile to set DR_7\n")
    pure (pos 0, record bp { type = hwbp })

  -- The returned number, and `*regs` after the call.
  unfoldable pub resume_int3_bp_next : Pid → Option Breakpoint → Regs → Cmd S (ℤ × Regs)
  resume_int3_bp_next pid none regs = pure (minus_one, regs)
  resume_int3_bp_next pid (some bp) regs = if not (is_sf bp) then pure (minus_one, regs) else do
    write_mem pid bp.addr (le_bytes 8 bp.orig_code) 1
    let regs' = record regs { rip = bp.addr }
    call_void (λ s. env.kernel.setregs s pid regs')
    call_void (λ s. env.kernel.singlestep s pid)
    call (λ s. env.kernel.wait s 0)
    write_mem pid bp.addr (int_3 ∷ []) 1
    pure (pos 0, regs')
