-- ===== src/Command/Handlers.antt =====
-- The functions behind the commands. `str` is the array of words; the code reads words behind its
-- end too, where they are whatever the memory holds.
pub mod Argv
pub mod Armed
pub mod Break
pub mod Trap
pub mod Continue
pub mod Watch
use test_dbug.Common.{
  ℕ, zero, suc, ◌+◌, ◌-◌, ◌*◌, ◌/◌, ◌%◌, ◌^◌, Bool, true, false, not, ◌&&◌, List, [], ◌∷◌, ◌++◌,
  Option, none, some, ℤ, pos, negsuc, minus_one, is_neg, ltb, leb, ◌==◌, if◌then◌else◌, get_elem?,
  Text, codes, skip_spaces, sscanf_lx,
}
use test_dbug.Output.{Line, trigger, trigger_hw, watch_at, bp_line, reg_line}
use test_dbug.Kernel.{Pid, Regs}
use test_dbug.Elf.Functions.{FuncOrg, FunArr}
use test_dbug.Elf.Lookup.{find_func, foreach_fun}
use test_dbug.Session.{
  Breakpoint, Str, Arr, put, Dbug, Ngx, Env, World, Outcome, done, exited, fault, Cmd, pure, exit,
  ◌>>=◌, ◌>>◌, get_dbug, set_dbug, print, call, call_void, deref, call_ngx,
}
use test_dbug.Dbug.{
  wifexited, wstopsig, sigtrap, perror, find_current_sf_bp, find_current_hw_bp, insert_int3_bp,
  insert_hard_break, resume_int3_bp_next,
}
use test_dbug.Dbug.Start.{dbug_pro, attach_pro}

-- The digits of `atoi`, in 32 bits.
unfoldable pub dec_value : ℕ → Text → ℕ
dec_value v [] = v
dec_value v (c ∷ s) =
    let more = dec_value ((v * 10 + (c - 48)) % 2 ^ 32) s in
    if leb b'0' c && leb c b'9' then more else v

-- A negative number is its 32-bit pattern.
unfoldable pub atoi : Text → ℕ
unfolding dec_value skip_spaces
atoi s = elim (skip_spaces s) [
  | [] ↦ 0
  | c ∷ t ↦
      if c == b'-'
      then (2 ^ 32 - dec_value 0 t) % 2 ^ 32
      else if c == b'+'
      then dec_value 0 t
      else dec_value 0 (c ∷ t)
]

abbrev pub print_all : {S : Type 0} → List Line → Cmd S (Unit {0})
print_all lines w = done tt (record w { out = w.out ++ lines })

-- The lines of `command_showbps` from index `i` on.
unfoldable pub bp_lines : (ℕ → Breakpoint) → ℕ → ℕ → List Line
bp_lines bps zero i = []
bp_lines bps (suc n) i = bp_line i (bps i).addr ∷ bp_lines bps n (i + 1)

unfoldable pub reg_lines : Regs → List Line
reg_lines r =
    reg_line (codes "r15") r.r15
    ∷ reg_line (codes "r14") r.r14
    ∷ reg_line (codes "r13") r.r13
    ∷ reg_line (codes "r12") r.r12
    ∷ reg_line (codes "rbp") r.rbp
    ∷ reg_line (codes "rbx") r.rbx
    ∷ reg_line (codes "r11") r.r11
    ∷ reg_line (codes "r10") r.r10
    ∷ reg_line (codes "r9") r.r9
    ∷ reg_line (codes "r8") r.r8
    ∷ reg_line (codes "rax") r.rax
    ∷ reg_line (codes "rcx") r.rcx
    ∷ reg_line (codes "rdx") r.rdx
    ∷ reg_line (codes "rsi") r.rsi
    ∷ reg_line (codes "rdi") r.rdi
    ∷ reg_line (codes "orig_rax") r.orig_rax
    ∷ reg_line (codes "rip") r.rip
    ∷ reg_line (codes "cs") r.cs
    ∷ reg_line (codes "eflags") r.eflags
    ∷ reg_line (codes "rsp") r.rsp
    ∷ reg_line (codes "ss") r.ss
    ∷ reg_line (codes "fs_base") r.fs_base
    ∷ reg_line (codes "gs_base") r.gs_base
    ∷ reg_line (codes "ds") r.ds
    ∷ reg_line (codes "es") r.es
    ∷ reg_line (codes "fs") r.fs
    ∷ reg_line (codes "gs") r.gs
    ∷ []

-- `argv[0 .. n)` of `command_dbug`, from element `i` of the words on.
unfoldable pub argv_from : (ℕ → Str) → ℕ → ℕ → List (Option Text)
argv_from str zero i = []
argv_from str (suc n) i = (str (i + 1)).chars ∷ argv_from str n (i + 1)

-- Where the word is no number, the address is what the pushed element held.
unfoldable pub scan_addr : Text → Breakpoint → Breakpoint
scan_addr word bp = elim (sscanf_lx word) [ none ↦ bp | some num ↦ record bp { addr = num } ]

module _ {S : Type 0} (env : Env S) where
  -- The last element of the array is where the code's pointer to the new breakpoint leads.
  unfoldable pub store_last : Arr Breakpoint → Option Breakpoint → Cmd S ℤ
  store_last bps bp = do
    bp ← deref bp
    d ← get_dbug
    set_dbug (record d { bps = some (put bps (bps.nelts - 1) bp) })
    pure (pos 0)

  unfoldable pub fill_last : FuncOrg → Arr Breakpoint → Cmd S ℤ
  unfolding store_last
  fill_last f bps = do
    d ← get_dbug
    (r, bp) ←
        insert_int3_bp env d.pid
          (some (record (bps.elts (bps.nelts - 1)) { name = f.name; addr = f.addr }))
    store_last bps bp

  -- The breakpoint of a symbol, pushed and filled.
  unfoldable pub add_breakpoint : FuncOrg → Cmd S ℤ
  unfolding fill_last
  add_breakpoint f = do
    d ← get_dbug
    bps ← deref d.bps
    bps ← call_ngx (λ s. env.ngx.push_bp s bps)
    fill_last f bps

  -- What follows the search for the symbol.
  unfoldable pub break_index : ℤ → Cmd S ℤ
  break_index (negsuc n) = pure minus_one
  break_index (pos i) = do
    d ← get_dbug
    funs ← deref d.funs
    f ← deref (get_elem? funs.items i)
    add_breakpoint f

  unfoldable pub command_break : Arr Str → Cmd S ℤ
  command_break cmds = do
    d ← get_dbug
    index ← deref (find_func d.funs (cmds.elts 1).chars)
    break_index index

  -- What `command_continue` does for the answers of the two searches.
  unfoldable pub sf_index : Arr Breakpoint → ℤ → Cmd S (Unit {0})
  sf_index bps (negsuc n) = pure tt
  sf_index bps (pos i) = do
    d ← get_dbug
    print (trigger (bps.elts i).addr (bps.elts i).name)
    (r, regs) ← resume_int3_bp_next env d.pid (some (bps.elts i)) d.regs
    set_dbug (record d { regs = regs })

  unfoldable pub hw_index : Arr Breakpoint → ℤ → Cmd S (Unit {0})
  hw_index bps (negsuc n) = pure tt
  hw_index bps (pos i) = print (trigger_hw (bps.elts i).addr)

  -- A stop by SIGTRAP.
  unfoldable pub on_trap : Arr Breakpoint → Cmd S ℤ
  on_trap bps = do
    d ← get_dbug
    sf_index bps (find_current_sf_bp bps d.regs)
    d ← get_dbug
    hw_index bps (find_current_hw_bp bps d.regs)
    pure (pos 0)

  -- The part behind the wait.
  unfoldable pub on_stop : Arr Breakpoint → Cmd S ℤ
  on_stop bps = do
    d ← get_dbug
    if wifexited d.status then exit 0 else (do
      (r, regs) ← (λ w. done (env.kernel.getregs w.os d.pid d.regs) w)
      set_dbug (record d { regs = regs })
      if wstopsig d.status == sigtrap then on_trap bps else pure (pos 0))

  unfoldable pub command_continue : Arr Str → Cmd S ℤ
  command_continue cmds = do
    d ← get_dbug
    bps ← deref d.bps
    r ← call (λ s. env.kernel.cont s d.pid)
    perror env (is_neg r) (codes "ptrace cont err")
    status ← call (λ s. env.kernel.wait s d.status)
    set_dbug (record d { status = status })
    on_stop bps

  unfoldable pub command_show : Arr Str → Cmd S ℤ
  command_show cmds = do
    d ← get_dbug
    lines ← deref (foreach_fun d.funs)
    print_all lines
    pure (pos 0)

  unfoldable pub command_exit : Arr Str → Cmd S ℤ
  command_exit cmds = do d ← get_dbug; call_void (λ s. env.kernel.kill s d.pid); exit 0

  unfoldable pub command_showbps : Arr Str → Cmd S ℤ
  unfolding bp_lines
  command_showbps cmds = do
    d ← get_dbug
    bps ← deref d.bps
    print_all (bp_lines bps.elts bps.nelts 0)
    pure (pos 0)

  unfoldable pub command_dbug : Arr Str → Cmd S ℤ
  command_dbug cmds = do
    d ← get_dbug
    call_ngx (λ s. elim (env.ngx.pcalloc s d.pool (8 * cmds.nelts)) [
      | none ↦ none
      | some s' ↦ some (tt, s')
    ])
    dbug_pro env (cmds.elts 1).chars (argv_from cmds.elts cmds.nelts 0)
    pure (pos 0)

  unfoldable pub command_attach : Arr Str → Cmd S ℤ
  unfolding atoi
  command_attach cmds = do
    word ← deref (cmds.elts 1).chars
    attach_pro env (atoi word)
    pure (pos 0)

  unfoldable pub command_showreg : Arr Str → Cmd S ℤ
  unfolding reg_lines
  command_showreg cmds = do
    d ← get_dbug
    (r, regs) ← (λ w. done (env.kernel.getregs w.os d.pid d.regs) w)
    set_dbug (record d { regs = regs })
    perror env (is_neg r) (codes "PTRACE_GETREGS err\n")
    print_all (reg_lines regs)
    pure (pos 0)

  -- What follows the push: the new element is filled through the pointer to it.
  unfoldable pub watch_last : Arr Breakpoint → Text → Cmd S ℤ
  watch_last bps word = do
    let bp = scan_addr word (bps.elts (bps.nelts - 1))
    print (watch_at bp.addr)
    d ← get_dbug
    (r, bp') ← insert_hard_break env d.pid bp
    set_dbug (record d { bps = some (put bps (bps.nelts - 1) bp') })
    pure (pos 0)

  unfoldable pub command_watch : Arr Str → Cmd S ℤ
  command_watch cmds = do
    d ← get_dbug
    bps ← deref d.bps
    bps' ← call_ngx (λ s. env.ngx.push_bp s bps)
    word ← deref (cmds.elts 1).chars
    watch_last bps' word
