-- ===== src/Tests/System.antt =====
-- What the tests run on: the machine of Machine.antt with a pool that always has room, a tracee whose
-- code is the bytes 0x90 below address 256, and a session with one breakpoint at address 100.
use test_dbug.Common.{
  false, ℕ, ◌+◌, refl, arith, Bool, [], ◌∷◌, none, some, ltb, ◌==◌, if◌then◌else◌, Text, codes,
  length,
}
use test_dbug.Kernel.{Pid, Regs, SameTracee-refl}
use test_dbug.Machine.{Machine, machine, machine_mem, machine_mapped, patch}
use test_dbug.Elf.Functions.{FunArr}
use test_dbug.Session.{Breakpoint, Str, Arr, Ngx, Env, World}
use test_dbug.Dbug.Watch.{IsDebugRegs}
use test_dbug.Command.Read.Slots.{IsRoomy}
use test_dbug.Command.Handlers.Armed.{IsArmed, IsStill}
use test_dbug.Command.Handlers.Break.{IsRoomyBps}

abbrev pub regs_at : ℕ → Regs
regs_at rip = record {
  r15 = 0;
  r14 = 0;
  r13 = 0;
  r12 = 0;
  rbp = 0;
  rbx = 0;
  r11 = 0;
  r10 = 0;
  r9 = 0;
  r8 = 0;
  rax = 0;
  rcx = 0;
  rdx = 0;
  rsi = 0;
  rdi = 0;
  orig_rax = 0;
  rip = rip;
  cs = 0;
  eflags = 0;
  rsp = 0;
  ss = 0;
  fs_base = 0;
  gs_base = 0;
  ds = 0;
  es = 0;
  fs = 0;
  gs = 0;
}

abbrev pub blank_bp : Breakpoint
blank_bp = record { name = none; type = 0; htype = 0; addr = 0; orig_code = 0 }

abbrev pub blank_str : Str
blank_str = record { len = 0; chars = none }

abbrev pub room : Ngx Machine
room = record {
  create_pool = λ s n. some (1, s);
  destroy_pool = λ s p. s;
  create_bps = λ s p n. (some (record { nelts = 0; elts = λ i. blank_bp }), s);
  create_cmd = λ s p n. (some (record { nelts = 0; elts = λ i. blank_str }), s);
  pcalloc = λ s p n. some s;
  push_bp = λ s a. some (record a { nelts = a.nelts + 1 }, s);
  push_str = λ s a. some (record a { nelts = a.nelts + 1 }, s);
}

abbrev pub env : Env Machine
env = record {
  kernel = machine;
  ngx = room;
  files = λ s. record { content = λ path. none; fails = λ path. false; link = λ path. none };
}

pub room-IsRoomy : {mapped : Machine → Pid → ℕ → Bool} → IsRoomy room machine_mem mapped
room-IsRoomy = record {
  alloc = λ s pool n. (s, refl, SameTracee-refl s);
  push =
      λ s a. (record a { nelts = a.nelts + 1 }, s, refl, refl, λ i below. refl, SameTracee-refl s);
}

pub room-IsRoomyBps : IsRoomyBps room machine_mem machine_mapped
room-IsRoomyBps = record {
  push = λ s a.
      (record a { nelts = a.nelts + 1 }, s, refl, refl, λ i below. refl, λ p c. refl, λ p c. refl);
}

abbrev pub machine_dr : Machine → Pid → ℕ → ℕ
machine_dr s p n = s.debugregs n

pub machine-IsDebugRegs : IsDebugRegs machine machine_dr
unfolding patch
machine-IsDebugRegs = record {
  poke_self = λ s p n v ok. ground arith;
  poke_other = λ s p n v j other. ground arith;
}

-- The addresses of the code, and the byte that is at each.
abbrev pub code : ℕ → Bool
code a = ltb a 256

abbrev pub text : ℕ → ℕ
text a = 0x90

pub machine-IsStill : IsStill machine machine_mem machine_mapped code
machine-IsStill = record {
  setregs = λ s p r a c. refl;
  singlestep = λ s p a c. refl;
  cont = λ s p a c. refl;
  wait = λ s p old a c. refl;
  pokeuser = λ s p n v a c. refl;
  pokeuser_mapped = λ s p n v a. refl;
  setregs_mapped = λ s p r a. refl;
  singlestep_mapped = λ s p a. refl;
  cont_mapped = λ s p a. refl;
  wait_mapped = λ s p old a. refl;
}

-- The machine with the program's own code, and with a trap at 100.
abbrev pub fresh : Machine
fresh = record { bytes = text; regs = regs_at 90; debugregs = λ n. 0; status = 0x57f }

abbrev pub trapped : Machine
trapped = let s = fresh in record s { bytes = λ a. if a == 100 then 0xcc else 0x90 }

abbrev pub bp_100 : Breakpoint
bp_100 = record { name = some (codes "main"); type = 1; htype = 0; addr = 100; orig_code = 0x90 }

abbrev pub no_bps : Arr Breakpoint
no_bps = record { nelts = 0; elts = λ i. blank_bp }

abbrev pub one_bp : Arr Breakpoint
one_bp = record { nelts = 1; elts = λ i. bp_100 }

abbrev pub funs : FunArr
funs = record {
  word = [];
  size = 2;
  items =
      record { name = some (codes "main_loop"); addr = 120 }
      ∷ record { name = some (codes "main"); addr = 100 }
      ∷ [];
}

-- The words of a line, with the words of an older and longer line behind them.
abbrev pub words_of : ℕ → Text → Text → Text → Arr Str
words_of n first second third = record {
  nelts = n;
  elts = λ i.
      if i == 0
      then record { len = length first; chars = some first }
      else if i == 1
      then record { len = length second; chars = some second }
      else record { len = length third; chars = some third };
}

abbrev pub session : Machine → Arr Breakpoint → Arr Str → Text → World Machine
session s bps cmds input = record {
  os = s;
  dbug = record {
    pool = some 1;
    pid = 7;
    status = 0;
    bps = some bps;
    cmd = some cmds;
    regs = regs_at 90;
    funs = some funs;
    current_bp = none;
  };
  input = input;
  out = [];
}

pub fresh-IsArmed : IsArmed machine_mem code text 7 no_bps fresh
fresh-IsArmed = record {
  inside = λ i p q. absurd (omega arith);
  trap = λ i p q. absurd (omega arith);
  kept = λ i p q none_at. absurd (omega arith);
  rest = λ a c none_at. refl;
}

pub trapped-IsArmed : IsArmed machine_mem code text 7 one_bp trapped
trapped-IsArmed = record {
  inside = λ i p q. refl;
  trap = λ i p q. refl;
  kept = λ i p q none_at. refl;
  rest = λ a c none_at. ground (arith, none_at 0 (omega arith));
}
