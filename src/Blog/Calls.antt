-- ===== src/Blog/Calls.antt =====
-- blog/getsyscall.c and blog/dbug.c: the calls of `write` that a process makes, from the stops in front
-- of and behind each system call.
pub mod Pairs
pub mod Rounds
pub mod Shown
pub mod Programs
use test_dbug.Common.{
  ℕ, zero, suc, ◌+◌, ◌-◌, ◌%◌, ◌^◌, ◌≡◌, refl, sym, ap, ◌∙◌, arith, Bool, true, false, not, List,
  [], ◌∷◌, ◌++◌, append_assoc, append-nil, Option, none, some, Text, ℤ, pos, minus_one, is_neg,
  ◌==◌, if◌then◌else◌, Bool-cases, ◌⊎◌, inl, inr, codes, to_u64, le_bytes,
}
use test_dbug.Output.{Line, write_call, error_line}
use test_dbug.Kernel.{Pid, Regs, Kernel}
use test_dbug.Dbug.{wifexited}
use test_dbug.Blog.Child.{Forked, forked, getsyscall_child, dbug_child}
use test_dbug.Blog.{Step, goes, ends, state_of, and_go}

-- The variables of `main` that a stop changes.
pub record Calls : Type 0 where
  pub iscalling : Bool
  pub arg1 : ℕ
  pub arg2 : ℕ
  pub arg3 : ℕ

pub record Watcher (S : Type 0) : Type 0 where
  pub os : S
  pub status : ℕ
  pub regs : Regs
  pub calls : Calls
  pub out : List Line

abbrev pub sys_write : ℕ
sys_write = 1

-- `orig_rax` is an `int`.
abbrev pub is_write : Regs → Bool
is_write regs = regs.orig_rax % 2 ^ 32 == sys_write

-- The arguments are taken at the stop in front of the call.
abbrev pub entered : Regs → Calls
entered regs = record { iscalling = true; arg1 = regs.rdi; arg2 = regs.rsi; arg3 = regs.rdx }

-- What `printf` makes of the call, for the text of `%s`, if there is one.
abbrev pub call_line : Option Text → ℕ → Calls → Option Line
call_line none rax c = none
call_line (some text) rax c = some (write_call rax c.arg1 text c.arg3)

-- What is printed at the stop behind the call: getsyscall.c passes on the pointer of the child, which `printf` follows
-- in the tracer; `own` is the text that the tracer itself has at an address, and `none` is a fault.
unfoldable pub getsyscall_line : {S : Type 0} → (ℕ → Option Text) → S → ℕ → Calls → Option Line
getsyscall_line own s rax c = call_line (own c.arg2) rax c

-- The text in an array of bytes; `none` is a read behind the array, where no NUL ends it.
unfoldable pub c_string : List ℕ → Option Text
c_string [] = none
c_string (b ∷ bs) =
    let more = c_string bs in
    if b == 0 then some [] else elim more [ none ↦ none | some t ↦ some (b ∷ t) ]

-- dbug.c reads two words into a buffer of 16 bytes, both of them from the same address.
unfoldable pub dbug_line : {S : Type 0} → Kernel S → Pid → S → ℕ → Calls → Option Line
unfolding c_string
dbug_line k pid s rax c =
    let word = le_bytes 8 (to_u64 (k.peekdata s pid c.arg2)) in
    let again = le_bytes 8 (to_u64 (k.peekdata s pid c.arg2)) in
    call_line (c_string (word ++ again)) rax c

module _ {S : Type 0} (line : S → ℕ → Calls → Option Line) where
  -- The variables and the lines printed after a stop with the registers `regs`; `none` is a fault.
  unfoldable pub on_call : S → Regs → Calls → Option (Calls × List Line)
  on_call s regs c =
      if not (is_write regs)
      then some (c, [])
      else if not c.iscalling
      then some (entered regs, [])
      else elim (line s regs.rax c) [
        | none ↦ none
        | some l ↦ some (record c { iscalling = false }, l ∷ [])
      ]

-- What comes behind a round that goes on; a fault and an end stay.
abbrev pub then_go : {T : Type 0} → Option (Step T) → (T → Option (Step T)) → Option (Step T)
then_go none f = none
then_go (some (goes t)) f = f t
then_go (some (ends r t)) f = some (ends r t)

module _ {S : Type 0} (k : Kernel S) (pid : Pid) (line : S → ℕ → Calls → Option Line) where
  -- One round of the loop; `none` is a fault.
  unfoldable pub call_round : Watcher S → Option (Step (Watcher S))
  unfolding on_call
  call_round t =
      let (status, s) = k.wait t.os t.status in
      if wifexited status
      then some (ends (pos 0) (record t { os = s; status = status }))
      else (let regs = (k.getregs s pid t.regs).1 in
          elim (on_call line s regs t.calls) [
            | none ↦ none
            | some (c, lines) ↦
                let (r, s') = k.syscall s pid in
                let t' : Watcher S = record {
                  os = s';
                  status = status;
                  regs = regs;
                  calls = c;
                  out = t.out ++ lines;
                } in
                if is_neg r
                then some (
                    ends minus_one
                      (record t' { out = (t.out ++ lines) ++ error_line (codes "CONT err") ∷ [] }))
                else some (goes t')
          ])

  unfoldable pub call_loop : ℕ → Watcher S → Option (Step (Watcher S))
  unfolding call_round
  call_loop zero t = some (goes t)
  call_loop (suc n) t = then_go (call_round t) (call_loop n)

  -- `main` in the parent, from the first wait on.
  unfoldable pub calls_main : ℕ → Watcher S → Option (Step (Watcher S))
  unfolding call_loop
  calls_main n t =
      let (status, s) = k.wait t.os t.status in
      let t' = record t { os = s; status = status } in
      if wifexited status
      then some (ends (pos 0) t')
      else (let (r, s') = k.syscall s pid in
          if is_neg r
          then some (
              ends minus_one (record t' {
                os = s';
                out = t.out ++ error_line (codes "ptrace SYSCALL err") ∷ [];
              }))
          else call_loop n (record t' { os = s' }))

-- The variables before the first stop; `regs` and the arguments are not set yet.
abbrev pub at_rest : {S : Type 0} → S → Regs → Calls → Watcher S
at_rest s regs c = record {
  os = s;
  status = 0;
  regs = regs;
  calls = record c { iscalling = false };
  out = [];
}

-- The whole of getsyscall.c, and of dbug.c; in the parent `none` is a fault.
unfoldable pub getsyscall_program :
    {S : Type 0}
    → Kernel S
    → (ℕ → Option Text)
    → Regs
    → Calls
    → ℕ
    → S
    → Forked S (Option (Step (Watcher S)))
unfolding calls_main getsyscall_line
getsyscall_program k own regs c n =
    forked k (getsyscall_child k)
      (λ pid s. calls_main k pid (getsyscall_line own) n (at_rest s regs c))

unfoldable pub dbug_program :
    {S : Type 0} → Kernel S → Regs → Calls → ℕ → S → Forked S (Option (Step (Watcher S)))
unfolding calls_main dbug_line
dbug_program k regs c n =
    forked k (dbug_child k) (λ pid s. calls_main k pid (dbug_line k pid) n (at_rest s regs c))
