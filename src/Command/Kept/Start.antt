-- ===== src/Command/Kept/Start.antt =====
-- The invariant at the start of a session, behind `attach_pro` and `dbug_pro`.
use test_dbug.Common.{
  ℕ, suc, List, Option, Text, ℤ, ◌^◌, ◌<◌, ◌≡◌, refl, sym, ◌∙◌, arith, Bool, true, false, some, inl,
  inr, pos, is_neg, get_elem?,
}
use test_dbug.Kernel.{Pid}
use test_dbug.Elf.Functions.{FuncOrg, FunArr}
use test_dbug.Elf.Open.{open_funs}
use test_dbug.Session.{Breakpoint, Str, Arr, Env, World, Outcome, done}
use test_dbug.Dbug.{wifexited}
use test_dbug.Dbug.Start.{dbug_pro, attach_pro}
use test_dbug.Dbug.Adopt.{Adopted, attach_pro-Adopted, dbug_pro-Adopted}
use test_dbug.Command.Handlers.Armed.{IsArmed}
use test_dbug.Command.Kept.{IsSession}

-- With no breakpoints the code is what is there.
no_breakpoints-IsArmed :
    {S : Type 0} (mem : S → Pid → ℕ → ℕ) (code : ℕ → Bool) (pid : Pid) (a : Arr Breakpoint) (s : S)
    → a.nelts ≡ 0
    → IsArmed mem code (mem s pid) pid a s
no_breakpoints-IsArmed mem code pid a s empty = record {
  inside = λ i p q. absurd (omega arith);
  trap = λ i p q. absurd (omega arith);
  kept = λ i p q none_at. absurd (omega arith);
  rest = λ c in_c none_at. refl;
}

-- The process that stopped with `status`, in the system `s`: it has not ended, the table `funs` is read
-- of it without a fault, its functions lie in the code, and the code can be accessed.
abbrev pub IsReady :
    {S : Type 0} → Env S → (S → Pid → ℕ → Bool) → (ℕ → Bool) → FunArr → Pid → ℕ → S → Type 0
IsReady env mapped code funs pid status s =
    (wifexited status ≡ false)
    × (open_funs (env.files s) pid ≡ some (some funs))
    × ((j : ℕ) (f : FuncOrg) → j < funs.size → get_elem? funs.items j ≡ some f → code f.addr ≡ true)
    × ((c : ℕ) → code c ≡ true → (c < 2 ^ 64) × (mapped s pid c ≡ true))

-- A process that can be attached to from the system `s`, with the last status `old`.
abbrev pub CanAttach :
    {S : Type 0} → Env S → (S → Pid → ℕ → Bool) → (ℕ → Bool) → FunArr → Pid → ℕ → S → Type 0
CanAttach env mapped code funs pid old s =
    (is_neg (env.kernel.attach s pid).0 ≡ false)
    × (let (r, status, s') = env.kernel.waitpid (env.kernel.attach s pid).1 pid old in
        IsReady env mapped code funs pid status s')

-- A fork from the system `s` returns in the parent, and the child, `suc pid`, can be debugged.
abbrev pub CanStart :
    {S : Type 0} → Env S → (S → Pid → ℕ → Bool) → (ℕ → Bool) → FunArr → Pid → ℕ → S → Type 0
CanStart env mapped code funs pid old s =
    ((env.kernel.fork s).0 ≡ pos (suc pid))
    × (let (status, s') = env.kernel.wait (env.kernel.fork s).1 old in
        IsReady env mapped code funs (suc pid) status s')

module _ {S : Type 0} (env : Env S) (mem : S → Pid → ℕ → ℕ) (mapped : S → Pid → ℕ → Bool)
    (code : ℕ → Bool) where
  Adopted-IsSession :
      (pid : Pid) (status : ℕ) (w : World S) (a : Arr Breakpoint) (words : Arr Str) (funs : FunArr)
      (o : Outcome S ℤ)
      → w.dbug.bps ≡ some a
      → a.nelts ≡ 0
      → w.dbug.cmd ≡ some words
      → IsReady env mapped code funs pid status w.os
      → Adopted pid status (some funs) w o
      → (w' : World S) × (o ≡ done (pos 0) w') × IsSession mem mapped code (mem w'.os pid) w'
  Adopted-IsSession pid status w a words funs o is_bps empty is_words (stands, read, places, reach)
        adopted =
      elim adopted [
        | inl (exits, e) ↦ let clash : true ≡ false = sym exits ∙ stands in absurd (cc clash)
        | inr (stands', runs, names) ↦ (
          _,
          runs,
          record {
            table = a;
            funs = funs;
            words = words;
            is_table = is_bps;
            is_funs = refl;
            is_words = is_words;
            names = names funs refl;
            places = places;
            reach = reach;
            armed = no_breakpoints-IsArmed mem code pid a _ empty;
          },
        )
      ]

  -- Attaching to a process that is there and does not end, in a session with no breakpoints, returns 0
  -- and sets up the invariant for the code that the process then has, where its symbols are read without a
  -- fault and lie in the code, and the code can be accessed.
  pub attach_pro-IsSession :
      (pid : Pid) (w : World S) (a : Arr Breakpoint) (words : Arr Str) (funs : FunArr)
      → w.dbug.bps ≡ some a
      → a.nelts ≡ 0
      → w.dbug.cmd ≡ some words
      → CanAttach env mapped code funs pid w.dbug.status w.os
      → (w' : World S) × (attach_pro env pid w ≡ done (pos 0) w')
        × IsSession mem mapped code (mem w'.os pid) w'
  attach_pro-IsSession pid w a words funs is_bps empty is_words (attached, ready) =
      let (lines, adopted) = attach_pro-Adopted env pid (some funs) w attached (ready.1) in
      Adopted-IsSession pid _ _ a words funs (attach_pro env pid w) is_bps empty is_words ready
        adopted

  -- Starting a program, in a session with no breakpoints, returns 0 in the parent and sets up the
  -- invariant for the code that the child has at its first stop, where it does not end there, its
  -- symbols are read without a fault and lie in the code, and the code can be accessed.
  pub dbug_pro-IsSession :
      (path : Option Text) (argv : List (Option Text)) (pid : Pid) (w : World S)
      (a : Arr Breakpoint) (words : Arr Str) (funs : FunArr)
      → w.dbug.bps ≡ some a
      → a.nelts ≡ 0
      → w.dbug.cmd ≡ some words
      → CanStart env mapped code funs pid w.dbug.status w.os
      → (w' : World S) × (dbug_pro env path argv w ≡ done (pos 0) w')
        × IsSession mem mapped code (mem w'.os (suc pid)) w'
  dbug_pro-IsSession path argv pid w a words funs is_bps empty is_words (forked, ready) =
      Adopted-IsSession (suc pid) _ _ a words funs (dbug_pro env path argv w) is_bps empty is_words
        ready (dbug_pro-Adopted env path argv pid (some funs) w forked (ready.1))
