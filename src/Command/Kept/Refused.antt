-- ===== src/Command/Kept/Refused.antt =====
-- The invariant behind `attach_pro` and `dbug_pro` where they take on no process.
pub mod Round
use test_dbug.Common.{
  ℕ, suc, ℤ, ◌*◌, ◌≡◌, refl, ap, subst, ◌∙◌, arith, Bool, true, false, List, [], ◌∷◌, ◌++◌, Option,
  none, some, ◌⊎◌, inl, inr, pos, negsuc, minus_one, is_neg, ◌==◌, Text, codes, until,
}
use test_dbug.Output.{prompt, error_line}
use test_dbug.Kernel.{Pid, SameTracee, SameTracee-refl, SameTracee-trans}
use test_dbug.Session.{
  Str, Arr, Env, World, done, pure, and_then, then-done, then-deref, then-call_ngx, ◌>>◌,
}
use test_dbug.Dbug.{wifexited}
use test_dbug.Dbug.Start.{adopt, wait_status, dbug_pro, attach_pro}
use test_dbug.Dbug.Adopt.{perror-done}
use test_dbug.Command.Read.{take_line}
use test_dbug.Command.Read.Words.{words}
use test_dbug.Command.Read.Slots.{Holds, IsRoomy, get_command-Holds}
use test_dbug.Command.Handlers.{atoi, argv_from, command_attach, command_dbug}
use test_dbug.Command.Handlers.Armed.{IsArmed-same}
use test_dbug.Command.Play.{
  CommandFun, cmd_attach, cmd_dbug, cmd_set, run_fun, play_command, main_round,
}
use test_dbug.Command.Play.Dispatch.{find_name, play_command-run_fun}
use test_dbug.Command.Kept.{IsSession, IsSession-run, IsSession-words}

-- From the state `s` to `s'` the code of the process `own` is the same, and so is what can be accessed.
abbrev pub IsApart :
    {S : Type 0} → (S → Pid → ℕ → ℕ) → (S → Pid → ℕ → Bool) → (ℕ → Bool) → Pid → S → S → Type 0
IsApart mem mapped code own s s' =
    ((a : ℕ) → code a ≡ true → mem s' own a ≡ mem s own a)
    × ((a : ℕ) → mapped s' own a ≡ mapped s own a)

-- The process `pid` cannot be attached to, or has ended when it is waited for, and the process `own` is
-- not touched.
abbrev pub NoAttach :
    {S : Type 0}
    → Env S
    → (S → Pid → ℕ → ℕ)
    → (S → Pid → ℕ → Bool)
    → (ℕ → Bool)
    → Pid
    → Pid
    → ℕ
    → S
    → Type 0
NoAttach env mem mapped code own pid old s =
    let (r, s1) = env.kernel.attach s pid in
    let (r', status, s2) = env.kernel.waitpid s1 pid old in
    ((is_neg r ≡ true) × IsApart mem mapped code own s s1)
    ⊎ ((is_neg r ≡ false) × (wifexited status ≡ true) × IsApart mem mapped code own s s2)

-- There is no fork, or the child has ended when it is waited for, and the process `own` is not touched.
abbrev pub NoStart :
    {S : Type 0}
    → Env S
    → (S → Pid → ℕ → ℕ)
    → (S → Pid → ℕ → Bool)
    → (ℕ → Bool)
    → Pid
    → ℕ
    → S
    → Type 0
NoStart env mem mapped code own old s =
    let (r, s1) = env.kernel.fork s in
    let (status, s2) = env.kernel.wait s1 old in
    (n : ℕ) × (((r ≡ negsuc n) × IsApart mem mapped code own s s1)
      ⊎ ((r ≡ pos (suc n)) × (wifexited status ≡ true) × IsApart mem mapped code own s s2))

-- A line of a command that takes on no process though it asks for one, in any system in which no process
-- differs from the system `s`, with the last status `old`, while the process `own` is traced.
pub data Refuses {S : Type 0} (env : Env S) (mem : S → Pid → ℕ → ℕ) (mapped : S → Pid → ℕ → Bool)
    (code : ℕ → Bool) (own : Pid) (s : S) (old : ℕ) (name : Text) (more : List Text) : Type 0 where
  no_attach :
      (word : Text) (rest : List Text)
      → find_name name cmd_set ≡ some cmd_attach
      → more ≡ word ∷ rest
      → ((s' : S)
          → SameTracee mem mapped s s'
          → NoAttach env mem mapped code own (atoi word) old s')
      → Refuses env mem mapped code own s old name more
  no_start :
      find_name name cmd_set ≡ some cmd_dbug
      → ((s' : S) → SameTracee mem mapped s s' → NoStart env mem mapped code own old s')
      → Refuses env mem mapped code own s old name more

adopt-exits :
    {S : Type 0} (env : Env S) (pid : Pid) (w : World S)
    → wifexited w.dbug.status ≡ true
    → adopt env pid w ≡ done minus_one w
unfolding adopt
adopt-exits env pid w exits = rw exits refl

module _ {S : Type 0} (env : Env S) {mem : S → Pid → ℕ → ℕ} {mapped : S → Pid → ℕ → Bool}
    {code : ℕ → Bool} where
  pub Refuses-later :
      {own : Pid} {s s' : S} {old : ℕ} {name : Text} {more : List Text}
      → SameTracee mem mapped s s'
      → Refuses env mem mapped code own s old name more
      → Refuses env mem mapped code own s' old name more
  Refuses-later same (no_attach word rest names is_more refuses) =
      no_attach word rest names is_more (λ x later. refuses x (SameTracee-trans same later))
  Refuses-later same (no_start names refuses) =
      no_start names (λ x later. refuses x (SameTracee-trans same later))

  module _ {text : ℕ → ℕ} where
    -- Where it takes on no process, `attach_pro` returns -1 and the invariant stays.
    pub attach_pro-Refused :
        (pid : Pid) (w : World S) (h : IsSession mem mapped code text w)
        → NoAttach env mem mapped code w.dbug.pid pid w.dbug.status w.os
        → (w' : World S) × (attach_pro env pid w ≡ done minus_one w')
          × IsSession mem mapped code text w'
    attach_pro-Refused pid w h (inl (refused, (memory, mapping))) =
        let s = (env.kernel.attach w.os pid).1 in
        let lines = w.out ++ error_line (codes "ATTACH err") ∷ [] in
        (
          record w { os = s; out = lines },
          unfold attach_pro in rw refused refl,
          IsSession-run w h s w.dbug.status w.dbug.regs lines (IsArmed-same h.table h.armed memory)
              mapping,
        )
    attach_pro-Refused pid w h (inr (attached, exits, (memory, mapping))) =
        let (r, status, s) = env.kernel.waitpid (env.kernel.attach w.os pid).1 pid w.dbug.status in
        let d = w.dbug in
        let w1 : World S = record w { os = s; dbug = record d { status = status } } in
        let (lines, said) = perror-done env (is_neg r) (codes "wait err") w1 in
        let w2 : World S = record w1 { out = lines } in
        let runs : attach_pro env pid w ≡ adopt env pid w2 =
          unfold attach_pro in rw attached (then-done (λ (_ : Unit {0}). adopt env pid) said) in
        (
          w2,
          runs ∙ adopt-exits env pid w2 exits,
          IsSession-run w h s status d.regs lines (IsArmed-same h.table h.armed memory) mapping,
        )

    -- So does `dbug_pro`, in the parent.
    pub dbug_pro-Refused :
        (path : Option Text) (argv : List (Option Text)) (w : World S)
        (h : IsSession mem mapped code text w)
        → NoStart env mem mapped code w.dbug.pid w.dbug.status w.os
        → (w' : World S) × (dbug_pro env path argv w ≡ done minus_one w')
          × IsSession mem mapped code text w'
    unfolding dbug_pro wait_status
    dbug_pro-Refused path argv w h (n, inl (failed, (memory, mapping))) =
        let s = (env.kernel.fork w.os).1 in
        let lines = w.out ++ error_line (codes "fork err") ∷ [] in
        (
          record w { os = s; out = lines },
          rw failed refl,
          IsSession-run w h s w.dbug.status w.dbug.regs lines (IsArmed-same h.table h.armed memory)
              mapping,
        )
    dbug_pro-Refused path argv w h (n, inr (forked, exits, (memory, mapping))) =
        let (status, s) = env.kernel.wait (env.kernel.fork w.os).1 w.dbug.status in
        let d = w.dbug in
        let w1 : World S = record w { os = s; dbug = record d { status = status } } in
        let parent : (suc n == 0) ≡ false = ground arith in
        (
          w1,
          rw (forked, parent) (adopt-exits env (suc n) w1 exits),
          IsSession-run w h s status d.regs w.out (IsArmed-same h.table h.armed memory) mapping,
        )
