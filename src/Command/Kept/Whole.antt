-- ===== src/Command/Kept/Whole.antt =====
-- A run of the debugger from the start of `main`, on the lines that are typed.
use test_dbug.Common.{
  ℕ, suc, ◌<◌, ◌≡◌, refl, sym, ap, subst, ◌∙◌, arith, Bool, true, List, [], ◌∷◌, none, some, Text,
  not,
}
use test_dbug.Kernel.{Pid, IsMemory}
use test_dbug.Elf.Functions.{FunArr}
use test_dbug.Session.{Breakpoint, Str, Arr, Env, World, done, then-done}
use test_dbug.Dbug.{is_sf, int_3}
use test_dbug.Command.Read.{take_line}
use test_dbug.Command.Read.Slots.{IsRoomy}
use test_dbug.Command.Handlers.Armed.{IsStill}
use test_dbug.Command.Handlers.Break.{IsRoomyBps}
use test_dbug.Command.Play.{main_rounds, main}
use test_dbug.Command.Kept.{IsSession, Goes}
use test_dbug.Command.Kept.Main.{
  IsFresh, TakesOn, by_attach, by_dbug, TakesOn-later, init_dbug-empty, first_round-IsSession,
}
use test_dbug.Command.Kept.Rounds.{main_rounds-Goes}
use test_dbug.Command.Kept.Plain.{
  are_plain, are_plain-are_full, IsSession-IsSane, plain-AreOrdinary,
}
use test_dbug.Command.Safe.{IsSane, Works, Grows}
use test_dbug.Command.Safe.Words.{words_then, line_words, is_full, needs_word, lines_left}
use test_dbug.Command.Safe.Slots.{Keeps}
use test_dbug.Command.Safe.Round.{round_of_words}
use test_dbug.Command.Safe.Lines.{Runs, main_rounds-Works}

TakesOn-is_full :
    {S : Type 0} {env : Env S} {mem : S → Pid → ℕ → ℕ} {mapped : S → Pid → ℕ → Bool}
    {code : ℕ → Bool} {funs : FunArr} {s : S} {old : ℕ} {name : Text} {pid : Pid} (more : List Text)
    → TakesOn env mem mapped code funs s old name more pid
    → is_full (name ∷ more) ≡ true
unfolding is_full
TakesOn-is_full (word ∷ rest) takes = refl
TakesOn-is_full [] (by_attach word rest names is_more is_pid can) = absurd (cc is_more)
TakesOn-is_full [] (by_dbug child names is_pid can) = ap (λ f. not (needs_word f)) names

module _ {S : Type 0} (env : Env S) {mem : S → Pid → ℕ → ℕ} {mapped : S → Pid → ℕ → Bool}
    {code : ℕ → Bool} (m : IsMemory env.kernel mem mapped)
    (still : IsStill env.kernel mem mapped code) (roomy : IsRoomyBps env.ngx mem mapped)
    (room : IsRoomy env.ngx mem mapped) where
  -- The rounds behind the one that took on the process.
  plain_rounds-Goes :
      (n : ℕ) (before : List Text) (c : Arr Str) (w : World S) {text : ℕ → ℕ}
      → IsSession mem mapped code text w
      → IsSane c w.dbug
      → Keeps c 0 before
      → are_plain before n w.input ≡ true
      → Goes mem mapped code text (main_rounds env n w)
  plain_rounds-Goes n before c w h sane keeps plain =
      main_rounds-Goes env m still roomy room n w h
        (plain-AreOrdinary env room roomy n before c w sane keeps plain)

  -- With the invariant in force, memory to be had and a process whose code nothing but the debugger writes: where any number of rounds of `main` comes back, each on the
  -- words of a plain line, one of another command than `attach` and `dbug`, or on those of the line before where its own line has none, each software breakpoint of the session is at its index as it was, and its trap is in
  -- the process's memory, however often the program stopped there.
  pub main_rounds-IsTrapped :
      (n i : ℕ) (before : List Text) (w v : World S) {text : ℕ → ℕ}
      (h : IsSession mem mapped code text w)
      → Keeps h.words 0 before
      → are_plain before n w.input ≡ true
      → main_rounds env n w ≡ done tt v
      → i < h.table.nelts
      → is_sf (h.table.elts i) ≡ true
      → (b : Arr Breakpoint) × (v.dbug.bps ≡ some b)
        × (i < b.nelts)
        × (b.elts i ≡ h.table.elts i)
        × (mem v.os v.dbug.pid (h.table.elts i).addr ≡ int_3)
  main_rounds-IsTrapped n i before w v {text} h keeps plain e below soft =
      let sane = IsSession-IsSane w h in
      let end =
        subst (Goes mem mapped code text) e
          (plain_rounds-Goes n before h.words w h sane keeps plain) in
      let (c, sane', input, (le, same)) = subst (Runs env Grows h.table (lines_left n w.input)) e (
        main_rounds-Works env room roomy n before h.words w sane keeps
          (are_plain-are_full before n w.input plain)) in
      let both : some sane'.table ≡ some end.table = sym (sane'.is_table) ∙ end.is_table in
      let tables : sane'.table ≡ end.table = cc both in
      let there : i < end.table.nelts = subst (λ b. i < b.nelts) tables (omega arith) in
      let stays : end.table.elts i ≡ h.table.elts i =
        ap (λ b. b.elts i) (sym tables) ∙ same i below in
      (
        end.table,
        end.is_table,
        there,
        stays,
        ap (λ bp. mem v.os v.dbug.pid bp.addr) (sym stays)
            ∙ end.armed.trap i there (ap is_sf stays ∙ soft),
      )

  -- A run from the start of `main`, on a session with nothing in it, with memory to be had
  -- and a process whose code nothing but the debugger writes. Where the
  -- first line takes on a process, by `attach` or by `dbug`, whose symbols are read without a fault and lie in its code, and the words of each of the next
  -- `n` lines, or of the line before where it has none, are those of a plain line, one of another command than these two, the first round sets up the invariant for the code that the process has then, and the rounds that follow
  -- keep it or end the program with 0. There is no fault, however the process stops or ends.
  pub main-Goes :
      (n : ℕ) (w : World S) (name : Text) (more : List Text) (funs : FunArr) (pid : Pid)
      → IsFresh env.ngx mem mapped
      → w.dbug.funs ≡ none
      → line_words w.input ≡ name ∷ more
      → TakesOn env mem mapped code funs w.os w.dbug.status name more pid
      → are_plain (name ∷ more) n (take_line 49 w.input).1 ≡ true
      → (w' : World S) × (main env (suc n) w ≡ main_rounds env n w')
        × IsSession mem mapped code (mem w'.os pid) w'
        × Goes mem mapped code (mem w'.os pid) (main_rounds env n w')
  unfolding main main_rounds
  main-Goes n w name more funs pid fresh no_funs line takes plain =
      let (p, a, cmds, s, starts, empty, same) = init_dbug-empty env fresh w in
      let d = w.dbug in
      let w1 : World S = record w {
        os = s;
        dbug = record d { pool = some p; bps = some a; cmd = some cmds };
      } in
      let sane : IsSane cmds w1.dbug = record {
        table = a;
        is_table = refl;
        is_words = refl;
        names = λ funs is. let clash : none ≡ some funs = sym no_funs ∙ is in absurd (cc clash);
      } in
      let (w', runs, h) =
        first_round-IsSession env code room w1 a cmds name more funs pid refl empty refl line
          (TakesOn-later env code same takes) in
      let (b, kept, works) =
        round_of_words env room roomy [] (name ∷ more) w1 sane tt
          (unfold words_then in rw line refl) (TakesOn-is_full more takes) in
      let (sane', input, grows) = subst (Works env b Grows a (take_line 49 w.input).1) runs works in
      (
        w',
        then-done (λ _. main_rounds env (suc n)) starts ∙ then-done (λ _. main_rounds env n) runs,
        h,
        plain_rounds-Goes n (name ∷ more) b w' h sane' kept
            (ap (are_plain (name ∷ more) n) input ∙ plain),
      )
