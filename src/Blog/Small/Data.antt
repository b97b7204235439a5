-- ===== src/Blog/Small/Data.antt =====
-- What blog/writemem.c writes, blog/readmem.c reads.
use test_dbug.Common.{
  ℕ, ◌+◌, ◌≤◌, ◌<◌, ◌≡◌, refl, ap, ◌∙◌, Bool, true, false, [], ◌∷◌, ◌++◌, pos, is_neg, codes,
  to_u64, le_bytes, le_word, bytes_at_ext,
}
use test_dbug.Output.{labelled}
use test_dbug.Kernel.{Pid, Kernel, IsMemory}
use test_dbug.Dbug.{wifexited}
use test_dbug.Command.Handlers.Armed.{IsStill}
use test_dbug.Blog.Break.{Tracer}
use test_dbug.Blog.Small.{first_wait, last_cont, readmem_main, writemem_main}

-- The system behind the parent of writemem.c.
abbrev pub written : {S : Type 0} → Kernel S → Pid → ℕ → Tracer S → S
written k pid num_addr t = (k.cont (k.pokedata (k.wait t.os t.status).1 pid num_addr 120).1 pid).1

module _ {S : Type 0} (k : Kernel S) {mem : S → Pid → ℕ → ℕ} {mapped : S → Pid → ℕ → Bool}
    {kept : ℕ → Bool} (m : IsMemory k mem mapped) (still : IsStill k mem mapped kept)
    (pid num_addr : ℕ) (in_kept : (a : ℕ) → num_addr ≤ a → a < num_addr + 8 → kept a ≡ true) where
  -- The word is still there when the process has run and stopped again.
  kept_word :
      (s : S) (old : ℕ)
      → mapped s pid num_addr ≡ true
      → (let s' = (k.wait (k.cont (k.poketext s pid num_addr 120).1 pid).1 old).1 in
          to_u64 (k.peektext s' pid num_addr) ≡ 120)
  unfolding le_bytes le_word
  kept_word s old ok =
      let s1 = (k.poketext s pid num_addr 120).1 in
      let s2 = (k.cont s1 pid).1 in
      let s' = (k.wait s2 old).1 in
      let access : mapped s' pid num_addr ≡ true =
        still.wait_mapped s2 pid old num_addr
        ∙ still.cont_mapped s1 pid num_addr
        ∙ m.poke_mapped s pid num_addr 120 num_addr
        ∙ ok in
      m.peek_word s' pid num_addr access
      ∙ ap le_word (
          bytes_at_ext (mem s' pid) (mem s1 pid) num_addr 8
            (λ a p q. still.wait s2 pid old a (in_kept a p q) ∙ still.cont s1 pid a (in_kept a p q))
          ∙ m.poke_word s pid num_addr 120 ok)

  -- In a system where PTRACE_PEEKDATA and PTRACE_POKEDATA do what the calls for the text do, and no call fails,
  -- the parents of the two programs, one after the other on a process that does not end and leaves its variable
  -- alone while it runs, return 0, and the second prints the 120 that the first wrote.
  pub readmem_main-writemem_main :
      (t : Tracer S)
      → wifexited (k.wait t.os t.status).0 ≡ false
      → wifexited (k.wait (written k pid num_addr t) (k.wait t.os t.status).0).0 ≡ false
      → ((s : S) → is_neg (k.cont s pid).0 ≡ false)
      → ((s : S) (a : ℕ) → k.peekdata s pid a ≡ k.peektext s pid a)
      → ((s : S) (a w : ℕ) → k.pokedata s pid a w ≡ k.poketext s pid a w)
      → mapped t.os pid num_addr ≡ true
      → (u v : Tracer S) × (writemem_main k pid num_addr t ≡ (pos 0, u))
        × (readmem_main k pid num_addr u ≡ (pos 0, v))
        × (v.out
            ≡ t.out ++ labelled (codes "read num = ") 120 ∷ labelled (codes "this num = ") 0 ∷ [])
  unfolding writemem_main readmem_main first_wait last_cont
  readmem_main-writemem_main t stands again runs peeks pokes ok =
      let (status, s1) = k.wait t.os t.status in
      let s2 = (k.pokedata s1 pid num_addr 120).1 in
      let s3 = (k.cont s2 pid).1 in
      let (status', s4) = k.wait s3 status in
      let u : Tracer S = record t { os = s3; status = status } in
      let num = to_u64 (k.peekdata s4 pid num_addr) in
      let v : Tracer S = record t {
        os = (k.cont s4 pid).1;
        status = status';
        out = t.out ++ labelled (codes "read num = ") num ∷ labelled (codes "this num = ") 0 ∷ [];
      } in
      let same : s2 ≡ (k.poketext s1 pid num_addr 120).1 = ap (λ x. x.1) (pokes s1 num_addr 120) in
      let is_num : num ≡ 120 =
        ap to_u64 (peeks s4 num_addr)
        ∙ ap (λ s. to_u64 (k.peektext (k.wait (k.cont s pid).1 status).1 pid num_addr)) same
        ∙ kept_word s1 status (still.wait_mapped t.os pid t.status num_addr ∙ ok) in
      (
        u,
        v,
        rw (stands, runs s2) refl,
        rw (again, runs s4) refl,
        ap (λ n. t.out ++ labelled (codes "read num = ") n ∷ labelled (codes "this num = ") 0 ∷ [])
            is_num,
      )
