-- ===== src/Blog/Child/Parents.antt =====
-- The parent's side of a fork.
use test_dbug.Common.{ℕ, suc, ◌≡◌, refl, ap, arith, false, pos, ◌==◌}
use test_dbug.Kernel.{Pid, Kernel}
use test_dbug.Blog.Child.{Child, Fate, in_parent, forked}

-- A fork that returns the number of a child goes on with the parent's part.
pub forked-in_parent :
    {S R : Type 0} (k : Kernel S) (child : Child S → Fate S) (parent : Pid → S → R) (s : S)
    (pid : ℕ) {s' : S}
    → k.fork s ≡ (pos (suc pid), s')
    → forked k child parent s ≡ in_parent (parent (suc pid) s')
unfolding forked
forked-in_parent k child parent s pid {s'} e =
    let other : (suc pid == 0) ≡ false = ground arith in
    let number : (k.fork s).0 ≡ pos (suc pid) = ap (λ x. x.0) e in
    let left : (k.fork s).1 ≡ s' = ap (λ x. x.1) e in rw (forked, number, left, other) refl
