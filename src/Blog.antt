-- ===== src/Blog.antt =====
-- The programs under blog/: each forks or attaches to a process and traces it.
pub mod Child
pub mod Copies
pub mod Break
pub mod Soft
pub mod Calls
pub mod Symbols
pub mod Syn
pub mod Small
pub mod Hard
pub mod Tracees
use test_dbug.Common.{ℤ}

-- What a round of a tracer's loop comes to: the loop goes on, or `main` returns a number.
pub data Step (T : Type 0) : Type 0 where
  goes : T → Step T
  ends : ℤ → T → Step T

-- The state in either case.
abbrev pub state_of : {T : Type 0} → Step T → T
state_of (goes t) = t
state_of (ends r t) = t

-- What comes behind a step that goes on.
abbrev pub and_go : {T : Type 0} → Step T → (T → Step T) → Step T
and_go (goes t) f = f t
and_go (ends r t) f = ends r t

-- A predicate of the state that the second part keeps.
pub and_go-state_of :
    {T : Type 0} (Holds : T → Type 0) (x : Step T) (f : T → Step T)
    → Holds (state_of x)
    → ((t : T) → Holds t → Holds (state_of (f t)))
    → Holds (state_of (and_go x f))
and_go-state_of Holds (goes t) f h keeps = keeps t h
and_go-state_of Holds (ends r t) f h keeps = h
