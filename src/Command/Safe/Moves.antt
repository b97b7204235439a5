-- ===== src/Command/Safe/Moves.antt =====
-- How a line of a command changes the table of breakpoints.
use test_dbug.Common.{
  ℕ, ◌<◌, ◌≡◌, ◌≢◌, ap, sym, ◌∙◌, Bool, true, false, List, ◌∷◌, ◌++◌, Option, none, some, ◌⊎◌, inl,
  inr, get_elem?, Text,
}
use test_dbug.Elf.Functions.{FuncOrg, FunArr}
use test_dbug.Elf.Lookup.{NoMatch}
use test_dbug.Session.{Breakpoint, Arr}
use test_dbug.Dbug.{is_sf}
use test_dbug.Command.Play.{CommandFun, cmd_break, cmd_watch, cmd_set}
use test_dbug.Command.Play.Dispatch.{find_name}
use test_dbug.Command.Safe.{Grows, Stays-Grows, Pushes, Pushes-Grows}

-- The first function of a table, if there is one, whose name begins with the word; and that there is none.
abbrev pub Found : Option FunArr → Text → FuncOrg → Type 0
Found none word f = ⊥
Found (some table) word f =
    (j : ℕ) × (rest : Text) × (j < table.size)
    × (get_elem? table.items j ≡ some f)
    × (f.name ≡ some (word ++ rest))
    × NoMatch word table.items j

abbrev pub Missed : Option FunArr → Text → Type 0
Missed none word = Unit
Missed (some table) word = NoMatch word table.items table.size

-- A software breakpoint was pushed, with the name and the address of the function.
abbrev pub Adds : FuncOrg → Arr Breakpoint → Arr Breakpoint → Type 0
Adds f a b =
    Pushes a b
    × (is_sf (b.elts a.nelts) ≡ true)
    × ((b.elts a.nelts).addr ≡ f.addr)
    × ((b.elts a.nelts).name ≡ f.name)

-- What `b` with a word does to the table.
abbrev pub Breaks : Option FunArr → Text → Arr Breakpoint → Arr Breakpoint → Type 0
Breaks funs word a b =
    (Missed funs word × (b ≡ a)) ⊎ ((f : FuncOrg) × Found funs word f × Adds f a b)

-- What `watch` does to it: the pushed breakpoint is one of hardware.
abbrev pub Watches : Arr Breakpoint → Arr Breakpoint → Type 0
Watches a b = Pushes a b × (is_sf (b.elts a.nelts) ≡ false)

-- How the table goes on at a line with the words `name ∷ more`: `b` sets a software breakpoint at
-- the first function whose name begins with the word, `watch` one of hardware, and everything else
-- leaves the table as it is.
pub data Moves (funs : Option FunArr) (name : Text) (more : List Text) (a b : Arr Breakpoint)
    : Type 0 where
  breaks :
      (word : Text) (rest : List Text)
      → find_name name cmd_set ≡ some cmd_break
      → more ≡ word ∷ rest
      → Breaks funs word a b
      → Moves funs name more a b
  watches : find_name name cmd_set ≡ some cmd_watch → Watches a b → Moves funs name more a b
  stays : (find_name name cmd_set ≢ some cmd_break) → b ≡ a → Moves funs name more a b

abbrev pub is_break : Option CommandFun → Bool
is_break (some cmd_break) = true
is_break _ = false

pub not_break :
    (name : Text) (found : Option CommandFun)
    → find_name name cmd_set ≡ found
    → is_break found ≡ false
    → find_name name cmd_set ≢ some cmd_break
not_break name found names other e =
    let clash : true ≡ false = ap is_break (sym e ∙ names) ∙ other in cc clash

pub Moves-Grows :
    {funs : Option FunArr} {name : Text} {more : List Text} {a : Arr Breakpoint}
    (b : Arr Breakpoint)
    → Moves funs name more a b
    → Grows a b
Moves-Grows b (breaks word rest names is_more (inl (missed, same))) = Stays-Grows b same
Moves-Grows b (breaks word rest names is_more (inr (f, first, (pushes, soft, addr, named)))) =
    Pushes-Grows b pushes
Moves-Grows b (watches names (pushes, other)) = Pushes-Grows b pushes
Moves-Grows b (stays other same) = Stays-Grows b same
