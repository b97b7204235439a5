-- ===== src/Blog/Tracees.antt =====
-- The programs that are traced: test.c, and code.c, test.c, testsyscall.c and dbuf_break_test.c under blog/. `sleep` and
-- the addresses that are printed are those of the system, so the addresses are arguments.
use test_dbug.Common.{ℕ, zero, suc, ◌+◌, List, [], ◌∷◌, ◌++◌, Text, codes, ℤ, pos}
use test_dbug.Output.{Line, text_line, number_line, labelled}

-- test.c: `foo`, and the loop over it from `i` on.
unfoldable pub foo : ℕ → List Line
foo a = number_line a ∷ []

unfoldable pub foo_lines : ℕ → ℕ → List Line
unfolding foo
foo_lines zero i = []
foo_lines (suc n) i = foo i ++ foo_lines n (i + 1)

unfoldable pub arg_lines : List Text → List Line
arg_lines [] = []
arg_lines (arg ∷ argv) = text_line arg ∷ arg_lines argv

-- What `main` of test.c has printed after `n` of the rounds of its second loop.
unfoldable pub test_main : List Text → ℕ → List Line
unfolding arg_lines foo_lines
test_main argv n = arg_lines argv ++ foo_lines n 0

-- code.c
unfoldable pub code_main : ℕ → ℕ → ℕ → List Line
code_main main_addr add_addr sub_addr =
    labelled (codes "main = ") main_addr
    ∷ labelled (codes "add  = ") add_addr
    ∷ labelled (codes "sub  = ") sub_addr
    ∷ []

-- dbuf_break_test.c
unfoldable pub print_int : ℕ → List Line
print_int a = number_line a ∷ []

unfoldable pub int_lines : ℕ → ℕ → List Line
unfolding print_int
int_lines zero i = []
int_lines (suc n) i = print_int i ++ int_lines n (i + 1)

unfoldable pub dbuf_break_test_main : ℕ → ℕ → List Line
unfolding int_lines
dbuf_break_test_main print_int_addr pid =
    labelled (codes "print_int = ") print_int_addr ∷ labelled (codes "pid = ") pid ∷ int_lines 10 0

-- blog/test.c: three calls of `write`.
unfoldable pub write_main : List Line
write_main =
    text_line (codes "aaaa\n") ∷ text_line (codes "bbbb\n") ∷ text_line (codes "cccc\n") ∷ []

-- blog/testsyscall.c: one call of `stat`, whose result is not looked at.
unfoldable pub testsyscall_main : {S : Type 0} → (S → Text → ℤ × S) → S → ℤ × S
testsyscall_main stat s = (pos 0, (stat s (codes "test")).1)
