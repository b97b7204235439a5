-- ===== src/Output.antt =====
-- What the program prints: one constructor for each format string, with the values printed.
use test_dbug.Common.{ℕ, Option, Text}

pub data Line : Type 0 where
  -- "break %lx(%s)\n"
  break_at : ℕ → Option Text → Line
  -- "trigger breakpoint %lx(%s)\n"
  trigger : ℕ → Option Text → Line
  -- "trigger HW breakpoint %lx\n"
  trigger_hw : ℕ → Line
  -- "watch %lx\n"
  watch_at : ℕ → Line
  -- "%4d %lx\n"
  bp_line : ℕ → ℕ → Line
  -- "%-3d func:%-25s addr:%lx\n"
  func_line : ℕ → Option Text → ℕ → Line
  -- "r15:0x%llx\n" and the like
  reg_line : Text → ℕ → Line
  -- "not command %s\n"
  not_command : Option Text → Line
  -- `perror` with its argument
  error_line : Text → Line
  -- the prompt
  prompt : Line
  -- "0x%llx\n"
  stop_at : ℕ → Line
  -- "%lld = write(%ld,\"%s\",%ld)\n"
  write_call : ℕ → ℕ → Text → ℕ → Line
  -- "%-30s  0x%lx\n"
  symbol_line : Option Text → ℕ → Line
  -- "%p\n"
  pointer_line : ℕ → Line
  -- "%s" with a text of the source, "%d\n" and "%ld\n", and a text with a number behind it
  text_line : Text → Line
  number_line : ℕ → Line
  labelled : Text → ℕ → Line
