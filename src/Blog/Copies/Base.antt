-- ===== src/Blog/Copies/Base.antt =====
-- The functions of blog/base.c that are copies.
use test_dbug.Common.{ℕ, Option}
use test_dbug.Kernel.{Pid}
use test_dbug.Elf.Maps
use test_dbug.Elf.Maps.{Files}

abbrev pub get_pid_base : Files → Pid → Option ℕ
get_pid_base = Maps.get_pid_base
