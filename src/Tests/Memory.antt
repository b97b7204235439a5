-- ===== src/Tests/Memory.antt =====
-- Reads and writes of the machine's memory, and the commands' use of them.
use test_dbug.Common.{
  ℕ, ◌≡◌, refl, arith, List, [], ◌∷◌, ◌++◌, pos, minus_one, bytes_at, take, drop, IsBytes,
}
use test_dbug.Machine.{machine, machine_mem, machine_mapped, machine-IsMemory}
use test_dbug.Mem.{read_pro_mem, write_pro_mem}
use test_dbug.Mem.Read.{IsMapped, read_pro_mem-bytes_at}
use test_dbug.Mem.Write.{Wrote, write_pro_mem-Wrote}
use test_dbug.Mem.Errors.{accesses_refused, read_pro_mem-write_pro_mem}
use test_dbug.Tests.System.{trapped}

-- Ten bytes: a word and two bytes more.
abbrev ten : List ℕ
ten = 1 ∷ 2 ∷ 3 ∷ 4 ∷ 5 ∷ 6 ∷ 7 ∷ 8 ∷ 9 ∷ 10 ∷ []

ten-IsBytes : IsBytes ten
ten-IsBytes = (
  omega arith,
  (
    omega arith,
    (
      omega arith,
      (
        omega arith,
        (
          omega arith,
          (omega arith, (omega arith, (omega arith, (omega arith, (omega arith, tt))))),
        ),
      ),
    ),
  ),
)

ten-IsMapped : IsMapped machine_mapped trapped 7 100 10
ten-IsMapped a above below = ground arith

read_pro_mem-bytes_at_example :
    read_pro_mem machine 7 100 (0 ∷ []) 10 trapped
    ≡ (pos 0, bytes_at (machine_mem trapped 7) 100 10 ++ drop 10 (0 ∷ []))
read_pro_mem-bytes_at_example =
    read_pro_mem-bytes_at machine machine-IsMemory 7 trapped 100 10 (0 ∷ []) (omega arith)
      ten-IsMapped

write_pro_mem-Wrote_example :
    ((write_pro_mem machine 7 100 ten 10 trapped).0 ≡ pos 0)
    × Wrote machine_mem machine_mapped 7 100
        (take 10 ten)
        trapped
        (write_pro_mem machine 7 100 ten 10 trapped).1
write_pro_mem-Wrote_example =
    write_pro_mem-Wrote machine machine-IsMemory 7 100 10 ten trapped (omega arith) ten-IsBytes
      (omega arith) ten-IsMapped

read_pro_mem-write_pro_mem_example :
    read_pro_mem machine 7 100 (5 ∷ []) 10 (write_pro_mem machine 7 100 ten 10 trapped).1
    ≡ (pos 0, take 10 ten ++ drop 10 (5 ∷ []))
read_pro_mem-write_pro_mem_example =
    read_pro_mem-write_pro_mem machine machine-IsMemory 7 trapped 100 10 ten (5 ∷ []) (omega arith)
      ten-IsBytes (omega arith) ten-IsMapped

accesses_refused_example :
    (write_pro_mem machine 7 5000 ten 10 trapped ≡ (minus_one, trapped))
    × ((read_pro_mem machine 7 5000 ten 10 trapped).0 ≡ pos 0)
    × (read_pro_mem machine 7 5000 ten 1 trapped ≡ (pos 0, 0xff ∷ drop 1 ten))
accesses_refused_example =
    accesses_refused machine machine-IsMemory 7 trapped 5000 10 ten (omega arith) (omega arith) refl
