-- ===== src/Elf/Maps.antt =====
-- `get_pid_base`: the base address of a process, from /proc/<pid>/maps and /proc/<pid>/exe.
pub mod Bases
pub mod Written
pub mod Numbers
use test_dbug.Common.{
  ℕ, zero, suc, ◌+◌, ◌-◌, ◌/◌, ◌%◌, ◌^◌, ◌≤◌, ◌<◌, ◌≡◌, refl, sym, ap, ◌∙◌, arith, Bool, true,
  false, ◌&&◌, ◌||◌, List, [], ◌∷◌, ◌++◌, Option, none, some, ltb, leb, ◌==◌, if◌then◌else◌, length,
  take, Text, codes, starts_with, until, skip_spaces, sscanf_lx,
}
use test_dbug.Kernel.{Pid}
use test_dbug.Elf.Image.{◌>>=◌}

-- The files of the system: what a path holds, whether a read behind that fails where it should meet the
-- end of the file, and what a symbolic link leads to.
pub record Files : Type 0 where
  pub content : Text → Option Text
  pub fails : Text → Bool
  pub link : Text → Option Text

unfoldable pub dec_digits : ℕ → ℕ → Text → Text
dec_digits zero n acc = acc
dec_digits (suc fuel) n acc =
    let more = dec_digits fuel (n / 10) ((48 + n % 10) ∷ acc) in
    if ltb n 10 then (48 + n) ∷ acc else more

-- "/proc", "/%d" and "/%s" put behind one another. A `pid_t` has at most ten digits.
unfoldable pub proc_path : Pid → Text → Text
unfolding dec_digits
proc_path pid name = codes "/proc" ++ codes "/" ++ dec_digits 10 pid [] ++ codes "/" ++ name

-- `readlink(path, target, 100)` and the NUL that is put behind the result: the result has 100 bytes
-- at most, and of 100 the NUL lies outside of the array. A failed call gives -1, and the NUL lies in
-- front of it. `none` is such a store.
unfoldable pub read_exe : Files → Pid → Option Text
unfolding proc_path
read_exe fs pid = do
  exe ← fs.link (proc_path pid (codes "exe"))
  if ltb (length exe) 100 then some exe else none

-- The buffers of the six conversions; those of no interest share `p`.
pub record Fields : Type 0 where
  pub pro_addr : Text
  pub pro_maps : Text
  pub pro_name : Text

-- `%[^ ]` and a space, up to `n` times: the matched texts. A conversion must match something.
unfoldable pub split_fields : ℕ → Text → List Text
split_fields zero s = []
split_fields (suc n) s =
    let (field, rest) = until 32 s in
    elim field [ [] ↦ [] | c ∷ cs ↦ (c ∷ cs) ∷ split_fields n (skip_spaces rest) ]

-- The conversions that matched are stored, the others leave their buffers alone.
unfoldable pub assign_fields : List Text → Fields → Fields
assign_fields [] f = f
assign_fields (a ∷ []) f = record f { pro_addr = a }
assign_fields (a ∷ b ∷ []) f = record f { pro_addr = a }
assign_fields (a ∷ b ∷ c ∷ []) f = record f { pro_addr = a; pro_maps = c }
assign_fields (a ∷ b ∷ c ∷ d ∷ []) f = record f { pro_addr = a; pro_maps = c }
assign_fields (a ∷ b ∷ c ∷ d ∷ e ∷ []) f = record f { pro_addr = a; pro_maps = c }
assign_fields (a ∷ b ∷ c ∷ d ∷ e ∷ n ∷ more) f = record f {
  pro_addr = a;
  pro_maps = c;
  pro_name = n;
}

-- Each of the first two buffers has 100 bytes before the next one begins. A longer field runs into
-- the next buffer, and is a fault here.
unfoldable pub fits_buffers : Fields → Bool
fits_buffers f = ltb (length f.pro_addr) 100 && ltb (length f.pro_maps) 100

-- The test of the loop: `target_len - 1` bytes of the path, and offset 0.
unfoldable pub is_base_line : Text → Fields → Bool
is_base_line target f =
    starts_with (take (length target - 1) target) f.pro_name
    && starts_with (codes "00000000") f.pro_maps

-- The number in front of the `-`; it is 0 where there is none.
unfoldable pub base_of : Text → ℕ
base_of addr = elim (sscanf_lx (until b'-' addr).0) [ none ↦ 0 | some num ↦ num ]

-- The lines that `fgets(data, 512, fp)` gives in turn, with an empty one where the end of the file
-- is met only by a call that reads nothing; `n` bytes of the buffer are free.
unfoldable pub fgets_lines : ℕ → Text → Text → List Text
fgets_lines n line [] = line ∷ []
fgets_lines zero line (c ∷ s) = elim (c == 10) [
  | true ↦ line ∷ (c ∷ []) ∷ fgets_lines 511 [] s
  | false ↦ line ∷ fgets_lines 510 (c ∷ []) s
]
fgets_lines (suc n) line (c ∷ s) = elim (c == 10) [
  | true ↦ (line ++ c ∷ []) ∷ fgets_lines 511 [] s
  | false ↦ fgets_lines n (line ++ c ∷ []) s
]

-- One round behind the conversions; `rest` is what the loop goes on to return.
unfoldable pub check_line : Text → Fields → Option ℕ → Option ℕ
check_line target f rest = elim (fits_buffers f) [
  | false ↦ none
  | true ↦ elim (is_base_line target f) [ true ↦ some (base_of f.pro_addr) | false ↦ rest ]
]

-- The loop over the lines; 0 is returned where no line passes the test.
unfoldable pub scan_maps : Text → List Text → Fields → Option ℕ
scan_maps target [] f = some 0
scan_maps target (line ∷ lines) f =
    let f' = assign_fields (split_fields 6 line) f in
    check_line target f' (scan_maps target lines f')

abbrev pub empty_fields : Fields
empty_fields = record { pro_addr = []; pro_maps = []; pro_name = [] }

-- -1, as a `uint64_t`, where the maps cannot be opened. An empty link would be compared by
-- `target_len - 1` bytes, the largest number.
unfoldable pub get_pid_base : Files → Pid → Option ℕ
unfolding proc_path read_exe scan_maps check_line fgets_lines split_fields assign_fields
    fits_buffers is_base_line base_of
get_pid_base fs pid = elim (fs.content (proc_path pid (codes "maps"))) [
  | none ↦ some (2 ^ 64 - 1)
  | some maps ↦ do
    target ← read_exe fs pid
    if length target == 0 then none else scan_maps target (fgets_lines 511 [] maps) empty_fields
]
