-- ===== src/Elf/Image.antt =====
-- The image of an ELF file in memory (`word`) and the fields of the structures of `elf.h` that
-- elf_parse.c reads. `none` is a read outside of the image or through a null pointer.
use mathlib.Core.Path.{◌≡◌, refl}
use test_dbug.Common.{
  ℕ, ◌+◌, ◌*◌, List, Option, none, some, ltb, leb, if◌then◌else◌, length, take, drop, le_word,
  until, Text,
}

-- A fault in the middle of a `do` block ends it.
infixl 5 ◌>>=◌
abbrev pub ◌>>=◌ {ℓ κ} : {A : Type ℓ} {B : Type κ} → Option A → (A → Option B) → Option B
none >>= f = none
some a >>= f = f a

-- A block that succeeds gives the value of its first step and the success of the rest.
pub >>=-eq-some {ℓ κ} :
    {A : Type ℓ} {B : Type κ} (m : Option A) (f : A → Option B) {b : B}
    → (m >>= f) ≡ some b
    → (a : A) × (m ≡ some a) × (f a ≡ some b)
>>=-eq-some none f e = absurd (cc)
>>=-eq-some (some a) f e = (a, refl, e)

-- `n` bytes at an offset, as a little-endian number.
unfoldable pub field_at : List ℕ → ℕ → ℕ → Option ℕ
field_at word off n =
    if leb (off + n) (length word) then some (le_word (take n (drop off word))) else none

-- The C string at an offset. The image ends in a NUL, so the string does.
unfoldable pub string_at : List ℕ → ℕ → Option Text
string_at word off = if ltb off (length word) then some (until 0 (drop off word)).0 else none

-- `Elf64_Ehdr`, `Elf64_Shdr` and `Elf64_Sym`: the fields that are used.
pub record Ehdr : Type 0 where
  pub e_shoff : ℕ
  pub e_shnum : ℕ
  pub e_shstrndx : ℕ

pub record Shdr : Type 0 where
  pub sh_name : ℕ
  pub sh_offset : ℕ
  pub sh_size : ℕ

pub record Sym : Type 0 where
  pub st_name : ℕ
  pub st_info : ℕ
  pub st_value : ℕ

-- `sizeof(Elf64_Shdr)` and `sizeof(Elf64_Sym)`
abbrev pub shdr_size : ℕ
shdr_size = 64

abbrev pub sym_size : ℕ
sym_size = 24

unfoldable pub ehdr_at : List ℕ → Option Ehdr
unfolding field_at
ehdr_at word = do
  off ← field_at word 0x28 8
  num ← field_at word 0x3c 2
  ndx ← field_at word 0x3e 2
  some (record { e_shoff = off; e_shnum = num; e_shstrndx = ndx })

-- `stables[i]` and `syns[i]`, for a table at an offset of the image.
unfoldable pub shdr_at : List ℕ → ℕ → ℕ → Option Shdr
unfolding field_at
shdr_at word stables i = do
  name ← field_at word (stables + i * shdr_size) 4
  off ← field_at word (stables + i * shdr_size + 24) 8
  size ← field_at word (stables + i * shdr_size + 32) 8
  some (record { sh_name = name; sh_offset = off; sh_size = size })

unfoldable pub sym_at : List ℕ → Option ℕ → ℕ → Option Sym
unfolding field_at
sym_at word syns i = do
  table ← syns
  name ← field_at word (table + i * sym_size) 4
  info ← field_at word (table + i * sym_size + 4) 1
  value ← field_at word (table + i * sym_size + 8) 8
  some (record { st_name = name; st_info = info; st_value = value })
