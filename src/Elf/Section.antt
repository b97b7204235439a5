-- ===== src/Elf/Section.antt =====
-- `get_section_addr`: a section is looked up by its name.
use test_dbug.Common.{
  ℕ, zero, suc, ◌+◌, ◌%◌, ◌^◌, ◌≤◌, ◌<◌, ◌≡◌, ◌≢◌, sym, ap, ◌∙◌, arith, true, false, List, ◌⊎◌, inl,
  inr, Option, none, some, ◌==◌, if◌then◌else◌, Bool-cases, Option-cases, Text, text_eq,
  text_eq_iff_to, text_eq_self,
}
use native.Mathlib.Decide.{ℕ_discrete}
use test_dbug.Elf.Image.{◌>>=◌, Shdr, shdr_at, string_at}

-- The name of section `i`, by the string table at `shstrtab`.
unfoldable pub section_name : List ℕ → ℕ → ℕ → ℕ → Option Text
section_name word stables shstrtab i = do
  table ← shdr_at word stables i
  string_at word (shstrtab + table.sh_name)

module _ (word : List ℕ) (stables shstrtab : ℕ) (sectionname : Text) where
  -- The loop at `i`, with rounds left; the result is the `i` at which it ends.
  unfoldable pub find_section : ℕ → ℕ → Option ℕ
  unfolding section_name
  find_section zero i = some i
  find_section (suc n) i = elim (section_name word stables shstrtab i) [
    | none ↦ none
    | some name ↦ elim (text_eq sectionname name) [ true ↦ some i | false ↦ find_section n (i + 1) ]
  ]

-- The offset of the section in the image, where there is one, and the value of `*sectionsize`, an
-- `int`, after the call. The pointers that are compared with NULL are not null at either call.
unfoldable pub get_section_addr :
    List ℕ → (stables table_max shstrndx : ℕ) → Text → (sectionsize : ℕ) → Option (Option ℕ × ℕ)
unfolding find_section
get_section_addr word stables table_max shstrndx sectionname sectionsize = do
  strings ← shdr_at word stables shstrndx
  i ← find_section word stables strings.sh_offset sectionname table_max 0
  if i == table_max
      then some (none, sectionsize)
      else (do table ← shdr_at word stables i; some (some table.sh_offset, table.sh_size % 2 ^ 32))

-- Where the loop ends: at the first section with the name, or behind the last one if none has it.
pub record IsFirstNamed (word : List ℕ) (stables shstrtab : ℕ) (name : Text) (lo hi i : ℕ)
    : Type 0 where
  pub above : lo ≤ i
  pub below : i ≤ hi
  pub here : i < hi → section_name word stables shstrtab i ≡ some name
  pub before :
      (j : ℕ)
      → lo ≤ j
      → j < i
      → (t : Text) → section_name word stables shstrtab j ≡ some t
      → t ≢ name

module _ (word : List ℕ) (stables shstrtab : ℕ) (name : Text) where
  pub find_section-IsFirstNamed :
      (n lo i : ℕ)
      → find_section word stables shstrtab name n lo ≡ some i
      → IsFirstNamed word stables shstrtab name lo (lo + n) i
  unfolding find_section
  find_section-IsFirstNamed zero lo i e = record {
    above = ground arith;
    below = ground arith;
    here = λ h. absurd (ground arith);
    before = λ j p q. absurd (ground arith);
  }
  find_section-IsFirstNamed (suc n) lo i e =
      elim (Option-cases (section_name word stables shstrtab lo)) [
        | inl bad ↦ absurd (ground arith)
        | inr (t, is) ↦ elim (Bool-cases (text_eq name t)) [
          | inl hit ↦
              let at : i ≡ lo = ground arith in
              record {
                above = omega arith;
                below = omega arith;
                here = λ h. rw at (is ∙ ap some (sym (text_eq_iff_to name t hit)));
                before = λ j p q. absurd (omega arith);
              }
          | inr miss ↦
              let rest = find_section-IsFirstNamed n (lo + 1) i (ground arith) in
              record {
                above = omega (arith, rest.above);
                below = omega (arith, rest.below);
                here = λ h. rest.here (omega arith);
                before = λ j p q u is_u. elim (ℕ_discrete j lo) [
                  | yes first ↦ λ same. cc (text_eq_self name)
                  | no later ↦ rest.before j (omega arith) q u is_u
                ];
              }
        ]
      ]

-- Where it does not fault, `get_section_addr` answers with the offset and the size of the first section that has the name,
-- and with NULL and the size as it was exactly where the search ends behind the last section.
pub get_section_addr_lem :
    (word : List ℕ) (stables table_max shstrndx : ℕ) (name : Text) (size : ℕ) {answer : Option ℕ}
    {size' : ℕ}
    → get_section_addr word stables table_max shstrndx name size ≡ some (answer, size')
    → (strings : Shdr) × (i : ℕ) × (shdr_at word stables shstrndx ≡ some strings)
      × IsFirstNamed word stables strings.sh_offset name 0 table_max i
      × (((i ≡ table_max) × (answer ≡ none) × (size' ≡ size))
          ⊎ ((i < table_max)
              × (t : Shdr) × (shdr_at word stables i ≡ some t)
              × (answer ≡ some t.sh_offset)
              × (size' ≡ t.sh_size % 2 ^ 32)))
unfolding get_section_addr
get_section_addr_lem word stables table_max shstrndx name size {answer} {size'} e =
    elim (Option-cases (shdr_at word stables shstrndx)) [
      | inl bad ↦ absurd (ground arith)
      | inr (strings, is) ↦
          elim (Option-cases (find_section word stables strings.sh_offset name table_max 0)) [
            | inl bad ↦ absurd (ground arith)
            | inr (i, found) ↦
                let plain : 0 + table_max ≡ table_max = omega arith in
                let first = rw plain at (
                  find_section-IsFirstNamed word stables strings.sh_offset name table_max 0 i
                    found) in
                (
                  strings,
                  i,
                  is,
                  first,
                  elim (ℕ_discrete i table_max) [
                    | yes end ↦ inl (end, ground arith, ground arith)
                    | no within ↦ elim (Option-cases (shdr_at word stables i)) [
                      | inl bad ↦ absurd (ground arith)
                      | inr (t, is_t) ↦
                          inr (omega (arith, first.below), t, is_t, ground arith, ground arith)
                    ]
                  ],
                )
          ]
    ]
