-- ===== src/Symbolizer/Elf/Search.antt =====
-- ElfFile (symbolizer/Elf.cc): what the searches for a section find.
use mathlib.Core.Path.{subst}
use claire_common.Common.{
  ℕ, zero, suc, ◌+◌, ◌*◌, ◌<◌, ◌≡◌, refl, Bool, true, false, Option, none, some, List, length, leb,
  if◌then◌else◌, arith, sym, ◌∙◌,
}
use claire_common.Common.Outcome.{
  Outcome, done, check_failed, undefined, out_of_fuel, ◌>>=◌, done-injective, Holds, Holds-bind,
  Holds-mono, Holds-self, Holds-if,
}
use claire_common.Symbolizer.Elf.{
  SectionHeader, ElfHeader, section_at, field, get_elf_header, find_section, contains,
  get_section_containing_address, get_section_by_index,
}

-- No header of so many from the offset on passes the test.
abbrev pub AllFail : List ℕ → (SectionHeader → Bool) → ℕ → ℕ → Type 0
AllFail file test count offset =
    (i : ℕ)
    → i < count
    → (section : SectionHeader) → section_at file (offset + i * 64) ≡ done section
    → test section ≡ false

-- The first that passes, or none.
abbrev pub IsFirst : List ℕ → (SectionHeader → Bool) → ℕ → ℕ → Option ℕ → Type 0
IsFirst file test count offset none = AllFail file test count offset
IsFirst file test count offset (some found) =
    (i : ℕ) × (i < count)
    × (found ≡ offset + i * 64)
    × ((section : SectionHeader) × (section_at file found ≡ done section) × (test section ≡ true))
    × AllFail file test i offset

pub field-Ends :
    (file : List ℕ) (offset width : ℕ) → Holds (λ value. Unit) (field file offset width)
unfolding field
field-Ends file offset width =
    Holds-if (λ value. Unit) (leb (offset + width) (length file)) (done _) undefined tt tt

pub then-Ends :
    {B : Type 0} (file : List ℕ) (offset width : ℕ) (k : ℕ → Outcome B)
    → ((value : ℕ) → Holds (λ b. Unit) (k value))
    → Holds (λ b. Unit) (field file offset width >>= k)
then-Ends file offset width k h =
    Holds-bind (λ value. Unit) (λ b. Unit) (field file offset width) k
      (field-Ends file offset width) (λ value e. h value)

pub section_at-Ends :
    (file : List ℕ) (offset : ℕ) → Holds (λ section. Unit) (section_at file offset)
unfolding section_at
section_at-Ends file offset = then-Ends file offset 4 _ (λ a. then-Ends file (offset + 4) 4 _ (λ b.
    then-Ends file (offset + 16) 8 _ (λ c. then-Ends file (offset + 24) 8 _ (λ d.
      then-Ends file (offset + 32) 8 _ (λ e.
        then-Ends file (offset + 40) 4 _ (λ f. then-Ends file (offset + 56) 8 _ (λ g. tt)))))))

module _ (file : List ℕ) (test : SectionHeader → Bool) where
  AllFail-suc :
      (count offset : ℕ) (section : SectionHeader)
      → section_at file offset ≡ done section
      → test section ≡ false
      → AllFail file test count (offset + 64)
      → AllFail file test (suc count) offset
  AllFail-suc count offset section e fails others zero below section' e' =
      let at = subst (λ o. section_at file o ≡ done section') (omega arith) e' in
      subst (λ s. test s ≡ false) (done-injective (sym e ∙ at)) fails
  AllFail-suc count offset section e fails others (suc i) below section' e' =
      others i (omega (arith, below)) section'
        (subst (λ o. section_at file o ≡ done section') (omega arith) e')

  IsFirst-suc :
      (count offset : ℕ) (section : SectionHeader) (result : Option ℕ)
      → section_at file offset ≡ done section
      → test section ≡ false
      → IsFirst file test count (offset + 64) result
      → IsFirst file test (suc count) offset result
  IsFirst-suc count offset section none e fails first =
      AllFail-suc count offset section e fails first
  IsFirst-suc count offset section (some found) e fails first = (
    suc first.0,
    omega (arith, first.1),
    omega (arith, first.2),
    first.3,
    AllFail-suc first.0 offset section e fails first.4,
  )

  Holds-test :
      (count offset : ℕ) (section : SectionHeader) (passes : Bool) (again : Outcome (Option ℕ))
      → section_at file offset ≡ done section
      → test section ≡ passes
      → Holds (IsFirst file test count (offset + 64)) again
      → Holds (IsFirst file test (suc count) offset) (if passes then done (some offset) else again)
  Holds-test count offset section true again e passes others = (
    zero,
    omega arith,
    omega arith,
    (section, e, passes),
    λ i below. absurd (omega (arith, below)),
  )
  Holds-test count offset section false again e fails others =
      Holds-mono _ _ again (λ found. IsFirst-suc count offset section found e fails) others

  Holds-section :
      (count offset : ℕ) (read : Outcome SectionHeader) (again : Outcome (Option ℕ))
      → section_at file offset ≡ read
      → Holds (λ section. Unit) read
      → Holds (IsFirst file test count (offset + 64)) again
      → Holds
          (IsFirst file test (suc count) offset)
          (read >>= λ section. if test section then done (some offset) else again)
  Holds-section count offset (done section) again e ends others =
      Holds-test count offset section (test section) again e refl others
  Holds-section count offset check_failed again e ends others = tt
  Holds-section count offset undefined again e ends others = tt
  Holds-section count offset out_of_fuel again e ends others = elim ends [ ]

  pub find_section-IsFirst :
      (count offset : ℕ)
      → Holds (IsFirst file test count offset) (find_section file test count offset)
  unfolding find_section
  find_section-IsFirst zero offset = λ i below. absurd (omega (arith, below))
  find_section-IsFirst (suc count) offset =
      Holds-section count offset (section_at file offset)
        (find_section file test count (offset + 64)) refl (section_at-Ends file offset)
        (find_section-IsFirst count (offset + 64))

pub get_elf_header-Ends : (file : List ℕ) → Holds (λ header. Unit) (get_elf_header file)
unfolding get_elf_header
get_elf_header-Ends file = then-Ends file 32 8 _ (λ a. then-Ends file 40 8 _ (λ b.
    then-Ends file 56 2 _ (λ c. then-Ends file 60 2 _ (λ d. then-Ends file 62 2 _ (λ e. tt)))))

pub get_section_by_index-Ends :
    (file : List ℕ) (index : ℕ) → Holds (λ section. Unit) (get_section_by_index file index)
unfolding get_section_by_index
get_section_by_index-Ends file index =
    Holds-bind (λ header. Unit) (λ section. Unit) (get_elf_header file) _ (get_elf_header-Ends file)
      (λ header e. section_at-Ends file (header.e_shoff + index * 64))

-- The first section that covers the address, or none.
abbrev pub IsCovering : List ℕ → ℕ → Option ℕ → Type 0
IsCovering file address found =
    (header : ElfHeader) × (get_elf_header file ≡ done header)
    × IsFirst file (contains address) header.e_shnum header.e_shoff found

-- GetSectionContainingAddress ends; when the headers it reads lie in the file, it gives the first of
-- the section headers whose section covers the address, or null when none does.
pub get_section_containing_address-IsCovering :
    (file : List ℕ) (address : ℕ)
    → Holds (IsCovering file address) (get_section_containing_address file address)
unfolding get_section_containing_address
get_section_containing_address-IsCovering file address =
    Holds-bind (λ header. get_elf_header file ≡ done header) (IsCovering file address)
      (get_elf_header file) _ (Holds-self _ (get_elf_header-Ends file))
      (λ header e.
        Holds-mono (IsFirst file (contains address) header.e_shnum header.e_shoff)
          (IsCovering file address) _ (λ found first. (header, e, first))
          (find_section-IsFirst file (contains address) header.e_shnum header.e_shoff))
