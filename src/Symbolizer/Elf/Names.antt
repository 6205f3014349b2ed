-- ===== src/Symbolizer/Elf/Names.antt =====
-- ElfFile::GetSectionByName (symbolizer/Elf.cc): the walk over the names ends, and what it finds.
use mathlib.Core.Path.{subst}
use claire_common.Common.{
  ℕ, zero, suc, ◌+◌, ◌-◌, ◌<◌, ◌≡◌, refl, Option, none, some, List, [], ◌∷◌, length, drop, ◌==◌,
  if◌then◌else◌, arith, sym, ◌≢◌, ◌⊎◌, inl, inr, ==_iff, length-drop,
}
use claire_common.Common.Outcome.{
  Outcome, done, check_failed, undefined, out_of_fuel, ◌>>=◌, Holds, Holds-bind, Holds-mono,
  Holds-self, Holds-cases,
}
use claire_common.Strings.Piece.{equal}
use claire_common.Strings.Piece.Comparison.{equal_iff}
use claire_common.Symbolizer.Elf.{
  ElfHeader, SectionHeader, get_elf_header, get_section_by_index, c_string, find_name, find_named,
  named, section_named, get_section_by_name,
}
use claire_common.Symbolizer.Elf.Search.{
  IsFirst, find_section-IsFirst, get_section_by_index-Ends, get_elf_header-Ends,
}

-- The name stands in the file at a place, with a null behind it.
abbrev pub IsNameAt : List ℕ → List ℕ → ℕ → Type 0
IsNameAt file name place = c_string (drop place file) ≡ done name

-- The names from one place of the file to another, each with its null, are other names.
pub data Misses (file name : List ℕ) (end : ℕ) : ℕ → Type 0 where
  misses_all : Misses file name end end
  misses_one :
      {cur : ℕ} {text : List ℕ}
      → IsNameAt file text cur
      → cur ≢ end
      → text ≢ name
      → Misses file name end (cur + length text + 1)
      → Misses file name end cur

-- The name stands at a place, none of the places on the way there is the end, nor is it itself, and
-- the names before it are other names.
pub data Reaches (file name : List ℕ) (end : ℕ) : ℕ → ℕ → Type 0 where
  reaches_name : {cur : ℕ} → IsNameAt file name cur → cur ≢ end → Reaches file name end cur cur
  reaches_behind :
      {cur place : ℕ} {text : List ℕ}
      → IsNameAt file text cur
      → cur ≢ end
      → text ≢ name
      → Reaches file name end (cur + length text + 1) place
      → Reaches file name end cur place

abbrev IsFound : List ℕ → List ℕ → ℕ → ℕ → Option ℕ → Type 0
IsFound file name end start none = Misses file name end start
IsFound file name end start (some cur) = Reaches file name end start cur

pub Holds-c_string : (s : List ℕ) → Holds (λ text. 0 < length s) (c_string s)
unfolding c_string
Holds-c_string [] = tt
Holds-c_string (zero ∷ s) = omega arith
Holds-c_string (suc b ∷ s) =
    Holds-bind (λ text. 0 < length s) (λ text. 0 < suc (length s)) (c_string s) _ (Holds-c_string s)
      (λ text some. omega arith)

module _ (file name : List ℕ) (end : ℕ) where
  IsFound-miss :
      (cur : ℕ) (text : List ℕ) (found : Option ℕ)
      → IsNameAt file text cur
      → cur ≢ end
      → text ≢ name
      → IsFound file name end (cur + length text + 1) found
      → IsFound file name end cur found
  IsFound-miss cur text none e inside differs others = misses_one e inside differs others
  IsFound-miss cur text (some found) e inside differs others =
      reaches_behind e inside differs others

  Holds-name :
      (cur : ℕ) (read : Outcome (List ℕ)) (again : List ℕ → Outcome (Option ℕ))
      → cur ≢ end
      → c_string (drop cur file) ≡ read
      → Holds (λ text. 0 < length (drop cur file)) read
      → ((text : List ℕ)
          → cur < length file
          → Holds (IsFound file name end (cur + length text + 1)) (again text))
      → Holds
          (IsFound file name end cur)
          (read >>= λ text. if equal text name then done (some cur) else again text)
  Holds-name cur (done text) again ahead e inside others =
      Holds-cases (IsFound file name end cur) (equal text name) (done (some cur)) (again text)
        (λ same.
          reaches_name (subst (λ t. IsNameAt file t cur) ((equal_iff text name).0 same) e) ahead)
        (λ differs.
          Holds-mono (IsFound file name end (cur + length text + 1)) (IsFound file name end cur)
            (again text)
            (λ found.
              IsFound-miss cur text found e ahead
                (λ same. ground (arith, differs, (equal_iff text name).1 same)))
            (others text (omega (arith, inside, length-drop cur file))))
  Holds-name cur check_failed again ahead e inside others = tt
  Holds-name cur undefined again ahead e inside others = tt
  Holds-name cur out_of_fuel again ahead e inside others = elim inside [ ]

  Holds-find_name :
      (fuel cur : ℕ)
      → length file - cur < fuel
      → Holds (IsFound file name end cur) (find_name fuel file name cur end)
  unfolding find_name
  Holds-find_name zero cur enough = absurd (omega (arith, enough))
  Holds-find_name (suc fuel) cur enough =
      Holds-cases (IsFound file name end cur) (cur == end) (done none) _
        (λ same. subst (Misses file name end) (sym ((==_iff cur end).0 same)) misses_all)
        (λ differs.
          Holds-name cur (c_string (drop cur file))
            (λ text. find_name fuel file name (cur + length text + 1) end)
            (λ same. ground (arith, differs, (==_iff cur end).1 same)) refl
            (Holds-c_string (drop cur file))
            (λ text inside.
              Holds-find_name fuel (cur + length text + 1) (omega (arith, enough, inside))))

-- The search when there is a table of names: the section is the first whose sh_name is the offset of
-- the first place from the start of the table on, and before its end, where the name stands; there is
-- none if no name from the start to the end is the name, or no section has the offset.
abbrev pub IsSearched : List ℕ → List ℕ → ElfHeader → SectionHeader → Option ℕ → Type 0
IsSearched file name header names found =
    ((found ≡ none) × Misses file name (names.sh_offset + names.sh_size) names.sh_offset)
    ⊎ ((cur : ℕ) × Reaches file name (names.sh_offset + names.sh_size) names.sh_offset cur
        × IsFirst file (named (cur - names.sh_offset)) header.e_shnum header.e_shoff found)

abbrev pub IsNamed : List ℕ → List ℕ → Option ℕ → Type 0
IsNamed file name found =
    (header : ElfHeader) × (get_elf_header file ≡ done header)
    × (((header.e_shstrndx ≡ 0) × (found ≡ none))
        ⊎ ((names : SectionHeader) × (get_section_by_index file header.e_shstrndx ≡ done names)
            × IsSearched file name header names found))

module _ (file name : List ℕ) (header : ElfHeader) (e : get_elf_header file ≡ done header) where
  Holds-find_named :
      (names : SectionHeader) (found : Option ℕ)
      → IsFound file name (names.sh_offset + names.sh_size) names.sh_offset found
      → Holds (IsSearched file name header names) (find_named file header names.sh_offset found)
  unfolding find_named
  Holds-find_named names none at = inl (refl, at)
  Holds-find_named names (some cur) at =
      Holds-mono (IsFirst file (named (cur - names.sh_offset)) header.e_shnum header.e_shoff)
        (IsSearched file name header names) _ (λ found first. inr (cur, at, first))
        (find_section-IsFirst file (named (cur - names.sh_offset)) header.e_shnum header.e_shoff)

  Holds-section_named : Holds (IsNamed file name) (section_named file name header)
  unfolding section_named
  Holds-section_named =
      Holds-bind (λ names. get_section_by_index file header.e_shstrndx ≡ done names)
        (IsNamed file name) (get_section_by_index file header.e_shstrndx) _
        (Holds-self _ (get_section_by_index-Ends file header.e_shstrndx))
        (λ names g.
          Holds-mono (IsSearched file name header names) (IsNamed file name) _
            (λ found searched. (header, e, inr (names, g, searched)))
            (Holds-bind (IsFound file name (names.sh_offset + names.sh_size) names.sh_offset)
              (IsSearched file name header names)
              (find_name (suc (length file)) file name names.sh_offset
                (names.sh_offset + names.sh_size))
              _
              (Holds-find_name file name (names.sh_offset + names.sh_size) (suc (length file))
                names.sh_offset (omega arith))
              (λ found at. Holds-find_named names found at)))

-- GetSectionByName ends on any file. When the headers and names it reads lie in the file, it gives
-- null if there is no table of names or none of the names from its start to its end is the name;
-- otherwise the first section whose sh_name is the offset of the first name in the table that is the
-- name, none of the names up to it starting at the end, or null when no section has that offset.
pub get_section_by_name-IsNamed :
    (file name : List ℕ) → Holds (IsNamed file name) (get_section_by_name file name)
unfolding get_section_by_name
get_section_by_name-IsNamed file name =
    Holds-bind (λ header. get_elf_header file ≡ done header) (IsNamed file name)
      (get_elf_header file) _ (Holds-self _ (get_elf_header-Ends file))
      (λ header e.
        Holds-cases (IsNamed file name) (header.e_shstrndx == 0) (done none) _
          (λ absent. (header, e, inl ((==_iff header.e_shstrndx 0).0 absent, refl)))
          (λ present. Holds-section_named file name header e))
