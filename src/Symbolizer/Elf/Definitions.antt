-- ===== src/Symbolizer/Elf/Definitions.antt =====
-- ElfFile::GetDefinitionByAddress (symbolizer/Elf.cc): which symbol it finds, and when it finds none.
use mathlib.Core.Path.{subst}
use claire_common.Common.{
  ℕ, zero, suc, ◌+◌, ◌*◌, ◌/◌, ◌<◌, ◌≡◌, sym, ◌∙◌, ◌⊎◌, Bool, true, false, Option, none, some, List,
  ◌==◌, if◌then◌else◌, arith,
}
use claire_common.Common.Outcome.{
  Outcome, done, undefined, ◌>>=◌, Holds, Holds-bind, Holds-self, Holds-cases, Holds-mono,
  done-injective,
}
use claire_common.Symbolizer.Elf.{ElfHeader, SectionHeader, section_at, get_elf_header}
use claire_common.Symbolizer.Elf.Search.{section_at-Ends, get_elf_header-Ends}
use claire_common.Symbolizer.Elf.Covering.{
  true-ne-false, CoveringAt, NoSymbol, IsSymbol, find_symbol-IsSymbol,
}
use claire_common.Symbolizer.Elf.Symbols.{
  find_symbol, search_table, find_in_tables, has_symbols, covers, get_definition_by_address,
}

-- A table of symbols: SHT_DYNSYM or SHT_SYMTAB.
abbrev pub IsSymbolTable : SectionHeader → Type 0
IsSymbolTable table = (table.sh_type ≡ 11) ⊎ (table.sh_type ≡ 2)

has_symbols-IsSymbolTable : (table : SectionHeader) → has_symbols table ≡ true → IsSymbolTable table
has_symbols-IsSymbolTable table h = ground arith

IsSymbolTable-has_symbols : (table : SectionHeader) → IsSymbolTable table → has_symbols table ≡ true
IsSymbolTable-has_symbols table h = ground arith

module _ (file : List ℕ) (address : ℕ) where
  -- What the search in one table comes to.
  abbrev pub IsSearchedTable : SectionHeader → Option ℕ → Type 0
  IsSearchedTable table none =
      IsSymbolTable table → NoSymbol file address (table.sh_size / table.sh_entsize) table.sh_offset
  IsSearchedTable table (some found) = IsSymbolTable table × CoveringAt file address found

  search_table-IsSearchedTable :
      (table : SectionHeader)
      → Holds (IsSearchedTable table) (search_table file has_symbols (covers address) table)
  unfolding search_table
  search_table-IsSearchedTable table =
      Holds-cases (IsSearchedTable table) (has_symbols table) _ (done none)
        (λ is_one. counted table is_one (table.sh_entsize == 0))
        (λ is_none symbols.
          absurd (true-ne-false (sym (IsSymbolTable-has_symbols table symbols) ∙ is_none)))
    where
      of_symbol :
          (table : SectionHeader)
          → IsSymbolTable table
          → (result : Option ℕ)
          → IsSymbol file address (table.sh_size / table.sh_entsize) table.sh_offset result
          → IsSearchedTable table result
      of_symbol table is_one none h = λ again. h
      of_symbol table is_one (some found) h = (is_one, h)

      counted :
          (table : SectionHeader)
          → has_symbols table ≡ true
          → (zero_size : Bool)
          → Holds (IsSearchedTable table) (
              (if zero_size then undefined else done (table.sh_size / table.sh_entsize))
              >>= λ count. find_symbol file (covers address table) count table.sh_offset)
      counted table is_one true = tt
      counted table is_one false =
          Holds-mono (IsSymbol file address (table.sh_size / table.sh_entsize) table.sh_offset)
            (IsSearchedTable table) _ (of_symbol table (has_symbols-IsSymbolTable table is_one))
            (find_symbol-IsSymbol file address table (table.sh_size / table.sh_entsize)
              table.sh_offset)

  -- No table of so many sections from the offset on has a symbol that covers the address.
  abbrev pub NoTable : ℕ → ℕ → Type 0
  NoTable count offset =
      (i : ℕ)
      → i < count
      → (table : SectionHeader) → section_at file (offset + i * 64) ≡ done table
      → IsSymbolTable table
      → NoSymbol file address (table.sh_size / table.sh_entsize) table.sh_offset

  abbrev pub IsDefined : ℕ → ℕ → Option (ℕ × ℕ) → Type 0
  IsDefined count offset none = NoTable count offset
  IsDefined count offset (some (place, found)) =
      (table : SectionHeader) × (section_at file place ≡ done table)
      × IsSymbolTable table
      × CoveringAt file address found

  NoTable-suc :
      (count offset : ℕ) (table : SectionHeader)
      → section_at file offset ≡ done table
      → IsSearchedTable table none
      → NoTable count (offset + 64)
      → NoTable (suc count) offset
  NoTable-suc count offset table e fails others zero below table' e' symbols =
      let here = subst (λ o. section_at file o ≡ done table') (omega arith) e' in
      subst (λ t. IsSearchedTable t none) (done-injective (sym e ∙ here)) fails symbols
  NoTable-suc count offset table e fails others (suc i) below table' e' symbols =
      others i (omega (arith, below)) table'
        (subst (λ o. section_at file o ≡ done table') (omega arith) e') symbols

  IsDefined-suc :
      (count offset : ℕ) (table : SectionHeader) (result : Option (ℕ × ℕ))
      → section_at file offset ≡ done table
      → IsSearchedTable table none
      → IsDefined count (offset + 64) result
      → IsDefined (suc count) offset result
  IsDefined-suc count offset table none e fails others =
      NoTable-suc count offset table e fails others
  IsDefined-suc count offset table (some found) e fails others = others

  first_or_later :
      (count offset : ℕ) (table : SectionHeader) (found : Option ℕ)
      (again : Outcome (Option (ℕ × ℕ)))
      → section_at file offset ≡ done table
      → IsSearchedTable table found
      → Holds (IsDefined count (offset + 64)) again
      → Holds
          (IsDefined (suc count) offset)
          (elim found [ some symbol ↦ done (some (offset, symbol)) | none ↦ again ])
  first_or_later count offset table none again e fails others =
      Holds-mono (IsDefined count (offset + 64)) (IsDefined (suc count) offset) again
        (λ result. IsDefined-suc count offset table result e fails) others
  first_or_later count offset table (some found) again e (is_one, covering) others =
      (table, e, is_one, covering)

  find_in_tables-IsDefined :
      (count offset : ℕ)
      → Holds
          (IsDefined count offset)
          (find_in_tables file has_symbols (covers address) count offset)
  unfolding find_in_tables
  find_in_tables-IsDefined zero offset = λ i below. absurd (omega (arith, below))
  find_in_tables-IsDefined (suc count) offset =
      Holds-bind (λ table. section_at file offset ≡ done table) (IsDefined (suc count) offset)
        (section_at file offset) _ (Holds-self _ (section_at-Ends file offset))
        (λ table e.
          Holds-bind (IsSearchedTable table) (IsDefined (suc count) offset)
            (search_table file has_symbols (covers address) table) _
            (search_table-IsSearchedTable table)
            (λ found searched.
              first_or_later count offset table found _ e searched
                (find_in_tables-IsDefined count (offset + 64))))

  -- Over all section headers of the file.
  abbrev pub IsDefinition : Option (ℕ × ℕ) → Type 0
  IsDefinition found =
      (header : ElfHeader) × (get_elf_header file ≡ done header)
      × IsDefined header.e_shnum header.e_shoff found

  -- GetDefinitionByAddress finds a symbol that covers the address, in a table of symbols, or none if
  -- none of the tables that the headers give has one.
  pub get_definition_by_address-IsDefinition :
      Holds IsDefinition (get_definition_by_address file address)
  unfolding get_definition_by_address
  get_definition_by_address-IsDefinition =
      Holds-bind (λ header. get_elf_header file ≡ done header) IsDefinition (get_elf_header file) _
        (Holds-self _ (get_elf_header-Ends file))
        (λ header e.
          Holds-mono (IsDefined header.e_shnum header.e_shoff) IsDefinition _
            (λ found defined. (header, e, defined))
            (find_in_tables-IsDefined header.e_shnum header.e_shoff))
