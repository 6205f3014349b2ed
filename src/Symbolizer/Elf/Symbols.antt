-- ===== src/Symbolizer/Elf/Symbols.antt =====
-- ElfFile (symbolizer/Elf.cc): the searches in the symbol tables, and the names. A pair is the offset
-- of a table's header and that of the symbol.
use claire_common.Common.{
  ℕ, zero, suc, ◌+◌, ◌/◌, ◌%◌, ◌^◌, Bool, false, not, ◌&&◌, ◌||◌, Option, none, some, List, ltb,
  leb, ◌==◌, if◌then◌else◌, drop,
}
use claire_common.Common.Outcome.{Outcome, done, undefined, ◌>>=◌}
use claire_common.Strings.Piece.{equal}
use claire_common.Symbolizer.Elf.{
  SectionHeader, ElfSymbol, section_at, symbol_at, get_elf_header, get_section_by_index, c_string,
}

-- The loop over the symbols of a table.
unfoldable pub find_symbol : List ℕ → (ElfSymbol → Outcome Bool) → ℕ → ℕ → Outcome (Option ℕ)
find_symbol file test zero offset = done none
find_symbol file test (suc others) offset = do
  symbol ← symbol_at file offset
  passes ← test symbol
  let again = find_symbol file test others (offset + 24)
  if passes then done (some offset) else again

-- sh_size / sh_entsize.
abbrev pub count_symbols : SectionHeader → Outcome ℕ
count_symbols table =
    if table.sh_entsize == 0 then undefined else done (table.sh_size / table.sh_entsize)

unfoldable pub search_table :
    List ℕ
    → (SectionHeader → Bool)
    → (SectionHeader → ElfSymbol → Outcome Bool)
    → SectionHeader
    → Outcome (Option ℕ)
unfolding find_symbol
search_table file searched test table =
    let all = (do
      count ← count_symbols table
      find_symbol file (test table) count table.sh_offset) in
    if searched table then all else done none

-- The loop over the section headers, to the first symbol in a table that is searched.
unfoldable pub find_in_tables :
    List ℕ
    → (SectionHeader → Bool)
    → (SectionHeader → ElfSymbol → Outcome Bool)
    → ℕ
    → ℕ
    → Outcome (Option (ℕ × ℕ))
unfolding search_table
find_in_tables file searched test zero offset = done none
find_in_tables file searched test (suc others) offset = do
  table ← section_at file offset
  found ← search_table file searched test table
  let again = find_in_tables file searched test others (offset + 64)
  elim found [ some symbol ↦ done (some (offset, symbol)) | none ↦ again ]

-- SHT_DYNSYM or SHT_SYMTAB.
abbrev pub has_symbols : SectionHeader → Bool
has_symbols table = table.sh_type == 11 || table.sh_type == 2

-- An STT_OBJECT or STT_FUNC that is defined and covers the address.
abbrev pub covers : ℕ → SectionHeader → ElfSymbol → Outcome Bool
covers address table symbol = done (
    (symbol.st_info % 16 == 1 || symbol.st_info % 16 == 2)
    && not (symbol.st_shndx == 0)
    && leb symbol.st_value address
    && ltb address ((symbol.st_value + symbol.st_size) % 2 ^ 64))

unfoldable pub get_definition_by_address : List ℕ → ℕ → Outcome (Option (ℕ × ℕ))
unfolding find_in_tables
get_definition_by_address file address = do
  header ← get_elf_header file
  find_in_tables file has_symbols (covers address) header.e_shnum header.e_shoff

-- GetString; its DCHECKs are dropped.
unfoldable pub get_string : List ℕ → SectionHeader → ℕ → Outcome (List ℕ)
unfolding c_string
get_string file strings offset = c_string (drop (strings.sh_offset + offset) file)

unfoldable pub get_section_name : List ℕ → SectionHeader → Outcome (Option (List ℕ))
unfolding get_string
get_section_name file section =
    let text = (λ (index : ℕ). do
      names ← get_section_by_index file index
      name ← get_string file names section.sh_name
      done (some name)) in
    do
      header ← get_elf_header file
      if header.e_shstrndx == 0 then done none else text header.e_shstrndx

-- A table of strings, and SHT_DYNSYM, which the source names twice.
abbrev pub has_names : SectionHeader → Bool
has_names table = not (table.sh_link == 0) && table.sh_type == 11

unfoldable pub is_called : List ℕ → List ℕ → SectionHeader → ElfSymbol → Outcome Bool
unfolding get_string
is_called file name table symbol =
    let compared = (do
      strings ← get_section_by_index file table.sh_link
      text ← get_string file strings symbol.st_name
      done (equal text name)) in
    if not (symbol.st_shndx == 0) && not (symbol.st_name == 0) then compared else done false

unfoldable pub get_symbol_by_name : List ℕ → List ℕ → Outcome (Option (ℕ × ℕ))
unfolding find_in_tables is_called
get_symbol_by_name file name = do
  header ← get_elf_header file
  find_in_tables file has_names (is_called file name) header.e_shnum header.e_shoff

unfoldable pub get_symbol_name : List ℕ → SectionHeader → ElfSymbol → Outcome (Option (List ℕ))
unfolding get_string
get_symbol_name file table symbol =
    let text = (do
      strings ← get_section_by_index file table.sh_link
      name ← get_string file strings symbol.st_name
      done (some name)) in
    if symbol.st_name == 0 || table.sh_link == 0 then done none else text
