-- ===== src/Symbolizer/Elf/Ends.antt =====
-- The searches of ElfFile (symbolizer/Elf.cc) end on any file.
use claire_common.Common.{
  ℕ, zero, suc, ◌+◌, ◌==◌, Bool, ◌||◌, none, some, List, drop, length, ◌<◌, leb,
}
use claire_common.Common.Outcome.{
  Outcome, done, undefined, ◌>>=◌, Holds, Holds-bind, Holds-if, Holds-mono, Holds-check,
  Holds-option,
}
use claire_common.Symbolizer.Elf.{
  SectionHeader, ElfSymbol, section_at, symbol_at, get_elf_header, find_base, init_elf,
  get_section_by_index, get_section_body,
}
use claire_common.Symbolizer.Elf.Search.{
  field-Ends, then-Ends, section_at-Ends, get_elf_header-Ends, get_section_by_index-Ends,
}
use claire_common.Symbolizer.Elf.Names.{Holds-c_string}
use claire_common.Symbolizer.Elf.Symbols.{
  find_symbol, count_symbols, search_table, find_in_tables, has_symbols, covers,
  get_definition_by_address, get_string, get_symbol_name,
}

pub then_Ends :
    {A B : Type 0} (m : Outcome A) (f : A → Outcome B)
    → Holds (λ a. Unit) m
    → ((a : A) → Holds (λ b. Unit) (f a))
    → Holds (λ b. Unit) (m >>= f)
then_Ends m f h k = Holds-bind (λ a. Unit) (λ b. Unit) m f h (λ a e. k a)

pub symbol_at-Ends : (file : List ℕ) (offset : ℕ) → Holds (λ symbol. Unit) (symbol_at file offset)
unfolding symbol_at
symbol_at-Ends file offset = then-Ends file offset 4 _ (λ a. then-Ends file (offset + 4) 1 _ (λ b.
    then-Ends file (offset + 6) 2 _
      (λ c. then-Ends file (offset + 8) 8 _ (λ d. then-Ends file (offset + 16) 8 _ (λ e. tt)))))

find_base-Ends :
    (file : List ℕ) (count offset : ℕ) → Holds (λ base. Unit) (find_base file count offset)
unfolding find_base
find_base-Ends file zero offset = tt
find_base-Ends file (suc count) offset = then-Ends file offset 4 _ (λ p_type.
    Holds-if (λ base. Unit) (p_type == 1) _ _ (field-Ends file (offset + 16) 8)
      (find_base-Ends file count (offset + 56)))

pub init_elf-Ends : (file : List ℕ) → Holds (λ base. Unit) (init_elf file)
unfolding init_elf
init_elf-Ends file = then-Ends file 0 4 _ (λ magic.
    Holds-check (λ b. Unit) (magic == 0x464c_457f) _
      (λ e. then-Ends file 4 1 _ (λ class.
        Holds-check (λ b. Unit) (class == 2) _
          (λ e. then-Ends file 5 1 _ (λ encoding.
            Holds-check (λ b. Unit) (encoding == 1) _
              (λ e.
                then_Ends (get_elf_header file) _ (get_elf_header-Ends file)
                  (λ header. find_base-Ends file header.e_phnum header.e_phoff)))))))

module _ (file : List ℕ) where
  find_symbol-Ends :
      (test : ElfSymbol → Outcome Bool) (count offset : ℕ)
      → ((symbol : ElfSymbol) → Holds (λ b. Unit) (test symbol))
      → Holds (λ found. Unit) (find_symbol file test count offset)
  unfolding find_symbol
  find_symbol-Ends test zero offset ends = tt
  find_symbol-Ends test (suc count) offset ends =
      then_Ends (symbol_at file offset) _ (symbol_at-Ends file offset) (λ symbol.
        then_Ends (test symbol) _ (ends symbol) (λ passes.
          Holds-if (λ found. Unit) passes _ _ tt (find_symbol-Ends test count (offset + 24) ends)))

  module _ (searched : SectionHeader → Bool) (test : SectionHeader → ElfSymbol → Outcome Bool)
      (ends : (table : SectionHeader) (symbol : ElfSymbol)
        → Holds (λ b. Unit) (test table symbol)) where
    search_table-Ends :
        (table : SectionHeader) → Holds (λ found. Unit) (search_table file searched test table)
    unfolding search_table
    search_table-Ends table =
        Holds-if (λ found. Unit) (searched table) _ (done none)
          (then_Ends (count_symbols table) _
            (Holds-if (λ n. Unit) (table.sh_entsize == 0) undefined (done _) tt tt)
            (λ count. find_symbol-Ends (test table) count table.sh_offset (ends table)))
          tt

    find_in_tables-Ends :
        (count offset : ℕ) → Holds (λ found. Unit) (find_in_tables file searched test count offset)
    unfolding find_in_tables
    find_in_tables-Ends zero offset = tt
    find_in_tables-Ends (suc count) offset =
        then_Ends (section_at file offset) _ (section_at-Ends file offset) (λ table.
          then_Ends (search_table file searched test table) _ (search_table-Ends table) (λ found.
            Holds-option (λ r. Unit) found (λ symbol. done (some (offset, symbol))) _
              (λ symbol e. tt) (λ e. find_in_tables-Ends count (offset + 64))))

pub get_definition_by_address-Ends :
    (file : List ℕ) (address : ℕ) → Holds (λ found. Unit) (get_definition_by_address file address)
unfolding get_definition_by_address
get_definition_by_address-Ends file address =
    then_Ends (get_elf_header file) _ (get_elf_header-Ends file) (λ header.
      find_in_tables-Ends file has_symbols (covers address) (λ table symbol. tt) header.e_shnum
        header.e_shoff)

get_string-Ends :
    (file : List ℕ) (strings : SectionHeader) (offset : ℕ)
    → Holds (λ text. Unit) (get_string file strings offset)
unfolding get_string
get_string-Ends file strings offset =
    Holds-mono (λ text. 0 < length (drop (strings.sh_offset + offset) file)) (λ text. Unit) _
      (λ text e. tt) (Holds-c_string (drop (strings.sh_offset + offset) file))

pub get_symbol_name-Ends :
    (file : List ℕ) (table : SectionHeader) (symbol : ElfSymbol)
    → Holds (λ name. Unit) (get_symbol_name file table symbol)
unfolding get_symbol_name
get_symbol_name-Ends file table symbol =
    Holds-if (λ name. Unit) (symbol.st_name == 0 || table.sh_link == 0) (done none) _ tt
      (then_Ends (get_section_by_index file table.sh_link) _
        (get_section_by_index-Ends file table.sh_link)
        (λ strings.
          then_Ends (get_string file strings symbol.st_name) _
            (get_string-Ends file strings symbol.st_name) (λ name. tt)))

pub get_section_body-Ends :
    (file : List ℕ) (section : SectionHeader) → Holds (λ body. Unit) (get_section_body file section)
unfolding get_section_body
get_section_body-Ends file section =
    Holds-if (λ body. Unit) (leb section.sh_offset (length file))
      (done (record { ahead = drop section.sh_offset file; size = section.sh_size })) undefined tt
      tt
