-- ===== src/Tests/Elf.antt =====
-- A file with a symbol table and a table of names, and the searches in it.
use claire_common.Common.{replicate, Option, ℕ, ◌≡◌, refl, none, some, List, [], ◌∷◌, ◌++◌}
use claire_common.Common.Outcome.{◌>>=◌, done, Holds}
use claire_common.Strings.Piece.{equal, equal_loop}
use claire_common.Symbolizer.Lookup.{new_dwarf, get_sections, get_section, find_address}
use claire_common.Symbolizer.Process.{
  MapsLine, ElfFiles, from_hex, value_loop, find_mapping, find_file, get_file,
}
use claire_common.Symbolizer.Process.Symbolize.{
  no_location, section_piece, dwarf_of, symbolize_in, symbolize, lower_hex, address_text,
  write_symbol,
}
use claire_common.Symbolizer.Elf.{
  field, section_at, get_elf_header, find_base, init_elf, get_section_by_index, find_section,
  get_section_containing_address, c_string, find_name, find_named, section_named,
  get_section_by_name, symbol_at,
}
use claire_common.Symbolizer.Elf.Symbols.{
  find_symbol, search_table, find_in_tables, get_definition_by_address, get_string,
  get_symbol_by_name, get_symbol_name,
}
use claire_common.Symbolizer.Elf.Names.{IsNamed, get_section_by_name-IsNamed}

-- A byte before some bytes of zero.
abbrev half : ℕ → List ℕ
half n = n ∷ 0 ∷ 0 ∷ 0 ∷ []

abbrev wide : ℕ → List ℕ
wide n = half n ++ half 0

abbrev header_bytes : List ℕ
header_bytes =
    (0x7f ∷ 0x45 ∷ 0x4c ∷ 0x46 ∷ 2 ∷ 1 ∷ 1 ∷ 0 ∷ [])
    ++ wide 0
    ++ wide 0
    ++ wide 0
    ++ wide 0
    ++ wide 64
    ++ wide 0
    ++ (0 ∷ 0 ∷ 0 ∷ 0 ∷ 2 ∷ 0 ∷ 1 ∷ 0 ∷ [])

abbrev section_bytes : ℕ → ℕ → ℕ → ℕ → ℕ → ℕ → ℕ → List ℕ
section_bytes name type addr offset size link entsize =
    half name
    ++ half type
    ++ wide 0
    ++ wide addr
    ++ wide offset
    ++ wide size
    ++ half link
    ++ half 0
    ++ wide 0
    ++ wide entsize

abbrev symbol_bytes : ℕ → ℕ → ℕ → ℕ → ℕ → List ℕ
symbol_bytes name info shndx value size =
    half name ++ (info ∷ 0 ∷ shndx ∷ 0 ∷ []) ++ wide value ++ wide size

-- A symbol table at 64 with its strings in the section behind it, which is the table of names too;
-- the names from 192 on, the symbols from 197 on.
abbrev elf_bytes : List ℕ
elf_bytes =
    header_bytes
    ++ section_bytes 0 2 0 197 48 1 24
    ++ section_bytes 1 3 64 192 5 0 0
    ++ (0 ∷ 46 ∷ 97 ∷ 98 ∷ 0 ∷ [])
    ++ symbol_bytes 0 0 0 0 0
    ++ symbol_bytes 2 2 1 16 4

-- The names are at 128, under ".ab".
named_ab : get_section_by_name elf_bytes (46 ∷ 97 ∷ 98 ∷ []) ≡ done (some 128)
unfolding get_section_by_name section_named find_named find_name c_string find_section
    get_section_by_index section_at get_elf_header field equal equal_loop
named_ab = refl

named_a : get_section_by_name elf_bytes (46 ∷ 97 ∷ []) ≡ done none
unfolding get_section_by_name section_named find_named find_name c_string find_section
    get_section_by_index section_at get_elf_header field equal equal_loop
named_a = refl

covers_68 : get_section_containing_address elf_bytes 68 ≡ done (some 128)
unfolding get_section_containing_address find_section section_at get_elf_header field
covers_68 = refl

covers_69 : get_section_containing_address elf_bytes 69 ≡ done none
unfolding get_section_containing_address find_section section_at get_elf_header field
covers_69 = refl

no_segments : init_elf elf_bytes ≡ done 0
unfolding init_elf find_base get_elf_header field
no_segments = refl

-- The function that covers 17, and its name.
defined_17 : get_definition_by_address elf_bytes 17 ≡ done (some (64, 221))
unfolding get_definition_by_address find_in_tables search_table find_symbol symbol_at section_at
    get_elf_header field
defined_17 = refl

not_defined_20 : get_definition_by_address elf_bytes 20 ≡ done none
unfolding get_definition_by_address find_in_tables search_table find_symbol symbol_at section_at
    get_elf_header field
not_defined_20 = refl

called_ab :
    (do
      table ← section_at elf_bytes 64
      symbol ← symbol_at elf_bytes 221
      get_symbol_name elf_bytes table symbol)
    ≡ done (some (97 ∷ 98 ∷ []))
unfolding get_symbol_name get_string c_string get_section_by_index symbol_at section_at
    get_elf_header field
called_ab = refl

-- A symbol of an SHT_SYMTAB is not found by its name.
missed_ab : get_symbol_by_name elf_bytes (97 ∷ 98 ∷ []) ≡ done none
unfolding get_symbol_by_name find_in_tables search_table section_at get_elf_header field
missed_ab = refl

get_section_by_name-IsNamed_example :
    Holds
      (IsNamed elf_bytes (46 ∷ 97 ∷ 98 ∷ []))
      (get_section_by_name elf_bytes (46 ∷ 97 ∷ 98 ∷ []))
get_section_by_name-IsNamed_example = get_section_by_name-IsNamed elf_bytes (46 ∷ 97 ∷ 98 ∷ [])

-- A process that maps the file at 0x1000, as its only line of the maps says.
abbrev maps_line : List ℕ → Option MapsLine
maps_line text = some (record {
  from = b'1' ∷ b'0' ∷ b'0' ∷ b'0' ∷ [];
  to = b'2' ∷ b'0' ∷ b'0' ∷ b'0' ∷ [];
  offset = b'0' ∷ [];
  file_name = b'/' ∷ b't' ∷ [];
})

abbrev load_elf : List ℕ → Option (List ℕ)
load_elf name = some elf_bytes

abbrev opened_files : ElfFiles
opened_files = (b'/' ∷ b't' ∷ [], record { bytes = elf_bytes; base_address = 0 }) ∷ []

-- The function that covers 0x1011 - 0x1000; the file has no lines.
symbolized_ab :
    symbolize maps_line load_elf ((b'x' ∷ []) ∷ []) 0x1011 []
    ≡ done (some (record { symbol_name = 97 ∷ 98 ∷ []; location = no_location }), opened_files)
unfolding symbolize find_mapping from_hex value_loop get_file find_file init_elf find_base
    symbolize_in get_definition_by_address find_in_tables search_table find_symbol symbol_at
    get_symbol_name get_string dwarf_of section_piece get_section_by_name section_named find_named
    find_name c_string find_section get_section_by_index section_at get_elf_header field equal
    equal_loop new_dwarf get_sections get_section find_address
symbolized_ab = refl

-- "    @             0x1011 ab\n"
written_ab :
    write_symbol (λ name. name) 0x1011 (97 ∷ 98 ∷ []) no_location []
    ≡ 32 ∷ 32 ∷ 32 ∷ 32 ∷ 64 ∷ 32 ∷ replicate 12 32
      ++ (48 ∷ 120 ∷ 49 ∷ 48 ∷ 49 ∷ 49 ∷ 32 ∷ 97 ∷ 98 ∷ 10 ∷ [])
unfolding write_symbol address_text lower_hex
written_ab = refl
