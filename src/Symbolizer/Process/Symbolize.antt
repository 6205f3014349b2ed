-- ===== src/Symbolizer/Process/Symbolize.antt =====
-- Symbolizer::Symbolize and Write (symbolizer/Symbolizer.cc), and the sections that Dwarf::Init
-- takes from an ElfFile.
use claire_common.Common.{
  ℕ, zero, suc, ◌+◌, ◌-◌, ◌%◌, ◌/◌, ◌^◌, Option, none, some, List, [], ◌∷◌, ◌++◌, ltb, ◌==◌,
  if◌then◌else◌, take, length, replicate,
}
use claire_common.Common.Outcome.{Outcome, done, ◌>>=◌}
use claire_common.Common.Int.{pos}
use claire_common.Strings.Number.{int_to_buffer}
use claire_common.Strings.Piece.{equal}
use claire_common.Symbolizer.Reader.{Piece}
use claire_common.Symbolizer.FilePath.{FilePath, to_string}
use claire_common.Symbolizer.Elf.{section_at, symbol_at, get_section_by_name, get_section_body}
use claire_common.Symbolizer.Elf.Symbols.{get_definition_by_address, get_symbol_name}
use claire_common.Symbolizer.Lookup.{
  Dwarf, SectionName, debug_info, debug_abbrev, debug_aranges, debug_line, debug_str, new_dwarf,
  LocationInfo, find_address,
}
use claire_common.Symbolizer.Process.{
  MapsLine, MappedFile, find_mapping, ElfFile, ElfFiles, get_file,
}

-- ".debug_" and a name.
abbrev pub debug_name : List ℕ → List ℕ
debug_name s = b'.' ∷ b'd' ∷ b'e' ∷ b'b' ∷ b'u' ∷ b'g' ∷ b'_' ∷ s

abbrev pub name_of : SectionName → List ℕ
name_of debug_info = debug_name (b'i' ∷ b'n' ∷ b'f' ∷ b'o' ∷ [])
name_of debug_abbrev = debug_name (b'a' ∷ b'b' ∷ b'b' ∷ b'r' ∷ b'e' ∷ b'v' ∷ [])
name_of debug_aranges = debug_name (b'a' ∷ b'r' ∷ b'a' ∷ b'n' ∷ b'g' ∷ b'e' ∷ b's' ∷ [])
name_of debug_line = debug_name (b'l' ∷ b'i' ∷ b'n' ∷ b'e' ∷ [])
name_of debug_str = debug_name (b's' ∷ b't' ∷ b'r' ∷ [])

abbrev pub body_at : List ℕ → Option ℕ → Outcome (Option Piece)
body_at file none = done none
body_at file (some offset) = do
  section ← section_at file offset
  body ← get_section_body file section
  done (some body)

-- GetSection of Dwarf, on the file.
unfoldable pub section_piece : List ℕ → SectionName → Outcome (Option Piece)
section_piece file name = do found ← get_section_by_name file (name_of name); body_at file found

-- Init asks for a section only if the file has those before it.
abbrev pub piece_after : Option Piece → List ℕ → SectionName → Outcome (Option Piece)
piece_after none file name = done none
piece_after (some before) file name = section_piece file name

abbrev pub choose {ℓ} : {A : Type ℓ} → A → A → A → A → A → SectionName → A
choose i a r l s debug_info = i
choose i a r l s debug_abbrev = a
choose i a r l s debug_aranges = r
choose i a r l s debug_line = l
choose i a r l s debug_str = s

unfoldable pub dwarf_of : List ℕ → Outcome Dwarf
unfolding section_piece
dwarf_of file = do
  i ← section_piece file debug_info
  a ← piece_after i file debug_abbrev
  r ← piece_after a file debug_aranges
  l ← piece_after r file debug_line
  s ← piece_after l file debug_str
  done (new_dwarf (choose i a r l s))

-- What Symbolize sets.
pub record Symbolized : Type 0 where
  pub symbol_name : List ℕ
  pub location : LocationInfo

abbrev pub no_location : LocationInfo
no_location = record { main_file = none; file_and_line = none }

abbrev pub text_or_empty : Option (List ℕ) → List ℕ
text_or_empty none = []
text_or_empty (some s) = s

abbrev pub location_or_none : Option LocationInfo → LocationInfo
location_or_none none = no_location
location_or_none (some location) = location

-- The table and the symbol are given by their offsets; the answer of FindAddress is not looked at.
abbrev pub describe : ElfFile → ℕ → Option (ℕ × ℕ) → Outcome (Option Symbolized)
describe file address none = done none
describe file address (some (table_offset, symbol_offset)) = do
  table ← section_at file.bytes table_offset
  symbol ← symbol_at file.bytes symbol_offset
  name ← get_symbol_name file.bytes table symbol
  dwarf ← dwarf_of file.bytes
  location ← find_address dwarf address
  done (some (record { symbol_name = text_or_empty name; location = location_or_none location }))

unfoldable pub symbolize_in : ElfFile → ℕ → Outcome (Option Symbolized)
unfolding dwarf_of
symbolize_in file address = do
  symbol ← get_definition_by_address file.bytes address
  describe file address symbol

-- Undoes the relocation.
abbrev pub original_address : ℕ → ℕ → ℕ → ℕ
original_address address begin base = (address + (2 ^ 64 - begin) + base) % 2 ^ 64

abbrev pub in_file : ℕ → ℕ → Option ElfFile × ElfFiles → Outcome (Option Symbolized × ElfFiles)
in_file address begin (none, files) = done (none, files)
in_file address begin (some file, files) = do
  symbolized ← symbolize_in file (original_address address begin file.base_address)
  done (symbolized, files)

module _ (match_line : List ℕ → Option MapsLine) (load : List ℕ → Option (List ℕ)) where
  abbrev pub in_mapping : ℕ → ElfFiles → Option MappedFile → Outcome (Option Symbolized × ElfFiles)
  in_mapping address files none = done (none, files)
  in_mapping address files (some mapping) = do
    opened ← get_file load mapping.name files
    in_file address mapping.begin opened

  -- Symbolize, with none for the result false.
  unfoldable pub symbolize : List (List ℕ) → ℕ → ElfFiles → Outcome (Option Symbolized × ElfFiles)
  unfolding symbolize_in
  symbolize lines address files = do
    mapping ← find_mapping match_line lines address
    in_mapping address files mapping

abbrev pub lower_digit : ℕ → ℕ
lower_digit d = if ltb d 10 then b'0' + d else b'a' + (d - 10)

-- The hexadecimal digits of a number below 2 ^ 64, without leading zeros.
unfoldable pub lower_hex : ℕ → ℕ → List ℕ → List ℕ
lower_hex zero n digits = digits
lower_hex (suc fuel) n digits =
    let more = lower_hex fuel (n / 16) (lower_digit (n % 16) ∷ digits) in
    if n == 0 then digits else more

-- "%#18jx": "0x" before a number but 0, and blanks before it up to a width of 18.
unfoldable pub address_text : ℕ → List ℕ
unfolding lower_hex
address_text n =
    let text = if n == 0 then b'0' ∷ [] else b'0' ∷ b'x' ∷ lower_hex 16 n [] in
    replicate (18 - length text) b' ' ++ text

-- "   ", the file, ":" and the line, cut to what snprintf writes into 20 bytes.
abbrev pub line_text : Option (FilePath × ℕ) → List ℕ
line_text none = []
line_text (some (file, line)) =
    b' ' ∷ b' ' ∷ b' ' ∷ to_string file [] ++ b':' ∷ take 19 (int_to_buffer (pos line))

-- "\n", 25 blanks, "(compiling ", the main file and ")".
abbrev pub compiling_text : FilePath → List ℕ
compiling_text main =
    10 ∷ replicate 25 b' '
    ++ (b'(' ∷ b'c' ∷ b'o' ∷ b'm' ∷ b'p' ∷ b'i' ∷ b'l' ∷ b'i' ∷ b'n' ∷ b'g' ∷ b' ' ∷ [])
    ++ to_string main []
    ++ (b')' ∷ [])

-- The main file, unless it is the file of the line.
abbrev pub main_text : Option FilePath → Option (FilePath × ℕ) → List ℕ
main_text none line = []
main_text (some main) none = compiling_text main
main_text (some main) (some (file, line)) =
    if equal (to_string file []) (to_string main []) then [] else compiling_text main

-- What is known of the address: " (unknown)" without a name.
abbrev pub known_text : (List ℕ → List ℕ) → List ℕ → LocationInfo → List ℕ
known_text demangle [] location =
    b' ' ∷ b'(' ∷ b'u' ∷ b'n' ∷ b'k' ∷ b'n' ∷ b'o' ∷ b'w' ∷ b'n' ∷ b')' ∷ []
known_text demangle (c ∷ name) location =
    b' ' ∷ demangle (c ∷ name)
    ++ line_text location.file_and_line
    ++ main_text location.main_file location.file_and_line

-- Write, with what `demangle` makes of a name: what it appends to `out`.
unfoldable pub write_symbol : (List ℕ → List ℕ) → ℕ → List ℕ → LocationInfo → List ℕ → List ℕ
unfolding address_text
write_symbol demangle address name location out =
    out
    ++ (b' ' ∷ b' ' ∷ b' ' ∷ b' ' ∷ b'@' ∷ b' ' ∷ [])
    ++ address_text address
    ++ known_text demangle name location
    ++ (10 ∷ [])
