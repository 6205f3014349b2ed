-- ===== src/Symbolizer/Lookup.antt =====
-- Dwarf (symbolizer/Dwarf.h and .cc): the sections, and FindAddress from an address to a location.
use claire_common.Common.{
  ℕ, zero, suc, ◌+◌, ◌-◌, ◌%◌, ◌^◌, Bool, true, false, not, ◌&&◌, Option, none, some, List, [], ◌∷◌,
  ltb, leb, ◌==◌, if◌then◌else◌, length,
}
use claire_common.Common.Outcome.{Outcome, done, check_failed, out_of_fuel, ◌>>=◌, ◌>>◌, check}
use claire_common.Symbolizer.Reader.{
  Piece, remaining, Read, advance, read, read_uleb, read_offset, skip_padding,
}
use claire_common.Symbolizer.Section.{Section, new_section, next_chunk}
use claire_common.Symbolizer.FilePath.{FilePath, new_path, is_empty}
use claire_common.Symbolizer.Entries.{
  Attribute, read_attribute, is_last, Abbreviation, get_abbreviation, AttributeValue, number, piece,
  read_attribute_value,
}
use claire_common.Symbolizer.Lines.Search.{new_line_number_vm, find_line}
pub mod UnitEnds
pub mod Ends

-- The names of the sections that Init asks for.
pub data SectionName : Type 0 where
  debug_info debug_abbrev debug_aranges debug_line debug_str : SectionName

-- `has_elf` is that `elf_` is not NULL.
pub record Dwarf : Type 0 where
  pub has_elf : Bool
  pub info : Piece
  pub abbrevs : Piece
  pub aranges : Piece
  pub line : Piece
  pub strings : Piece

abbrev store : SectionName → Piece → Dwarf → Dwarf
store debug_info s d = record d { info = s }
store debug_abbrev s d = record d { abbrevs = s }
store debug_aranges s d = record d { aranges = s }
store debug_line s d = record d { line = s }
store debug_str s d = record d { strings = s }

-- `elf` gives the body of a section of the file, if it has that section.
unfoldable pub get_section : (SectionName → Option Piece) → SectionName → Dwarf → Bool × Dwarf
get_section elf name d = elim (elf name) [ none ↦ (false, d) | some s ↦ (true, store name s d) ]

-- The condition of Init, from left to right: true as soon as one is missing.
unfoldable pub get_sections : (SectionName → Option Piece) → List SectionName → Dwarf → Bool × Dwarf
unfolding get_section
get_sections elf [] d = (false, d)
get_sections elf (name ∷ names) d =
    let got = get_section elf name d in
    let others = get_sections elf names got.1 in if got.0 then others else (true, got.1)

abbrev pub no_piece : Piece
no_piece = record { ahead = []; size = 0 }

-- The constructor and Init.
unfoldable pub new_dwarf : (SectionName → Option Piece) → Dwarf
unfolding get_sections
new_dwarf elf =
    let empty : Dwarf = record {
      has_elf = true;
      info = no_piece;
      abbrevs = no_piece;
      aranges = no_piece;
      line = no_piece;
      strings = no_piece;
    } in
    let got =
      get_sections elf (debug_info ∷ debug_abbrev ∷ debug_aranges ∷ debug_line ∷ debug_str ∷ [])
        empty in
    if got.0 then record got.1 { has_elf = false } else (get_section elf debug_str got.1).1

-- The inner loop of FindAddress over the ranges of a set; `start + size` wraps.
unfoldable pub find_in_set : ℕ → ℕ → Piece → Outcome Bool
find_in_set zero address chunk = out_of_fuel
find_in_set (suc fuel) address chunk = do
  (start, s) ← read 8 chunk
  (size, rest) ← read 8 s
  let again = find_in_set fuel address rest
  if start == 0
      then done false
      else if leb start address && ltb address ((start + size) % 2 ^ 64)
      then done true
      else again

-- The header of a set: the offset into .debug_info, and the ranges. `whole` is how many bytes there
-- are from the start of the section on, so that the ranges start at `whole` less what is ahead.
unfoldable pub read_set_header : Bool → ℕ → Piece → Read ℕ
read_set_header is_64_bits whole chunk = do
  (version, s1) ← read 2 chunk
  check (version == 2)
  (debug_info_offset, s2) ← read_offset is_64_bits s1
  (address_size, s3) ← read 1 s2
  check (address_size == 8)
  (segment_size, s4) ← read 1 s3
  check (segment_size == 0)
  rest ← skip_padding (whole - remaining s4) 16 s4
  done (debug_info_offset, rest)

-- The outer loop.
unfoldable pub find_set : ℕ → ℕ → ℕ → Section → Outcome (Option ℕ)
unfolding find_in_set read_set_header
find_set zero whole address aranges = out_of_fuel
find_set (suc fuel) whole address aranges = do
  (chunk, after) ← next_chunk aranges
  let again = find_set fuel whole address after
  elim chunk [
    | none ↦ done none
    | some set ↦ (do
      (offset, ranges) ← read_set_header after.is_64_bits whole set
      found ← find_in_set (suc (remaining ranges)) address ranges
      if found then done (some offset) else again)
  ]

-- What FindAddress keeps of the attributes of the compilation unit.
pub record UnitAttributes : Type 0 where
  pub line_offset : Option ℕ
  pub compilation_directory : List ℕ
  pub main_file_name : List ℕ

-- boost::get throws when the variant holds the other type, and the exception ends the call.
abbrev number_of : AttributeValue → Outcome ℕ
number_of (number n) = done n
number_of (piece p) = check_failed

abbrev piece_of : AttributeValue → Outcome (List ℕ)
piece_of (number n) = check_failed
piece_of (piece p) = done p

-- DW_AT_stmt_list, DW_AT_comp_dir and DW_AT_name.
unfoldable pub note_attribute : ℕ → AttributeValue → UnitAttributes → Outcome UnitAttributes
note_attribute name value unit =
    if name == 0x10
    then (do n ← number_of value; done (record unit { line_offset = some n }))
    else if name == 0x1b
    then (do p ← piece_of value; done (record unit { compilation_directory = p }))
    else if name == 0x03
    then (do p ← piece_of value; done (record unit { main_file_name = p }))
    else done unit

-- The loop over the attributes: their names and forms in `attributes`, their values in `chunk`.
unfoldable pub read_unit_attributes :
    ℕ → Piece → Bool → Piece → Piece → UnitAttributes → Outcome UnitAttributes
unfolding note_attribute
read_unit_attributes zero strings is_64_bits attributes chunk unit = out_of_fuel
read_unit_attributes (suc fuel) strings is_64_bits attributes chunk unit = do
  (attribute, others) ← read_attribute attributes
  let more = (do
    (value, rest) ← read_attribute_value strings chunk attribute.form is_64_bits
    noted ← note_attribute attribute.name value unit
    read_unit_attributes fuel strings is_64_bits others rest noted)
  if is_last attribute then done unit else more

-- The compilation unit at an offset: its header, its abbreviation, and its attributes.
unfoldable pub read_unit : Dwarf → Bool → Piece → Outcome UnitAttributes
unfolding read_unit_attributes
read_unit d is_64_bits chunk = do
  (version, s1) ← read 2 chunk
  check (leb 2 version && leb version 4)
  (abbrev_offset, s2) ← read_offset is_64_bits s1
  (address_size, s3) ← read 1 s2
  check (address_size == 8)
  (code, s4) ← read_uleb s3
  check (not (code == 0))
  entry ← get_abbreviation d.abbrevs code abbrev_offset
  check (entry.tag == 0x11)
  read_unit_attributes (suc (remaining entry.attributes)) d.strings is_64_bits entry.attributes s4
      (record { line_offset = none; compilation_directory = []; main_file_name = [] })

unfoldable pub unit_at : Dwarf → ℕ → Outcome UnitAttributes
unfolding read_unit
unit_at d debug_info_offset = do
  s ← advance debug_info_offset d.info
  (chunk, section) ← next_chunk (new_section s)
  elim chunk [ none ↦ check_failed | some unit ↦ read_unit d section.is_64_bits unit ]

-- LocationInfo, with none for a false has_main_file and a false has_file_and_line.
pub record LocationInfo : Type 0 where
  pub main_file : Option FilePath
  pub file_and_line : Option (FilePath × ℕ)

unfoldable pub main_file_of : UnitAttributes → Option FilePath
main_file_of unit =
    if is_empty unit.main_file_name
    then none
    else some (new_path unit.compilation_directory [] unit.main_file_name)

-- The line number program of the unit, if it has one.
unfoldable pub line_of : Dwarf → ℕ → UnitAttributes → Outcome (Option (FilePath × ℕ))
line_of d address unit = elim unit.line_offset [
  | none ↦ done none
  | some offset ↦ (do
    s ← advance offset d.line
    vm ← new_line_number_vm s
    find_line vm unit.compilation_directory address)
]

-- FindAddress, with none for the result false.
unfoldable pub look_up : Dwarf → ℕ → Outcome (Option LocationInfo)
unfolding find_set unit_at main_file_of line_of
look_up d address = do
  offset ←
      find_set (suc (remaining d.aranges)) (remaining d.aranges) address (new_section d.aranges)
  elim offset [
    | none ↦ done none
    | some debug_info_offset ↦ (do
      unit ← unit_at d debug_info_offset
      line ← line_of d address unit
      done (some (record { main_file = main_file_of unit; file_and_line = line })))
  ]

unfoldable pub find_address : Dwarf → ℕ → Outcome (Option LocationInfo)
unfolding look_up
find_address d address = if d.has_elf then look_up d address else done none
