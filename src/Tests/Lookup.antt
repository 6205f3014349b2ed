-- ===== src/Tests/Lookup.antt =====
-- FindAddress (symbolizer/Dwarf.cc) over sections with one set, one unit and one program.
use claire_common.Common.{ℕ, ◌≡◌, ◌≢◌, refl, true, some, List, [], ◌∷◌, length}
use claire_common.Common.Outcome.{done, out_of_fuel}
use claire_common.Symbolizer.Reader.{
  Piece, find_null, skip_padding, read, read_uleb, read_uleb_loop, read_sleb, sign_extend, advance,
  read_offset, read_null_terminated,
}
use claire_common.Symbolizer.Section.{next_chunk, new_section}
use claire_common.Symbolizer.FilePath.{FilePath, new_path}
use claire_common.Symbolizer.Entries.{
  get_abbreviation, find_abbreviation, read_abbreviation, read_entry, skip_attributes,
  read_attribute, read_attribute_value, read_value_loop, read_form, form_of,
}
use claire_common.Symbolizer.Lines.{
  reset, step, step_opcode, next_row, run_special, special_opcode, run_standard, step_extended,
  run_extended, extended_opcode, standard_opcode, clear_flags, skip_ulebs,
}
use claire_common.Symbolizer.Lines.Names.{
  get_file_name, read_header, read_fields, count_directories, count_file_names, nth_file_name,
  get_include_directory, read_file_name, check_max_ops,
}
use claire_common.Symbolizer.Lines.Search.{find_loop, round, find_line, locate, new_line_number_vm}
use claire_common.Symbolizer.Lookup.{
  Dwarf, find_in_set, read_set_header, find_set, note_attribute, read_unit_attributes, read_unit,
  unit_at, main_file_of, line_of, look_up, find_address,
}
use claire_common.Symbolizer.Lookup.Ends.{find_address_ends}
use claire_common.Tests.Lines.{unit_bytes}

abbrev whole : List ℕ → Piece
whole bytes = record { ahead = bytes; size = length bytes }

-- A set with the range of 256 addresses from 4096 on, for the unit at 0.
abbrev aranges_bytes : List ℕ
aranges_bytes =
    44 ∷ 0 ∷ 0 ∷ 0 ∷ 2 ∷ 0 ∷ 0 ∷ 0 ∷ 0 ∷ 0 ∷ 8 ∷ 0 ∷ 0 ∷ 0 ∷ 0 ∷ 0 ∷ 0 ∷ 16 ∷ 0 ∷ 0 ∷ 0 ∷ 0 ∷ 0 ∷ 0
    ∷ 0 ∷ 1 ∷ 0 ∷ 0 ∷ 0 ∷ 0 ∷ 0 ∷ 0 ∷ 0 ∷ 0 ∷ 0 ∷ 0 ∷ 0 ∷ 0 ∷ 0 ∷ 0 ∷ 0 ∷ 0 ∷ 0 ∷ 0 ∷ 0 ∷ 0 ∷ 0 ∷ 0
    ∷ []

-- The unit has the entry 1, with the name "f" and the program at 0.
abbrev info_bytes : List ℕ
info_bytes = 14 ∷ 0 ∷ 0 ∷ 0 ∷ 4 ∷ 0 ∷ 0 ∷ 0 ∷ 0 ∷ 0 ∷ 8 ∷ 1 ∷ 102 ∷ 0 ∷ 0 ∷ 0 ∷ 0 ∷ 0 ∷ []

-- The entry 2, and the entry 1 of a compilation unit with its name and the offset of its program.
abbrev abbrev_bytes : List ℕ
abbrev_bytes = 2 ∷ 46 ∷ 0 ∷ 3 ∷ 8 ∷ 0 ∷ 0 ∷ 1 ∷ 17 ∷ 0 ∷ 3 ∷ 8 ∷ 16 ∷ 23 ∷ 0 ∷ 0 ∷ 0 ∷ []

abbrev sections : Dwarf
sections = record {
  has_elf = true;
  info = whole info_bytes;
  abbrevs = whole abbrev_bytes;
  aranges = whole aranges_bytes;
  line = whole (49 ∷ 0 ∷ 0 ∷ 0 ∷ unit_bytes);
  strings = whole [];
}

abbrev path_f : FilePath
path_f = new_path [] [] (102 ∷ [])

find_in_sections :
    find_address sections 4098
    ≡ done (some (record { main_file = some path_f; file_and_line = some (path_f, 1) }))
unfolding find_address look_up find_set find_in_set read_set_header skip_padding next_chunk
    new_section unit_at read_unit read_unit_attributes note_attribute main_file_of line_of
    get_abbreviation find_abbreviation read_abbreviation read_entry skip_attributes read_attribute
    read_attribute_value read_value_loop read_form form_of new_line_number_vm find_line find_loop
    round next_row step step_opcode run_standard run_special special_opcode step_extended
    run_extended extended_opcode standard_opcode clear_flags skip_ulebs reset read advance read_uleb
    read_uleb_loop read_sleb sign_extend read_header read_fields count_directories count_file_names
    read_file_name check_max_ops read_offset read_null_terminated find_null locate get_file_name
    nth_file_name get_include_directory
find_in_sections = refl

find_address_ends_example : find_address sections 4098 ≢ out_of_fuel
find_address_ends_example = find_address_ends sections 4098
