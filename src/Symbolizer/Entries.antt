-- ===== src/Symbolizer/Entries.antt =====
-- Abbreviations and attributes of debugging entries (symbolizer/Dwarf.h and .cc). The numbers of
-- forms and tags are those of DWARF 4.
use claire_common.Common.{
  ℕ, zero, suc, ◌+◌, ◌-◌, ◌≤◌, ◌<◌, Bool, true, false, not, ◌&&◌, ◌||◌, Option, none, some, List,
  [], ◌∷◌, ◌==◌, if◌then◌else◌, length, get_or, take,
}
use claire_common.Common.Outcome.{Outcome, done, undefined, out_of_fuel, ◌>>=◌, ◌>>◌, check}
use claire_common.Symbolizer.Reader.{
  Piece, remaining, Read, advance, read, read_uleb, read_sleb, read_offset, read_bytes,
  read_null_terminated,
}
pub mod Stored
pub mod Table
pub mod ValueEnds
pub mod Ends

-- DIEAbbreviation::Attribute.
pub record Attribute : Type 0 where
  pub name : ℕ
  pub form : ℕ

-- DIEAbbreviation; `attributes` is the piece that holds the encoded attributes and
-- their terminator.
pub record Abbreviation : Type 0 where
  pub code : ℕ
  pub tag : ℕ
  pub has_children : Bool
  pub attributes : Piece

unfoldable pub read_attribute : Piece → Read Attribute
read_attribute s = do
  (name, s1) ← read_uleb s
  (form, s2) ← read_uleb s1
  done (record { name = name; form = form }, s2)

abbrev pub is_last : Attribute → Bool
is_last attribute = (attribute.name == 0) && (attribute.form == 0)

-- The loop of ReadAbbreviation. It has run out of fuel when none of the rounds came to the end.
unfoldable pub skip_attributes : ℕ → Piece → Outcome Piece
skip_attributes zero section = out_of_fuel
skip_attributes (suc fuel) section = do
  check (not (section.size == 0))
  (attribute, rest) ← read_attribute section
  let more = skip_attributes fuel rest
  if is_last attribute then done rest else more

-- The rest of ReadAbbreviation, for a code that is not 0.
unfoldable pub read_entry : ℕ → Piece → Read (Option Abbreviation)
unfolding skip_attributes
read_entry code section = do
  (tag, s2) ← read_uleb section
  (children, s3) ← read 1 s2
  rest ← skip_attributes (suc (remaining s3)) s3
  let abbreviation : Abbreviation = record {
    code = code;
    tag = tag;
    has_children = not (children == 0);
    attributes = record s3 { size = remaining s3 - remaining rest };
  }
  done (some abbreviation, rest)

-- ReadAbbreviation, with none for the result false.
unfoldable pub read_abbreviation : Piece → Read (Option Abbreviation)
unfolding read_entry
read_abbreviation section = do
  (code, s1) ← read_uleb section
  if code == 0 then done (none, s1) else read_entry code s1

-- What `abbr` holds behind the last entry, where the NOTREACHED of the loop is dropped in a release
-- build: the fields of the entry read last, with the code 0. If none was read, nothing has set them.
abbrev pub left_over : Option Abbreviation → Outcome Abbreviation
left_over none = undefined
left_over (some last) = done (record last { code = 0 })

-- The loop of GetAbbreviation; `last` is the entry read last.
unfoldable pub find_abbreviation : ℕ → ℕ → Option Abbreviation → Piece → Outcome Abbreviation
find_abbreviation zero code last section = out_of_fuel
find_abbreviation (suc fuel) code last section = do
  (found, rest) ← read_abbreviation section
  let more = find_abbreviation fuel code found rest
  elim found [
    | none ↦ left_over last
    | some abbreviation ↦ if abbreviation.code == code then done abbreviation else more
  ]

-- `abbrev` is the .debug_abbrev section.
unfoldable pub get_abbreviation : Piece → ℕ → ℕ → Outcome Abbreviation
unfolding find_abbreviation
get_abbreviation abbrevs code offset = do
  section ← advance offset abbrevs
  find_abbreviation (suc (remaining section)) code none section

-- boost::variant<uint64_t, StringPiece>.
pub data AttributeValue : Type 0 where
  number : ℕ → AttributeValue
  piece : List ℕ → AttributeValue

-- `strings` is the .debug_str section.
unfoldable pub get_string_from_string_section : Piece → ℕ → Outcome (List ℕ)
get_string_from_string_section strings offset = do
  s ← advance offset strings
  (text, rest) ← read_null_terminated s
  done text

abbrev pub as_number : Read ℕ → Read AttributeValue
as_number m = do (n, rest) ← m; done (number n, rest)

abbrev pub as_piece : Read (List ℕ) → Read AttributeValue
as_piece m = do (p, rest) ← m; done (piece p, rest)

abbrev pub as_block : Read ℕ → Read AttributeValue
as_block m = do (len, s) ← m; as_piece (read_bytes len s)

-- The forms of the switch, and `invalid` for its default.
pub data Form : Type 0 where
  addr block1 block2 block4 block exprloc data1 ref1 data2 ref2 data4 ref4 data8 ref8 : Form
  sdata udata ref_udata flag flag_present sec_offset ref_addr inline_string strp indirect : Form
  invalid : Form

-- The constants DW_FORM_* of DWARF 4, from 0x01 on; 0x02 is not used.
abbrev forms : List Form
forms =
    addr ∷ invalid ∷ block2 ∷ block4 ∷ data2 ∷ data4 ∷ data8 ∷ inline_string ∷ block ∷ block1
    ∷ data1 ∷ flag ∷ sdata ∷ strp ∷ udata ∷ ref_addr ∷ ref1 ∷ ref2 ∷ ref4 ∷ ref8 ∷ ref_udata
    ∷ indirect ∷ sec_offset ∷ exprloc ∷ flag_present ∷ []

unfoldable pub form_of : ℕ → Form
form_of n = if n == 0 then invalid else get_or forms (n - 1) invalid

-- The cases of ReadAttributeValue; `again` is the call that DW_FORM_indirect makes.
unfoldable pub read_form :
    Piece → Bool → (ℕ → Piece → Read AttributeValue) → Form → Piece → Read AttributeValue
read_form strings is_64_bits again addr s = as_number (read 8 s)
read_form strings is_64_bits again block1 s = as_block (read 1 s)
read_form strings is_64_bits again block2 s = as_block (read 2 s)
read_form strings is_64_bits again block4 s = as_block (read 4 s)
read_form strings is_64_bits again block s = as_block (read_uleb s)
read_form strings is_64_bits again exprloc s = as_block (read_uleb s)
read_form strings is_64_bits again data1 s = as_number (read 1 s)
read_form strings is_64_bits again ref1 s = as_number (read 1 s)
read_form strings is_64_bits again data2 s = as_number (read 2 s)
read_form strings is_64_bits again ref2 s = as_number (read 2 s)
read_form strings is_64_bits again data4 s = as_number (read 4 s)
read_form strings is_64_bits again ref4 s = as_number (read 4 s)
read_form strings is_64_bits again data8 s = as_number (read 8 s)
read_form strings is_64_bits again ref8 s = as_number (read 8 s)
read_form strings is_64_bits again sdata s = as_number (read_sleb s)
read_form strings is_64_bits again udata s = as_number (read_uleb s)
read_form strings is_64_bits again ref_udata s = as_number (read_uleb s)
read_form strings is_64_bits again flag s = as_number (read 1 s)
read_form strings is_64_bits again flag_present s = done (number 1, s)
read_form strings is_64_bits again sec_offset s = as_number (read_offset is_64_bits s)
read_form strings is_64_bits again ref_addr s = as_number (read_offset is_64_bits s)
read_form strings is_64_bits again inline_string s = as_piece (read_null_terminated s)
read_form strings is_64_bits again strp s = do
  (offset, rest) ← read_offset is_64_bits s
  text ← get_string_from_string_section strings offset
  done (piece text, rest)
read_form strings is_64_bits again indirect s = do (form, rest) ← read_uleb s; again form rest
read_form strings is_64_bits again invalid s = done (number 0, s)

unfoldable pub read_value_loop : ℕ → Piece → Bool → ℕ → Piece → Read AttributeValue
unfolding read_form form_of
read_value_loop zero strings is_64_bits form s = out_of_fuel
read_value_loop (suc fuel) strings is_64_bits form s =
    read_form strings is_64_bits (read_value_loop fuel strings is_64_bits) (form_of form) s

unfoldable pub read_attribute_value : Piece → Piece → ℕ → Bool → Read AttributeValue
unfolding read_value_loop
read_attribute_value strings s form is_64_bits =
    read_value_loop (suc (remaining s)) strings is_64_bits form s
