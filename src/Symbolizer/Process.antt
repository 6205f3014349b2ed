-- ===== src/Symbolizer/Process.antt =====
-- Symbolizer (symbolizer/Symbolizer.h and .cc): from an address of the process to the name of the
-- function and the line. The lines of /proc/self/maps, what the regular expression makes of a line,
-- and the bytes of a file are arguments.
use claire_common.Common.{
  ℕ, zero, suc, ◌+◌, ◌-◌, ◌*◌, ◌%◌, ◌^◌, Bool, true, false, not, ◌&&◌, ◌||◌, Option, none, some,
  List, [], ◌∷◌, ◌++◌, min, ltb, leb, ◌==◌, if◌then◌else◌,
}
use claire_common.Common.Outcome.{Outcome, done, check_failed, undefined, ◌>>=◌}
use claire_common.Strings.Piece.{equal}
use claire_common.Symbolizer.Reader.{Piece}
use claire_common.Symbolizer.Elf.{
  section_at, symbol_at, init_elf, get_section_by_name, get_section_body,
}
use claire_common.Symbolizer.Elf.Symbols.{get_definition_by_address, get_symbol_name}
use claire_common.Symbolizer.Lookup.{
  Dwarf, SectionName, debug_info, debug_abbrev, debug_aranges, debug_line, debug_str, new_dwarf,
  LocationInfo, find_address,
}
pub mod Symbolize
pub mod Mapping
pub mod Sections
pub mod Answers
pub mod Cache

-- The groups of the regular expression: from, to, offset and file name.
pub record MapsLine : Type 0 where
  pub from : List ℕ
  pub to : List ℕ
  pub offset : List ℕ
  pub file_name : List ℕ

abbrev pub digit_value : ℕ → Option ℕ
digit_value c =
    if leb b'0' c && leb c b'9'
    then some (c - b'0')
    else if leb b'a' c && leb c b'f'
    then some (c - b'a' + 10)
    else if leb b'A' c && leb c b'F'
    then some (c - b'A' + 10)
    else none

-- The value of strtoull for base 16 and where it is past the end of the text, which the CHECK of
-- FromHex asks for. The regular expression lets through hexadecimal digits only, so neither space
-- nor a sign nor "0x" is read.
abbrev pub add_digit : ℕ → Option ℕ → Outcome ℕ
add_digit value none = check_failed
add_digit value (some d) = done (value * 16 + d)

unfoldable pub value_loop : List ℕ → ℕ → Outcome ℕ
value_loop [] value = done value
value_loop (c ∷ s) value = do value' ← add_digit value (digit_value c); value_loop s value'

-- A number that is too large comes out as the largest.
unfoldable pub from_hex : List ℕ → Outcome ℕ
unfolding value_loop
from_hex [] = check_failed
from_hex (c ∷ s) = do value ← value_loop (c ∷ s) 0; done (min value (2 ^ 64 - 1))

pub record MappedFile : Type 0 where
  pub begin : ℕ
  pub end_of : ℕ
  pub name : List ℕ

-- A mapping that is a file's first, and contains the address.
abbrev pub is_main : ℕ → ℕ → ℕ → ℕ → Bool
is_main address from to offset = (offset == 0) && leb from address && ltb address to

module _ (match_line : List ℕ → Option MapsLine) where
  -- Of a line that the expression does not match the CHECK fails.
  abbrev pub mapping_of : Option MapsLine → ℕ → Outcome (Option MappedFile)
  mapping_of none address = check_failed
  mapping_of (some line) address = do
    from ← from_hex line.from
    to ← from_hex line.to
    offset ← from_hex line.offset
    done (
        if is_main address from to offset
        then some (record { begin = from; end_of = to; name = line.file_name })
        else none)

  -- The loop over the lines.
  unfoldable pub find_mapping : List (List ℕ) → ℕ → Outcome (Option MappedFile)
  unfolding from_hex
  find_mapping [] address = done none
  find_mapping ([] ∷ lines) address = find_mapping lines address
  find_mapping ((c ∷ line) ∷ lines) address = do
    mapping ← mapping_of (match_line (c ∷ line)) address
    let others = find_mapping lines address
    elim mapping [ some found ↦ done (some found) | none ↦ others ]

-- An ElfFile that is open: its bytes and its base address.
pub record ElfFile : Type 0 where
  pub bytes : List ℕ
  pub base_address : ℕ

-- elf_files_.
abbrev pub ElfFiles : Type 0
ElfFiles = List (List ℕ × ElfFile)

unfoldable pub find_file : List ℕ → ElfFiles → Option ElfFile
find_file name [] = none
find_file name ((key, file) ∷ files) =
    let others = find_file name files in if equal key name then some file else others

abbrev pub last_of : ℕ → List ℕ → ℕ
last_of c [] = c
last_of c (d ∷ s) = last_of d s

module _ (load : List ℕ → Option (List ℕ)) where
  -- The constructor; its DCHECKs are dropped, so a file that cannot be mapped is read all the same.
  abbrev pub new_elf_file : Option (List ℕ) → Outcome ElfFile
  new_elf_file none = undefined
  new_elf_file (some bytes) = do
    base ← init_elf bytes
    done (record { bytes = bytes; base_address = base })

  abbrev pub cached_or_new :
      List ℕ → ElfFiles → Option ElfFile → Outcome (Option ElfFile × ElfFiles)
  cached_or_new name files (some file) = done (some file, files)
  cached_or_new name files none = do
    file ← new_elf_file (load name)
    done (some file, (name, file) ∷ files)

  -- `name[name.size()-1]` of an empty name is out of range.
  unfoldable pub get_file : List ℕ → ElfFiles → Outcome (Option ElfFile × ElfFiles)
  unfolding find_file
  get_file [] files = undefined
  get_file (c ∷ name) files =
      let found = cached_or_new (c ∷ name) files (find_file (c ∷ name) files) in
      if (c == b'[') || (last_of c name == b')') then done (none, files) else found
