-- ===== src/Tests/Dwarf.antt =====
-- The readers of the symbolizer on bytes of the DWARF standard's examples, and paths.
use claire_common.Common.{
  ℕ, ◌<◌, length, ◌≡◌, refl, false, Option, none, some, List, [], ◌∷◌, ◌++◌, arith,
}
use claire_common.Common.Int.{negsuc}
use claire_common.Common.Outcome.{done, check_failed, undefined}
use claire_common.Symbolizer.Reader.{
  Piece, read, read_uleb, read_uleb_loop, read_sleb, sign_extend, advance, read_bytes,
}
use claire_common.Symbolizer.Reader.Varint.{sleb, int64, read_uleb-uleb, read_sleb-sleb}
use claire_common.Symbolizer.FilePath.{
  FilePath, new_path, normalized, strip_slashes, drop_slashes, drop_last_slashes, size, to_string,
  to_buffer,
}
use claire_common.Symbolizer.FilePath.Text.{truncated, to_buffer-to_string}
use claire_common.Symbolizer.Entries.{
  get_abbreviation, find_abbreviation, read_abbreviation, read_entry, skip_attributes,
  read_attribute, read_attribute_value, read_value_loop, read_form, form_of,
}
use claire_common.Symbolizer.Entries.Table.{get_abbreviation-table_bytes}
use claire_common.Symbolizer.Entries.Stored.{
  Number, IsNumber, StoredEntry, IsEntry, entry_bytes, table_bytes, abbreviation_of,
}
use claire_common.Symbolizer.Lookup.{
  no_piece, SectionName, debug_str, new_dwarf, get_sections, get_section, find_address,
}

-- A piece of five bytes ahead of which these are.
abbrev five : List ℕ → Piece
five ahead = record { ahead = ahead; size = 5 }

read_624485 : read_uleb (five (0xe5 ∷ 0x8e ∷ 0x26 ∷ 7 ∷ [])) ≡ done (624485, five (7 ∷ []))
unfolding read_uleb read_uleb_loop
read_624485 = refl

read_minus_123456 :
    read_sleb (five (0xc0 ∷ 0xbb ∷ 0x78 ∷ [])) ≡ done (18446744073709428160, five [])
unfolding read_sleb read_uleb_loop sign_extend
read_minus_123456 = refl

-- Eleven bytes: the last is shifted by 70.
read_too_long :
    read_uleb (five (128 ∷ 128 ∷ 128 ∷ 128 ∷ 128 ∷ 128 ∷ 128 ∷ 128 ∷ 128 ∷ 128 ∷ 0 ∷ []))
    ≡ undefined
unfolding read_uleb read_uleb_loop
read_too_long = refl

-- A piece of five bytes gives up a sixth.
read_behind :
    read 2 (record { ahead = 1 ∷ 2 ∷ 3 ∷ []; size = 2 })
    ≡ done (513, record { ahead = 3 ∷ []; size = 2 })
unfolding read advance
read_behind = refl

-- Two of five bytes cannot be read.
read_two_of_five : read_bytes 2 (five (1 ∷ 2 ∷ 3 ∷ 4 ∷ 5 ∷ [])) ≡ check_failed
unfolding read_bytes
read_two_of_five = refl

read_sleb-sleb_example :
    read_sleb (five (sleb 2 (negsuc 123455) ++ (7 ∷ [])))
    ≡ done (int64 (negsuc 123455), five (7 ∷ []))
read_sleb-sleb_example =
    read_sleb-sleb 2 (negsuc 123455) 5 (7 ∷ []) (omega arith) (omega arith) (omega arith)

-- "/a/", "b/" and "c".
abbrev some_path : FilePath
unfolding new_path normalized strip_slashes drop_slashes drop_last_slashes
some_path = new_path (47 ∷ 97 ∷ 47 ∷ []) (98 ∷ 47 ∷ []) (99 ∷ [])

print-some_path : to_string some_path [] ≡ 47 ∷ 97 ∷ 47 ∷ 98 ∷ 47 ∷ 99 ∷ []
unfolding to_string new_path normalized strip_slashes drop_slashes drop_last_slashes
print-some_path = refl

-- A relative file without directories is printed like one in the root directory.
print_relative : to_string (new_path [] [] (99 ∷ [])) [] ≡ 47 ∷ 99 ∷ []
unfolding to_string new_path normalized strip_slashes drop_slashes drop_last_slashes
print_relative = refl

to_buffer-to_string_example :
    (to_buffer some_path 5 ≡ (truncated 5 (to_string some_path []), size some_path))
    × (size some_path ≡ length (to_string some_path []))
to_buffer-to_string_example = to_buffer-to_string some_path 5

abbrev one_byte : ℕ → Number
one_byte n = record { value = n; bytes = n ∷ [] }

one_byte-IsNumber : (n : ℕ) → n < 128 → IsNumber (one_byte n)
one_byte-IsNumber n small = (
  omega arith,
  λ rest size full.
      read_uleb-uleb 0 n size rest full (omega arith) (omega (arith, small)) (omega (arith, small)),
)

abbrev entry : ℕ → ℕ → StoredEntry
entry code tag = record {
  code = one_byte code;
  tag = one_byte tag;
  children = 1;
  attributes = record { name = one_byte 3; form = one_byte 8 } ∷ [];
}

entry-IsEntry : (code tag : ℕ) → code < 128 → 0 < code → tag < 128 → IsEntry (entry code tag)
entry-IsEntry code tag small positive h = (
  one_byte-IsNumber code small,
  (λ e. omega (arith, e, positive)),
  one_byte-IsNumber tag h,
  ((one_byte-IsNumber 3 (omega arith), one_byte-IsNumber 8 (omega arith), refl), tt),
)

get_abbreviation-table_bytes_example :
    get_abbreviation
      (five ((9 ∷ []) ++ (table_bytes (entry 1 17 ∷ []) ++ (entry_bytes (entry 2 46) ++ (0 ∷ [])))))
      2
      1
    ≡ done (abbreviation_of (entry 2 46) (0 ∷ []))
get_abbreviation-table_bytes_example =
    get_abbreviation-table_bytes 5 (9 ∷ []) (entry 1 17 ∷ []) (entry 2 46) (0 ∷ []) (omega arith)
      (entry-IsEntry 1 17 (omega arith) (omega arith) (omega arith), tt)
      ((λ e. omega (arith, e)), tt) (entry-IsEntry 2 46 (omega arith) (omega arith) (omega arith))

-- Past the last entry a release build returns the fields of that entry.
missing_code :
    get_abbreviation (five (1 ∷ 17 ∷ 0 ∷ 0 ∷ 0 ∷ 0 ∷ [])) 2 0
    ≡ done (record {
      code = 0;
      tag = 17;
      has_children = false;
      attributes = record { ahead = 0 ∷ 0 ∷ 0 ∷ []; size = 2 };
    })
unfolding get_abbreviation find_abbreviation read_abbreviation read_entry skip_attributes
    read_attribute read_uleb read_uleb_loop read advance
missing_code = refl

-- A block that is not the rest of its piece.
read_block : read_attribute_value no_piece (five (2 ∷ 5 ∷ 6 ∷ 7 ∷ 8 ∷ [])) 0x0a false ≡ check_failed
unfolding read_attribute_value read_value_loop read_form form_of read advance read_bytes
read_block = refl

-- Without .debug_str there is no file to look in.
without_strings : SectionName → Option Piece
without_strings debug_str = none
without_strings name = some (five (1 ∷ []))

find_without_strings : find_address (new_dwarf without_strings) 5 ≡ done none
unfolding find_address new_dwarf get_sections get_section without_strings
find_without_strings = refl
