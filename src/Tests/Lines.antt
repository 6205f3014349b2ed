-- ===== src/Tests/Lines.antt =====
-- A line number program of one sequence, and the searches in it.
use claire_common.Common.{
  inr, ◌≢◌, ℕ, suc, ◌≡◌, refl, true, false, some, List, [], ◌∷◌, ◌++◌, arith,
}
use claire_common.Common.Outcome.{done, undefined}
use claire_common.Symbolizer.Reader.{
  Piece, remaining, find_null, read, read_uleb, read_uleb_loop, read_sleb, sign_extend, advance,
  read_offset, read_null_terminated,
}
use claire_common.Symbolizer.FilePath.{new_path}
use claire_common.Symbolizer.Lines.{
  Header, Registers, reset, step, step_opcode, next_row, run_special, special_opcode, run_standard,
  step_extended, run_extended, extended_opcode, standard_opcode, clear_flags, skip_ulebs,
}
use claire_common.Symbolizer.Lines.Names.{
  FileName, next_define_file, get_file_name, read_header, read_fields, count_directories,
  count_file_names, nth_file_name, get_include_directory, read_file_name, check_max_ops,
}
use claire_common.Symbolizer.Lines.Defined.{get_file_name_miss}
use claire_common.Symbolizer.Lines.Search.{find_loop, round, find_line, locate}
use claire_common.Symbolizer.Lines.Search.Runaway.{find_line_runs_off}
use claire_common.Symbolizer.Lines.Search.Rows.{Emits, no_row, one_row, Row}
use claire_common.Symbolizer.Lines.Search.Crossing.{Sequence, find_line_crossing}

-- Set the address to 0x1000, commit; advance by 4 and the line by 2, commit; advance by 16; end.
abbrev program_bytes : List ℕ
program_bytes =
    0 ∷ 9 ∷ 2 ∷ 0 ∷ 16 ∷ 0 ∷ 0 ∷ 0 ∷ 0 ∷ 0 ∷ 0 ∷ 1 ∷ 2 ∷ 4 ∷ 3 ∷ 2 ∷ 1 ∷ 2 ∷ 16 ∷ 0 ∷ 1 ∷ 1 ∷ []

-- Version 2, then the length of the header; no directories, and the file "f".
abbrev header_bytes : List ℕ
header_bytes =
    2 ∷ 0 ∷ 21 ∷ 0 ∷ 0 ∷ 0 ∷ 1 ∷ 1 ∷ 251 ∷ 14 ∷ 10 ∷ 0 ∷ 1 ∷ 1 ∷ 1 ∷ 1 ∷ 0 ∷ 0 ∷ 0 ∷ 1 ∷ 0 ∷ 102 ∷ 0
    ∷ 0 ∷ 0 ∷ 0 ∷ 0 ∷ []

abbrev header : Header
header = record {
  version = 2;
  min_length = 1;
  default_is_stmt = true;
  line_base = 18446744073709551611;
  line_range = 14;
  opcode_base = 10;
  standard_opcode_lengths =
      0 ∷ 1 ∷ 1 ∷ 1 ∷ 1 ∷ 0 ∷ 0 ∷ 0 ∷ 1 ∷ 0 ∷ 102 ∷ 0 ∷ 0 ∷ 0 ∷ 0 ∷ 0 ∷ program_bytes;
  include_directories = record { ahead = 0 ∷ 102 ∷ 0 ∷ 0 ∷ 0 ∷ 0 ∷ 0 ∷ program_bytes; size = 1 };
  include_directory_count = 0;
  file_names = record { ahead = 102 ∷ 0 ∷ 0 ∷ 0 ∷ 0 ∷ 0 ∷ program_bytes; size = 6 };
  file_name_count = 1;
  program = record { ahead = program_bytes; size = 28 };
}

abbrev pub unit_bytes : List ℕ
unit_bytes = header_bytes ++ program_bytes

-- Init reads the header. The unit has 49 bytes, and 22 of them are the program, but the size that
-- Init gives the program is 6 more, since its reads of 6 bytes left the size.
read-header_bytes : read_header false (record { ahead = unit_bytes; size = 49 }) ≡ done header
unfolding read_header read_fields count_directories count_file_names read_file_name check_max_ops
    read advance read_offset read_null_terminated read_uleb read_uleb_loop find_null
read-header_bytes = refl

abbrev registers : ℕ → ℕ → Registers
registers address line = record {
  address = address;
  file = 1;
  line = line;
  column = 0;
  is_stmt = true;
  basic_block = false;
  end_sequence = false;
  prologue_end = false;
  epilogue_begin = false;
  isa = 0;
  discriminator = 0;
}

abbrev rows : List Row
rows = (true, registers 4096 1) ∷ (true, registers 4100 3) ∷ (false, registers 4116 3) ∷ []

-- The rows of the program.
program-Emits : Emits header (reset header) header.program rows (record { ahead = []; size = 28 })
unfolding next_row step step_opcode run_standard run_special special_opcode step_extended
    run_extended extended_opcode standard_opcode clear_flags skip_ulebs reset read advance read_uleb
    read_uleb_loop read_sleb sign_extend
program-Emits =
    one_row (omega arith) refl (one_row (omega arith) refl (one_row (omega arith) refl no_row))

-- The first two of them.
start-Emits :
    Emits header
      (reset header)
      header.program
      ((true, registers 4096 1) ∷ (true, registers 4100 3) ∷ [])
      (record { ahead = 2 ∷ 16 ∷ 0 ∷ 1 ∷ 1 ∷ []; size = 28 })
unfolding next_row step step_opcode run_standard run_special special_opcode step_extended
    run_extended extended_opcode standard_opcode clear_flags skip_ulebs reset read advance read_uleb
    read_uleb_loop read_sleb sign_extend
start-Emits = one_row (omega arith) refl (one_row (omega arith) refl no_row)

-- 4098 lies in the first row.
-- The file "f" of the tables, in the directory of the compilation.
abbrev file_f : FileName
file_f = record { relative_name = 102 ∷ []; directory_index = 0 }

find_line_crossing_example : find_line header [] 4098 ≡ done (some (new_path [] [] (102 ∷ []), 1))
unfolding get_file_name nth_file_name read_file_name read_null_terminated read_uleb read_uleb_loop
    get_include_directory find_null
find_line_crossing_example =
    find_line_crossing header [] 4098 [] [] (registers 4096 1) (registers 4100 3) true
      (record { ahead = 2 ∷ 16 ∷ 0 ∷ 1 ∷ 1 ∷ []; size = 28 }) file_f [] tt tt (omega arith)
      (omega arith) start-Emits (omega arith) refl refl

-- Behind its sequence the program reads on, for 5000 until the file ends.
run_away : find_line header [] 5000 ≡ undefined
unfolding find_line find_loop round next_row step step_opcode run_standard run_special
    special_opcode step_extended run_extended extended_opcode standard_opcode clear_flags skip_ulebs
    reset read advance read_uleb read_uleb_loop read_sleb sign_extend
run_away = refl

-- The whole program is one sequence, which ends below 5000.
abbrev only : Sequence
only = record { body = registers 4096 1 ∷ registers 4100 3 ∷ []; last = registers 4116 3 }

find_line_runs_off_example : find_line header [] 5000 ≡ undefined
find_line_runs_off_example =
    find_line_runs_off header [] 5000 (only ∷ []) (record { ahead = []; size = 28 })
      (inr ((omega arith, (omega arith, tt)), omega arith), tt) program-Emits (omega arith) refl

-- A program that defines the file "g".
abbrev defining_bytes : Piece
defining_bytes = record { ahead = 0 ∷ 6 ∷ 3 ∷ 103 ∷ 0 ∷ 0 ∷ 0 ∷ 0 ∷ []; size = 8 }

abbrev file_g : FileName
file_g = record { relative_name = 103 ∷ []; directory_index = 0 }

-- The header has one file, so that "g" would be the second.
get_file_name_miss_example :
    ((rest : Piece)
      → next_define_file (suc (remaining defining_bytes)) header defining_bytes
        ≢ done (some file_g, rest))
    × (get_file_name header 2 ≢ done file_g)
get_file_name_miss_example = get_file_name_miss header defining_bytes 2 (omega arith) file_g

-- The path of the row is "/f".
locate_first : locate header [] (some (1, 1)) ≡ done (some (new_path [] [] (102 ∷ []), 1))
unfolding locate get_file_name nth_file_name read_file_name read_null_terminated read_uleb
    read_uleb_loop get_include_directory find_null
locate_first = refl
