-- ===== src/Symbolizer/Lines/Names.antt =====
-- The header of a line number program, and the names of files and directories that rows refer to
-- (symbolizer/Dwarf.cc: Init, ReadFileName, GetFileName, NextDefineFile, GetIncludeDirectory).
use claire_common.Common.{
  ℕ, zero, suc, ◌+◌, ◌-◌, Bool, true, false, not, ◌&&◌, Option, none, some, List, [], leb, ◌==◌,
  if◌then◌else◌,
}
use claire_common.Common.Outcome.{
  Outcome, done, check_failed, undefined, out_of_fuel, ◌>>=◌, ◌>>◌, check, at,
}
use claire_common.Symbolizer.Reader.{
  Piece, remaining, Read, advance, read, read_uleb, read_offset, read_null_terminated,
}
use claire_common.Symbolizer.FilePath.{is_empty}
use claire_common.Symbolizer.Lines.{Header, extend_int8, skip_ulebs}

-- FileName.
pub record FileName : Type 0 where
  pub relative_name : List ℕ
  pub directory_index : ℕ

abbrev pub read_file_fields : List ℕ → Piece → Read (Option FileName)
read_file_fields relative_name s = do
  (directory_index, s1) ← read_uleb s
  (modified, s2) ← read_uleb s1
  (file_size, s3) ← read_uleb s2
  let found : FileName = record { relative_name = relative_name; directory_index = directory_index }
  done (some found, s3)

-- ReadFileName, with none for the result false.
unfoldable pub read_file_name : Piece → Read (Option FileName)
read_file_name program = do
  (relative_name, s) ← read_null_terminated program
  if is_empty relative_name then done (none, s) else read_file_fields relative_name s

-- The loops of Init over directories and over files: how many there are.
unfoldable pub count_directories : ℕ → ℕ → Piece → Read ℕ
count_directories zero count s = out_of_fuel
count_directories (suc fuel) count s = do
  (directory, rest) ← read_null_terminated s
  let more = count_directories fuel (count + 1) rest
  if is_empty directory then done (count, rest) else more

unfoldable pub count_file_names : ℕ → ℕ → Piece → Read ℕ
count_file_names zero count s = out_of_fuel
count_file_names (suc fuel) count s = do
  (found, rest) ← read_file_name s
  let more = count_file_names fuel (count + 1) rest
  elim found [ none ↦ done (count, rest) | some fn ↦ more ]

-- Version 4 has one more byte, which must be 1.
unfoldable pub check_max_ops : ℕ → Piece → Outcome Piece
check_max_ops version header =
    if version == 4
    then (do
      (max_ops_per_instruction, rest) ← read 1 header
      check (max_ops_per_instruction == 1)
      done rest)
    else done header

-- Init behind the length of the header: `header` is what that length covers, and `program` what
-- follows it.
unfoldable pub read_fields : ℕ → Piece → Piece → Outcome Header
unfolding count_directories count_file_names check_max_ops
read_fields version header program = do
  (min_length, h1) ← read 1 header
  h2 ← check_max_ops version h1
  (default_is_stmt, h3) ← read 1 h2
  (line_base, h4) ← read 1 h3
  (line_range, h5) ← read 1 h4
  (opcode_base, h6) ← read 1 h5
  check (not (opcode_base == 0))
  h7 ← advance (opcode_base - 1) h6
  (include_directory_count, h8) ← count_directories (suc (remaining h7)) 0 h7
  (file_name_count, h9) ← count_file_names (suc (remaining h8)) 0 h8
  done (record {
    version = version;
    min_length = min_length;
    default_is_stmt = not (default_is_stmt == 0);
    line_base = extend_int8 line_base;
    line_range = line_range;
    opcode_base = opcode_base;
    standard_opcode_lengths = h6.ahead;
    include_directories = record h7 { size = remaining h7 - remaining h8 };
    include_directory_count = include_directory_count;
    file_names = record h8 { size = remaining h8 - remaining h9 };
    file_name_count = file_name_count;
    program = program;
  })

-- Init.
unfoldable pub read_header : Bool → Piece → Outcome Header
unfolding read_fields
read_header is_64_bits s = do
  (version, s1) ← read 2 s
  check (leb 2 version && leb version 4)
  (header_length, s2) ← read_offset is_64_bits s1
  check (leb header_length s2.size)
  rest ← advance header_length s2
  read_fields version (record s2 { size = header_length })
      (record rest { size = s2.size - header_length })

-- What NextDefineFile does behind an opcode that is not special: a file, or none and where to go on.
-- The last test compares `opcode`, and not the extended opcode, with DW_LNE_define_file.
unfoldable pub define_file_round : Header → ℕ → Piece → Read (Option FileName)
unfolding skip_ulebs
define_file_round h opcode s =
    if not (opcode == 0)
    then (do
      arg_count ← at h.standard_opcode_lengths (opcode - 1)
      rest ← skip_ulebs arg_count s
      done (none, rest))
    else (do
      (size, s1) ← read_uleb s
      check (not (size == 0))
      (extended_opcode, s2) ← read 1 s1
      if opcode == 3
          then (do
            (found, rest) ← read_file_name s2
            check (elim found [ none ↦ false | some fn ↦ true ])
            done (found, rest))
          else (do rest ← advance (size - 1) s2; done (none, rest)))

-- NextDefineFile, with none for the result false.
unfoldable pub next_define_file : ℕ → Header → Piece → Read (Option FileName)
unfolding define_file_round
next_define_file zero h program = out_of_fuel
next_define_file (suc fuel) h program =
    let next = (do
      (opcode, s) ← read 1 program
      (found, rest) ←
          (if leb h.opcode_base opcode then done (none, s) else define_file_round h opcode s)
      let again = next_define_file fuel h rest
      elim found [ none ↦ again | some fn ↦ done (some fn, rest) ]) in
    if program.size == 0 then done (none, program) else next

-- The first loop of GetFileName. It aborts where the table has no more names; before any name has
-- been read, `fn` is not set.
unfoldable pub nth_file_name : ℕ → Piece → Option FileName → Outcome FileName
nth_file_name zero s none = undefined
nth_file_name zero s (some fn) = done fn
nth_file_name (suc index) s fn = do
  (found, rest) ← read_file_name s
  elim found [ none ↦ check_failed | some next ↦ nth_file_name index rest (some next) ]

-- The second loop.
unfoldable pub nth_defined_file : Header → ℕ → Piece → Option FileName → Outcome FileName
unfolding next_define_file
nth_defined_file h zero s none = undefined
nth_defined_file h zero s (some fn) = done fn
nth_defined_file h (suc index) s fn = do
  (found, rest) ← next_define_file (suc (remaining s)) h s
  elim found [ none ↦ check_failed | some next ↦ nth_defined_file h index rest (some next) ]

unfoldable pub get_file_name : Header → ℕ → Outcome FileName
unfolding nth_file_name nth_defined_file
get_file_name h index =
    if leb index h.file_name_count
    then nth_file_name index h.file_names none
    else nth_defined_file h (index - h.file_name_count) h.program none

-- The loop of GetIncludeDirectory; it aborts on an empty name.
unfoldable pub nth_directory : ℕ → Piece → List ℕ → Outcome (List ℕ)
nth_directory zero s directory = done directory
nth_directory (suc index) s directory = do
  (next, rest) ← read_null_terminated s
  check (not (is_empty next))
  nth_directory index rest next

unfoldable pub get_include_directory : Header → ℕ → Outcome (List ℕ)
unfolding nth_directory
get_include_directory h index =
    if index == 0
    then done []
    else (check (leb index h.include_directory_count)
        >> nth_directory index h.include_directories [])
