-- ===== src/Symbolizer/Lines.antt =====
-- Dwarf::LineNumberVM (symbolizer/Dwarf.h and .cc): the header of a line number program and the
-- machine that runs the program. The numbers of opcodes are those of DWARF 4.
use claire_common.Common.{
  ℕ, zero, suc, ◌+◌, ◌-◌, ◌*◌, ◌/◌, ◌%◌, ◌^◌, Bool, true, false, not, ◌&&◌, Option, none, some,
  List, [], ◌∷◌, ltb, leb, ◌==◌, if◌then◌else◌, length, get_or, take, drop,
}
use claire_common.Common.Outcome.{
  Outcome, done, check_failed, undefined, out_of_fuel, ◌>>=◌, ◌>>◌, check, at,
}
use claire_common.Symbolizer.Reader.{
  Piece, remaining, Read, advance, read, read_uleb, read_sleb, read_offset, read_null_terminated,
}
use claire_common.Symbolizer.FilePath.{is_empty}
pub mod Names
pub mod Defined
pub mod Ends
pub mod Sizes
pub mod Search

-- What Init reads; `program` is `data_` after it. The lengths of the
-- standard opcodes are a pointer, and so all bytes from there on.
pub record Header : Type 0 where
  pub version : ℕ
  pub min_length : ℕ
  pub default_is_stmt : Bool
  pub line_base : ℕ
  pub line_range : ℕ
  pub opcode_base : ℕ
  pub standard_opcode_lengths : List ℕ
  pub include_directories : Piece
  pub include_directory_count : ℕ
  pub file_names : Piece
  pub file_name_count : ℕ
  pub program : Piece

-- The registers of the state machine.
pub record Registers : Type 0 where
  pub address : ℕ
  pub file : ℕ
  pub line : ℕ
  pub column : ℕ
  pub is_stmt : Bool
  pub basic_block : Bool
  pub end_sequence : Bool
  pub prologue_end : Bool
  pub epilogue_begin : Bool
  pub isa : ℕ
  pub discriminator : ℕ

unfoldable pub reset : Header → Registers
reset h = record {
  address = 0;
  file = 1;
  line = 1;
  column = 0;
  is_stmt = h.default_is_stmt;
  basic_block = false;
  end_sequence = false;
  prologue_end = false;
  epilogue_begin = false;
  isa = 0;
  discriminator = 0;
}

pub data StepResult : Type 0 where
  continue commit end_of_sequence : StepResult

-- An int8_t that is widened to 64 bits.
abbrev pub extend_int8 : ℕ → ℕ
extend_int8 b = if ltb b 128 then b else b + (2 ^ 64 - 256)

-- What a committed row clears.
unfoldable pub clear_flags : Registers → Registers
clear_flags r = record r {
  basic_block = false;
  prologue_end = false;
  epilogue_begin = false;
  discriminator = 0;
}

abbrev pub add_address : ℕ → Registers → Registers
add_address n r = record r { address = (r.address + n) % 2 ^ 64 }

abbrev pub add_line : ℕ → Registers → Registers
add_line n r = record r { line = (r.line + n) % 2 ^ 64 }

-- A special opcode; a division by 0 is undefined.
unfoldable pub special_opcode : Header → Registers → ℕ → Outcome Registers
unfolding clear_flags
special_opcode h r opcode =
    let adjusted_opcode = opcode - h.opcode_base in
    let op_advance = adjusted_opcode / h.line_range in
    let moved = add_address (h.min_length * op_advance) r in
    if h.line_range == 0
    then undefined
    else done (clear_flags (add_line (h.line_base + adjusted_opcode % h.line_range) moved))

-- The cases of the switch; version 2 does not have the last three.
pub data StandardOpcode : Type 0 where
  copy advance_pc advance_line set_file set_column negate_stmt : StandardOpcode
  set_basic_block const_add_pc fixed_advance_pc : StandardOpcode
  set_prologue_end set_epilogue_begin set_isa unrecognized : StandardOpcode

-- From DW_LNS_copy, which is 1, on.
abbrev standard_opcodes : List StandardOpcode
standard_opcodes =
    copy ∷ advance_pc ∷ advance_line ∷ set_file ∷ set_column ∷ negate_stmt ∷ set_basic_block
    ∷ const_add_pc ∷ fixed_advance_pc ∷ set_prologue_end ∷ set_epilogue_begin ∷ set_isa ∷ []

unfoldable pub standard_opcode : ℕ → ℕ → StandardOpcode
standard_opcode version opcode =
    if (version == 2) && leb 10 opcode
    then unrecognized
    else get_or standard_opcodes (opcode - 1) unrecognized

-- `while (arg_count--) ReadULEB(program)`.
unfoldable pub skip_ulebs : ℕ → Piece → Outcome Piece
skip_ulebs zero s = done s
skip_ulebs (suc arg_count) s = do (n, rest) ← read_uleb s; skip_ulebs arg_count rest

unfoldable pub run_standard :
    Header → Registers → ℕ → StandardOpcode → Piece → Read (StepResult × Registers)
unfolding skip_ulebs clear_flags
run_standard h r opcode copy s = done ((commit, clear_flags r), s)
run_standard h r opcode advance_pc s = do
  (n, rest) ← read_uleb s
  done ((continue, add_address (h.min_length * n % 2 ^ 64) r), rest)
run_standard h r opcode advance_line s = do
  (n, rest) ← read_sleb s
  done ((continue, add_line n r), rest)
run_standard h r opcode set_file s = do
  (n, rest) ← read_uleb s
  done ((continue, record r { file = n }), rest)
run_standard h r opcode set_column s = do
  (n, rest) ← read_uleb s
  done ((continue, record r { column = n }), rest)
run_standard h r opcode negate_stmt s = done ((continue, record r { is_stmt = not r.is_stmt }), s)
run_standard h r opcode set_basic_block s = done ((continue, record r { basic_block = true }), s)
run_standard h r opcode const_add_pc s =
    if h.line_range == 0
    then undefined
    else done ((continue, add_address (h.min_length * ((255 - h.opcode_base) / h.line_range)) r), s)
run_standard h r opcode fixed_advance_pc s = do
  (n, rest) ← read 2 s
  done ((continue, add_address n r), rest)
run_standard h r opcode set_prologue_end s = done ((continue, record r { prologue_end = true }), s)
run_standard h r opcode set_epilogue_begin s =
    done ((continue, record r { epilogue_begin = true }), s)
run_standard h r opcode set_isa s = do
  (n, rest) ← read_uleb s
  done ((continue, record r { isa = n }), rest)
run_standard h r opcode unrecognized s = do
  arg_count ← at h.standard_opcode_lengths (opcode - 1)
  rest ← skip_ulebs arg_count s
  done ((continue, r), rest)

-- DW_LNE_define_file falls to the default, which skips it.
pub data ExtendedOpcode : Type 0 where
  end_of_sequence_opcode set_address set_discriminator other_opcode : ExtendedOpcode

unfoldable pub extended_opcode : ℕ → ExtendedOpcode
extended_opcode n =
    get_or
      (other_opcode ∷ end_of_sequence_opcode ∷ set_address ∷ other_opcode ∷ set_discriminator ∷ [])
      n other_opcode

-- `size` is `length` without the opcode.
unfoldable pub run_extended : Registers → ℕ → ExtendedOpcode → Piece → Read (StepResult × Registers)
run_extended r size end_of_sequence_opcode s = done ((end_of_sequence, r), s)
run_extended r size set_address s = do
  (n, rest) ← read 8 s
  done ((continue, record r { address = n }), rest)
run_extended r size set_discriminator s = do
  (n, rest) ← read_uleb s
  done ((continue, record r { discriminator = n }), rest)
run_extended r size other_opcode s = do rest ← advance size s; done ((continue, r), rest)

unfoldable pub run_special : Header → Registers → ℕ → Piece → Read (StepResult × Registers)
unfolding special_opcode
run_special h r opcode s = do after ← special_opcode h r opcode; done ((commit, after), s)

-- The end of Step, behind an opcode that is 0.
unfoldable pub step_extended : Registers → Piece → Read (StepResult × Registers)
unfolding run_extended extended_opcode
step_extended r s = do
  (size, s1) ← read_uleb s
  check (not (size == 0))
  (opcode, s2) ← read 1 s1
  run_extended r (size - 1) (extended_opcode opcode) s2

-- Step.
unfoldable pub step_opcode : Header → Registers → ℕ → Piece → Read (StepResult × Registers)
unfolding run_special run_standard standard_opcode step_extended
step_opcode h r opcode s =
    if leb h.opcode_base opcode
    then run_special h r opcode s
    else if not (opcode == 0)
    then run_standard h r opcode (standard_opcode h.version opcode) s
    else step_extended r s

unfoldable pub step : Header → Registers → Piece → Read (StepResult × Registers)
unfolding step_opcode
step h r program = do (opcode, rest) ← read 1 program; step_opcode h r opcode rest

-- Next: whether a row was committed, and not the end of a sequence.
unfoldable pub next_row : ℕ → Header → Registers → Piece → Read (Bool × Registers)
unfolding step
next_row zero h r program = out_of_fuel
next_row (suc fuel) h r program = do
  ((result, after), rest) ← step h r program
  let again = next_row fuel h after rest
  elim result [
    | continue ↦ again
    | commit ↦ done ((true, after), rest)
    | end_of_sequence ↦ done ((false, after), rest)
  ]
