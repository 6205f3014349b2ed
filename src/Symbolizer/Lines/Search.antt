-- ===== src/Symbolizer/Lines/Search.antt =====
-- LineNumberVM::FindAddress (symbolizer/Dwarf.cc): the row of the program that covers an address.
use claire_common.Common.{
  ℕ, zero, suc, ◌+◌, ◌-◌, ◌≤◌, ◌<◌, ◌≡◌, refl, ◌≢◌, Bool, true, false, not, Option, none, some,
  List, [], ◌∷◌, ◌++◌, inl, inr, Bool-cases, ltb, leb, ◌==◌, if◌then◌else◌, length, arith,
}
use claire_common.Common.Outcome.{
  Outcome, done, check_failed, undefined, out_of_fuel, ◌>>=◌, ◌>>◌, check, at, Holds, Holds-bind,
  Holds-if, Holds-check, Holds-mono,
}
use claire_common.Symbolizer.Reader.{Piece, remaining, Read}
use claire_common.Symbolizer.Section.{Section, new_section, next_chunk}
use claire_common.Symbolizer.FilePath.{FilePath, new_path}
use claire_common.Symbolizer.Lines.{Header, Registers, reset, next_row}
use claire_common.Symbolizer.Lines.Names.{
  FileName, read_header, get_file_name, get_include_directory,
}
pub mod Rows
pub mod Crossing
pub mod Runaway
pub mod Ends

pub data State : Type 0 where
  start low_seq high_seq : State

-- The variables of the loop besides the registers.
pub record Scan : Type 0 where
  pub state : State
  pub prev_file : ℕ
  pub prev_line : ℕ

-- `state` behind a call of Next, which did not end a sequence if `committed`.
abbrev pub entered : ℕ → Bool → Registers → State → State
entered target true r start = if leb r.address target then low_seq else high_seq
entered target false r start = start
entered target committed r low_seq = low_seq
entered target committed r high_seq = high_seq

pub data Round : Type 0 where
  found : ℕ → ℕ → Round
  going : Scan → Round

abbrev pub left : Bool → State → State
left true state = state
left false state = start

-- What a round of the loop does with the registers that Next left.
abbrev pub judge : ℕ → Bool → Registers → Scan → State → Round
judge target committed r scan start = going (record scan { state = left committed start })
judge target committed r scan high_seq = going (record scan { state = left committed high_seq })
judge target committed r scan low_seq =
    if ltb target r.address
    then found scan.prev_file scan.prev_line
    else going (record { state = left committed low_seq; prev_file = r.file; prev_line = r.line })

unfoldable pub round : ℕ → Bool → Registers → Scan → Round
round target committed r scan =
    judge target committed r scan (entered target committed r scan.state)

-- Where the loop returns, and where it goes on.
abbrev pub finish : Round → (Scan → Outcome (Option (ℕ × ℕ))) → Outcome (Option (ℕ × ℕ))
finish (found prev_file prev_line) again = done (some (prev_file, prev_line))
finish (going later) again = again later

-- The loop: prev_file and prev_line where the address is crossed.
unfoldable pub find_loop : ℕ → Header → ℕ → Registers → Scan → Piece → Outcome (Option (ℕ × ℕ))
unfolding round
find_loop zero h target r scan program = out_of_fuel
find_loop (suc fuel) h target r scan program =
    let next = (do
      ((committed, after), rest) ← next_row (suc (remaining program)) h r program
      let again = λ (later : Scan).
          find_loop fuel h target (if committed then after else reset h) later rest
      finish (round target committed after scan) again) in
    if program.size == 0 then done none else next

abbrev pub first_scan : Scan
first_scan = record { state = start; prev_file = 0; prev_line = 0 }

-- The file and the line of a row.
unfoldable pub locate : Header → List ℕ → Option (ℕ × ℕ) → Outcome (Option (FilePath × ℕ))
locate h compilation_directory none = done none
locate h compilation_directory (some (zero, prev_line)) = done none
locate h compilation_directory (some (suc prev_file, prev_line)) = do
  fn ← get_file_name h (suc prev_file)
  directory ← get_include_directory h fn.directory_index
  done (some (new_path compilation_directory directory fn.relative_name, prev_line))

-- FindAddress: the path and the line, or none for the result false.
unfoldable pub find_line : Header → List ℕ → ℕ → Outcome (Option (FilePath × ℕ))
unfolding find_loop locate
find_line h compilation_directory target = do
  row ← find_loop (suc (remaining h.program)) h target (reset h) first_scan h.program
  locate h compilation_directory row

-- The constructor of LineNumberVM.
unfoldable pub new_line_number_vm : Piece → Outcome Header
new_line_number_vm s = do
  (chunk, section) ← next_chunk (new_section s)
  elim chunk [ none ↦ check_failed | some program ↦ read_header section.is_64_bits program ]
