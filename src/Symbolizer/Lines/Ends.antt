-- ===== src/Symbolizer/Lines/Ends.antt =====
-- Step and Next (symbolizer/Dwarf.cc): Step takes at least one byte, so Next ends.
use claire_common.Common.{
  ℕ, zero, suc, ◌-◌, ◌≤◌, ◌<◌, Bool, true, false, not, List, [], ◌∷◌, leb, ◌==◌, if◌then◌else◌,
  arith,
}
use claire_common.Common.Outcome.{
  done, undefined, ◌>>=◌, at, Holds, Holds-bind, Holds-if, Holds-check, Holds-mono,
}
use claire_common.Symbolizer.Reader.{Piece, remaining, Read, advance, read, read_uleb, read_sleb}
use claire_common.Symbolizer.Reader.Bounds.{
  Leaves, Leaves-bind, Leaves-then, Leaves-mono, Leaves-advance, Leaves-read, Leaves-read_uleb,
  Leaves-read_sleb, Leaves-any, Shrinks, Shrinks-read,
}
use claire_common.Symbolizer.Lines.{
  Header, Registers, StepResult, continue, commit, end_of_sequence, special_opcode, StandardOpcode,
  copy, advance_pc, advance_line, set_file, set_column, negate_stmt, set_basic_block, const_add_pc,
  fixed_advance_pc, set_prologue_end, set_epilogue_begin, set_isa, unrecognized, standard_opcode,
  skip_ulebs, run_standard, ExtendedOpcode, end_of_sequence_opcode, set_address, set_discriminator,
  other_opcode, extended_opcode, run_extended, run_special, step_extended, step_opcode, step,
  next_row,
}

pub Holds-skip_ulebs :
    (arg_count : ℕ) (s : Piece)
    → Holds (λ rest. remaining rest ≤ remaining s) (skip_ulebs arg_count s)
unfolding skip_ulebs
Holds-skip_ulebs zero s = omega arith
Holds-skip_ulebs (suc arg_count) s =
    Leaves-then (remaining s - 1) (λ rest. remaining rest ≤ remaining s) (read_uleb s) _
      (Leaves-read_uleb s)
      (λ n rest h.
        Holds-mono (λ left. remaining left ≤ remaining rest) (λ left. remaining left ≤ remaining s)
          (skip_ulebs arg_count rest) (λ left g. omega (arith, g, h))
          (Holds-skip_ulebs arg_count rest))

-- A case that reads one number and sets a register.
one_number :
    (s : Piece) (m : Read ℕ) (f : ℕ → StepResult × Registers)
    → Leaves (remaining s) m
    → Leaves (remaining s) (do (n, rest) ← m; done (f n, rest))
one_number s m f h = Leaves-bind (remaining s) (remaining s) m _ h (λ n rest g. g)

pub at-Holds : (xs : List ℕ) (i : ℕ) → Holds (λ x. Unit) (at xs i)
unfolding at
at-Holds [] i = tt
at-Holds (x ∷ xs) zero = tt
at-Holds (x ∷ xs) (suc i) = at-Holds xs i

module _ (h : Header) (r : Registers) (opcode : ℕ) (s : Piece) where
  uleb_case :
      (f : ℕ → StepResult × Registers)
      → Leaves (remaining s) (do (n, rest) ← read_uleb s; done (f n, rest))
  uleb_case f =
      one_number s (read_uleb s) f (Leaves-any (remaining s) 1 (read_uleb s) (Leaves-read_uleb s))

  Leaves-run_standard :
      (standard : StandardOpcode) → Leaves (remaining s) (run_standard h r opcode standard s)
  unfolding run_standard
  Leaves-run_standard copy = omega arith
  Leaves-run_standard advance_pc = uleb_case _
  Leaves-run_standard advance_line =
      one_number s (read_sleb s) _ (Leaves-any (remaining s) 1 (read_sleb s) (Leaves-read_sleb s))
  Leaves-run_standard set_file = uleb_case _
  Leaves-run_standard set_column = uleb_case _
  Leaves-run_standard negate_stmt = omega arith
  Leaves-run_standard set_basic_block = omega arith
  Leaves-run_standard const_add_pc =
      Holds-if (λ a. remaining a.1 ≤ remaining s) (h.line_range == 0) undefined (done (_, s)) tt
        (omega arith)
  Leaves-run_standard fixed_advance_pc =
      one_number s (read 2 s) _ (Leaves-any (remaining s) 2 (read 2 s) (Leaves-read 2 s))
  Leaves-run_standard set_prologue_end = omega arith
  Leaves-run_standard set_epilogue_begin = omega arith
  Leaves-run_standard set_isa = uleb_case _
  Leaves-run_standard unrecognized =
      Holds-bind (λ n. Unit) (λ a. remaining a.1 ≤ remaining s)
        (at h.standard_opcode_lengths (opcode - 1)) _
        (at-Holds h.standard_opcode_lengths (opcode - 1))
        (λ n u.
          Holds-bind (λ rest. remaining rest ≤ remaining s) (λ a. remaining a.1 ≤ remaining s)
            (skip_ulebs n s) _ (Holds-skip_ulebs n s) (λ rest g. g))

  Leaves-run_extended :
      (size : ℕ) (extended : ExtendedOpcode) → Leaves (remaining s) (run_extended r size extended s)
  unfolding run_extended
  Leaves-run_extended size end_of_sequence_opcode = omega arith
  Leaves-run_extended size set_address =
      one_number s (read 8 s) _ (Leaves-any (remaining s) 8 (read 8 s) (Leaves-read 8 s))
  Leaves-run_extended size set_discriminator = uleb_case _
  Leaves-run_extended size other_opcode =
      Holds-bind (λ rest. remaining rest ≤ remaining s - size) (λ a. remaining a.1 ≤ remaining s)
        (advance size s) _ (Leaves-advance size s) (λ rest g. omega (arith, g))

  Leaves-run_special : Leaves (remaining s) (run_special h r opcode s)
  unfolding run_special special_opcode
  Leaves-run_special = ground arith

Leaves-step_extended :
    (h : Header) (r : Registers) (s : Piece) → Leaves (remaining s) (step_extended r s)
unfolding step_extended
Leaves-step_extended h r s =
    let P : (StepResult × Registers) × Piece → Type 0 = λ a. remaining a.1 ≤ remaining s in
    Leaves-then (remaining s - 1) P (read_uleb s) _ (Leaves-read_uleb s) (λ size s1 h1.
      Holds-check P (not (size == 0)) _ (λ e.
        Leaves-then (remaining s1 - 1) P (read 1 s1) _ (Leaves-read 1 s1) (λ opcode s2 h2.
          Leaves-mono (remaining s2) (remaining s)
            (run_extended r (size - 1) (extended_opcode opcode) s2) (omega (arith, h1, h2))
            (Leaves-run_extended h r 0 s2 (size - 1) (extended_opcode opcode)))))

Leaves-step_opcode :
    (h : Header) (r : Registers) (opcode : ℕ) (s : Piece)
    → Leaves (remaining s) (step_opcode h r opcode s)
unfolding step_opcode
Leaves-step_opcode h r opcode s =
    let P : (StepResult × Registers) × Piece → Type 0 = λ a. remaining a.1 ≤ remaining s in
    let standard = run_standard h r opcode (standard_opcode h.version opcode) s in
    Holds-if P (leb h.opcode_base opcode) (run_special h r opcode s)
      (if not (opcode == 0) then standard else step_extended r s) (Leaves-run_special h r opcode s)
      (Holds-if P (not (opcode == 0)) standard (step_extended r s)
        (Leaves-run_standard h r opcode s (standard_opcode h.version opcode))
        (Leaves-step_extended h r s))

-- Step takes at least the byte of the opcode.
pub Shrinks-step : (h : Header) (r : Registers) (s : Piece) → Shrinks s (step h r s)
unfolding step
Shrinks-step h r s =
    Holds-bind (λ a. remaining a.1 < remaining s) (λ a. remaining a.1 < remaining s) (read 1 s) _
      (Shrinks-read 1 s (omega arith))
      (λ a g.
        Holds-mono (λ b. remaining b.1 ≤ remaining a.1) (λ b. remaining b.1 < remaining s)
          (step_opcode h r a.0 a.1) (λ b k. omega (arith, g, k)) (Leaves-step_opcode h r a.0 a.1))

row_result :
    (s rest : Piece) (after : Registers) (again : Read (Bool × Registers))
    → remaining rest < remaining s
    → Shrinks rest again
    → (result : StepResult)
    → Shrinks s (elim result [
      | continue ↦ again
      | commit ↦ done ((true, after), rest)
      | end_of_sequence ↦ done ((false, after), rest)
    ])
row_result s rest after again g h continue =
    Holds-mono (λ a. remaining a.1 < remaining rest) (λ a. remaining a.1 < remaining s) again
      (λ a k. omega (arith, k, g)) h
row_result s rest after again g h commit = g
row_result s rest after again g h end_of_sequence = g

-- Next ends on every program, and takes at least a byte of it.
pub Shrinks-next_row :
    (fuel : ℕ) (h : Header) (r : Registers) (s : Piece)
    → remaining s < fuel
    → Shrinks s (next_row fuel h r s)
unfolding next_row
Shrinks-next_row zero h r s enough = absurd (omega (arith, enough))
Shrinks-next_row (suc fuel) h r s enough =
    Holds-bind (λ a. remaining a.1 < remaining s) (λ a. remaining a.1 < remaining s) (step h r s) _
      (Shrinks-step h r s)
      (λ a g.
        row_result s a.1 a.0.1 (next_row fuel h a.0.1 a.1) g
          (Shrinks-next_row fuel h a.0.1 a.1 (omega (arith, g, enough))) a.0.0)
