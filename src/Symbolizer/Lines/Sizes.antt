-- ===== src/Symbolizer/Lines/Sizes.antt =====
-- Step and Next (symbolizer/Dwarf.cc): StringPiece::advance leaves the size of the program as it is.
use claire_common.Common.{
  ℕ, zero, suc, ◌+◌, ◌-◌, ◌*◌, ◌%◌, ◌^◌, ◌<◌, ◌≡◌, refl, ◌∙◌, Bool, true, false, not, List, [], ◌∷◌,
  ltb, leb, ◌==◌, if◌then◌else◌, arith,
}
use claire_common.Common.Outcome.{
  done, undefined, ◌>>=◌, at, Holds, Holds-bind, Holds-if, Holds-check, Holds-mono, Holds-both,
}
use claire_common.Symbolizer.Reader.{
  Piece, remaining, Read, advance, read, read_uleb_loop, read_uleb, read_sleb,
}
use claire_common.Symbolizer.Lines.{
  Header, Registers, StepResult, continue, commit, end_of_sequence, special_opcode, StandardOpcode,
  copy, advance_pc, advance_line, set_file, set_column, negate_stmt, set_basic_block, const_add_pc,
  fixed_advance_pc, set_prologue_end, set_epilogue_begin, set_isa, unrecognized, standard_opcode,
  skip_ulebs, run_standard, ExtendedOpcode, end_of_sequence_opcode, set_address, set_discriminator,
  other_opcode, extended_opcode, run_extended, run_special, step_extended, step_opcode, step,
  next_row,
}
use claire_common.Symbolizer.Lines.Ends.{at-Holds, Shrinks-step}

-- A reader that returns leaves a piece of this size.
abbrev pub Keeps : {A : Type 0} → ℕ → Read A → Type 0
Keeps n = Holds (λ r. r.1.size ≡ n)

Keeps-advance : (n : ℕ) (s : Piece) → Holds (λ rest. rest.size ≡ s.size) (advance n s)
unfolding advance
Keeps-advance n s = ground arith

Keeps-read : (n : ℕ) (s : Piece) → Keeps s.size (read n s)
unfolding read advance
Keeps-read n s = ground arith

Keeps-read_uleb_loop :
    (size : ℕ) (s : List ℕ) (shift r : ℕ) → Keeps size (read_uleb_loop size s shift r)
unfolding read_uleb_loop
Keeps-read_uleb_loop size [] shift r =
    Holds-check (λ a. a.1.size ≡ size) (leb 1 size) undefined (λ e. tt)
Keeps-read_uleb_loop size (val ∷ rest) shift r =
    let P : (ℕ × ℕ × ℕ) × Piece → Type 0 = λ a. a.1.size ≡ size in
    let next = read_uleb_loop size rest ((shift + 7) % 256) (r + val % 128 * 2 ^ shift % 2 ^ 64) in
    Holds-check P (leb 1 size) _ (λ e.
      Holds-if P (ltb shift 64) _ undefined
        (Holds-if P (leb 128 val) next (done (_, record { ahead = rest; size = size }))
          (Keeps-read_uleb_loop size rest _ _) refl)
        tt)

Keeps-read_uleb : (s : Piece) → Keeps s.size (read_uleb s)
unfolding read_uleb
Keeps-read_uleb s =
    Holds-bind (λ a. a.1.size ≡ s.size) (λ a. a.1.size ≡ s.size) (read_uleb_loop s.size s.ahead 0 0)
      _ (Keeps-read_uleb_loop s.size s.ahead 0 0) (λ a h. h)

Keeps-read_sleb : (s : Piece) → Keeps s.size (read_sleb s)
unfolding read_sleb
Keeps-read_sleb s =
    Holds-bind (λ a. a.1.size ≡ s.size) (λ a. a.1.size ≡ s.size) (read_uleb_loop s.size s.ahead 0 0)
      _ (Keeps-read_uleb_loop s.size s.ahead 0 0) (λ a h. h)

keep_both :
    {A B : Type 0} (s : Piece) (m : Read A) (f : A × Piece → Read B)
    → Keeps s.size m
    → ((a : A × Piece) → Keeps a.1.size (f a))
    → Keeps s.size (m >>= f)
keep_both s m f h k =
    Holds-bind (λ a. a.1.size ≡ s.size) (λ a. a.1.size ≡ s.size) m f h
      (λ a g.
        Holds-mono (λ b. b.1.size ≡ a.1.size) (λ b. b.1.size ≡ s.size) (f a) (λ b e. e ∙ g) (k a))

Keeps-skip_ulebs :
    (arg_count : ℕ) (s : Piece) → Holds (λ rest. rest.size ≡ s.size) (skip_ulebs arg_count s)
unfolding skip_ulebs
Keeps-skip_ulebs zero s = refl
Keeps-skip_ulebs (suc arg_count) s =
    Holds-bind (λ a. a.1.size ≡ s.size) (λ rest. rest.size ≡ s.size) (read_uleb s) _
      (Keeps-read_uleb s)
      (λ a g.
        Holds-mono (λ rest. rest.size ≡ a.1.size) (λ rest. rest.size ≡ s.size)
          (skip_ulebs arg_count a.1) (λ rest e. e ∙ g) (Keeps-skip_ulebs arg_count a.1))

module _ (h : Header) (r : Registers) (opcode : ℕ) (s : Piece) where
  Keeps-run_standard :
      (standard : StandardOpcode) → Keeps s.size (run_standard h r opcode standard s)
  unfolding run_standard
  Keeps-run_standard copy = refl
  Keeps-run_standard advance_pc = keep_both s (read_uleb s) _ (Keeps-read_uleb s) (λ a. refl)
  Keeps-run_standard advance_line = keep_both s (read_sleb s) _ (Keeps-read_sleb s) (λ a. refl)
  Keeps-run_standard set_file = keep_both s (read_uleb s) _ (Keeps-read_uleb s) (λ a. refl)
  Keeps-run_standard set_column = keep_both s (read_uleb s) _ (Keeps-read_uleb s) (λ a. refl)
  Keeps-run_standard negate_stmt = refl
  Keeps-run_standard set_basic_block = refl
  Keeps-run_standard const_add_pc =
      Holds-if (λ a. a.1.size ≡ s.size) (h.line_range == 0) undefined (done (_, s)) tt refl
  Keeps-run_standard fixed_advance_pc = keep_both s (read 2 s) _ (Keeps-read 2 s) (λ a. refl)
  Keeps-run_standard set_prologue_end = refl
  Keeps-run_standard set_epilogue_begin = refl
  Keeps-run_standard set_isa = keep_both s (read_uleb s) _ (Keeps-read_uleb s) (λ a. refl)
  Keeps-run_standard unrecognized =
      Holds-bind (λ n. Unit) (λ a. a.1.size ≡ s.size) (at h.standard_opcode_lengths (opcode - 1)) _
        (at-Holds h.standard_opcode_lengths (opcode - 1))
        (λ n u.
          Holds-bind (λ rest. rest.size ≡ s.size) (λ a. a.1.size ≡ s.size) (skip_ulebs n s) _
            (Keeps-skip_ulebs n s) (λ rest g. g))

  Keeps-run_extended :
      (size : ℕ) (extended : ExtendedOpcode) → Keeps s.size (run_extended r size extended s)
  unfolding run_extended
  Keeps-run_extended size end_of_sequence_opcode = refl
  Keeps-run_extended size set_address = keep_both s (read 8 s) _ (Keeps-read 8 s) (λ a. refl)
  Keeps-run_extended size set_discriminator =
      keep_both s (read_uleb s) _ (Keeps-read_uleb s) (λ a. refl)
  Keeps-run_extended size other_opcode =
      Holds-bind (λ rest. rest.size ≡ s.size) (λ a. a.1.size ≡ s.size) (advance size s) _
        (Keeps-advance size s) (λ rest g. g)

  Keeps-run_special : Keeps s.size (run_special h r opcode s)
  unfolding run_special special_opcode
  Keeps-run_special = ground arith

Keeps-step_extended : (h : Header) (r : Registers) (s : Piece) → Keeps s.size (step_extended r s)
unfolding step_extended
Keeps-step_extended h r s = keep_both s (read_uleb s) _ (Keeps-read_uleb s) (λ size.
    Holds-check (λ a. a.1.size ≡ size.1.size) (not (size.0 == 0)) _
      (λ e.
        keep_both size.1 (read 1 size.1) _ (Keeps-read 1 size.1)
          (λ opcode. Keeps-run_extended h r 0 opcode.1 (size.0 - 1) (extended_opcode opcode.0))))

Keeps-step : (h : Header) (r : Registers) (s : Piece) → Keeps s.size (step h r s)
unfolding step step_opcode
Keeps-step h r s = keep_both s (read 1 s) _ (Keeps-read 1 s) (λ a.
    let P : (StepResult × Registers) × Piece → Type 0 = λ b. b.1.size ≡ a.1.size in
    let standard = run_standard h r a.0 (standard_opcode h.version a.0) a.1 in
    Holds-if P (leb h.opcode_base a.0) (run_special h r a.0 a.1)
      (if not (a.0 == 0) then standard else step_extended r a.1) (Keeps-run_special h r a.0 a.1)
      (Holds-if P (not (a.0 == 0)) standard (step_extended r a.1)
        (Keeps-run_standard h r a.0 a.1 (standard_opcode h.version a.0))
        (Keeps-step_extended h r a.1)))

row_result :
    (n : ℕ) (rest : Piece) (after : Registers) (again : Read (Bool × Registers))
    → rest.size ≡ n
    → Keeps n again
    → (result : StepResult)
    → Keeps n (elim result [
      | continue ↦ again
      | commit ↦ done ((true, after), rest)
      | end_of_sequence ↦ done ((false, after), rest)
    ])
row_result n rest after again g h continue = h
row_result n rest after again g h commit = g
row_result n rest after again g h end_of_sequence = g

pub Keeps-next_row :
    (fuel : ℕ) (h : Header) (r : Registers) (s : Piece) (n : ℕ)
    → remaining s < fuel
    → s.size ≡ n
    → Keeps n (next_row fuel h r s)
unfolding next_row
Keeps-next_row zero h r s n enough same = absurd (omega (arith, enough))
Keeps-next_row (suc fuel) h r s n enough same =
    Holds-bind (λ a. (a.1.size ≡ s.size) × (remaining a.1 < remaining s)) (λ a. a.1.size ≡ n)
      (step h r s) _
      (Holds-both (λ a. a.1.size ≡ s.size) (λ a. remaining a.1 < remaining s) (step h r s)
        (Keeps-step h r s) (Shrinks-step h r s))
      (λ a g.
        row_result n a.1 a.0.1 (next_row fuel h a.0.1 a.1) (g.0 ∙ same)
          (Keeps-next_row fuel h a.0.1 a.1 n (omega (arith, g.1, enough)) (g.0 ∙ same)) a.0.0)
