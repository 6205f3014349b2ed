-- ===== src/Symbolizer/Lines/Search/Runaway.antt =====
-- FindAddress (symbolizer/Dwarf.cc) behind the last sequence: the size of the program stays, so the
-- loop does not see its end, and reads what follows.
use claire_common.Common.{
  ℕ, zero, suc, ◌<◌, ◌≡◌, refl, ◌∙◌, false, List, [], Option, All, le→leb, ◌==◌, arith,
}
use mathlib.Core.List.{append-nil}
use mathlib.Core.Path.{subst}
use claire_common.Common.Outcome.{Outcome, undefined, Holds-done}
use claire_common.Symbolizer.Lines.Sizes.{Keeps-next_row}
use claire_common.Symbolizer.Reader.{Piece, remaining, read, advance}
use claire_common.Symbolizer.Lines.{Header, Registers, reset, step, next_row}
use claire_common.Symbolizer.Lines.Search.{
  Scan, Round, found, going, round, finish, find_loop, first_scan, find_line,
}
use claire_common.Symbolizer.Lines.Search.Rows.{
  Row, Emits, no_row, one_row, follow, scan_rows, find_loop-round, next_row_shorter,
}
use claire_common.Symbolizer.Lines.Search.Crossing.{Sequence, sequence_rows, IsAside, asides-Passes}

next_row_off :
    (fuel : ℕ) (h : Header) (r : Registers) (s : Piece)
    → 0 < s.size
    → s.ahead ≡ []
    → next_row (suc fuel) h r s ≡ undefined
unfolding next_row step read advance
next_row_off fuel h r s full e = rw (e, le→leb 1 s.size (omega (arith, full))) refl

find_loop_off :
    (fuel : ℕ) (h : Header) (target : ℕ) (r : Registers) (scan : Scan) (s : Piece)
    → 0 < fuel
    → 0 < s.size
    → s.ahead ≡ []
    → find_loop fuel h target r scan s ≡ undefined
unfolding find_loop
find_loop_off zero h target r scan s positive full e = absurd (omega (arith, positive))
find_loop_off (suc fuel) h target r scan s positive full e =
    rw (ne_zero s full, next_row_off (remaining s) h r s full e) refl
  where
    ne_zero : (s : Piece) → 0 < s.size → (s.size == 0) ≡ false
    ne_zero s p = ground arith

finish_off :
    (o : Round) (f : Scan → Outcome (Option (ℕ × ℕ))) (g : Scan → Round) (last : Scan)
    → ((later : Scan) → g later ≡ going last → f later ≡ undefined)
    → follow o g ≡ going last
    → finish o f ≡ undefined
finish_off (found prev_file prev_line) f g last h e = absurd cc
finish_off (going later) f g last h e = h later e

find_loop-Emits_off :
    (h : Header) (target fuel : ℕ) {r : Registers} (scan last : Scan) {s rest : Piece}
    {rows : List Row}
    → Emits h r s rows rest
    → remaining s < fuel
    → 0 < rest.size
    → rest.ahead ≡ []
    → scan_rows target scan rows ≡ going last
    → find_loop fuel h target r scan s ≡ undefined
unfolding scan_rows
find_loop-Emits_off h target fuel scan last no_row enough full gone e =
    find_loop_off fuel h target _ scan _ (omega (arith, enough)) full gone
find_loop-Emits_off h target zero scan last (one_row some more others) enough full gone e =
    absurd (omega (arith, enough))
find_loop-Emits_off h target (suc fuel) scan last (one_row some row others) enough full gone e =
    find_loop-round fuel h target _ _ scan _ _ _ some row
    ∙ finish_off (round target _ _ scan) _ _ last
        (λ later on.
          find_loop-Emits_off h target fuel later last others
            (omega (arith, enough, next_row_shorter h _ _ _ _ row)) full gone on)
        e

size-Emits :
    (h : Header) {r : Registers} {s rest : Piece} {rows : List Row}
    → Emits h r s rows rest
    → rest.size ≡ s.size
size-Emits h no_row = refl
size-Emits h (one_row full row others) =
    size-Emits h others
    ∙ Holds-done (λ a. a.1.size ≡ _) row (Keeps-next_row _ h _ _ _ (omega arith) refl)

-- If no sequence of a program that is not empty crosses the address, and the file ends behind them,
-- FindAddress does not answer that it has no line: where the sequences have ended the size of the
-- program is still that of its start, and the call reads behind the end of the file, which is
-- undefined.
pub find_line_runs_off :
    (h : Header) (directory : List ℕ) (target : ℕ) (sequences : List Sequence) (rest : Piece)
    → All (IsAside target) sequences
    → Emits h (reset h) h.program (sequence_rows sequences) rest
    → 0 < h.program.size
    → rest.ahead ≡ []
    → find_line h directory target ≡ undefined
unfolding find_line scan_rows
find_line_runs_off h directory target sequences rest aside emits full gone =
    let passed = asides-Passes target sequences first_scan [] refl aside in
    let e : scan_rows target first_scan (sequence_rows sequences) ≡ going passed.0 =
      subst (λ rows. scan_rows target first_scan rows ≡ going passed.0)
        (append-nil (sequence_rows sequences)) passed.2 in
    rw
      (find_loop-Emits_off h target (suc (remaining h.program)) first_scan passed.0 emits
        (omega arith) (omega (arith, size-Emits h emits, full)) gone e)
      refl
