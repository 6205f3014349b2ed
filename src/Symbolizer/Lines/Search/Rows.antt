-- ===== src/Symbolizer/Lines/Search/Rows.antt =====
-- FindAddress (symbolizer/Dwarf.cc) against the rows of a line number program.
use claire_common.Common.{
  ℕ, zero, suc, ◌<◌, ◌≡◌, refl, sym, ap, ◌∙◌, Bool, false, Option, none, some, List, [], ◌∷◌, ◌==◌,
  if◌then◌else◌, arith,
}
use mathlib.Core.Path.{subst}
use claire_common.Common.Outcome.{Outcome, done, Holds-done}
use claire_common.Symbolizer.Reader.{Piece, remaining}
use claire_common.Symbolizer.Lines.{Header, Registers, reset, next_row}
use claire_common.Symbolizer.Lines.Ends.{Shrinks-next_row}
use claire_common.Symbolizer.Lines.Search.{
  Scan, Round, found, going, round, finish, find_loop, first_scan,
}

-- A row that Next gave, with whether it was committed and not the end of a sequence.
abbrev pub Row : Type 0
Row = Bool × Registers

-- Next gives these rows one after the other, with a Reset after each end, and leaves the rest; it is
-- called on a piece that is not empty.
pub data Emits (h : Header) : Registers → Piece → List Row → Piece → Type 0 where
  no_row : {r : Registers} {s : Piece} → Emits h r s [] s
  one_row :
      {r after : Registers} {s rest out : Piece} {committed : Bool} {rows : List Row}
      → 0 < s.size
      → next_row (suc (remaining s)) h r s ≡ done ((committed, after), rest)
      → Emits h (if committed then after else reset h) rest rows out
      → Emits h r s ((committed, after) ∷ rows) out

abbrev pub follow : Round → (Scan → Round) → Round
follow (found prev_file prev_line) f = found prev_file prev_line
follow (going later) f = f later

unfoldable pub scan_rows : ℕ → Scan → List Row → Round
scan_rows target scan [] = going scan
scan_rows target scan (row ∷ rows) =
    follow (round target row.0 row.1 scan) (λ later. scan_rows target later rows)

abbrev pub answer : Round → Outcome (Option (ℕ × ℕ))
answer (found prev_file prev_line) = done (some (prev_file, prev_line))
answer (going later) = done none

-- The rows decide the search, or they are all there are.
abbrev pub Settles : Round → Piece → Type 0
Settles (found prev_file prev_line) rest = Unit
Settles (going later) rest = rest.size ≡ 0

find_loop_end :
    (fuel : ℕ) (h : Header) (target : ℕ) (r : Registers) (scan : Scan) (s : Piece)
    → 0 < fuel
    → s.size ≡ 0
    → find_loop fuel h target r scan s ≡ done none
unfolding find_loop
find_loop_end zero h target r scan s positive e = absurd (omega (arith, positive))
find_loop_end (suc fuel) h target r scan s positive e = rw e refl

pub next_row_shorter :
    (h : Header) (r : Registers) (s rest : Piece) (row : Row)
    → next_row (suc (remaining s)) h r s ≡ done (row, rest)
    → remaining rest < remaining s
next_row_shorter h r s rest row e =
    Holds-done (λ a. remaining a.1 < remaining s) e
      (Shrinks-next_row (suc (remaining s)) h r s (omega arith))

pub find_loop-round :
    (fuel : ℕ) (h : Header) (target : ℕ) (r after : Registers) (scan : Scan) (s rest : Piece)
    (committed : Bool)
    → 0 < s.size
    → next_row (suc (remaining s)) h r s ≡ done ((committed, after), rest)
    → find_loop (suc fuel) h target r scan s
      ≡ finish
          (round target committed after scan)
          (λ later. find_loop fuel h target (if committed then after else reset h) later rest)
unfolding find_loop
find_loop-round fuel h target r after scan s rest committed full e = rw (e, ne_zero s full) refl
  where
    ne_zero : (s : Piece) → 0 < s.size → (s.size == 0) ≡ false
    ne_zero s p = ground arith

finish-follow :
    (o : Round) (f : Scan → Outcome (Option (ℕ × ℕ))) (g : Scan → Round) (rest : Piece)
    → ((later : Scan) → Settles (g later) rest → f later ≡ answer (g later))
    → Settles (follow o g) rest
    → finish o f ≡ answer (follow o g)
finish-follow (found prev_file prev_line) f g rest h settles = refl
finish-follow (going later) f g rest h settles = h later settles

find_loop-Emits :
    (h : Header) (target fuel : ℕ) {r : Registers} (scan : Scan) {s rest : Piece} {rows : List Row}
    → Emits h r s rows rest
    → remaining s < fuel
    → Settles (scan_rows target scan rows) rest
    → find_loop fuel h target r scan s ≡ answer (scan_rows target scan rows)
unfolding scan_rows
find_loop-Emits h target fuel scan no_row enough settles =
    find_loop_end fuel h target _ scan _ (omega (arith, enough)) settles
find_loop-Emits h target zero scan (one_row full e more) enough settles =
    absurd (omega (arith, enough))
find_loop-Emits h target (suc fuel) scan (one_row full e more) enough settles =
    find_loop-round fuel h target _ _ scan _ _ _ full e
    ∙ finish-follow (round target _ _ scan) _ _ _
        (λ later settled.
          find_loop-Emits h target fuel later more
            (omega (arith, enough, next_row_shorter h _ _ _ _ e)) settled)
        settles

pub find_loop-rows :
    (h : Header) (target : ℕ) {rest : Piece} {rows : List Row}
    → Emits h (reset h) h.program rows rest
    → (o : Round) → scan_rows target first_scan rows ≡ o
    → Settles o rest
    → find_loop (suc (remaining h.program)) h target (reset h) first_scan h.program ≡ answer o
find_loop-rows h target {rest = rest} emits o e settles =
    find_loop-Emits h target (suc (remaining h.program)) first_scan emits (omega arith)
      (subst (λ (o : Round). Settles o rest) (sym e) settles)
    ∙ ap answer e
