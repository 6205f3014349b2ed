-- ===== src/Symbolizer/Lines/Search/Crossing.antt =====
-- FindAddress (symbolizer/Dwarf.cc): the sequence that crosses an address, and the row it gives.
use claire_common.Common.{
  ℕ, zero, suc, ◌≤◌, ◌<◌, ◌≡◌, refl, ap, ◌∙◌, ◌⊎◌, inl, inr, Bool, true, false, some, List, [], ◌∷◌,
  ◌++◌, leb, le→leb, lt→ltb, le→ltb, All, arith,
}
use claire_common.Common.Outcome.{done}
use claire_common.Symbolizer.FilePath.{new_path}
use claire_common.Symbolizer.Lines.Names.{FileName, get_file_name, get_include_directory}
use mathlib.Core.List.{append_assoc}
use claire_common.Symbolizer.Reader.{Piece}
use claire_common.Symbolizer.Lines.{Header, Registers, reset}
use claire_common.Symbolizer.Lines.Search.{
  State, start, low_seq, high_seq, Scan, found, going, entered, judge, round, first_scan, locate,
  find_line,
}
use claire_common.Symbolizer.Lines.Search.Rows.{Row, Emits, scan_rows, find_loop-rows}

-- A sequence: its committed rows, and the row of its end.
pub record Sequence : Type 0 where
  pub body : List Registers
  pub last : Registers

abbrev pub committed_rows : List Registers → List Row
committed_rows [] = []
committed_rows (r ∷ rows) = (true, r) ∷ committed_rows rows

abbrev pub sequence_rows : List Sequence → List Row
sequence_rows [] = []
sequence_rows (q ∷ others) = committed_rows q.body ++ ((false, q.last) ∷ sequence_rows others)

abbrev pub IsUpTo : ℕ → Registers → Type 0
IsUpTo target r = r.address ≤ target

-- A sequence that does not cross the address: it starts above it, or has no row above it.
abbrev pub StartsAbove : ℕ → List Registers → Type 0
StartsAbove target [] = Unit
StartsAbove target (r ∷ rows) = target < r.address

abbrev pub IsAside : ℕ → Sequence → Type 0
IsAside target q =
    StartsAbove target q.body ⊎ (All (IsUpTo target) q.body × (q.last.address ≤ target))

-- Not yet in a sequence, or in one that starts at the address or below it.
abbrev IsOpen : State → Type 0
IsOpen start = Unit
IsOpen low_seq = Unit
IsOpen high_seq = ⊥

abbrev low : Registers → Scan
low r = record { state = low_seq; prev_file = r.file; prev_line = r.line }

ready_at_start : (scan : Scan) → scan.state ≡ start → IsOpen scan.state
ready_at_start scan here = rw here tt

round_up_to :
    (target : ℕ) (r : Registers) (scan : Scan)
    → IsOpen scan.state
    → r.address ≤ target
    → round target true r scan ≡ going (low r)
unfolding round
round_up_to target r scan ready below = by_state scan.state ready
  where
    by_state :
        (state : State)
        → IsOpen state
        → judge target true r scan (entered target true r state) ≡ going (low r)
    by_state start h = rw (le→leb r.address target below, le→ltb target r.address below) refl
    by_state low_seq h = rw (le→ltb target r.address below) refl
    by_state high_seq h = elim h [ ]

-- A run of rows up to the address, the last of them `r`, before a row above it.
scan_rows_crossing :
    (target : ℕ) (before : List Registers) (r : Registers) (committed : Bool) (above : Registers)
    (scan : Scan) (more : List Row)
    → IsOpen scan.state
    → All (IsUpTo target) before
    → r.address ≤ target
    → target < above.address
    → scan_rows target scan (committed_rows before ++ ((true, r) ∷ (committed, above) ∷ more))
      ≡ found r.file r.line
unfolding scan_rows round
scan_rows_crossing target [] r committed above scan more ready up_to below over =
    rw (round_up_to target r scan ready below, lt→ltb target above.address over) refl
scan_rows_crossing target (q ∷ before) r committed above scan more ready (hq, hs) below over =
    rw (round_up_to target q scan ready hq)
      (scan_rows_crossing target before r committed above (low q) more tt hs below over)

at_start : Scan → Scan
at_start scan = record scan { state = start }

low_rows :
    (target : ℕ) (rows : List Registers) (last : Registers) (scan : Scan) (more : List Row)
    → scan.state ≡ low_seq
    → All (IsUpTo target) rows
    → last.address ≤ target
    → scan_rows target scan (committed_rows rows ++ ((false, last) ∷ more))
      ≡ scan_rows target (at_start (low last)) more
unfolding scan_rows round at_start
low_rows target [] last scan more here up_to below =
    rw (here, le→ltb target last.address below) refl
low_rows target (q ∷ rows) last scan more here (hq, hs) below =
    rw (here, le→ltb target q.address hq) (low_rows target rows last (low q) more refl hs below)

high_rows :
    (target : ℕ) (rows : List Registers) (last : Registers) (scan : Scan) (more : List Row)
    → scan.state ≡ high_seq
    → scan_rows target scan (committed_rows rows ++ ((false, last) ∷ more))
      ≡ scan_rows target (at_start scan) more
unfolding scan_rows round at_start
high_rows target [] last scan more here = rw here refl
high_rows target (q ∷ rows) last scan more here =
    rw here (high_rows target rows last (record scan { state = high_seq }) more refl)

-- The scan behind the rows of a sequence waits for the next one.
abbrev Passes : ℕ → Scan → Sequence → List Row → Type 0
Passes target scan q more =
    (later : Scan) × (later.state ≡ start)
    × (scan_rows target scan (committed_rows q.body ++ ((false, q.last) ∷ more))
        ≡ scan_rows target later more)

aside-Passes :
    (target : ℕ) (scan : Scan) (body : List Registers) (last : Registers) (more : List Row)
    → scan.state ≡ start
    → IsAside target (record { body = body; last = last })
    → Passes target scan (record { body = body; last = last }) more
unfolding scan_rows round at_start
aside-Passes target scan [] last more here h = (record scan { state = start }, refl, rw here refl)
aside-Passes target scan (q ∷ rows) last more here (inl above) = (
  record scan { state = start },
  refl,
  rw (here, gt→leb q.address target above)
      (high_rows target rows last (record scan { state = high_seq }) more refl),
)
  where
    gt→leb : (a b : ℕ) → b < a → leb a b ≡ false
    gt→leb a b p = ground arith
aside-Passes target scan (q ∷ rows) last more here (inr ((hq, hs), below)) = (
  at_start (low last),
  refl,
  rw (here, le→leb q.address target hq, le→ltb target q.address hq)
      (low_rows target rows last (low q) more refl hs below),
)

pub asides-Passes :
    (target : ℕ) (skipped : List Sequence) (scan : Scan) (more : List Row)
    → scan.state ≡ start
    → All (IsAside target) skipped
    → (later : Scan) × (later.state ≡ start)
      × (scan_rows target scan (sequence_rows skipped ++ more) ≡ scan_rows target later more)
asides-Passes target [] scan more here h = (scan, here, refl)
asides-Passes target (q ∷ skipped) scan more here (hq, hs) =
    let one = aside-Passes target scan q.body q.last (sequence_rows skipped ++ more) here hq in
    let others = asides-Passes target skipped one.0 more one.1 hs in
    (
      others.0,
      others.1,
      ap (scan_rows target scan) (append_assoc (committed_rows q.body) _ more) ∙ one.2 ∙ others.2,
    )

locate_in_tables :
    (h : Header) (directory : List ℕ) (file line : ℕ) (fn : FileName) (included : List ℕ)
    → 0 < file
    → get_file_name h file ≡ done fn
    → get_include_directory h fn.directory_index ≡ done included
    → locate h directory (some (file, line))
      ≡ done (some (new_path directory included fn.relative_name, line))
unfolding locate
locate_in_tables h directory zero line fn included named file_is in_it =
    absurd (omega (arith, named))
locate_in_tables h directory (suc file) line fn included named file_is in_it =
    rw (file_is, in_it) refl

-- FindAddress looks at the sequences of the program in turn. If none before crosses the address, and
-- the next has rows up to it, the last of them `r`, and then a row above it, and if the file index of
-- `r` is not 0 and the tables of the header have that file and its directory, then the call answers
-- with the path of this file below the compilation directory, and the line of `r`.
pub find_line_crossing :
    (h : Header) (directory : List ℕ) (target : ℕ) (skipped : List Sequence)
    (before : List Registers) (r above : Registers) (committed : Bool) (rest : Piece)
    (fn : FileName) (included : List ℕ)
    → All (IsAside target) skipped
    → All (IsUpTo target) before
    → r.address ≤ target
    → target < above.address
    → Emits h
        (reset h)
        h.program
        (sequence_rows skipped ++ (committed_rows before ++ ((true, r) ∷ (committed, above) ∷ [])))
        rest
    → 0 < r.file
    → get_file_name h r.file ≡ done fn
    → get_include_directory h fn.directory_index ≡ done included
    → find_line h directory target
      ≡ done (some (new_path directory included fn.relative_name, r.line))
unfolding find_line
find_line_crossing h directory target skipped before r above committed rest fn included aside up_to
      below over emits named file_is in_it =
    let run = committed_rows before ++ ((true, r) ∷ (committed, above) ∷ []) in
    let skip = asides-Passes target skipped first_scan run refl aside in
    let hit =
      skip.2
      ∙ scan_rows_crossing target before r committed above skip.0 [] (ready_at_start skip.0 skip.1)
          up_to below over in
    rw (find_loop-rows h target emits (found r.file r.line) hit tt)
      (locate_in_tables h directory r.file r.line fn included named file_is in_it)
