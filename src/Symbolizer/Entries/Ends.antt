-- ===== src/Symbolizer/Entries/Ends.antt =====
-- The loops over attributes and abbreviations (symbolizer/Dwarf.cc): each ends.
use claire_common.Common.{
  ℕ, zero, suc, ◌-◌, ◌≤◌, ◌<◌, Option, none, some, ◌==◌, if◌then◌else◌, arith,
}
use claire_common.Common.Outcome.{Outcome, done, Holds, Holds-bind, Holds-if, Holds-mono}
use claire_common.Symbolizer.Reader.{Piece, remaining, advance, read, read_uleb}
use claire_common.Symbolizer.Reader.Bounds.{
  Ends, Ends-bind, Ends-advance, Leaves, Leaves-any, Leaves-bind, Leaves-mono, Leaves-read, Shrinks,
  Shrinks-read_uleb, Leaves-read_uleb,
}
use claire_common.Symbolizer.Entries.{
  Abbreviation, left_over, skip_attributes, read_entry, read_abbreviation, find_abbreviation,
  get_abbreviation,
}
use claire_common.Symbolizer.Entries.ValueEnds.{Holds-skip_attributes}

Leaves-read_entry : (code : ℕ) (s : Piece) → Leaves (remaining s) (read_entry code s)
unfolding read_entry
Leaves-read_entry code s =
    Leaves-bind (remaining s) (remaining s) (read_uleb s) _
      (Leaves-any (remaining s) 1 (read_uleb s) (Leaves-read_uleb s))
      (λ tag s2 h2.
        Leaves-bind (remaining s) (remaining s) (read 1 s2) _
          (Leaves-mono (remaining s2 - 1) (remaining s) (read 1 s2) (omega (arith, h2))
            (Leaves-read 1 s2))
          (λ children s3 h3.
            Holds-bind (λ rest. remaining rest ≤ remaining s3) (λ r. remaining r.1 ≤ remaining s)
              (skip_attributes (suc (remaining s3)) s3) _
              (Holds-skip_attributes (suc (remaining s3)) s3 (omega arith))
              (λ rest h. omega (arith, h, h3))))

pub Shrinks-read_abbreviation : (s : Piece) → Shrinks s (read_abbreviation s)
unfolding read_abbreviation
Shrinks-read_abbreviation s =
    Holds-bind (λ r. remaining r.1 < remaining s) (λ r. remaining r.1 < remaining s) (read_uleb s) _
      (Shrinks-read_uleb s)
      (λ r h.
        Holds-if (λ r. remaining r.1 < remaining s) (r.0 == 0) (done (none, r.1))
          (read_entry r.0 r.1) h (Leaves-below r.0 r.1 (remaining s) h))
  where
    Leaves-below :
        (code : ℕ) (rest : Piece) (n : ℕ)
        → remaining rest < n
        → Holds (λ r. remaining r.1 < n) (read_entry code rest)
    Leaves-below code rest n h =
        Holds-mono (λ r. remaining r.1 ≤ remaining rest) (λ r. remaining r.1 < n)
          (read_entry code rest) (λ r g. omega (arith, g, h)) (Leaves-read_entry code rest)

Ends-chosen :
    (code : ℕ) (last found : Option Abbreviation) (more : Outcome Abbreviation)
    → Ends more
    → Ends (elim found as (λ o. Outcome Abbreviation) [
      | none ↦ left_over last
      | some abbreviation ↦ if abbreviation.code == code then done abbreviation else more
    ])
Ends-chosen code none none more h = tt
Ends-chosen code (some entry) none more h = tt
Ends-chosen code last (some entry) more h =
    Holds-if (λ a. Unit) (entry.code == code) (done entry) more tt h

Ends-find_abbreviation :
    (fuel code : ℕ) (last : Option Abbreviation) (s : Piece)
    → remaining s < fuel
    → Ends (find_abbreviation fuel code last s)
unfolding find_abbreviation
Ends-find_abbreviation zero code last s h = absurd (omega (arith, h))
Ends-find_abbreviation (suc fuel) code last s h =
    Holds-bind (λ r. remaining r.1 < remaining s) (λ a. Unit) (read_abbreviation s) _
      (Shrinks-read_abbreviation s)
      (λ r less.
        Ends-chosen code last r.0 (find_abbreviation fuel code r.0 r.1)
          (Ends-find_abbreviation fuel code r.0 r.1 (omega (arith, less, h))))

-- GetAbbreviation ends, whatever the bytes of the section are.
pub get_abbreviation_lem :
    (abbrevs : Piece) (code offset : ℕ) → Ends (get_abbreviation abbrevs code offset)
unfolding get_abbreviation
get_abbreviation_lem abbrevs code offset =
    Ends-bind (advance offset abbrevs) _ (Ends-advance offset abbrevs)
      (λ s. Ends-find_abbreviation (suc (remaining s)) code none s (omega arith))
