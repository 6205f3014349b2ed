-- ===== src/Symbolizer/Entries/Table.antt =====
-- A table of abbreviations as the standard stores it, and what GetAbbreviation finds in it
-- (symbolizer/Dwarf.cc).
use claire_common.Common.{
  ℕ, zero, suc, ◌≤◌, ◌<◌, ◌≡◌, refl, ap, ◌∙◌, ◌≢◌, Option, none, some, List, [], ◌∷◌, ◌++◌, ◌==◌,
  le→leb, if◌then◌else◌, length, length-append, All, arith, ==_self, ==_ne,
}
use claire_common.Common.Outcome.{done}
use claire_common.Symbolizer.Reader.{Piece, advance}
use claire_common.Symbolizer.Reader.Fixed.{drop-append_length}
use claire_common.Symbolizer.Entries.{
  Abbreviation, read_abbreviation, find_abbreviation, get_abbreviation,
}
use mathlib.Core.List.{append_assoc}
use claire_common.Symbolizer.Entries.Stored.{
  attribute_bytes, StoredEntry, IsEntry, entry_bytes, table_bytes, abbreviation_of, at_size,
  read_abbreviation-entry_bytes,
}

find_round :
    (fuel code : ℕ) (last : Option Abbreviation) (s rest : Piece) (found : Abbreviation)
    → read_abbreviation s ≡ done (some found, rest)
    → find_abbreviation (suc fuel) code last s
      ≡ (if found.code == code then done found else find_abbreviation fuel code (some found) rest)
unfolding find_abbreviation
find_round fuel code last s rest found h = rw h refl

find_abbreviation-table_bytes :
    (fuel size : ℕ) (last : Option Abbreviation) (before : List StoredEntry) (e : StoredEntry)
    (rest : List ℕ)
    → 0 < size
    → length before < fuel
    → All IsEntry before
    → All (λ other. other.code.value ≢ e.code.value) before
    → IsEntry e
    → find_abbreviation fuel e.code.value last
        (at_size size (table_bytes before ++ (entry_bytes e ++ rest)))
      ≡ done (abbreviation_of e rest)
find_abbreviation-table_bytes zero size last before e rest full h stored others here =
    absurd (omega (arith, h))
find_abbreviation-table_bytes (suc fuel) size last [] e rest full h stored others here =
    find_round fuel e.code.value last _ (at_size size rest) (abbreviation_of e rest)
      (read_abbreviation-entry_bytes size e rest full here)
    ∙ rw (==_self e.code.value) refl
find_abbreviation-table_bytes (suc fuel) size last (o ∷ before) e rest full h (so, stored)
      (oo, others) here =
    let left = table_bytes before ++ (entry_bytes e ++ rest) in
    rw (append_assoc (entry_bytes o) (table_bytes before) (entry_bytes e ++ rest)) (
      find_round fuel e.code.value last _ (at_size size left) (abbreviation_of o left)
        (read_abbreviation-entry_bytes size o left full so)
      ∙ rw (==_ne o.code.value e.code.value oo) (
          find_abbreviation-table_bytes fuel size (some (abbreviation_of o left)) before e rest full
            (omega (arith, h)) stored others here))

length-table_bytes :
    (table : List StoredEntry) → All IsEntry table → length table ≤ length (table_bytes table)
length-table_bytes [] h = omega arith
length-table_bytes (e ∷ others) (he, hs) = omega (
  arith,
  he.0.0,
  length-append (entry_bytes e) (table_bytes others),
  length-append e.code.bytes (e.tag.bytes ++ (e.children ∷ attribute_bytes e.attributes)),
  length-table_bytes others hs,
)

advance-front :
    (size : ℕ) (front s : List ℕ)
    → advance (length front) (at_size size (front ++ s)) ≡ done (at_size size s)
unfolding advance
advance-front size front s =
    rw (le→leb (length front) (length (front ++ s)) (omega (arith, length-append front s)))
      (ap (λ (t : List ℕ). done (at_size size t)) (drop-append_length (length front) front s refl))

-- GetAbbreviation finds, in a table that starts at the offset of a section that is not empty, the
-- first entry with the code, if the entries before it are well formed and have other codes: its tag,
-- whether it has children, and the piece with its attributes and their terminator.
pub get_abbreviation-table_bytes :
    (size : ℕ) (front : List ℕ) (before : List StoredEntry) (e : StoredEntry) (rest : List ℕ)
    → 0 < size
    → All IsEntry before
    → All (λ other. other.code.value ≢ e.code.value) before
    → IsEntry e
    → get_abbreviation
        (record { ahead = front ++ (table_bytes before ++ (entry_bytes e ++ rest)); size = size })
        e.code.value
        (length front)
      ≡ done (abbreviation_of e rest)
unfolding get_abbreviation
get_abbreviation-table_bytes size front before e rest full stored others here =
    let section = table_bytes before ++ (entry_bytes e ++ rest) in
    rw (advance-front size front section) (
      find_abbreviation-table_bytes (suc (length section)) size none before e rest full
        (omega (
          arith,
          length-append (table_bytes before) (entry_bytes e ++ rest),
          length-table_bytes before stored,
        ))
        stored others here)
