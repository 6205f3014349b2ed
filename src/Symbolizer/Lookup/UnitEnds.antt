-- ===== src/Symbolizer/Lookup/UnitEnds.antt =====
-- The look-up of a compilation unit (symbolizer/Dwarf.cc) ends.
use claire_common.Common.{
  ℕ, zero, suc, ◌-◌, ◌≤◌, ◌<◌, ◌≢◌, Bool, true, false, not, ◌&&◌, Option, none, some, inl, inr, leb,
  ◌==◌, arith,
}
use claire_common.Common.Outcome.{Outcome, done, check_failed, Holds-bind, Holds-if, Holds-check}
use claire_common.Symbolizer.Reader.{
  Piece, remaining, advance, read, read_uleb, read_offset, skip_padding,
}
use claire_common.Symbolizer.Reader.Bounds.{
  Leaves-read, Leaves-read_uleb, Leaves-read_offset, Leaves-skip_padding, Ends, Ends-advance,
  Ends-read, Ends-bind, Ends-byte, Shrinks-read,
}
use claire_common.Symbolizer.Section.{Section, new_section, next_chunk, IsNext, Holds-next_chunk}
use claire_common.Symbolizer.Entries.{
  is_last, read_attribute, get_abbreviation, AttributeValue, number, piece, read_attribute_value,
}
use claire_common.Symbolizer.Entries.Ends.{get_abbreviation_lem}
use claire_common.Symbolizer.Entries.ValueEnds.{Shrinks-read_attribute, Leaves-read_attribute_value}
use claire_common.Symbolizer.Lookup.{
  Dwarf, find_in_set, read_set_header, find_set, UnitAttributes, note_attribute,
  read_unit_attributes, read_unit, unit_at,
}

pub Ends-find_in_set :
    (fuel address : ℕ) (s : Piece) → remaining s < fuel → Ends (find_in_set fuel address s)
unfolding find_in_set
Ends-find_in_set zero address s enough = absurd (omega (arith, enough))
Ends-find_in_set (suc fuel) address s enough =
    Holds-bind (λ r. remaining r.1 < remaining s) (λ b. Unit) (read 8 s) _
      (Shrinks-read 8 s (omega arith))
      (λ start g.
        Holds-bind (λ r. remaining r.1 ≤ remaining start.1 - 8) (λ b. Unit) (read 8 start.1) _
          (Leaves-read 8 start.1)
          (λ size k.
            Holds-if (λ b. Unit) (start.0 == 0) (done false) _ tt
              (Holds-if (λ b. Unit) _ (done true) (find_in_set fuel address size.1) tt
                (Ends-find_in_set fuel address size.1 (omega (arith, enough, g, k))))))

pub Ends-read_set_header : (wide : Bool) (end : ℕ) (s : Piece) → Ends (read_set_header wide end s)
unfolding read_set_header
Ends-read_set_header wide end s =
    Ends-read (remaining s - 2) (read 2 s) _ (Leaves-read 2 s) (λ version.
      Holds-check (λ a. Unit) (version.0 == 2) _
        (λ e.
          Ends-read (remaining version.1 - 4) (read_offset wide version.1) _
            (Leaves-read_offset wide version.1)
            (λ offset. Ends-byte offset.1 _ (λ address_size.
              Holds-check (λ a. Unit) (address_size.0 == 8) _
                (λ e. Ends-byte address_size.1 _ (λ segment_size.
                  Holds-check (λ a. Unit) (segment_size.0 == 0) _
                    (λ e.
                      Holds-bind (λ rest. remaining rest ≤ remaining segment_size.1) (λ a. Unit)
                        (skip_padding (end - remaining segment_size.1) 16 segment_size.1) _
                        (Leaves-skip_padding (end - remaining segment_size.1) 16 segment_size.1)
                        (λ rest g. tt))))))))

pub in_set :
    (chunk : Option Piece) (f : Piece → Outcome (Option ℕ))
    → (chunk ≢ none → (set : Piece) → Ends (f set))
    → Ends (elim chunk as (λ c. Outcome (Option ℕ)) [ none ↦ done none | some set ↦ f set ])
in_set none f h = tt
in_set (some set) f h = h (λ e. absurd cc) set

pub shorter :
    (current : Section) (r : Option Piece × Section)
    → IsNext current r
    → r.0 ≢ none
    → remaining r.1.content < remaining current.content
shorter current r (inl ended) full = absurd (full ended)
shorter current r (inr less) full = less

pub Ends-find_set :
    (fuel size address : ℕ) (aranges : Section)
    → remaining aranges.content < fuel
    → Ends (find_set fuel size address aranges)
unfolding find_set
Ends-find_set zero size address aranges enough = absurd (omega (arith, enough))
Ends-find_set (suc fuel) size address aranges enough =
    Holds-bind (IsNext aranges) (λ b. Unit) (next_chunk aranges) _ (Holds-next_chunk aranges)
      (λ r next. in_set r.0 _ (λ full set.
        Ends-bind (read_set_header r.1.is_64_bits size set) _
          (Ends-read_set_header r.1.is_64_bits size set)
          (λ ranges.
            Ends-bind (find_in_set (suc (remaining ranges.1)) address ranges.1) _
              (Ends-find_in_set (suc (remaining ranges.1)) address ranges.1 (omega arith))
              (λ found.
                Holds-if (λ b. Unit) found (done (some ranges.0)) (find_set fuel size address r.1)
                  tt
                  (Ends-find_set fuel size address r.1
                    (omega (arith, enough, shorter aranges r next full)))))))

pub Ends-note_attribute :
    (name : ℕ) (value : AttributeValue) (unit : UnitAttributes)
    → Ends (note_attribute name value unit)
unfolding note_attribute
Ends-note_attribute name (number n) unit = ground arith
Ends-note_attribute name (piece p) unit = ground arith

pub Ends-read_unit_attributes :
    (fuel : ℕ) (strings : Piece) (wide : Bool) (attributes chunk : Piece) (unit : UnitAttributes)
    → remaining attributes < fuel
    → Ends (read_unit_attributes fuel strings wide attributes chunk unit)
unfolding read_unit_attributes
Ends-read_unit_attributes zero strings wide attributes chunk unit enough =
    absurd (omega (arith, enough))
Ends-read_unit_attributes (suc fuel) strings wide attributes chunk unit enough =
    Holds-bind (λ r. remaining r.1 < remaining attributes) (λ b. Unit) (read_attribute attributes) _
      (Shrinks-read_attribute attributes)
      (λ r g.
        Holds-if (λ b. Unit) (is_last r.0) (done unit) _ tt
          (Ends-read (remaining chunk) (read_attribute_value strings chunk r.0.form wide) _
            (Leaves-read_attribute_value strings chunk r.0.form wide)
            (λ value.
              Ends-bind (note_attribute r.0.name value.0 unit) _
                (Ends-note_attribute r.0.name value.0 unit)
                (λ noted.
                  Ends-read_unit_attributes fuel strings wide r.1 value.1 noted
                    (omega (arith, enough, g))))))

pub Ends-read_unit : (d : Dwarf) (wide : Bool) (s : Piece) → Ends (read_unit d wide s)
unfolding read_unit
Ends-read_unit d wide s = Ends-read (remaining s - 2) (read 2 s) _ (Leaves-read 2 s) (λ version.
    Holds-check (λ a. Unit) (leb 2 version.0 && leb version.0 4) _
      (λ e.
        Ends-read (remaining version.1 - 4) (read_offset wide version.1) _
          (Leaves-read_offset wide version.1)
          (λ offset. Ends-byte offset.1 _ (λ address_size.
            Holds-check (λ a. Unit) (address_size.0 == 8) _
              (λ e.
                Ends-read (remaining address_size.1 - 1) (read_uleb address_size.1) _
                  (Leaves-read_uleb address_size.1)
                  (λ code.
                    Holds-check (λ a. Unit) (not (code.0 == 0)) _
                      (λ e.
                        Ends-bind (get_abbreviation d.abbrevs code.0 offset.0) _
                          (get_abbreviation_lem d.abbrevs code.0 offset.0)
                          (λ entry.
                            Holds-check (λ a. Unit) (entry.tag == 0x11) _
                              (λ e.
                                Ends-read_unit_attributes (suc (remaining entry.attributes))
                                  d.strings wide entry.attributes code.1 _ (omega arith))))))))))

pub in_chunk :
    {B : Type 0} (chunk : Option Piece) (f : Piece → Outcome B)
    → ((c : Piece) → Ends (f c))
    → Ends (elim chunk as (λ c. Outcome B) [ none ↦ check_failed | some c ↦ f c ])
in_chunk none f h = tt
in_chunk (some c) f h = h c

pub Ends-unit_at : (d : Dwarf) (offset : ℕ) → Ends (unit_at d offset)
unfolding unit_at
Ends-unit_at d offset = Ends-bind (advance offset d.info) _ (Ends-advance offset d.info) (λ s.
    Holds-bind (IsNext (new_section s)) (λ b. Unit) (next_chunk (new_section s)) _
      (Holds-next_chunk (new_section s))
      (λ r next.
        in_chunk r.0 (λ unit. read_unit d r.1.is_64_bits unit)
          (λ unit. Ends-read_unit d r.1.is_64_bits unit)))
