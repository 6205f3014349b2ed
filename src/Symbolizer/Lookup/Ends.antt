-- ===== src/Symbolizer/Lookup/Ends.antt =====
-- Dwarf::FindAddress (symbolizer/Dwarf.cc): the look-up ends on all sections.
use mathlib.Core.Path.{subst}
use claire_common.Common.{◌≢◌, ℕ, suc, ◌<◌, Option, none, some, List, arith}
use claire_common.Common.Outcome.{Outcome, done, out_of_fuel, ◌>>=◌, Holds-bind, Holds-if}
use claire_common.Symbolizer.Reader.{Piece, remaining, advance}
use claire_common.Symbolizer.Reader.Bounds.{Ends, Ends-advance, Ends-bind}
use claire_common.Symbolizer.Section.{new_section, next_chunk, IsNext, Holds-next_chunk}
use claire_common.Symbolizer.FilePath.{FilePath}
use claire_common.Symbolizer.Lines.Names.{read_header}
use claire_common.Symbolizer.Lines.Search.{new_line_number_vm, find_line}
use claire_common.Symbolizer.Lines.Search.Ends.{Ends-read_header, Ends-find_line}
use claire_common.Symbolizer.Lookup.{
  Dwarf, find_set, unit_at, LocationInfo, main_file_of, line_of, look_up, find_address,
}
use claire_common.Symbolizer.Lookup.UnitEnds.{Ends-find_set, in_chunk, Ends-unit_at}

Ends-new_line_number_vm : (s : Piece) → Ends (new_line_number_vm s)
unfolding new_line_number_vm
Ends-new_line_number_vm s =
    Holds-bind (IsNext (new_section s)) (λ b. Unit) (next_chunk (new_section s)) _
      (Holds-next_chunk (new_section s))
      (λ r next.
        in_chunk r.0 (λ program. read_header r.1.is_64_bits program)
          (λ program. Ends-read_header r.1.is_64_bits program))

program_line :
    (d : Dwarf) (directory : List ℕ) (address : ℕ) (offset : Option ℕ)
    → Ends (elim offset as (λ o. Outcome (Option (FilePath × ℕ))) [
      | none ↦ done none
      | some n ↦ (do
        s ← advance n d.line
        vm ← new_line_number_vm s
        find_line vm directory address)
    ])
program_line d directory address none = tt
program_line d directory address (some n) =
    Ends-bind (advance n d.line) _ (Ends-advance n d.line) (λ s.
      Ends-bind (new_line_number_vm s) _ (Ends-new_line_number_vm s)
        (λ vm. Ends-find_line vm directory address))

located :
    (d : Dwarf) (address : ℕ) (offset : Option ℕ)
    → Ends (elim offset as (λ o. Outcome (Option LocationInfo)) [
      | none ↦ done none
      | some n ↦ (do
        unit ← unit_at d n
        line ← line_of d address unit
        done (some (record { main_file = main_file_of unit; file_and_line = line })))
    ])
unfolding line_of
located d address none = tt
located d address (some n) = Ends-bind (unit_at d n) _ (Ends-unit_at d n) (λ unit.
    Ends-bind (line_of d address unit) _
      (program_line d unit.compilation_directory address unit.line_offset) (λ line. tt))

pub Ends-find_address : (d : Dwarf) (address : ℕ) → Ends (find_address d address)
unfolding find_address look_up
Ends-find_address d address =
    Holds-if (λ a. Unit) d.has_elf (look_up d address) (done none)
      (Ends-bind
        (find_set (suc (remaining d.aranges)) (remaining d.aranges) address (new_section d.aranges))
        _
        (Ends-find_set (suc (remaining d.aranges)) (remaining d.aranges) address
          (new_section d.aranges) (whole d))
        (λ offset. located d address offset))
      tt
  where
    whole : (d : Dwarf) → remaining (new_section d.aranges).content < suc (remaining d.aranges)
    whole d = unfold new_section in omega arith

-- FindAddress ends for every address, whatever the bytes of the sections: it finds a location, finds
-- none, fails a CHECK, or meets undefined behaviour, and no loop runs for ever.
pub find_address_ends : (d : Dwarf) (address : ℕ) → find_address d address ≢ out_of_fuel
find_address_ends d address e =
    subst (λ (m : Outcome (Option LocationInfo)). Ends m) e (Ends-find_address d address)
