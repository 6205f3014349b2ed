-- ===== src/Symbolizer/Process/Answers.antt =====
-- Symbolize (symbolizer/Symbolizer.cc) once the file is open: the symbol, its name and its location.
use claire_common.Common.{ℕ, ◌+◌, ◌%◌, ◌^◌, ◌≤◌, ◌<◌, ◌≡◌, refl, Option, none, some, List, arith}
use claire_common.Common.Outcome.{done, Holds, Holds-bind, Holds-self}
use claire_common.Symbolizer.Elf.{SectionHeader, ElfSymbol, section_at, symbol_at}
use claire_common.Symbolizer.Elf.Search.{section_at-Ends}
use claire_common.Symbolizer.Elf.Ends.{symbol_at-Ends, get_symbol_name-Ends}
use claire_common.Symbolizer.Elf.Symbols.{get_definition_by_address, get_symbol_name}
use claire_common.Symbolizer.Elf.Definitions.{IsDefinition, get_definition_by_address-IsDefinition}
use claire_common.Symbolizer.Lookup.{Dwarf, LocationInfo, find_address}
use claire_common.Symbolizer.Lookup.Ends.{Ends-find_address}
use claire_common.Symbolizer.Process.{ElfFile}
use claire_common.Symbolizer.Process.Sections.{IsDwarf, dwarf_of-IsDwarf}
use claire_common.Symbolizer.Process.Symbolize.{
  dwarf_of, Symbolized, text_or_empty, location_or_none, describe, symbolize_in, original_address,
}

-- The address as the file has it: as far from its base address as the address is from where the
-- mapping begins, in 64 bits.
abbrev pub IsOriginal : ℕ → ℕ → ℕ → ℕ → Type 0
IsOriginal address begin base original =
    (original < 2 ^ 64) × ((original + begin) % 2 ^ 64 ≡ (address + base) % 2 ^ 64)

pub original_address-IsOriginal :
    (address begin base : ℕ)
    → begin ≤ address
    → address < 2 ^ 64
    → IsOriginal address begin base (original_address address begin base)
original_address-IsOriginal address begin base h small = (omega arith, omega arith)

module _ (file : ElfFile) (address : ℕ) where
  -- The name is that of the symbol, or empty, and the location is what FindAddress has found in the
  -- debugging sections of the file, if anything.
  abbrev pub IsDescribed : ℕ → ℕ → Symbolized → Type 0
  IsDescribed place offset answer =
      (table : SectionHeader) × (symbol : ElfSymbol) × (name : Option (List ℕ)) × (dwarf : Dwarf)
      × (location : Option LocationInfo) × (section_at file.bytes place ≡ done table)
      × (symbol_at file.bytes offset ≡ done symbol)
      × (get_symbol_name file.bytes table symbol ≡ done name)
      × IsDwarf file.bytes dwarf
      × (find_address dwarf address ≡ done location)
      × (answer.symbol_name ≡ text_or_empty name)
      × (answer.location ≡ location_or_none location)

  -- There is an answer exactly if a symbol covers the address.
  abbrev pub IsAnswer : Option Symbolized → Type 0
  IsAnswer none = IsDefinition file.bytes address none
  IsAnswer (some answer) =
      (place : ℕ) × (offset : ℕ) × IsDefinition file.bytes address (some (place, offset))
      × IsDescribed place offset answer

  Holds-describe :
      (found : Option (ℕ × ℕ))
      → IsDefinition file.bytes address found
      → Holds IsAnswer (describe file address found)
  Holds-describe none defined = defined
  Holds-describe (some (place, offset)) defined =
      Holds-bind (λ table. section_at file.bytes place ≡ done table) IsAnswer
        (section_at file.bytes place) _ (Holds-self _ (section_at-Ends file.bytes place))
        (λ table t.
          Holds-bind (λ symbol. symbol_at file.bytes offset ≡ done symbol) IsAnswer
            (symbol_at file.bytes offset) _ (Holds-self _ (symbol_at-Ends file.bytes offset))
            (λ symbol s.
              Holds-bind (λ name. get_symbol_name file.bytes table symbol ≡ done name) IsAnswer
                (get_symbol_name file.bytes table symbol) _
                (Holds-self _ (get_symbol_name-Ends file.bytes table symbol))
                (λ name n.
                  Holds-bind (IsDwarf file.bytes) IsAnswer (dwarf_of file.bytes) _
                    (dwarf_of-IsDwarf file.bytes)
                    (λ dwarf d.
                      Holds-bind (λ location. find_address dwarf address ≡ done location) IsAnswer
                        (find_address dwarf address) _
                        (Holds-self _ (Ends-find_address dwarf address))
                        (λ location l. (
                          place,
                          offset,
                          defined,
                          (table, symbol, name, dwarf, location, t, s, n, d, l, refl, refl),
                        ))))))

  pub symbolize_in-IsAnswer : Holds IsAnswer (symbolize_in file address)
  unfolding symbolize_in
  symbolize_in-IsAnswer =
      Holds-bind (IsDefinition file.bytes address) IsAnswer
        (get_definition_by_address file.bytes address) _
        (get_definition_by_address-IsDefinition file.bytes address)
        (λ found defined. Holds-describe found defined)
