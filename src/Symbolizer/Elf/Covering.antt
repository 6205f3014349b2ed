-- ===== src/Symbolizer/Elf/Covering.antt =====
-- The symbols of a table that cover an address, as ElfFile::GetDefinitionByAddress (symbolizer/Elf.cc)
-- looks for them.
use mathlib.Core.Path.{subst}
use claire_common.Common.{
  ℕ, zero, suc, ◌+◌, ◌*◌, ◌%◌, ◌^◌, ◌≤◌, ◌<◌, ◌≡◌, ◌≢◌, sym, ◌∙◌, ◌⊎◌, Bool, true, false, Option,
  none, some, List, ◌==◌, arith, not, ◌&&◌, ◌||◌, leb, ltb,
}
use claire_common.Common.Outcome.{
  done, Holds, Holds-bind, Holds-self, Holds-cases, Holds-mono, done-injective,
}
use claire_common.Symbolizer.Elf.{SectionHeader, ElfSymbol, symbol_at}
use claire_common.Symbolizer.Elf.Ends.{symbol_at-Ends}
use claire_common.Symbolizer.Elf.Symbols.{find_symbol, covers}

-- An object or a function that is defined, from its value on over its size.
abbrev pub Covers : ℕ → ElfSymbol → Type 0
Covers address symbol =
    ((symbol.st_info % 16 ≡ 1) ⊎ (symbol.st_info % 16 ≡ 2))
    × (symbol.st_shndx ≢ 0)
    × (symbol.st_value ≤ address)
    × (address < (symbol.st_value + symbol.st_size) % 2 ^ 64)

-- The test of the loop.
abbrev passes : ℕ → ElfSymbol → Bool
passes address symbol =
    (symbol.st_info % 16 == 1 || symbol.st_info % 16 == 2)
    && not (symbol.st_shndx == 0)
    && leb symbol.st_value address
    && ltb address ((symbol.st_value + symbol.st_size) % 2 ^ 64)

passes-Covers :
    (address : ℕ) (symbol : ElfSymbol) → passes address symbol ≡ true → Covers address symbol
passes-Covers address symbol h = ground arith

Covers-passes :
    (address : ℕ) (symbol : ElfSymbol) → Covers address symbol → passes address symbol ≡ true
Covers-passes address symbol h = ground arith

pub true-ne-false : true ≢ false
true-ne-false h = cc

module _ (file : List ℕ) (address : ℕ) where
  abbrev pub CoveringAt : ℕ → Type 0
  CoveringAt found =
      (symbol : ElfSymbol) × (symbol_at file found ≡ done symbol) × Covers address symbol

  -- None of so many symbols from the offset on covers the address.
  abbrev pub NoSymbol : ℕ → ℕ → Type 0
  NoSymbol count offset =
      (i : ℕ)
      → i < count
      → (symbol : ElfSymbol) → symbol_at file (offset + i * 24) ≡ done symbol
      → ¬ (Covers address symbol)

  abbrev pub IsSymbol : ℕ → ℕ → Option ℕ → Type 0
  IsSymbol count offset none = NoSymbol count offset
  IsSymbol count offset (some found) = CoveringAt found

  NoSymbol-suc :
      (count offset : ℕ) (symbol : ElfSymbol)
      → symbol_at file offset ≡ done symbol
      → passes address symbol ≡ false
      → NoSymbol count (offset + 24)
      → NoSymbol (suc count) offset
  NoSymbol-suc count offset symbol e fails others zero below symbol' e' covering =
      let here = subst (λ o. symbol_at file o ≡ done symbol') (omega arith) e' in
      let same = subst (λ s. passes address s ≡ false) (done-injective (sym e ∙ here)) fails in
      true-ne-false (sym (Covers-passes address symbol' covering) ∙ same)
  NoSymbol-suc count offset symbol e fails others (suc i) below symbol' e' covering =
      others i (omega (arith, below)) symbol'
        (subst (λ o. symbol_at file o ≡ done symbol') (omega arith) e') covering

  IsSymbol-suc :
      (count offset : ℕ) (symbol : ElfSymbol) (result : Option ℕ)
      → symbol_at file offset ≡ done symbol
      → passes address symbol ≡ false
      → IsSymbol count (offset + 24) result
      → IsSymbol (suc count) offset result
  IsSymbol-suc count offset symbol none e fails others =
      NoSymbol-suc count offset symbol e fails others
  IsSymbol-suc count offset symbol (some found) e fails others = others

  pub find_symbol-IsSymbol :
      (table : SectionHeader) (count offset : ℕ)
      → Holds (IsSymbol count offset) (find_symbol file (covers address table) count offset)
  unfolding find_symbol
  find_symbol-IsSymbol table zero offset = λ i below. absurd (omega (arith, below))
  find_symbol-IsSymbol table (suc count) offset =
      Holds-bind (λ symbol. symbol_at file offset ≡ done symbol) (IsSymbol (suc count) offset)
        (symbol_at file offset) _ (Holds-self _ (symbol_at-Ends file offset))
        (λ symbol e.
          Holds-cases (IsSymbol (suc count) offset) (passes address symbol) (done (some offset)) _
            (λ good. (symbol, e, passes-Covers address symbol good))
            (λ fails.
              Holds-mono (IsSymbol count (offset + 24)) (IsSymbol (suc count) offset) _
                (λ result. IsSymbol-suc count offset symbol result e fails)
                (find_symbol-IsSymbol table count (offset + 24))))
