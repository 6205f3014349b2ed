-- ===== src/Symbolizer/Process/Cache.antt =====
-- The files that a Symbolizer (symbolizer/Symbolizer.cc) keeps, and what Symbolize answers from.
use claire_common.Common.{ℕ, ◌≡◌, ◌⊎◌, Option, none, some, List, [], ◌∷◌, ◌++◌}
use claire_common.Common.Outcome.{done}
use claire_common.Symbolizer.Elf.{init_elf}
use claire_common.Symbolizer.Process.{MapsLine, MappedFile, ElfFile, ElfFiles}
use claire_common.Symbolizer.Process.Mapping.{IsFirstMapping}
use claire_common.Symbolizer.Process.Answers.{IsOriginal, IsAnswer}
use claire_common.Symbolizer.Process.Symbolize.{Symbolized}

-- A name that starts with '[' or ends with ')'.
abbrev pub IsSpecial : List ℕ → Type 0
IsSpecial name =
    ((others : List ℕ) × (name ≡ b'[' ∷ others))
    ⊎ ((front : List ℕ) × (name ≡ front ++ (b')' ∷ [])))

module _ (load : List ℕ → Option (List ℕ)) where
  -- The file of a name, with the base address of its first segment.
  abbrev pub IsLoaded : List ℕ → ElfFile → Type 0
  IsLoaded name file =
      (load name ≡ some file.bytes) × (init_elf file.bytes ≡ done file.base_address)

  abbrev pub IsCache : ElfFiles → Type 0
  IsCache [] = Unit
  IsCache ((name, file) ∷ files) = IsLoaded name file × IsCache files

  -- What get_file gives: no file for a name like "[vdso]" or "/f (deleted)", or the file of the name.
  abbrev pub IsOpened : List ℕ → Option ElfFile × ElfFiles → Type 0
  IsOpened name (none, files) = IsSpecial name × IsCache files
  IsOpened name (some file, files) = IsLoaded name file × IsCache files

  module _ (match_line : List ℕ → Option MapsLine) (lines : List (List ℕ)) (address : ℕ) where
    -- The files kept are those of their names. There is no mapping of the address and no answer; or
    -- the name of the first mapping is special, and there is none; or the answer is that of the
    -- file of that name, at the address as the file has it.
    abbrev pub IsSymbolized : Option Symbolized × ElfFiles → Type 0
    IsSymbolized (result, files) =
        IsCache files
        × ((IsFirstMapping match_line address lines none × (result ≡ none))
            ⊎ ((mapping : MappedFile) × IsFirstMapping match_line address lines (some mapping)
                × ((IsSpecial mapping.name × (result ≡ none))
                    ⊎ ((file : ElfFile) × (original : ℕ) × IsLoaded mapping.name file
                        × IsOriginal address mapping.begin file.base_address original
                        × IsAnswer file original result))))
