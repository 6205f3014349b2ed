-- ===== src/Symbolizer/Process/Sections.antt =====
-- Dwarf::Init (symbolizer/Dwarf.cc) on an ElfFile: which section of the file is which.
use claire_common.Common.{
  ℕ, ◌≡◌, refl, ◌⊎◌, inl, inr, true, false, Option, none, some, List, [], ◌∷◌,
}
use claire_common.Common.Outcome.{done, Holds, Holds-bind, Holds-self, Holds-mono}
use claire_common.Symbolizer.Reader.{Piece}
use claire_common.Symbolizer.Elf.{SectionHeader, section_at, get_section_by_name, get_section_body}
use claire_common.Symbolizer.Elf.Search.{section_at-Ends}
use claire_common.Symbolizer.Elf.Names.{IsNamed, get_section_by_name-IsNamed}
use claire_common.Symbolizer.Elf.Ends.{get_section_body-Ends}
use claire_common.Symbolizer.Lookup.{
  Dwarf, SectionName, debug_info, debug_abbrev, debug_aranges, debug_line, debug_str, new_dwarf,
  get_sections, get_section,
}
use claire_common.Symbolizer.Process.Symbolize.{
  debug_name, name_of, body_at, section_piece, piece_after, choose, dwarf_of,
}

module _ (file : List ℕ) where
  -- The piece is the body of the section of that name.
  abbrev pub IsBody : List ℕ → Piece → Type 0
  IsBody name body =
      (offset : ℕ) × (section : SectionHeader) × (get_section_by_name file name
        ≡ done (some offset))
      × (section_at file offset ≡ done section)
      × (get_section_body file section ≡ done body)

  -- Either all five sections are there, each under its name, or one is not, and the Dwarf has no
  -- file.
  abbrev pub IsDwarf : Dwarf → Type 0
  IsDwarf d =
      ((d.has_elf ≡ true)
        × IsBody (debug_name (b'i' ∷ b'n' ∷ b'f' ∷ b'o' ∷ [])) d.info
        × IsBody (debug_name (b'a' ∷ b'b' ∷ b'b' ∷ b'r' ∷ b'e' ∷ b'v' ∷ [])) d.abbrevs
        × IsBody (debug_name (b'a' ∷ b'r' ∷ b'a' ∷ b'n' ∷ b'g' ∷ b'e' ∷ b's' ∷ [])) d.aranges
        × IsBody (debug_name (b'l' ∷ b'i' ∷ b'n' ∷ b'e' ∷ [])) d.line
        × IsBody (debug_name (b's' ∷ b't' ∷ b'r' ∷ [])) d.strings)
      ⊎ ((d.has_elf ≡ false)
          × ((name : SectionName) × (get_section_by_name file (name_of name) ≡ done none)))

  abbrev IsPiece : SectionName → Option Piece → Type 0
  IsPiece name none =
      (missing : SectionName) × (get_section_by_name file (name_of missing) ≡ done none)
  IsPiece name (some body) = IsBody (name_of name) body

  body_at-IsPiece :
      (name : SectionName) (found : Option ℕ)
      → get_section_by_name file (name_of name) ≡ done found
      → Holds (IsPiece name) (body_at file found)
  body_at-IsPiece name none e = (name, e)
  body_at-IsPiece name (some offset) e =
      Holds-bind (λ section. section_at file offset ≡ done section) (IsPiece name)
        (section_at file offset) _ (Holds-self _ (section_at-Ends file offset))
        (λ section at_it.
          Holds-bind (λ body. get_section_body file section ≡ done body) (IsPiece name)
            (get_section_body file section) _ (Holds-self _ (get_section_body-Ends file section))
            (λ body is_it. (offset, section, e, at_it, is_it)))

  section_piece-IsPiece : (name : SectionName) → Holds (IsPiece name) (section_piece file name)
  unfolding section_piece
  section_piece-IsPiece name =
      Holds-bind (λ found. get_section_by_name file (name_of name) ≡ done found) (IsPiece name)
        (get_section_by_name file (name_of name)) _
        (Holds-self _ (
          Holds-mono (IsNamed file (name_of name)) (λ found. Unit) _ (λ found e. tt)
            (get_section_by_name-IsNamed file (name_of name))))
        (λ found e. body_at-IsPiece name found e)

  piece_after-IsPiece :
      (before : Option Piece) (earlier name : SectionName)
      → IsPiece earlier before
      → Holds (IsPiece name) (piece_after before file name)
  piece_after-IsPiece none earlier name missing = missing
  piece_after-IsPiece (some before) earlier name found = section_piece-IsPiece name

  new_dwarf-IsDwarf :
      (i a r l s : Option Piece)
      → IsPiece debug_info i
      → IsPiece debug_abbrev a
      → IsPiece debug_aranges r
      → IsPiece debug_line l
      → IsPiece debug_str s
      → IsDwarf (new_dwarf (choose i a r l s))
  unfolding new_dwarf get_sections get_section
  new_dwarf-IsDwarf none a r l s hi ha hr hl hs = inr (refl, hi)
  new_dwarf-IsDwarf (some i) none r l s hi ha hr hl hs = inr (refl, ha)
  new_dwarf-IsDwarf (some i) (some a) none l s hi ha hr hl hs = inr (refl, hr)
  new_dwarf-IsDwarf (some i) (some a) (some r) none s hi ha hr hl hs = inr (refl, hl)
  new_dwarf-IsDwarf (some i) (some a) (some r) (some l) none hi ha hr hl hs = inr (refl, hs)
  new_dwarf-IsDwarf (some i) (some a) (some r) (some l) (some s) hi ha hr hl hs =
      inl (refl, hi, ha, hr, hl, hs)

  pub dwarf_of-IsDwarf : Holds IsDwarf (dwarf_of file)
  unfolding dwarf_of
  dwarf_of-IsDwarf =
      Holds-bind (IsPiece debug_info) IsDwarf (section_piece file debug_info) _
        (section_piece-IsPiece debug_info)
        (λ i hi.
          Holds-bind (IsPiece debug_abbrev) IsDwarf (piece_after i file debug_abbrev) _
            (piece_after-IsPiece i debug_info debug_abbrev hi)
            (λ a ha.
              Holds-bind (IsPiece debug_aranges) IsDwarf (piece_after a file debug_aranges) _
                (piece_after-IsPiece a debug_abbrev debug_aranges ha)
                (λ r hr.
                  Holds-bind (IsPiece debug_line) IsDwarf (piece_after r file debug_line) _
                    (piece_after-IsPiece r debug_aranges debug_line hr)
                    (λ l hl.
                      Holds-bind (IsPiece debug_str) IsDwarf (piece_after l file debug_str) _
                        (piece_after-IsPiece l debug_line debug_str hl)
                        (λ s hs. new_dwarf-IsDwarf i a r l s hi ha hr hl hs)))))
