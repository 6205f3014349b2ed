-- ===== src/Symbolizer/Process/Mapping.antt =====
-- The mapping that Symbolize (symbolizer/Symbolizer.cc) finds.
use claire_common.Common.{
  ℕ, ◌≤◌, ◌<◌, ◌≡◌, ◌≢◌, refl, ap, ◌⊎◌, inl, inr, Option, none, some, List, [], ◌∷◌, ◌++◌,
  if◌then◌else◌, arith, Bool-cases, All, ◌∙◌,
}
use claire_common.Common.Outcome.{Outcome, done, Holds, Holds-bind, Holds-self, Holds-mono}
use claire_common.Symbolizer.Process.{
  MapsLine, MappedFile, add_digit, digit_value, value_loop, from_hex, is_main, mapping_of,
  find_mapping,
}

add_digit-Ends : (value : ℕ) (d : Option ℕ) → Holds (λ n. Unit) (add_digit value d)
add_digit-Ends value none = tt
add_digit-Ends value (some d) = tt

value_loop-Ends : (s : List ℕ) (value : ℕ) → Holds (λ n. Unit) (value_loop s value)
unfolding value_loop
value_loop-Ends [] value = tt
value_loop-Ends (c ∷ s) value =
    Holds-bind (λ n. Unit) (λ n. Unit) (add_digit value (digit_value c)) _
      (add_digit-Ends value (digit_value c)) (λ n e. value_loop-Ends s n)

from_hex-Ends : (s : List ℕ) → Holds (λ n. Unit) (from_hex s)
unfolding from_hex
from_hex-Ends [] = tt
from_hex-Ends (c ∷ s) =
    Holds-bind (λ n. Unit) (λ n. Unit) (value_loop (c ∷ s) 0) _ (value_loop-Ends (c ∷ s) 0)
      (λ n e. tt)

module _ (match_line : List ℕ → Option MapsLine) (address : ℕ) where
  -- The numbers of a line.
  abbrev pub HasNumbers : MapsLine → ℕ → ℕ → ℕ → Type 0
  HasNumbers line from to offset =
      (from_hex line.from ≡ done from)
      × (from_hex line.to ≡ done to)
      × (from_hex line.offset ≡ done offset)

  -- The line maps the start of the file, at addresses among which the address is.
  abbrev pub IsMain : List ℕ → MappedFile → Type 0
  IsMain text mapping =
      (line : MapsLine) × (match_line text ≡ some line)
      × HasNumbers line mapping.begin mapping.end_of 0
      × (line.file_name ≡ mapping.name)
      × (mapping.begin ≤ address)
      × (address < mapping.end_of)

  -- The line is empty, maps another part of a file, or does not contain the address.
  abbrev pub IsOther : List ℕ → Type 0
  IsOther text =
      (text ≡ [])
      ⊎ ((line : MapsLine) × (from : ℕ) × (to : ℕ) × (offset : ℕ) × (match_line text ≡ some line)
          × HasNumbers line from to offset
          × ((offset ≢ 0) ⊎ ((address < from) ⊎ (to ≤ address))))

  -- What one line comes to.
  abbrev IsMapping : List ℕ → Option MappedFile → Type 0
  IsMapping text none = IsOther text
  IsMapping text (some mapping) = IsMain text mapping

  IsMapping-if :
      (text : List ℕ) (line : MapsLine) (from to offset : ℕ)
      → match_line text ≡ some line
      → HasNumbers line from to offset
      → IsMapping text (
          if is_main address from to offset
          then some (record { begin = from; end_of = to; name = line.file_name })
          else none)
  IsMapping-if text line from to offset e numbers =
      elim (Bool-cases (is_main address from to offset)) [
        | inl main ↦ rw main (
          line,
          e,
          (numbers.0, numbers.1, numbers.2 ∙ ap done (ground (arith, main))),
          refl,
          ground (arith, main),
          ground (arith, main),
        )
        | inr other ↦ rw other (inr (line, from, to, offset, e, numbers, ground (arith, other)))
      ]

  Holds-mapping_of :
      (text : List ℕ) (parsed : Option MapsLine)
      → match_line text ≡ parsed
      → Holds (IsMapping text) (mapping_of match_line parsed address)
  Holds-mapping_of text none e = tt
  Holds-mapping_of text (some line) e =
      Holds-bind (λ n. from_hex line.from ≡ done n) _ (from_hex line.from) _
        (Holds-self _ (from_hex-Ends line.from))
        (λ from f.
          Holds-bind (λ n. from_hex line.to ≡ done n) _ (from_hex line.to) _
            (Holds-self _ (from_hex-Ends line.to))
            (λ to t.
              Holds-bind (λ n. from_hex line.offset ≡ done n) _ (from_hex line.offset) _
                (Holds-self _ (from_hex-Ends line.offset))
                (λ offset o. IsMapping-if text line from to offset e (f, t, o))))

  -- The first line that maps the address, behind lines that do not, or none does.
  abbrev pub IsFirstMapping : List (List ℕ) → Option MappedFile → Type 0
  IsFirstMapping lines none = All IsOther lines
  IsFirstMapping lines (some mapping) =
      (before : List (List ℕ)) × (text : List ℕ) × (after : List (List ℕ)) × (lines
        ≡ before ++ text ∷ after)
      × All IsOther before
      × IsMain text mapping

  IsFirstMapping-other :
      (text : List ℕ) (lines : List (List ℕ)) (found : Option MappedFile)
      → IsOther text
      → IsFirstMapping lines found
      → IsFirstMapping (text ∷ lines) found
  IsFirstMapping-other text lines none other all = (other, all)
  IsFirstMapping-other text lines (some mapping) other (before, main, after, e, all, is_main) =
      (text ∷ before, main, after, ap (λ ls. text ∷ ls) e, (other, all), is_main)

  Holds-next :
      (text : List ℕ) (lines : List (List ℕ)) (mapping : Option MappedFile)
      (others : Outcome (Option MappedFile))
      → IsMapping text mapping
      → Holds (IsFirstMapping lines) others
      → Holds
          (IsFirstMapping (text ∷ lines))
          (elim mapping [ some found ↦ done (some found) | none ↦ others ])
  Holds-next text lines none others other h =
      Holds-mono (IsFirstMapping lines) (IsFirstMapping (text ∷ lines)) others
        (λ found. IsFirstMapping-other text lines found other) h
  Holds-next text lines (some mapping) others main h = ([], text, lines, refl, tt, main)

  pub Holds-find_mapping :
      (lines : List (List ℕ)) → Holds (IsFirstMapping lines) (find_mapping match_line lines address)
  unfolding find_mapping
  Holds-find_mapping [] = tt
  Holds-find_mapping ([] ∷ lines) =
      Holds-mono (IsFirstMapping lines) (IsFirstMapping ([] ∷ lines)) _
        (λ found. IsFirstMapping-other [] lines found (inl refl)) (Holds-find_mapping lines)
  Holds-find_mapping ((c ∷ line) ∷ lines) =
      Holds-bind (IsMapping (c ∷ line)) (IsFirstMapping ((c ∷ line) ∷ lines))
        (mapping_of match_line (match_line (c ∷ line)) address) _
        (Holds-mapping_of (c ∷ line) (match_line (c ∷ line)) refl)
        (λ mapping is_mapping.
          Holds-next (c ∷ line) lines mapping (find_mapping match_line lines address) is_mapping
            (Holds-find_mapping lines))
