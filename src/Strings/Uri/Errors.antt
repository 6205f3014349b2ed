-- ===== src/Strings/Uri/Errors.antt =====
-- When UriUnescape throws.
use claire_common.Common.{ℕ, ◌<◌, ◌≡◌, ◌⊎◌, refl, ◌∙◌, List, [], ◌∷◌, ◌++◌, arith, length, All}
use mathlib.Core.Path.{ap}
use mathlib.Core.List.{append-nil, append_assoc}
use claire_common.Strings.Uri.{
  EscapeMode, hex_entry, throw, incomplete_sequence, invalid_sequence, unescape_loop, uri_unescape,
}
use claire_common.Strings.Uri.RoundTrip.{IsPlain, unescape_plain}

module _ (mode : EscapeMode) where
  unescape-All_plain :
      (front back run output : List ℕ)
      → All (IsPlain mode) front
      → unescape_loop mode (front ++ back) run output
        ≡ unescape_loop mode back (run ++ front) output
  unescape-All_plain [] back run output h = rw append-nil
  unescape-All_plain (c ∷ front) back run output (hc, hs) =
      unescape_plain mode c (front ++ back) run output hc
      ∙ unescape-All_plain front back (run ++ c ∷ []) output hs
      ∙ ap (λ r. unescape_loop mode back r output) (append_assoc run (c ∷ []) front)

  cut :
      (back run output : List ℕ)
      → length back < 2
      → unescape_loop mode (b'%' ∷ back) run output ≡ throw incomplete_sequence
  unfolding unescape_loop
  cut [] run output h = refl
  cut (d ∷ []) run output h = refl
  cut (d ∷ e ∷ back) run output h = absurd (omega arith)

  not_hex :
      (d e : ℕ) (back run output : List ℕ)
      → (hex_entry d ≡ 16) ⊎ (hex_entry e ≡ 16)
      → unescape_loop mode (b'%' ∷ d ∷ e ∷ back) run output ≡ throw invalid_sequence
  unfolding unescape_loop
  not_hex d e back run output bad = ground arith

  -- Behind bytes that stand for themselves, a percent sign with fewer than two bytes after it is
  -- the exception for an incomplete sequence.
  pub uri_unescape_incomplete :
      (front back output : List ℕ)
      → All (IsPlain mode) front
      → length back < 2
      → uri_unescape (front ++ (b'%' ∷ back)) output mode ≡ throw incomplete_sequence
  unfolding uri_unescape
  uri_unescape_incomplete front back output h k =
      unescape-All_plain front (b'%' ∷ back) [] output h ∙ cut back front output k

  -- Behind such bytes, a percent sign followed by a byte that is no hexadecimal digit among its two
  -- is the exception for an invalid sequence, whatever comes after it.
  pub uri_unescape_invalid :
      (front : List ℕ) (d e : ℕ) (back output : List ℕ)
      → All (IsPlain mode) front
      → (hex_entry d ≡ 16) ⊎ (hex_entry e ≡ 16)
      → uri_unescape (front ++ (b'%' ∷ d ∷ e ∷ back)) output mode ≡ throw invalid_sequence
  unfolding uri_unescape
  uri_unescape_invalid front d e back output h bad =
      unescape-All_plain front (b'%' ∷ d ∷ e ∷ back) [] output h ∙ not_hex d e back front output bad
