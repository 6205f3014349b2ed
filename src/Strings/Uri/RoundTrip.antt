-- ===== src/Strings/Uri/RoundTrip.antt =====
-- UriUnescape reads back what UriEscape wrote.
use claire_common.Common.{
  ℕ, ◌/◌, ◌%◌, ◌<◌, ◌≡◌, refl, ◌≢◌, true, false, ◌&&◌, List, [], ◌∷◌, ◌++◌, arith, leb, ◌==◌, inl,
  inr, ◌⊎◌, Bool-cases, All,
}
use mathlib.Core.List.{append-nil, append_assoc}
use claire_common.Strings.Uri.{
  EscapeMode, all, query, path, mode_value, uri_escape_entry, hex_entry, hex_value, uri_escape,
  uri_unescape, ok, unescape_loop,
}
use claire_common.Strings.Uri.Encoding.{escape_byte, escape_bytes, uri_escape-escape_bytes}

hex_entry-hex_value : (d : ℕ) → d < 16 → hex_entry (hex_value d) ≡ d
unfolding hex_entry hex_value
hex_entry-hex_value d h = ground arith

-- A byte that UriUnescape does not look into joins the run.
abbrev pub IsPlain : EscapeMode → ℕ → Type 0
IsPlain mode c = (c ≢ b'%') × ((c == b'+' && mode_value mode == 1) ≡ false)

module _ (mode : EscapeMode) where
  pub unescape_plain :
      (c : ℕ) (rest run output : List ℕ)
      → IsPlain mode c
      → unescape_loop mode (c ∷ rest) run output ≡ unescape_loop mode rest (run ++ c ∷ []) output
  unfolding unescape_loop
  unescape_plain c [] run output h = ground arith
  unescape_plain c (d ∷ []) run output h = ground arith
  unescape_plain c (d ∷ e ∷ rest) run output h = ground arith

  unescape_percent :
      (c : ℕ) (rest run output : List ℕ)
      → c < 256
      → unescape_loop mode (b'%' ∷ hex_value (c / 16) ∷ hex_value (c % 16) ∷ rest) run output
        ≡ unescape_loop mode rest [] ((output ++ run) ++ c ∷ [])
  unfolding unescape_loop
  unescape_percent c rest run output h = ground (
    arith,
    hex_entry-hex_value (c / 16) (omega arith),
    hex_entry-hex_value (c % 16) (omega arith),
  )

unescape_plus :
    (rest run output : List ℕ)
    → unescape_loop query (b'+' ∷ rest) run output
      ≡ unescape_loop query rest [] ((output ++ run) ++ b' ' ∷ [])
unfolding unescape_loop
unescape_plus [] run output = rw append-nil
unescape_plus (d ∷ []) run output = refl
unescape_plus (d ∷ e ∷ rest) run output = refl

low-IsPlain :
    (mode : EscapeMode) (c : ℕ) → leb (uri_escape_entry c) (mode_value mode) ≡ true → IsPlain mode c
unfolding uri_escape_entry
low-IsPlain all c h = (λ e. ground arith, ground arith)
low-IsPlain query c h = (λ e. ground arith, ground arith)
low-IsPlain path c h = (λ e. ground arith, ground arith)

is_space :
    (mode : EscapeMode) (c : ℕ)
    → (mode_value mode == 1 && uri_escape_entry c == 3) ≡ true
    → (mode ≡ query) × (c ≡ b' ')
unfolding uri_escape_entry
is_space all c h = ground arith
is_space query c h = ground arith
is_space path c h = ground arith

module _ (mode : EscapeMode) where
  unescape_byte :
      (c : ℕ) (rest run output : List ℕ)
      → c < 256
      → (unescape_loop mode (escape_byte mode c ++ rest) run output
          ≡ unescape_loop mode rest (run ++ c ∷ []) output)
        ⊎ (unescape_loop mode (escape_byte mode c ++ rest) run output
            ≡ unescape_loop mode rest [] ((output ++ run) ++ c ∷ []))
  unfolding escape_byte
  unescape_byte c rest run output h =
      elim (Bool-cases (leb (uri_escape_entry c) (mode_value mode))) [
        | inl low ↦ inl (rw low (unescape_plain mode c rest run output (low-IsPlain mode c low)))
        | inr high ↦ elim (Bool-cases (mode_value mode == 1 && uri_escape_entry c == 3)) [
          | inl space ↦
              let (m, b) = is_space mode c space in
              inr (rw (high, space, m, b) (unescape_plus rest run output))
          | inr other ↦ inr (rw (high, other) (unescape_percent mode c rest run output h))
        ]
      ]

  unescape-escape_bytes :
      (input run output : List ℕ)
      → All (λ c. c < 256) input
      → unescape_loop mode (escape_bytes mode input) run output ≡ ok (output ++ (run ++ input))
  unfolding escape_bytes
  unescape-escape_bytes [] run output h = unfold unescape_loop in rw (append-nil run)
  unescape-escape_bytes (c ∷ input) run output (hc, hs) =
      elim (unescape_byte c (escape_bytes mode input) run output hc) [
        | inl e ↦
            simp (e, unescape-escape_bytes input (run ++ c ∷ []) output hs) (simp append_assoc)
        | inr e ↦
            simp (e, unescape-escape_bytes input [] ((output ++ run) ++ c ∷ []) hs)
              (simp append_assoc)
      ]

-- UriUnescape undoes UriEscape in each mode: it appends the escaped bytes to the output.
pub uri_unescape-uri_escape :
    (mode : EscapeMode) (input output : List ℕ)
    → All (λ c. c < 256) input
    → uri_unescape (uri_escape input [] mode) output mode ≡ ok (output ++ input)
unfolding uri_unescape
uri_unescape-uri_escape mode input output h =
    rw (uri_escape-escape_bytes mode input []) (unescape-escape_bytes mode input [] output h)
