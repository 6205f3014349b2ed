-- ===== src/Strings/Uri/Encoding.antt =====
-- What UriEscape appends for one byte, and what UriUnescape does with it.
use claire_common.Common.{
  ℕ, ◌/◌, ◌%◌, ◌≡◌, ◌&&◌, List, [], ◌∷◌, ◌++◌, leb, ◌==◌, if◌then◌else◌, inl, inr, Bool-cases,
}
use mathlib.Core.List.{append-nil, append_assoc}
use claire_common.Strings.Uri.{
  EscapeMode, mode_value, uri_escape_entry, hex_value, escape_loop, uri_escape,
}

-- The bytes that stand for one byte of the input.
unfoldable pub escape_byte : EscapeMode → ℕ → List ℕ
escape_byte mode c =
    if leb (uri_escape_entry c) (mode_value mode)
    then c ∷ []
    else if mode_value mode == 1 && uri_escape_entry c == 3
    then b'+' ∷ []
    else b'%' ∷ hex_value (c / 16) ∷ hex_value (c % 16) ∷ []

unfoldable pub escape_bytes : EscapeMode → List ℕ → List ℕ
escape_bytes mode [] = []
escape_bytes mode (c ∷ input) = escape_byte mode c ++ escape_bytes mode input

module _ (mode : EscapeMode) where
  escape_loop-escape_bytes :
      (input run output : List ℕ)
      → escape_loop mode input run output ≡ output ++ (run ++ escape_bytes mode input)
  unfolding escape_loop escape_bytes escape_byte
  escape_loop-escape_bytes [] run output = rw (append-nil run)
  escape_loop-escape_bytes (c ∷ input) run output =
      elim (Bool-cases (leb (uri_escape_entry c) (mode_value mode))) [
        | inl low ↦
            simp (low, escape_loop-escape_bytes input (run ++ c ∷ []) output) (simp append_assoc)
        | inr high ↦ elim (Bool-cases (mode_value mode == 1 && uri_escape_entry c == 3)) [
          | inl space ↦
              simp (high, space, escape_loop-escape_bytes input [] ((output ++ run) ++ b'+' ∷ []))
                (simp append_assoc)
          | inr other ↦
              simp
                (
                  high,
                  other,
                  escape_loop-escape_bytes input []
                      ((output ++ run) ++ b'%' ∷ hex_value (c / 16) ∷ hex_value (c % 16) ∷ []),
                )
                (simp append_assoc)
        ]
      ]

  pub uri_escape-escape_bytes :
      (input output : List ℕ) → uri_escape input output mode ≡ output ++ escape_bytes mode input
  unfolding uri_escape
  uri_escape-escape_bytes input output = escape_loop-escape_bytes input [] output
