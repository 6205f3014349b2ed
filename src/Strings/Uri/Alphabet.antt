-- ===== src/Strings/Uri/Alphabet.antt =====
-- Which bytes UriEscape writes, and which it leaves as they are.
use claire_common.Common.{
  ℕ, ◌/◌, ◌%◌, ◌<◌, ◌≡◌, ◌≢◌, ◌↔◌, refl, Bool, true, ◌&&◌, ◌||◌, List, [], ◌∷◌, arith, leb, ◌==◌,
  inl, inr, Bool-cases, All, All-append,
}
use claire_common.Strings.Uri.{
  EscapeMode, all, query, path, mode_value, uri_escape_entry, hex_value, escape_loop, uri_escape,
}
use claire_common.Strings.Uri.Encoding.{escape_byte, escape_bytes, uri_escape-escape_bytes}

abbrev pub is_alphanumeric : ℕ → Bool
is_alphanumeric c = leb b'0' c && leb c b'9' || leb b'A' c && leb c b'Z' || leb b'a' c && leb c b'z'

abbrev is_unreserved : ℕ → Bool
is_unreserved c = is_alphanumeric c || c == b'-' || c == b'_' || c == b'.' || c == b'~'

-- The bytes that may stand in an escaped text: the unreserved ones of RFC 3986 and the percent
-- sign, with '+' in the query mode and '/' in the path mode.
abbrev pub is_safe : EscapeMode → ℕ → Bool
is_safe all c = is_unreserved c || c == b'%'
is_safe query c = is_unreserved c || c == b'%' || c == b'+'
is_safe path c = is_unreserved c || c == b'%' || c == b'/'

abbrev pub IsSafe : EscapeMode → ℕ → Type 0
IsSafe mode c = is_safe mode c ≡ true

hex_value-IsSafe : (mode : EscapeMode) (d : ℕ) → d < 16 → IsSafe mode (hex_value d)
unfolding hex_value
hex_value-IsSafe all d h = ground arith
hex_value-IsSafe query d h = ground arith
hex_value-IsSafe path d h = ground arith

low-IsSafe :
    (mode : EscapeMode) (c : ℕ) → leb (uri_escape_entry c) (mode_value mode) ≡ true → IsSafe mode c
unfolding uri_escape_entry
low-IsSafe all c h = ground arith
low-IsSafe query c h = ground arith
low-IsSafe path c h = ground arith

percent-IsSafe : (mode : EscapeMode) → IsSafe mode b'%'
percent-IsSafe all = refl
percent-IsSafe query = refl
percent-IsSafe path = refl

plus-IsSafe : (mode : EscapeMode) → (mode_value mode == 1) ≡ true → IsSafe mode b'+'
plus-IsSafe all h = cc
plus-IsSafe query h = refl
plus-IsSafe path h = cc

module _ (mode : EscapeMode) where
  escape_byte-IsSafe : (c : ℕ) → c < 256 → All (IsSafe mode) (escape_byte mode c)
  unfolding escape_byte
  escape_byte-IsSafe c h = elim (Bool-cases (leb (uri_escape_entry c) (mode_value mode))) [
    | inl low ↦ rw low (low-IsSafe mode c low, tt)
    | inr high ↦ elim (Bool-cases (mode_value mode == 1 && uri_escape_entry c == 3)) [
      | inl space ↦ rw (high, space) (plus-IsSafe mode (ground arith), tt)
      | inr other ↦
          rw (high, other)
            (
              percent-IsSafe mode,
              (
                hex_value-IsSafe mode (c / 16) (omega arith),
                (hex_value-IsSafe mode (c % 16) (omega arith), tt),
              ),
            )
    ]
  ]

  escape_bytes-IsSafe :
      (input : List ℕ) → All (λ c. c < 256) input → All (IsSafe mode) (escape_bytes mode input)
  unfolding escape_bytes
  escape_bytes-IsSafe [] h = tt
  escape_bytes-IsSafe (c ∷ input) (hc, hs) =
      All-append (IsSafe mode) (escape_byte mode c) (escape_bytes mode input)
        (escape_byte-IsSafe c hc) (escape_bytes-IsSafe input hs)

  -- Whatever bytes it is given, UriEscape writes only bytes that are safe in its mode.
  pub uri_escape-IsSafe :
      (input : List ℕ) → All (λ c. c < 256) input → All (IsSafe mode) (uri_escape input [] mode)
  uri_escape-IsSafe input h =
      rw (uri_escape-escape_bytes mode input []) (escape_bytes-IsSafe input h)

-- An alphanumeric byte is left unchanged exactly if it is not the last of its range: the bytes
-- '9', 'Z' and 'z' are percent-encoded, in each mode.
pub uri_escape_alphanumeric :
    (mode : EscapeMode) (c : ℕ)
    → is_alphanumeric c ≡ true
    → (uri_escape (c ∷ []) [] mode ≡ c ∷ []) ↔ ((c ≢ b'9') × (c ≢ b'Z') × (c ≢ b'z'))
unfolding uri_escape escape_loop uri_escape_entry
uri_escape_alphanumeric mode c h =
    (λ e. (λ q. ground arith, λ q. ground arith, λ q. ground arith), λ q. ground arith)
