-- ===== src/Strings/Uri.antt =====
-- claire/common/strings/UriEscape.cc and .h, and the tables that
-- claire/common/strings/generate_escape_tables.py writes for it. A text is the list of its bytes.
pub mod Alphabet
pub mod Encoding
pub mod Errors
pub mod RoundTrip
use claire_common.Common.{
  ℕ, ◌+◌, ◌-◌, ◌*◌, ◌/◌, ◌%◌, Bool, ◌&&◌, ◌||◌, List, [], ◌∷◌, ◌++◌, ltb, leb, ◌==◌, if◌then◌else◌,
}

-- The modes' numbers are 0, 1 and 2, and are compared with the table's entries.
pub data EscapeMode : Type 0 where
  all query path : EscapeMode

abbrev pub mode_value : EscapeMode → ℕ
mode_value all = 0
mode_value query = 1
mode_value path = 2

-- Python's `range(ord(first), ord(last))` leaves `last` out.
abbrev in_range : ℕ → ℕ → ℕ → Bool
in_range first last c = leb first c && ltb c last

unfoldable pub passthrough : ℕ → Bool
passthrough c =
    in_range b'0' b'9' c
    || in_range b'A' b'Z' c
    || in_range b'a' b'z' c
    || c == b'-'
    || c == b'_'
    || c == b'.'
    || c == b'~'

-- An entry of kUriEscapeTable.
unfoldable pub uri_escape_entry : ℕ → ℕ
unfolding passthrough
uri_escape_entry c =
    if passthrough c then 0 else if c == b'/' then 2 else if c == b' ' then 3 else 4

-- An entry of kHexTable.
unfoldable pub hex_entry : ℕ → ℕ
hex_entry c =
    if leb b'0' c && leb c b'9'
    then c - b'0'
    else if leb b'a' c && leb c b'f'
    then c - b'a' + 10
    else if leb b'A' c && leb c b'F'
    then c - b'A' + 10
    else 16

-- kHexValues.
unfoldable pub hex_value : ℕ → ℕ
hex_value d = if ltb d 10 then b'0' + d else b'A' + (d - 10)

-- The bytes from `last` up to `p` are `run`; they are appended when a byte has to be replaced.
unfoldable pub escape_loop : EscapeMode → List ℕ → List ℕ → List ℕ → List ℕ
escape_loop mode [] run output = output ++ run
escape_loop mode (c ∷ input) run output =
    let discriminator = uri_escape_entry c in
    let pass = escape_loop mode input (run ++ (c ∷ [])) output in
    let plus = escape_loop mode input [] ((output ++ run) ++ (b'+' ∷ [])) in
    let percent =
      escape_loop mode input []
        ((output ++ run) ++ (b'%' ∷ hex_value (c / 16) ∷ hex_value (c % 16) ∷ [])) in
    if leb discriminator (mode_value mode)
    then pass
    else if mode_value mode == 1 && discriminator == 3
    then plus
    else percent

unfoldable pub uri_escape : List ℕ → List ℕ → EscapeMode → List ℕ
unfolding escape_loop
uri_escape input output mode = escape_loop mode input [] output

-- The two std::invalid_argument exceptions.
pub data Error : Type 0 where
  incomplete_sequence invalid_sequence : Error

pub data Result {ℓ} (A : Type ℓ) : Type ℓ where
  ok : A → Result A
  throw : Error → Result A

-- `p += 3` at a percent sign: the bytes behind it are matched with it.
unfoldable pub unescape_loop : EscapeMode → List ℕ → List ℕ → List ℕ → Result (List ℕ)
unescape_loop mode [] run output = ok (output ++ run)
unescape_loop mode (c ∷ []) run output =
    if c == b'%'
    then throw incomplete_sequence
    else if c == b'+' && mode_value mode == 1
    then ok ((output ++ run) ++ (b' ' ∷ []))
    else ok (output ++ (run ++ (c ∷ [])))
unescape_loop mode (c ∷ d ∷ []) run output =
    let plus = unescape_loop mode (d ∷ []) [] ((output ++ run) ++ (b' ' ∷ [])) in
    let pass = unescape_loop mode (d ∷ []) (run ++ (c ∷ [])) output in
    if c == b'%'
    then throw incomplete_sequence
    else if c == b'+' && mode_value mode == 1
    then plus
    else pass
unescape_loop mode (c ∷ d ∷ e ∷ input) run output =
    let h1 = hex_entry d in
    let h2 = hex_entry e in
    let percent = unescape_loop mode input [] ((output ++ run) ++ ((h1 * 16 + h2) ∷ [])) in
    let plus = unescape_loop mode (d ∷ e ∷ input) [] ((output ++ run) ++ (b' ' ∷ [])) in
    let pass = unescape_loop mode (d ∷ e ∷ input) (run ++ (c ∷ [])) output in
    if c == b'%'
    then if h1 == 16 || h2 == 16 then throw invalid_sequence else percent
    else if c == b'+' && mode_value mode == 1
    then plus
    else pass

unfoldable pub uri_unescape : List ℕ → List ℕ → EscapeMode → Result (List ℕ)
unfolding unescape_loop
uri_unescape input output mode = unescape_loop mode input [] output
