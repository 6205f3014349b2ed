-- ===== src/Tests/Strings.antt =====
-- claire/common/strings on concrete texts.
use claire_common.Common.{ℕ, ◌-◌, ◌^◌, ◌≡◌, refl, List, [], ◌∷◌, arith}
use claire_common.Common.Int.{negsuc}
use claire_common.Strings.Number.{zero_at, rem_ten, div_ten, digit_loop, int_to_buffer}
use claire_common.Strings.Number.Decimal.{read_decimal, read_decimal-int_to_buffer}
use claire_common.Strings.Uri.{
  query, path, uri_escape_entry, hex_entry, hex_value, uri_escape, uri_unescape, ok, throw,
  invalid_sequence,
}
use claire_common.Strings.Uri.RoundTrip.{uri_unescape-uri_escape}

-- "a b/9"
abbrev some_text : List ℕ
some_text = b'a' ∷ b' ' ∷ b'b' ∷ b'/' ∷ b'9' ∷ []

escape_query :
    uri_escape some_text [] query
    ≡ b'a' ∷ b'+' ∷ b'b' ∷ b'%' ∷ b'2' ∷ b'F' ∷ b'%' ∷ b'3' ∷ b'9' ∷ []
unfolding uri_escape uri_escape_entry hex_value
escape_query = refl

unescape_bad : uri_unescape (b'x' ∷ b'%' ∷ b'4' ∷ b'g' ∷ []) [] path ≡ throw invalid_sequence
unfolding uri_unescape hex_entry
unescape_bad = refl

uri_unescape-uri_escape_example :
    uri_unescape (uri_escape some_text [] query) (b'>' ∷ []) query ≡ ok (b'>' ∷ some_text)
uri_unescape-uri_escape_example = uri_unescape-uri_escape query some_text (b'>' ∷ []) (omega arith)

minus_hundred : int_to_buffer (negsuc 99) ≡ b'-' ∷ b'1' ∷ b'0' ∷ b'0' ∷ []
unfolding int_to_buffer digit_loop div_ten zero_at rem_ten
minus_hundred = refl

read_decimal-int_to_buffer_example :
    read_decimal (int_to_buffer (negsuc (2 ^ 63 - 1))) ≡ negsuc (2 ^ 63 - 1)
read_decimal-int_to_buffer_example = read_decimal-int_to_buffer (negsuc (2 ^ 63 - 1)) (omega arith)
