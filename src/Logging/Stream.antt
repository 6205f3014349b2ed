-- ===== src/Logging/Stream.antt =====
-- LogStream (claire/common/logging/LogStream.h and .cc) and HexString (claire/common/strings): values
-- written as text into a buffer that never grows.
use mathlib.Core.List.{reverse}
use claire_common.Common.{
  ℕ, zero, suc, ◌+◌, ◌-◌, ◌/◌, ◌%◌, ◌==◌, Bool, true, false, List, [], ◌∷◌, ◌++◌, leb, ltb,
  if◌then◌else◌, length, take, replicate,
}
use claire_common.Common.Int.{ℤ}
use claire_common.Strings.Number.{int_to_buffer, hex_to_buffer}
use claire_common.Logging.Logger.{buffer_append, avail}
pub mod Room

-- kSmallBuffer.
abbrev pub small_buffer : ℕ
small_buffer = 4096

-- A digit of "%x".
abbrev lower_digit : ℕ → ℕ
lower_digit d = if ltb d 10 then b'0' + d else b'a' + (d - 10)

unfoldable pub lower_loop : ℕ → ℕ → List ℕ
lower_loop zero i = []
lower_loop (suc fuel) i =
    let rest = lower_loop fuel (i / 16) in lower_digit (i % 16) ∷ (if i / 16 == 0 then [] else rest)

-- "%04x" of an unsigned int, "%02x" of a byte: at least `width` digits.
unfoldable pub format_hex : ℕ → ℕ → List ℕ
format_hex width i =
    let digits = reverse (lower_loop 8 i) in replicate (width - length digits) b'0' ++ digits

-- What snprintf leaves of a text in so much room, where the text is counted as written: a text that
-- leaves no room for the NUL loses its last byte to it.
unfoldable pub print_into : ℕ → List ℕ → List ℕ
print_into room text = if ltb (length text) room then text else take (room - 1) text ++ 0 ∷ []

-- The texts that HexString prints for the byte at `i`, each with its own call of snprintf.
unfoldable pub hex_texts : ℕ → ℕ → List (List ℕ)
hex_texts i byte =
    (if i % 16 == 0 then (10 ∷ b'0' ∷ b'x' ∷ format_hex 4 i ++ b':' ∷ []) ∷ [] else [])
    ++ (if i % 2 == 0 then (b' ' ∷ []) ∷ [] else [])
    ++ format_hex 2 byte ∷ []

-- Prints texts until one does not fit; the flag says that all did.
unfoldable pub print_all : ℕ → List (List ℕ) → List ℕ → List ℕ × Bool
print_all size [] out = (out, true)
print_all size (text ∷ texts) out =
    let rest = print_all size texts (out ++ print_into (size - length out) text) in
    if ltb (size - length out) (length text) then (out, false) else rest

unfoldable pub hex_string : ℕ → ℕ → List ℕ → List ℕ → List ℕ
hex_string size i [] out = out
hex_string size i (byte ∷ bytes) out =
    let printed = print_all size (hex_texts i byte) out in
    let rest = hex_string size (i + 1) bytes printed.0 in if printed.1 then rest else printed.0

pub data LogFormat : Type 0 where
  normal hex : LogFormat

pub record LogStream : Type 0 where
  pub buffer : List ℕ
  pub format : LogFormat

unfoldable pub new_log_stream : LogStream
new_log_stream = record { buffer = []; format = normal }

-- What is written with <<. The text of a double is what snprintf makes of it.
pub data Item : Type 0 where
  bool : Bool → Item
  char : ℕ → Item
  integer : ℤ → Item
  pointer : ℕ → Item
  double : List ℕ → Item
  text : List ℕ → Item
  set_format : LogFormat → Item

-- LogStream::Append. HexString writes from `current()` on, with `avail()` bytes of room.
unfoldable pub append_as : ℕ → LogFormat → List ℕ → List ℕ → List ℕ
append_as size normal msg buffer = buffer_append size msg buffer
append_as size hex msg buffer = buffer ++ hex_string (avail size buffer) 0 msg []

-- `if (buffer_.avail() >= kMaxNumericSize)`.
abbrev pub if_room : ℕ → List ℕ → List ℕ → List ℕ
if_room size buffer written = if leb 32 (avail size buffer) then written else buffer

unfoldable pub put : ℕ → Item → LogStream → LogStream
put size (bool true) s = record s { buffer = buffer_append size (b'1' ∷ []) s.buffer }
put size (bool false) s = record s { buffer = buffer_append size (b'0' ∷ []) s.buffer }
put size (char c) s = record s { buffer = buffer_append size (c ∷ []) s.buffer }
put size (integer v) s = record s { buffer = if_room size s.buffer (s.buffer ++ int_to_buffer v) }
put size (pointer p) s = record s {
  buffer = if_room size s.buffer (s.buffer ++ b'0' ∷ b'x' ∷ hex_to_buffer p);
}
put size (double digits) s = record s {
  buffer = if_room size s.buffer (append_as size s.format (take 31 digits) s.buffer);
}
put size (text msg) s = record s { buffer = append_as size s.format msg s.buffer }
put size (set_format f) s = record s { format = f }

unfoldable pub put_all : ℕ → List Item → LogStream → LogStream
put_all size [] s = s
put_all size (item ∷ items) s = put_all size items (put size item s)
