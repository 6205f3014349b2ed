-- ===== src/Logging/Stream/Room.antt =====
-- No value that is written leaves the buffer (claire/common/logging/LogStream.cc).
use mathlib.Core.List.{reverse}
use claire_common.Common.{
  ℕ, ◌+◌, ◌-◌, ◌^◌, ◌≤◌, ◌<◌, inl, inr, true, false, List, [], ◌∷◌, ◌++◌, leb, ltb, length, take,
  length-append, length-replicate, replicate, ◌%◌, ◌==◌, Bool-cases, All, arith, length-take,
}
use claire_common.Strings.Number.{int_to_buffer, hex_to_buffer}
use claire_common.Strings.Number.Decimal.{int_to_buffer_fits}
use claire_common.Strings.Number.Hexadecimal.{read_hex-hex_to_buffer}
use claire_common.Logging.Logger.{buffer_append}
use claire_common.Logging.Stream.{
  print_into, hex_texts, format_hex, lower_loop, print_all, hex_string, LogFormat, normal, hex,
  LogStream, Item, bool, char, integer, pointer, double, text, set_format, append_as, if_room, put,
  put_all,
}

buffer_append_fits :
    (size : ℕ) (msg buffer : List ℕ)
    → length buffer ≤ size
    → length (buffer_append size msg buffer) ≤ size
unfolding buffer_append
buffer_append_fits size msg buffer h = ground (
  arith,
  length-append buffer msg,
  length-append buffer (take (size - length buffer) msg),
  length-take (size - length buffer) msg,
)

print_into_fits :
    (room : ℕ) (msg : List ℕ)
    → length msg ≤ room
    → 1 ≤ length msg
    → length (print_into room msg) ≤ room
unfolding print_into
print_into_fits room msg h k =
    ground (arith, length-append (take (room - 1) msg) (0 ∷ []), length-take (room - 1) msg)

print_all_fits :
    (size : ℕ) (texts : List (List ℕ)) (out : List ℕ)
    → All (λ msg. 1 ≤ length msg) texts
    → length out ≤ size
    → length (print_all size texts out).0 ≤ size
unfolding print_all
print_all_fits size [] out ne h = h
print_all_fits size (msg ∷ texts) out (some_text, others) h =
    elim (Bool-cases (ltb (size - length out) (length msg))) [
      | inl large ↦ rw large h
      | inr fits ↦ rw fits (
          print_all_fits size texts (out ++ print_into (size - length out) msg) others (
            omega (
              arith,
              length-append out (print_into (size - length out) msg),
              print_into_fits (size - length out) msg (ground arith) some_text,
            )))
    ]

length-format_hex : (width i : ℕ) → width ≤ length (format_hex width i)
unfolding format_hex
length-format_hex width i =
    let digits = reverse (lower_loop 8 i) in
    omega (
      arith,
      length-append (replicate (width - length digits) b'0') digits,
      length-replicate {A = ℕ} (width - length digits) b'0',
    )

hex_texts-some : (i byte : ℕ) → All (λ msg. 1 ≤ length msg) (hex_texts i byte)
unfolding hex_texts
hex_texts-some i byte =
    let some_digits : 1 ≤ length (format_hex 2 byte) = omega (arith, length-format_hex 2 byte) in
    elim (Bool-cases (i % 16 == 0)) [
      | inl line ↦ rw line (elim (Bool-cases (i % 2 == 0)) [
        | inl space ↦ rw space (omega arith, (omega arith, (some_digits, tt)))
        | inr joined ↦ rw joined (omega arith, (some_digits, tt))
      ])
      | inr same ↦ rw same (elim (Bool-cases (i % 2 == 0)) [
        | inl space ↦ rw space (omega arith, (some_digits, tt))
        | inr joined ↦ rw joined (some_digits, tt)
      ])
    ]

hex_string_fits :
    (size i : ℕ) (bytes out : List ℕ)
    → length out ≤ size
    → length (hex_string size i bytes out) ≤ size
unfolding hex_string
hex_string_fits size i [] out h = h
hex_string_fits size i (byte ∷ bytes) out h =
    let printed = print_all_fits size (hex_texts i byte) out (hex_texts-some i byte) h in
    elim (Bool-cases ((print_all size (hex_texts i byte) out).1)) [
      | inl fits ↦
          rw fits
            (hex_string_fits size (i + 1) bytes (print_all size (hex_texts i byte) out).0 printed)
      | inr full ↦ rw full printed
    ]

append_as_fits :
    (size : ℕ) (format : LogFormat) (msg buffer : List ℕ)
    → length buffer ≤ size
    → length (append_as size format msg buffer) ≤ size
unfolding append_as
append_as_fits size normal msg buffer h = buffer_append_fits size msg buffer h
append_as_fits size hex msg buffer h = omega (
  arith,
  length-append buffer (hex_string (size - length buffer) 0 msg []),
  hex_string_fits (size - length buffer) 0 msg [] (omega arith),
)

if_room_fits :
    (size : ℕ) (buffer written : List ℕ)
    → length buffer ≤ size
    → (32 ≤ size - length buffer → length written ≤ size)
    → length (if_room size buffer written) ≤ size
if_room_fits size buffer written h k = elim (Bool-cases (leb 32 (size - length buffer))) [
  | inl room ↦ rw room (k (ground arith))
  | inr full ↦ rw full h
]

-- A pointer is an address of 64 bits.
abbrev pub IsItem : Item → Type 0
IsItem (pointer p) = p < 2 ^ 64
IsItem item = Unit {0}

put_fits :
    (size : ℕ) (item : Item) (s : LogStream)
    → IsItem item
    → length s.buffer ≤ size
    → length (put size item s).buffer ≤ size
unfolding put
put_fits size (bool true) s ok h = buffer_append_fits size (b'1' ∷ []) s.buffer h
put_fits size (bool false) s ok h = buffer_append_fits size (b'0' ∷ []) s.buffer h
put_fits size (char c) s ok h = buffer_append_fits size (c ∷ []) s.buffer h
put_fits size (integer v) s ok h =
    if_room_fits size s.buffer (s.buffer ++ int_to_buffer v) h
      (λ room. omega (arith, length-append s.buffer (int_to_buffer v), (int_to_buffer_fits v).0))
put_fits size (pointer p) s ok h =
    if_room_fits size s.buffer (s.buffer ++ b'0' ∷ b'x' ∷ hex_to_buffer p) h (λ room. omega (
      arith,
      length-append s.buffer (b'0' ∷ b'x' ∷ hex_to_buffer p),
      (read_hex-hex_to_buffer p ok).1,
    ))
put_fits size (double digits) s ok h =
    if_room_fits size s.buffer (append_as size s.format (take 31 digits) s.buffer) h
      (λ room. append_as_fits size s.format (take 31 digits) s.buffer h)
put_fits size (text msg) s ok h = append_as_fits size s.format msg s.buffer h
put_fits size (set_format f) s ok h = h

-- Whatever is written to a stream, in either format and however long, stays within its buffer.
pub put_all_fits :
    (size : ℕ) (items : List Item) (s : LogStream)
    → All IsItem items
    → length s.buffer ≤ size
    → length (put_all size items s).buffer ≤ size
unfolding put_all
put_all_fits size [] s ok h = h
put_all_fits size (item ∷ items) s (ok, others) h =
    put_all_fits size items (put size item s) others (put_fits size item s ok h)
