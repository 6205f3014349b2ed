-- ===== src/Symbolizer/Reader.antt =====
-- The Read functions of symbolizer/Dwarf.cc, over StringPiece::advance of strings/StringPiece.h,
-- which moves the pointer and leaves the size.
use claire_common.Common.{
  ℕ, zero, suc, ◌+◌, ◌-◌, ◌*◌, ◌/◌, ◌%◌, ◌^◌, ◌≤◌, ◌<◌, Bool, true, false, ◌&&◌, not, List, [], ◌∷◌,
  ltb, leb, ◌==◌, if◌then◌else◌, length, take, drop,
}
use claire_common.Common.Outcome.{
  Outcome, done, check_failed, undefined, ◌>>=◌, ◌>>◌, check, Holds, Holds-bind,
}
pub mod Fixed
pub mod Varint
pub mod Bounds

-- A StringPiece: the bytes from its pointer to the end of the mapped file, and its size.
pub record Piece : Type 0 where
  pub ahead : List ℕ
  pub size : ℕ

abbrev pub remaining : Piece → ℕ
remaining s = length s.ahead

-- What a reader returns, and the piece that it advanced.
abbrev pub Read : Type 0 → Type 0
Read A = Outcome (A × Piece)

abbrev pub little_endian : List ℕ → ℕ
little_endian [] = 0
little_endian (b ∷ bs) = b + 256 * little_endian bs

-- StringPiece::advance; what lies past the file is not mapped.
unfoldable pub advance : ℕ → Piece → Outcome Piece
advance n s = if leb n (remaining s) then done (record s { ahead = drop n s.ahead }) else undefined

-- `Read<T>` of an unsigned T of so many bytes, on a machine that stores the low byte first.
unfoldable pub read : ℕ → Piece → Read ℕ
unfolding advance
read width s = do
  check (leb width s.size)
  rest ← advance width s
  done (little_endian (take width s.ahead), rest)

-- The loop of ReadULEB: the number, and the `shift` and `val` that it leaves. `r` has no bit at
-- `shift` or above, so the `|=` is an addition. A shift by 64 or more is undefined, and so is a
-- byte past the file. Reading a byte leaves the size, so every round has the check of the first.
unfoldable pub read_uleb_loop : ℕ → List ℕ → ℕ → ℕ → Read (ℕ × ℕ × ℕ)
read_uleb_loop size [] shift r = check (leb 1 size) >> undefined
read_uleb_loop size (val ∷ rest) shift r =
    let r' = r + val % 128 * 2 ^ shift % 2 ^ 64 in
    let shift' = (shift + 7) % 256 in
    let more = read_uleb_loop size rest shift' r' in
    let stop = done ((r', shift', val), record { ahead = rest; size = size }) in
    check (leb 1 size) >> (if ltb shift 64 then if leb 128 val then more else stop else undefined)

unfoldable pub read_uleb : Piece → Read ℕ
read_uleb s = do (result, rest) ← read_uleb_loop s.size s.ahead 0 0; done (result.0, rest)

-- `-(1ULL << shift)` has the bits from `shift` on, so here too the `|=` is an addition.
unfoldable pub sign_extend : ℕ → ℕ → ℕ → ℕ
sign_extend r shift val =
    if ltb shift 64 && (val / 64 % 2 == 1) then r + (2 ^ 64 - 2 ^ shift) else r

-- The int64_t as its bit pattern.
unfoldable pub read_sleb : Piece → Read ℕ
unfolding sign_extend
read_sleb s = do
  ((r, shift, val), rest) ← read_uleb_loop s.size s.ahead 0 0
  done (sign_extend r shift val, rest)

unfoldable pub read_offset : Bool → Piece → Read ℕ
read_offset is_64_bits s = if is_64_bits then read 8 s else read 4 s

-- The bytes of the piece that is returned; it lies in the file, since the pointer moves behind it.
unfoldable pub read_bytes : ℕ → Piece → Read (List ℕ)
read_bytes len s = do check (leb s.size len); rest ← advance len s; done (take len s.ahead, rest)

-- memchr for the null within the size, and the bytes on its sides; assign takes the size down.
unfoldable pub find_null : List ℕ → ℕ → Read (List ℕ)
find_null s zero = check_failed
find_null [] (suc size) = undefined
find_null (zero ∷ s) (suc size) = done ([], record { ahead = s; size = size })
find_null (suc b ∷ s) (suc size) = do (text, rest) ← find_null s size; done (suc b ∷ text, rest)

unfoldable pub read_null_terminated : Piece → Read (List ℕ)
unfolding find_null
read_null_terminated s = find_null s.ahead s.size

-- `position` is `s.data() - start`.
unfoldable pub skip_padding : ℕ → ℕ → Piece → Outcome Piece
skip_padding position alignment s =
    let remainder = position % alignment in
    if remainder == 0
    then done s
    else (check (leb (alignment - remainder) s.size) >> advance (alignment - remainder) s)
