-- ===== src/Symbolizer/Section.antt =====
-- Dwarf::Section (symbolizer/Dwarf.h and .cc): a section in chunks, each behind its length.
use claire_common.Common.{
  ℕ, ◌+◌, ◌-◌, ◌%◌, ◌≤◌, ◌^◌, ◌<◌, ◌≡◌, refl, Bool, true, false, Option, none, some, ◌⊎◌, inl, inr,
  List, ◌++◌, leb, ◌==◌, if◌then◌else◌, length, length-append, drop, arith, length-drop,
}
use claire_common.Common.Outcome.{
  Outcome, done, ◌>>=◌, ◌>>◌, check, Holds, Holds-bind, Holds-if, Holds-check,
}
use claire_common.Symbolizer.Reader.{Piece, remaining, Read, advance, read}
use mathlib.Core.List.{append_assoc}
use claire_common.Symbolizer.Reader.Fixed.{
  to_bytes, length-to_bytes, read-to_bytes, drop-append_length,
}
use claire_common.Symbolizer.Reader.Bounds.{
  Leaves, Leaves-read, Leaves-any, Leaves-advance, Shrinks-read, Leaves-then,
}

-- `content` is `data_`.
pub record Section : Type 0 where
  pub is_64_bits : Bool
  pub content : Piece

unfoldable pub new_section : Piece → Section
new_section d = record { is_64_bits = false; content = d }

-- The length behind the first four bytes.
unfoldable pub read_length : ℕ → Piece → Read ℕ
read_length initial_length s =
    if initial_length == 2 ^ 32 - 1 then read 8 s else done (initial_length, s)

-- What Next leaves of the section: the bytes behind the chunk, up to the end that it had before.
unfoldable pub behind : ℕ → Piece → Piece → Piece
behind size chunk content =
    let passed = remaining content - remaining chunk + size in
    record { ahead = drop size chunk.ahead; size = (content.size + 2 ^ 64 - passed) % 2 ^ 64 }

-- Next: the chunk, or that there is none. A chunk past the file is not mapped.
unfoldable pub next_chunk : Section → Outcome (Option Piece × Section)
unfolding read_length behind
next_chunk current = if current.content.size == 0 then done (none, current) else (do
  (initial_length, s) ← read 4 current.content
  (size, chunk) ← read_length initial_length s
  check (leb size chunk.size)
  rest ← advance size chunk
  let found : Piece = record { ahead = chunk.ahead; size = size }
  let after : Section = record {
    is_64_bits = initial_length == 2 ^ 32 - 1;
    content = behind size chunk current.content;
  }
  done (some found, after))

-- A chunk as the standard stores it, in the 32-bit or the 64-bit format.
abbrev pub chunk_bytes : Bool → List ℕ → List ℕ
chunk_bytes false chunk = to_bytes 4 (length chunk) ++ chunk
chunk_bytes true chunk = to_bytes 4 (2 ^ 32 - 1) ++ (to_bytes 8 (length chunk) ++ chunk)

abbrev pub chunk_limit : Bool → ℕ
chunk_limit false = 2 ^ 32 - 1
chunk_limit true = 2 ^ 64 - 12

next_chunk-narrow :
    (chunk rest : List ℕ) (left : ℕ) (before : Bool)
    → length chunk < 2 ^ 32 - 1
    → length chunk + left < 2 ^ 64 - 12
    → next_chunk (record {
      is_64_bits = before;
      content = record {
        ahead = to_bytes 4 (length chunk) ++ (chunk ++ rest);
        size = 4 + length chunk + left;
      };
    })
      ≡ done (
        some (record { ahead = chunk ++ rest; size = length chunk }),
        record { is_64_bits = false; content = record { ahead = rest; size = left } },
      )
unfolding next_chunk read_length behind advance
next_chunk-narrow chunk rest left before small fits = ground (
  arith,
  read-to_bytes 4 (length chunk) (chunk ++ rest) (4 + length chunk + left),
  length-append (to_bytes 4 (length chunk)) (chunk ++ rest),
  length-to_bytes 4 (length chunk),
  length-append chunk rest,
  drop-append_length (length chunk) chunk rest refl,
)

next_chunk-wide :
    (chunk rest : List ℕ) (left : ℕ) (before : Bool)
    → length chunk + left < 2 ^ 64 - 12
    → next_chunk (record {
      is_64_bits = before;
      content = record {
        ahead = to_bytes 4 (2 ^ 32 - 1) ++ (to_bytes 8 (length chunk) ++ (chunk ++ rest));
        size = 12 + length chunk + left;
      };
    })
      ≡ done (
        some (record { ahead = chunk ++ rest; size = length chunk }),
        record { is_64_bits = true; content = record { ahead = rest; size = left } },
      )
unfolding next_chunk read_length behind advance
next_chunk-wide chunk rest left before fits = ground (
  arith,
  read-to_bytes 4 (2 ^ 32 - 1) (to_bytes 8 (length chunk) ++ (chunk ++ rest))
      (12 + length chunk + left),
  read-to_bytes 8 (length chunk) (chunk ++ rest) (12 + length chunk + left),
  length-append (to_bytes 4 (2 ^ 32 - 1)) (to_bytes 8 (length chunk) ++ (chunk ++ rest)),
  length-to_bytes 4 (2 ^ 32 - 1),
  length-append (to_bytes 8 (length chunk)) (chunk ++ rest),
  length-to_bytes 8 (length chunk),
  length-append chunk rest,
  drop-append_length (length chunk) chunk rest refl,
)

abbrev pub header_size : Bool → ℕ
header_size false = 4
header_size true = 12

-- Next gives a chunk that is stored in either format, of a length that the format can tell, says
-- which format it was, and leaves the section at what follows the chunk, with the size that is left.
pub next_chunk-chunk_bytes :
    (wide : Bool) (chunk rest : List ℕ) (left : ℕ) (before : Bool)
    → length chunk < chunk_limit wide
    → length chunk + left < 2 ^ 64 - 12
    → next_chunk (record {
      is_64_bits = before;
      content = record {
        ahead = chunk_bytes wide chunk ++ rest;
        size = header_size wide + length chunk + left;
      };
    })
      ≡ done (
        some (record { ahead = chunk ++ rest; size = length chunk }),
        record { is_64_bits = wide; content = record { ahead = rest; size = left } },
      )
next_chunk-chunk_bytes false chunk rest left before small fits =
    rw (append_assoc (to_bytes 4 (length chunk)) chunk rest)
      (next_chunk-narrow chunk rest left before small fits)
next_chunk-chunk_bytes true chunk rest left before small fits =
    rw
      (
        append_assoc (to_bytes 4 (2 ^ 32 - 1)) (to_bytes 8 (length chunk) ++ chunk) rest,
        append_assoc (to_bytes 8 (length chunk)) chunk rest,
      )
      (next_chunk-wide chunk rest left before fits)

Leaves-read_length : (n : ℕ) (s : Piece) → Leaves (remaining s) (read_length n s)
unfolding read_length
Leaves-read_length n s =
    Holds-if (λ r. remaining r.1 ≤ remaining s) (n == 2 ^ 32 - 1) (read 8 s) (done (n, s))
      (Leaves-any (remaining s) 8 (read 8 s) (Leaves-read 8 s)) (omega arith)

-- The section is at its end, or Next has moved it on.
abbrev pub IsNext : Section → Option Piece × Section → Type 0
IsNext current (found, after) =
    (found ≡ none) ⊎ (remaining after.content < remaining current.content)

after_length :
    (current : Section) (n : ℕ) (chunk found : Piece) (wide : Bool)
    → remaining chunk < remaining current.content
    → Holds (IsNext current) (do
      check (leb n chunk.size)
      rest ← advance n chunk
      done (some found, record { is_64_bits = wide; content = behind n chunk current.content }))
unfolding behind
after_length current n chunk found wide shorter =
    Holds-check (IsNext current) (leb n chunk.size) _ (λ fits.
      Holds-bind (λ rest. remaining rest ≤ remaining chunk - n) (IsNext current) (advance n chunk) _
        (Leaves-advance n chunk)
        (λ rest g. inr (omega (arith, shorter, length-drop n chunk.ahead))))

pub Holds-next_chunk : (current : Section) → Holds (IsNext current) (next_chunk current)
unfolding next_chunk
Holds-next_chunk current =
    Holds-if (IsNext current) (current.content.size == 0) (done (none, current)) _ (inl refl) (
      Holds-bind (λ r. remaining r.1 < remaining current.content) (IsNext current)
        (read 4 current.content) _ (Shrinks-read 4 current.content (omega arith))
        (λ r less.
          Leaves-then (remaining r.1) (IsNext current) (read_length r.0 r.1) _
            (Leaves-read_length r.0 r.1)
            (λ size chunk left. after_length current size chunk _ _ (omega (arith, less, left)))))
