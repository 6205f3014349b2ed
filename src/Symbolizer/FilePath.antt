-- ===== src/Symbolizer/FilePath.antt =====
-- Dwarf::Path (symbolizer/Dwarf.h and .cc): a path in three parts, and the copies of its text.
use claire_common.Common.{
  ℕ, zero, suc, ◌+◌, ◌-◌, Bool, true, false, not, ◌&&◌, List, [], ◌∷◌, ◌++◌, min, ltb, leb, ◌==◌,
  if◌then◌else◌, length, take,
}
pub mod Normal
pub mod Text

-- `'/'`.
abbrev pub slash : ℕ
slash = 47

-- The first loop of StripSlashes, from the beginning to `p`.
unfoldable pub drop_slashes : List ℕ → List ℕ
drop_slashes [] = []
drop_slashes (b ∷ s) = let rest = drop_slashes s in if b == slash then rest else b ∷ s

abbrev pub is_empty : List ℕ → Bool
is_empty [] = true
is_empty (b ∷ s) = false

-- The second loop, from the end back to `q`: the bytes up to the last that is not a slash.
unfoldable pub drop_last_slashes : List ℕ → List ℕ
drop_last_slashes [] = []
drop_last_slashes (b ∷ s) =
    let rest = drop_last_slashes s in if is_empty rest && (b == slash) then [] else b ∷ rest

-- With `keep_initial_slash`, the byte before `p`, which is a slash, stays.
unfoldable pub strip_slashes : Bool → List ℕ → List ℕ
strip_slashes keep_initial_slash s =
    let from_p = drop_slashes s in
    if is_empty s
    then s
    else if keep_initial_slash && ltb (length from_p) (length s)
    then slash ∷ drop_last_slashes from_p
    else drop_last_slashes from_p

pub record FilePath : Type 0 where
  pub base_dir : List ℕ
  pub sub_dir : List ℕ
  pub file : List ℕ

abbrev pub starts_with_slash : List ℕ → Bool
starts_with_slash [] = false
starts_with_slash (b ∷ s) = b == slash

abbrev pub clear_if : Bool → List ℕ → List ℕ
clear_if absolute s = if absolute then [] else s

-- The swap when base_dir_ is empty, and the strips.
unfoldable pub normalized : List ℕ → List ℕ → List ℕ → FilePath
normalized base_dir sub_dir file = record {
  base_dir = strip_slashes true (if is_empty base_dir then sub_dir else base_dir);
  sub_dir = strip_slashes false (if is_empty base_dir then base_dir else sub_dir);
  file = strip_slashes false file;
}

unfoldable pub new_path : List ℕ → List ℕ → List ℕ → FilePath
unfolding normalized
new_path base_dir sub_dir file =
    if is_empty file
    then record { base_dir = []; sub_dir = []; file = [] }
    else (let base_dir1 = clear_if (starts_with_slash file) base_dir in
        let sub_dir1 = clear_if (starts_with_slash file) sub_dir in
        normalized (clear_if (starts_with_slash sub_dir1) base_dir1) sub_dir1 file)

abbrev pub one_if : Bool → ℕ
one_if true = 1
one_if false = 0

unfoldable pub size : FilePath → ℕ
size p =
    length p.base_dir
    + one_if (not (is_empty p.sub_dir))
    + length p.sub_dir
    + one_if (not (is_empty p.file))
    + length p.file

-- The part after a slash, if it is not empty.
abbrev pub after_slash : List ℕ → List ℕ
after_slash [] = []
after_slash (b ∷ s) = slash ∷ b ∷ s

-- ToString: what it appends to `dest`.
unfoldable pub to_string : FilePath → List ℕ → List ℕ
to_string p dest = ((dest ++ p.base_dir) ++ after_slash p.sub_dir) ++ after_slash p.file

-- ToBuffer: the bytes behind `buf`, what is left of `buf_size`, and `total_size`.
pub record Buffer : Type 0 where
  pub written : List ℕ
  pub buf_size : ℕ
  pub total_size : ℕ

-- The macro Append.
unfoldable pub append_piece : List ℕ → Buffer → Buffer
append_piece s b =
    let to_copy = min (length s) (b.buf_size - 1) in
    if leb 2 b.buf_size
    then record {
      written = b.written ++ take to_copy s;
      buf_size = b.buf_size - to_copy;
      total_size = b.total_size + length s;
    }
    else record b { total_size = b.total_size + length s }

abbrev pub append_part : List ℕ → Buffer → Buffer
append_part [] b = b
append_part (c ∷ s) b = append_piece (c ∷ s) (append_piece (slash ∷ []) b)

abbrev pub append_base : List ℕ → Buffer → Buffer
append_base s b = if is_empty s then b else append_piece s b

-- The null at the end: what stands in the buffer after the call, and the result.
unfoldable pub terminated : Buffer → List ℕ × ℕ
terminated b = (if leb 1 b.buf_size then b.written ++ (0 ∷ []) else b.written, b.total_size)

unfoldable pub to_buffer : FilePath → ℕ → List ℕ × ℕ
to_buffer p buf_size =
    let start : Buffer = record { written = []; buf_size = buf_size; total_size = 0 } in
    terminated (append_part p.file (append_part p.sub_dir (append_base p.base_dir start)))
