-- ===== src/Strings/Piece.antt =====
-- StringPiece (claire/common/strings/StringPiece.h and .cc): comparison and search in a range of
-- bytes that the piece does not own.
use claire_common.Common.{
  ℕ, zero, suc, ◌+◌, ◌-◌, ◌^◌, ◌≡◌, Bool, true, false, not, ◌&&◌, ◌||◌, List, [], ◌∷◌, min, ltb,
  leb, ◌==◌, if◌then◌else◌, length, get_or, take, drop,
}
use claire_common.Common.Outcome.{Outcome, done, undefined}
pub mod Comparison
pub mod Search

-- `size_type(-1)`.
abbrev pub npos : ℕ
npos = 2 ^ 64 - 1

-- The loop of _equal over two ranges of one length.
unfoldable pub equal_loop : List ℕ → List ℕ → Bool
equal_loop [] ys = true
equal_loop (x ∷ xs) [] = true
equal_loop (x ∷ xs) (y ∷ ys) = let rest = equal_loop xs ys in if x == y then rest else false

-- `p[len-1] == p2[len-1]`.
abbrev pub same_last : List ℕ → List ℕ → Bool
same_last xs ys = get_or xs (length xs - 1) 0 == get_or ys (length xs - 1) 0

unfoldable pub equal : List ℕ → List ℕ → Bool
equal xs ys =
    if not (length xs == length ys)
    then false
    else if ltb 0 (length xs) && not (same_last xs ys)
    then false
    else equal_loop xs ys

-- The sign of memcmp on so many bytes of both.
pub data Sign : Type 0 where
  negative zero_sign positive : Sign

unfoldable pub memcmp : List ℕ → List ℕ → ℕ → Sign
memcmp xs ys zero = zero_sign
memcmp [] ys (suc n) = zero_sign
memcmp (x ∷ xs) [] (suc n) = zero_sign
memcmp (x ∷ xs) (y ∷ ys) (suc n) =
    let rest = memcmp xs ys n in if ltb x y then negative else if ltb y x then positive else rest

abbrev pub by_length : Sign → ℕ → ℕ → Sign
by_length negative m n = negative
by_length positive m n = positive
by_length zero_sign m n = if ltb m n then negative else if ltb n m then positive else zero_sign

unfoldable pub compare_pieces : List ℕ → List ℕ → Sign
compare_pieces xs ys =
    by_length (memcmp xs ys (min (length xs) (length ys))) (length xs) (length ys)

abbrev pub is_less : Sign → Bool → Bool
is_less negative shorter = true
is_less zero_sign shorter = shorter
is_less positive shorter = false

-- operator<.
unfoldable pub less : List ℕ → List ℕ → Bool
less xs ys = is_less (memcmp xs ys (min (length xs) (length ys))) (ltb (length xs) (length ys))

unfoldable pub substr : List ℕ → ℕ → ℕ → List ℕ
substr xs pos n =
    let start = if ltb (length xs) pos then length xs else pos in
    let count = if ltb (length xs - start) n then length xs - start else n in
    take count (drop start xs)

-- What copy writes, and its result; `length_ - pos` is unsigned.
unfoldable pub copy : List ℕ → ℕ → ℕ → Outcome (List ℕ)
copy xs n pos =
    if ltb (length xs) pos then undefined else done (take (min (length xs - pos) n) (drop pos xs))

unfoldable pub remove_prefix : ℕ → List ℕ → List ℕ
remove_prefix n xs = drop n xs

unfoldable pub remove_suffix : ℕ → List ℕ → List ℕ
remove_suffix n xs = take (length xs - n) xs

unfoldable pub is_prefix : List ℕ → List ℕ → Bool
is_prefix [] xs = true
is_prefix (c ∷ s) [] = false
is_prefix (c ∷ s) (x ∷ xs) = let rest = is_prefix s xs in if c == x then rest else false

-- std::search: where `s` begins first, or the end.
unfoldable pub search : List ℕ → List ℕ → ℕ
search [] s = 0
search (x ∷ xs) s = let rest = search xs s in if is_prefix s (x ∷ xs) then 0 else suc rest

unfoldable pub find : List ℕ → List ℕ → ℕ → ℕ
find xs s pos =
    let xpos = pos + search (drop pos xs) s in
    if ltb (length xs) pos then npos else if leb (xpos + length s) (length xs) then xpos else npos

-- std::find of a byte.
unfoldable pub find_byte : List ℕ → ℕ → ℕ
find_byte [] c = 0
find_byte (x ∷ xs) c = let rest = find_byte xs c in if x == c then 0 else suc rest

unfoldable pub find_char : List ℕ → ℕ → ℕ → ℕ
find_char xs c pos =
    let result = pos + find_byte (drop pos xs) c in
    if leb (length xs) 0 || leb (length xs) pos
    then npos
    else if not (result == length xs)
    then result
    else npos

-- The loop of rfind for a char, from `i` downwards.
unfoldable pub rfind_loop : List ℕ → ℕ → ℕ → ℕ
rfind_loop xs c zero = if get_or xs 0 0 == c then 0 else npos
rfind_loop xs c (suc i) =
    let rest = rfind_loop xs c i in if get_or xs (suc i) 0 == c then suc i else rest

-- `static_cast<int>` of the place keeps it below 2 ^ 31.
unfoldable pub rfind_char : List ℕ → ℕ → ℕ → ℕ
rfind_char xs c pos = if leb (length xs) 0 then npos else rfind_loop xs c (min pos (length xs - 1))
