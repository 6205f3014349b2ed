-- ===== src/Tests/Pieces.antt =====
-- StringPiece on concrete bytes.
use claire_common.Common.{ℕ, ◌≡◌, refl, true, List, [], ◌∷◌, arith}
use claire_common.Strings.Piece.{
  npos, find, search, is_prefix, rfind_char, rfind_loop, substr, compare_pieces, less, negative,
}
use claire_common.Strings.Piece.Comparison.{lexicographic, opposite, compare-lexicographic}
use claire_common.Strings.Piece.Search.{IsFound, find-IsFound}

abbrev banana : List ℕ
banana = 98 ∷ 97 ∷ 110 ∷ 97 ∷ 110 ∷ 97 ∷ []

abbrev ana : List ℕ
ana = 97 ∷ 110 ∷ 97 ∷ []

find_twice : (find banana ana 0 ≡ 1) × (find banana ana 2 ≡ 3) × (find banana ana 4 ≡ npos)
unfolding find search is_prefix
find_twice = (refl, refl, refl)

rfind-substr : (rfind_char banana 110 5 ≡ 4) × (substr banana 4 9 ≡ 110 ∷ 97 ∷ [])
unfolding rfind_char rfind_loop substr
rfind-substr = (refl, refl)

find-IsFound_example : IsFound banana ana 2 (find banana ana 2)
find-IsFound_example = find-IsFound banana ana 2 (omega arith)

compare-lexicographic_example :
    (compare_pieces ana banana ≡ negative)
    × (less ana banana ≡ true)
    × (compare_pieces banana ana ≡ opposite (compare_pieces ana banana))
unfolding lexicographic
compare-lexicographic_example = compare-lexicographic ana banana
