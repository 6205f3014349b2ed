-- ===== src/Strings/Piece/Comparison.antt =====
-- Equality and order of StringPiece (claire/common/strings/StringPiece.h and .cc).
use claire_common.Common.{
  ℕ, suc, ◌≡◌, ◌↔◌, inl, inr, refl, sym, ap, ◌∙◌, true, false, List, [], ◌∷◌, min, ltb, ◌==◌,
  ==_iff, if◌then◌else◌, length, Bool-cases, arith,
}
use claire_common.Strings.Piece.{
  equal_loop, equal, Sign, negative, zero_sign, positive, memcmp, by_length, is_less,
  compare_pieces, less,
}

equal_loop-≡ : (xs ys : List ℕ) → length xs ≡ length ys → equal_loop xs ys ≡ true → xs ≡ ys
unfolding equal_loop
equal_loop-≡ [] [] h e = refl
equal_loop-≡ [] (y ∷ ys) h e = absurd (omega arith)
equal_loop-≡ (x ∷ xs) [] h e = absurd (omega arith)
equal_loop-≡ (x ∷ xs) (y ∷ ys) h e = elim (Bool-cases (x == y)) [
  | inl same ↦
      let tails = equal_loop-≡ xs ys (omega arith) (ground arith) in
      ap (λ z. z ∷ xs) ((==_iff x y).0 same) ∙ ap (λ zs. y ∷ zs) tails
  | inr other ↦ absurd (ground arith)
]

equal_loop_self : (xs : List ℕ) → equal_loop xs xs ≡ true
unfolding equal_loop
equal_loop_self [] = refl
equal_loop_self (x ∷ xs) = rw ((==_iff x x).1 refl) (equal_loop_self xs)

equal_self : (xs : List ℕ) → equal xs xs ≡ true
unfolding equal
equal_self xs = ground (arith, equal_loop_self xs)

-- Two pieces are equal for the program, which looks at their last bytes first, exactly if they hold
-- the same bytes.
pub equal_iff : (xs ys : List ℕ) → (equal xs ys ≡ true) ↔ (xs ≡ ys)
unfolding equal
equal_iff xs ys = (
  λ e. equal_loop-≡ xs ys (ground arith) (ground arith),
  λ e. ap (equal xs) (sym e) ∙ equal_self xs,
)

-- The opposite sign.
abbrev pub opposite : Sign → Sign
opposite negative = positive
opposite zero_sign = zero_sign
opposite positive = negative

-- The lexicographic order on bytes, a prefix before what it begins.
unfoldable pub lexicographic : List ℕ → List ℕ → Sign
lexicographic [] [] = zero_sign
lexicographic [] (y ∷ ys) = negative
lexicographic (x ∷ xs) [] = positive
lexicographic (x ∷ xs) (y ∷ ys) =
    let rest = lexicographic xs ys in
    if ltb x y then negative else if ltb y x then positive else rest

min_zero : (n : ℕ) → min 0 n ≡ 0
min_zero n = omega arith

min_end : (n : ℕ) → min n 0 ≡ 0
min_end n = omega arith

min-suc : (m n : ℕ) → min (suc m) (suc n) ≡ suc (min m n)
min-suc m n = omega arith

by_length-suc : (s : Sign) (m n : ℕ) → by_length s (suc m) (suc n) ≡ by_length s m n
by_length-suc negative m n = refl
by_length-suc positive m n = refl
by_length-suc zero_sign m n = ground arith

compare_steps :
    (xs ys : List ℕ)
    → by_length (memcmp xs ys (min (length xs) (length ys))) (length xs) (length ys)
      ≡ lexicographic xs ys
unfolding memcmp lexicographic
compare_steps [] [] = refl
compare_steps [] (y ∷ ys) = rw (min_zero (suc (length ys))) (ground arith)
compare_steps (x ∷ xs) [] = rw (min_end (suc (length xs))) (ground arith)
compare_steps (x ∷ xs) (y ∷ ys) =
    let rest =
      by_length-suc (memcmp xs ys (min (length xs) (length ys))) (length xs) (length ys)
      ∙ compare_steps xs ys in
    rw (min-suc (length xs) (length ys)) (elim (Bool-cases (ltb x y)) [
      | inl below ↦ rw below refl
      | inr not_below ↦
          rw not_below
            (elim (Bool-cases (ltb y x)) [ inl above ↦ rw above refl | inr same ↦ rw same rest ])
    ])

less_sign : (s : Sign) (m n : ℕ) → is_less s (ltb m n) ≡ is_less (by_length s m n) false
less_sign negative m n = refl
less_sign positive m n = refl
less_sign zero_sign m n = ground arith

opposite-lexicographic : (xs ys : List ℕ) → opposite (lexicographic xs ys) ≡ lexicographic ys xs
unfolding lexicographic
opposite-lexicographic [] [] = refl
opposite-lexicographic [] (y ∷ ys) = refl
opposite-lexicographic (x ∷ xs) [] = refl
opposite-lexicographic (x ∷ xs) (y ∷ ys) = ground (arith, opposite-lexicographic xs ys)

-- compare and operator< agree with the lexicographic order of bytes, whose other side is its
-- opposite.
pub compare-lexicographic :
    (xs ys : List ℕ)
    → (compare_pieces xs ys ≡ lexicographic xs ys)
      × (less xs ys ≡ is_less (lexicographic xs ys) false)
      × (compare_pieces ys xs ≡ opposite (compare_pieces xs ys))
unfolding compare_pieces less
compare-lexicographic xs ys =
    let forwards = compare_steps xs ys in
    let backwards = compare_steps ys xs in
    (
      forwards,
      less_sign (memcmp xs ys (min (length xs) (length ys))) (length xs) (length ys)
          ∙ ap (λ s. is_less s false) forwards,
      backwards ∙ sym (opposite-lexicographic xs ys) ∙ ap opposite (sym forwards),
    )
