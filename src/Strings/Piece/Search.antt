-- ===== src/Strings/Piece/Search.antt =====
-- find and rfind of StringPiece (claire/common/strings/StringPiece.cc) return the first and the last
-- place.
use claire_common.Common.{
  ℕ, zero, suc, ◌+◌, ◌-◌, ◌≤◌, ◌<◌, ◌≡◌, ◌≢◌, ◌⊎◌, inl, inr, refl, sym, ap, ◌∙◌, true, false, List,
  [], ◌∷◌, leb, le→ltb, le→leb, if◌then◌else◌, length, drop, Bool-cases, arith, length-drop,
}
use claire_common.Strings.Piece.{npos, is_prefix, search, find}

-- `s` begins at `i` of `xs`.
abbrev pub BeginsAt : List ℕ → List ℕ → ℕ → Type 0
BeginsAt s xs i = is_prefix s (drop i xs) ≡ true

true-ne : true ≢ false
true-ne e = ground arith

lt→leb : (a b : ℕ) → b < a → leb a b ≡ false
lt→leb a b h = ground arith

prefix_nil : (xs : List ℕ) → is_prefix [] xs ≡ true
unfolding is_prefix
prefix_nil xs = refl

no_prefix : (c : ℕ) (s : List ℕ) (i : ℕ) → is_prefix (c ∷ s) (drop i []) ≡ false
unfolding is_prefix
no_prefix c s zero = refl
no_prefix c s (suc i) = refl

prefix_length : (s xs : List ℕ) → is_prefix s xs ≡ true → length s ≤ length xs
unfolding is_prefix
prefix_length [] xs h = omega arith
prefix_length (c ∷ s) [] h = absurd (ground arith)
prefix_length (c ∷ s) (x ∷ xs) h = ground (arith, prefix_length s xs)

drop_nil : (i : ℕ) → drop {A = ℕ} i [] ≡ []
drop_nil zero = refl
drop_nil (suc i) = refl

drop_on : (pos i : ℕ) (xs : List ℕ) → pos ≤ i → drop (i - pos) (drop pos xs) ≡ drop i xs
drop_on zero i xs h = ap (λ k. drop k xs) (omega arith)
drop_on (suc pos) i [] h = drop_nil (i - suc pos) ∙ sym (drop_nil i)
drop_on (suc pos) zero (x ∷ xs) h = absurd (omega arith)
drop_on (suc pos) (suc i) (x ∷ xs) h =
    ap (λ k. drop k (drop pos xs)) (omega arith) ∙ drop_on pos i xs (omega arith)

search_le : (xs s : List ℕ) → search xs s ≤ length xs
unfolding search
search_le [] s = omega arith
search_le (x ∷ xs) s = ground (arith, search_le xs s)

-- The first place is `r`, or there is none and `r` is the end.
abbrev IsFirst : List ℕ → List ℕ → ℕ → Type 0
IsFirst xs s r =
    ((r ≡ length xs) × ((i : ℕ) → is_prefix s (drop i xs) ≡ false))
    ⊎ (BeginsAt s xs r × ((i : ℕ) → i < r → is_prefix s (drop i xs) ≡ false))

IsFirst-cons :
    (x : ℕ) (xs s : List ℕ) (r : ℕ)
    → is_prefix s (x ∷ xs) ≡ false
    → IsFirst xs s r
    → IsFirst (x ∷ xs) s (suc r)
IsFirst-cons x xs s r h (inl (end, none_at)) = inl (ap suc end, shifted)
  where
    shifted : (i : ℕ) → is_prefix s (drop i (x ∷ xs)) ≡ false
    shifted zero = h
    shifted (suc i) = none_at i
IsFirst-cons x xs s r h (inr (here, before)) = inr (here, shifted)
  where
    shifted : (i : ℕ) → i < suc r → is_prefix s (drop i (x ∷ xs)) ≡ false
    shifted zero k = h
    shifted (suc i) k = before i (omega arith)

search-IsFirst : (xs s : List ℕ) → IsFirst xs s (search xs s)
unfolding search
search-IsFirst [] [] = inr (prefix_nil [], λ i h. absurd (omega arith))
search-IsFirst [] (c ∷ s) = inl (refl, no_prefix c s)
search-IsFirst (x ∷ xs) s = elim (Bool-cases (is_prefix s (x ∷ xs))) [
  | inl here ↦ rw here (inr (here, λ i h. absurd (omega arith)))
  | inr later ↦ rw later (IsFirst-cons x xs s (search xs s) later (search-IsFirst xs s))
]

some_pattern : (s xs : List ℕ) → is_prefix s xs ≡ false → 1 ≤ length s
some_pattern [] xs h = absurd (true-ne (sym (prefix_nil xs) ∙ h))
some_pattern (c ∷ s) xs h = omega arith

find_within :
    (xs s : List ℕ) (pos : ℕ)
    → pos ≤ length xs
    → find xs s pos ≡ (
        if leb (pos + search (drop pos xs) s + length s) (length xs)
        then pos + search (drop pos xs) s
        else npos)
unfolding find
find_within xs s pos h = rw (le→ltb (length xs) pos h) refl

-- What find means to return.
abbrev pub IsFound : List ℕ → List ℕ → ℕ → ℕ → Type 0
IsFound xs s pos r =
    ((r ≡ npos) × ((i : ℕ) → pos ≤ i → is_prefix s (drop i xs) ≡ false))
    ⊎ ((pos ≤ r) × BeginsAt s xs r × ((i : ℕ) → pos ≤ i → i < r → is_prefix s (drop i xs) ≡ false))

IsFound-from :
    (xs s : List ℕ) (pos r : ℕ)
    → pos ≤ length xs
    → r ≤ length (drop pos xs)
    → IsFirst (drop pos xs) s r
    → IsFound xs s pos (if leb (pos + r + length s) (length xs) then pos + r else npos)
IsFound-from xs s pos r h fits (inl (end, none_at)) =
    let pattern = some_pattern s (drop pos xs) (none_at 0) in
    rw (lt→leb (pos + r + length s) (length xs) (omega (arith, length-drop pos xs)))
      (inl (refl, λ i above. ap (is_prefix s) (sym (drop_on pos i xs above)) ∙ none_at (i - pos)))
IsFound-from xs s pos r h fits (inr (here, before)) =
    let room = prefix_length s (drop r (drop pos xs)) here in
    rw
      (le→leb (pos + r + length s) (length xs)
        (omega (arith, length-drop pos xs, length-drop r (drop pos xs))))
      (inr (
        omega arith,
        ap (is_prefix s) (
              sym (drop_on pos (pos + r) xs (omega arith))
              ∙ ap (λ k. drop k (drop pos xs)) (omega arith))
            ∙ here,
        λ i above below.
            ap (is_prefix s) (sym (drop_on pos i xs above)) ∙ before (i - pos) (omega arith),
      ))

-- From a place within the piece find returns the first place where the other piece begins, or npos
-- if there is none.
pub find-IsFound : (xs s : List ℕ) (pos : ℕ) → pos ≤ length xs → IsFound xs s pos (find xs s pos)
find-IsFound xs s pos h = rw (find_within xs s pos h) (
    IsFound-from xs s pos (search (drop pos xs) s) h (search_le (drop pos xs) s)
      (search-IsFirst (drop pos xs) s))
