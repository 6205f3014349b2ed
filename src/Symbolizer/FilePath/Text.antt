-- ===== src/Symbolizer/FilePath/Text.antt =====
-- The copies of a path (symbolizer/Dwarf.cc): ToBuffer against ToString.
use claire_common.Common.{
  ℕ, zero, suc, ◌+◌, ◌-◌, ◌≤◌, ◌≡◌, refl, sym, ap, ◌∙◌, not, List, [], ◌∷◌, ◌++◌, min, length,
  length-append, take, arith, take_all, take_nil,
}
use mathlib.Core.List.{append_assoc, append-nil}
use mathlib.Core.Path.{subst}
use claire_common.Symbolizer.FilePath.{
  slash, one_if, is_empty, FilePath, size, after_slash, to_string, Buffer, append_piece,
  append_part, append_base, to_buffer, terminated,
}

module _ {A : Type 0} where
  take-append_long :
      (n : ℕ) (xs ys : List A) → length xs ≤ n → take n (xs ++ ys) ≡ xs ++ take (n - length xs) ys
  take-append_long n [] ys h = ap (λ (m : ℕ). take m ys) (omega arith)
  take-append_long zero (x ∷ xs) ys h = absurd (omega (arith, h))
  take-append_long (suc n) (x ∷ xs) ys h =
      ap (λ zs. x ∷ zs)
        (take-append_long n xs ys (omega (arith, h))
          ∙ ap (λ (m : ℕ). xs ++ take m ys) (omega arith))

  take-append_short : (n : ℕ) (xs ys : List A) → n ≤ length xs → take n (xs ++ ys) ≡ take n xs
  take-append_short zero xs ys h = refl
  take-append_short (suc n) [] ys h = absurd (omega (arith, h))
  take-append_short (suc n) (x ∷ xs) ys h =
      ap (λ zs. x ∷ zs) (take-append_short n xs ys (omega (arith, h)))

  take-min : (n : ℕ) (xs : List A) → take (min (length xs) n) xs ≡ take n xs
  take-min n xs = ground (arith, take_all n xs, take_all (length xs) xs)

-- After the bytes of `text` went to a buffer of `n` bytes.
abbrev pub HoldsText : ℕ → List ℕ → Buffer → Type 0
HoldsText n text b =
    (b.total_size ≡ length text)
    × (b.written ≡ take (n - 1) text)
    × (b.buf_size ≡ n - min (length text) (n - 1))

HoldsText-append_piece :
    (n : ℕ) (text s : List ℕ) (b : Buffer)
    → HoldsText n text b
    → HoldsText n (text ++ s) (append_piece s b)
unfolding append_piece
HoldsText-append_piece n text s b (total, written, room) = ground (
  arith,
  length-append text s,
  take_all (n - 1) text,
  take-append_long (n - 1) text s,
  take-append_short (n - 1) text s,
  take-min (n - 1 - length text) s,
)

HoldsText-append_part :
    (n : ℕ) (text s : List ℕ) (b : Buffer)
    → HoldsText n text b
    → HoldsText n (text ++ after_slash s) (append_part s b)
HoldsText-append_part n text [] b h = rw append-nil h
HoldsText-append_part n text (c ∷ s) b h =
    subst (λ t. HoldsText n t (append_part (c ∷ s) b)) (append_assoc text (slash ∷ []) (c ∷ s))
      (HoldsText-append_piece n (text ++ (slash ∷ [])) (c ∷ s) _
        (HoldsText-append_piece n text (slash ∷ []) b h))

HoldsText-append_base :
    (n : ℕ) (s : List ℕ) (b : Buffer) → HoldsText n [] b → HoldsText n s (append_base s b)
HoldsText-append_base n [] b h = h
HoldsText-append_base n (c ∷ s) b h = HoldsText-append_piece n [] (c ∷ s) b h

-- What snprintf would leave in a buffer of so many bytes.
abbrev pub truncated : ℕ → List ℕ → List ℕ
truncated zero text = []
truncated (suc n) text = take n text ++ (0 ∷ [])

length-after_slash : (s : List ℕ) → length (after_slash s) ≡ one_if (not (is_empty s)) + length s
length-after_slash [] = omega arith
length-after_slash (c ∷ s) = omega arith

length-to_string : (p : FilePath) → length (to_string p []) ≡ size p
unfolding to_string size
length-to_string p = ground (
  arith,
  length-append (p.base_dir ++ after_slash p.sub_dir) (after_slash p.file),
  length-append p.base_dir (after_slash p.sub_dir),
  length-after_slash p.sub_dir,
  length-after_slash p.file,
)

terminated-HoldsText :
    (n : ℕ) (text : List ℕ) (b : Buffer)
    → HoldsText n text b
    → terminated b ≡ (truncated n text, length text)
unfolding terminated
terminated-HoldsText zero text b h = ground (arith, h)
terminated-HoldsText (suc n) text b h = ground (arith, h)

-- ToBuffer does what snprintf does with the text of ToString: a buffer of `n` bytes gets the first
-- `n - 1` bytes of that text and a null, or nothing when `n` is 0, and the result is the length of
-- the whole text, which is what size tells.
pub to_buffer-to_string :
    (p : FilePath) (n : ℕ)
    → (to_buffer p n ≡ (truncated n (to_string p []), size p)) × (size p ≡ length (to_string p []))
unfolding to_buffer to_string
to_buffer-to_string p n =
    let start : Buffer = record { written = []; buf_size = n; total_size = 0 } in
    let base = append_base p.base_dir start in
    let copied = HoldsText-append_part n _ p.file _ (
      HoldsText-append_part n _ p.sub_dir base
        (HoldsText-append_base n p.base_dir start (refl, sym (take_nil (n - 1)), omega arith))) in
    (
      terminated-HoldsText n (to_string p []) _ copied
          ∙ ap (λ (m : ℕ). (truncated n (to_string p []), m)) (length-to_string p),
      sym (length-to_string p),
    )
