-- ===== src/Symbolizer/Reader/Bounds.antt =====
-- What the readers leave of a piece (symbolizer/Dwarf.cc): never more than there was.
use claire_common.Common.{
  ℕ, zero, suc, ◌+◌, ◌-◌, ◌*◌, ◌%◌, ◌^◌, ◌≤◌, ◌<◌, Bool, true, false, List, [], ◌∷◌, ltb, leb,
  length, arith, length-drop,
}
use claire_common.Common.Outcome.{
  Holds-check, Outcome, done, check_failed, undefined, out_of_fuel, ◌>>=◌, Holds, Holds-bind,
  Holds-if, Holds-mono,
}
use claire_common.Symbolizer.Reader.{
  Piece, remaining, find_null, Read, advance, read, read_uleb_loop, read_uleb, read_sleb,
  read_offset, read_bytes, read_null_terminated, skip_padding,
}

-- A reader returns, and at most so many bytes are left.
abbrev pub Leaves : {A : Type 0} → ℕ → Read A → Type 0
Leaves n = Holds (λ r. remaining r.1 ≤ n)

pub Leaves-bind :
    {A B : Type 0} (k n : ℕ) (m : Read A) (f : A × Piece → Read B)
    → Leaves k m
    → ((a : A) (rest : Piece) → remaining rest ≤ k → Leaves n (f (a, rest)))
    → Leaves n (m >>= f)
Leaves-bind k n m f h g =
    Holds-bind (λ r. remaining r.1 ≤ k) (λ r. remaining r.1 ≤ n) m f h (λ r hr. g r.0 r.1 hr)

pub Leaves-then {ℓ} :
    {A : Type 0} {B : Type ℓ} (k : ℕ) (Q : B → Type 0) (m : Read A) (f : A × Piece → Outcome B)
    → Leaves k m
    → ((a : A) (rest : Piece) → remaining rest ≤ k → Holds Q (f (a, rest)))
    → Holds Q (m >>= f)
Leaves-then k Q m f h g = Holds-bind (λ r. remaining r.1 ≤ k) Q m f h (λ r hr. g r.0 r.1 hr)

pub Leaves-mono : {A : Type 0} (k n : ℕ) (m : Read A) → k ≤ n → Leaves k m → Leaves n m
Leaves-mono k n (done r) h g = omega (arith, h, g)
Leaves-mono k n check_failed h g = tt
Leaves-mono k n undefined h g = tt
Leaves-mono k n out_of_fuel h g = g

-- A reader leaves no more than there was.
pub Leaves-any : {A : Type 0} (n k : ℕ) (m : Read A) → Leaves (n - k) m → Leaves n m
Leaves-any n k m h = Leaves-mono (n - k) n m (omega arith) h

pub Leaves-advance :
    (n : ℕ) (s : Piece) → Holds (λ rest. remaining rest ≤ remaining s - n) (advance n s)
unfolding advance
Leaves-advance n s = ground (arith, length-drop n s.ahead)

pub Leaves-read : (size : ℕ) (s : Piece) → Leaves (remaining s - size) (read size s)
unfolding read advance
Leaves-read size s = ground (arith, length-drop size s.ahead)

-- A reader that returns has taken a byte.
abbrev pub Shrinks : {A : Type 0} → Piece → Read A → Type 0
Shrinks s = Holds (λ r. remaining r.1 < remaining s)

Shrinks→Leaves : {A : Type 0} (s : Piece) (m : Read A) → Shrinks s m → Leaves (remaining s - 1) m
Shrinks→Leaves s m h =
    Holds-mono (λ r. remaining r.1 < remaining s) (λ r. remaining r.1 ≤ remaining s - 1) m
      (λ r g. omega (arith, g)) h

Shrinks-read_uleb_loop :
    (size : ℕ) (s : List ℕ) (shift r : ℕ)
    → Holds (λ a. remaining a.1 < length s) (read_uleb_loop size s shift r)
unfolding read_uleb_loop
Shrinks-read_uleb_loop size [] shift r =
    Holds-check (λ a. remaining a.1 < 0) (leb 1 size) undefined (λ e. tt)
Shrinks-read_uleb_loop size (val ∷ rest) shift r =
    let n = length (val ∷ rest) in
    let next = read_uleb_loop size rest ((shift + 7) % 256) (r + val % 128 * 2 ^ shift % 2 ^ 64) in
    Holds-check (λ a. remaining a.1 < n) (leb 1 size) _
      (λ e.
        Holds-if (λ a. remaining a.1 < n) (ltb shift 64) _ undefined
          (Holds-if (λ a. remaining a.1 < n) (leb 128 val) next
            (done (_, record { ahead = rest; size = size }))
            (Holds-mono (λ a. remaining a.1 < length rest) (λ a. remaining a.1 < n) next
              (λ a g. omega (arith, g)) (Shrinks-read_uleb_loop size rest _ _))
            (omega arith))
          tt)

pub Shrinks-read_uleb : (s : Piece) → Shrinks s (read_uleb s)
unfolding read_uleb
Shrinks-read_uleb s =
    Holds-bind (λ a. remaining a.1 < remaining s) (λ a. remaining a.1 < remaining s)
      (read_uleb_loop s.size s.ahead 0 0) _ (Shrinks-read_uleb_loop s.size s.ahead 0 0) (λ a h. h)

pub Shrinks-read_sleb : (s : Piece) → Shrinks s (read_sleb s)
unfolding read_sleb
Shrinks-read_sleb s =
    Holds-bind (λ a. remaining a.1 < remaining s) (λ a. remaining a.1 < remaining s)
      (read_uleb_loop s.size s.ahead 0 0) _ (Shrinks-read_uleb_loop s.size s.ahead 0 0) (λ a h. h)

pub Leaves-read_uleb : (s : Piece) → Leaves (remaining s - 1) (read_uleb s)
Leaves-read_uleb s = Shrinks→Leaves s (read_uleb s) (Shrinks-read_uleb s)

pub Leaves-read_sleb : (s : Piece) → Leaves (remaining s - 1) (read_sleb s)
Leaves-read_sleb s = Shrinks→Leaves s (read_sleb s) (Shrinks-read_sleb s)

pub Leaves-read_offset : (wide : Bool) (s : Piece) → Leaves (remaining s - 4) (read_offset wide s)
unfolding read_offset
Leaves-read_offset true s =
    Leaves-mono (remaining s - 8) _ (read 8 s) (omega arith) (Leaves-read 8 s)
Leaves-read_offset false s = Leaves-read 4 s

pub Leaves-read_bytes : (len : ℕ) (s : Piece) → Leaves (remaining s - len) (read_bytes len s)
unfolding read_bytes advance
Leaves-read_bytes len s = ground (arith, length-drop len s.ahead)

Shrinks-find_null :
    (s : List ℕ) (size : ℕ) → Holds (λ r. remaining r.1 < length s) (find_null s size)
unfolding find_null
Shrinks-find_null [] zero = tt
Shrinks-find_null [] (suc size) = tt
Shrinks-find_null (b ∷ s) zero = tt
Shrinks-find_null (zero ∷ s) (suc size) = omega arith
Shrinks-find_null (suc b ∷ s) (suc size) =
    Holds-bind (λ r. remaining r.1 < length s) (λ r. remaining r.1 < suc (length s))
      (find_null s size) _ (Shrinks-find_null s size) (λ r h. omega (arith, h))

pub Shrinks-read_null_terminated : (s : Piece) → Shrinks s (read_null_terminated s)
unfolding read_null_terminated
Shrinks-read_null_terminated s = Shrinks-find_null s.ahead s.size

pub Leaves-read_null_terminated : (s : Piece) → Leaves (remaining s - 1) (read_null_terminated s)
Leaves-read_null_terminated s =
    Shrinks→Leaves s (read_null_terminated s) (Shrinks-read_null_terminated s)

pub Shrinks-read : (n : ℕ) (s : Piece) → 0 < n → Shrinks s (read n s)
unfolding read advance
Shrinks-read n s positive = ground (arith, length-drop n s.ahead)

pub Leaves-skip_padding :
    (position alignment : ℕ) (s : Piece)
    → Holds (λ rest. remaining rest ≤ remaining s) (skip_padding position alignment s)
unfolding skip_padding advance
Leaves-skip_padding position alignment s =
    ground (arith, length-drop (alignment - position % alignment) s.ahead)

-- What only matters in that it is not the end of the fuel.
abbrev pub Ends : {A : Type 0} → Outcome A → Type 0
Ends = Holds (λ a. Unit)

pub Ends-read :
    {A B : Type 0} (n : ℕ) (m : Read A) (f : A × Piece → Outcome B)
    → Leaves n m
    → ((a : A × Piece) → Ends (f a))
    → Ends (m >>= f)
Ends-read n m f h k = Holds-bind (λ r. remaining r.1 ≤ n) (λ b. Unit) m f h (λ a g. k a)

pub Ends-bind :
    {A B : Type 0} (m : Outcome A) (f : A → Outcome B)
    → Ends m
    → ((a : A) → Ends (f a))
    → Ends (m >>= f)
Ends-bind m f h k = Holds-bind (λ r. Unit) (λ b. Unit) m f h (λ a g. k a)

pub Ends-advance : (n : ℕ) (s : Piece) → Ends (advance n s)
Ends-advance n s =
    Holds-mono (λ rest. remaining rest ≤ remaining s - n) (λ rest. Unit) (advance n s) (λ a h. tt)
      (Leaves-advance n s)

pub Ends-byte :
    {B : Type 0} (s : Piece) (f : ℕ × Piece → Outcome B)
    → ((a : ℕ × Piece) → Ends (f a))
    → Ends (read 1 s >>= f)
Ends-byte s f h = Ends-read (remaining s - 1) (read 1 s) f (Leaves-read 1 s) h
