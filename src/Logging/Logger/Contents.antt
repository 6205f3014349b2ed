-- ===== src/Logging/Logger/Contents.antt =====
-- What was logged, as one sequence of bytes (claire/common/logging/Logger.cc).
use mathlib.Core.List.{append-nil, append_assoc}
use claire_common.Common.{
  ℕ, ◌-◌, ◌≤◌, ◌<◌, ◌≡◌, refl, sym, ap, ◌∙◌, inl, inr, true, List, [], ◌∷◌, ◌++◌, ltb, lt→ltb,
  le→ltb, length, length-append, Bool-cases, All, arith,
}
use claire_common.Common.Outcome.{done}
use claire_common.Logging.Logger.{
  Logger, Writer, Round, append, append_all, buffer_append, to_output, run_round, concat_buffers,
  fresh_buffer,
}
use claire_common.Logging.Logger.Rounds.{
  IsShared, IsIdle, run_round-IsRound, handed_over, append-IsShared,
}

-- The bytes that were appended and not taken yet.
abbrev pub pending : Logger → List ℕ
pending l = concat_buffers l.buffers ++ l.current_buffer

concat-append :
    (xs ys : List (List ℕ)) → concat_buffers (xs ++ ys) ≡ concat_buffers xs ++ concat_buffers ys
concat-append [] ys = refl
concat-append (x ∷ xs) ys =
    ap (λ zs. x ++ zs) (concat-append xs ys)
    ∙ sym (append_assoc x (concat_buffers xs) (concat_buffers ys))

concat_last :
    (xs : List (List ℕ)) (y : List ℕ) → concat_buffers (xs ++ y ∷ []) ≡ concat_buffers xs ++ y
concat_last xs y = concat-append xs (y ∷ []) ∙ ap (λ zs. concat_buffers xs ++ zs) (append-nil y)

buffer_append_empty :
    (size : ℕ) (line : List ℕ) → length line < size → buffer_append size line [] ≡ line
unfolding buffer_append
buffer_append_empty size line short = rw (lt→ltb (length line) (size - 0) (omega arith)) refl

fresh_buffer_empty : (l : Logger) → IsShared l → fresh_buffer l.next_buffer ≡ []
fresh_buffer_empty l (inl spare) = rw spare refl
fresh_buffer_empty l (inr (used, full)) = rw used refl

buffer_append_fits :
    (size : ℕ) (line buffer : List ℕ)
    → ltb (length line) (size - length buffer) ≡ true
    → buffer_append size line buffer ≡ buffer ++ line
unfolding buffer_append
buffer_append_fits size line buffer fits = rw fits refl

-- A line shorter than a buffer is added to the bytes that wait, whole.
append-pending :
    (size : ℕ) (line : List ℕ) (l : Logger)
    → IsShared l
    → length line < size
    → pending (append size line l) ≡ pending l ++ line
unfolding append
append-pending size line l shared short =
    elim (Bool-cases (ltb (length line) (size - length l.current_buffer))) [
      | inl fits ↦ rw fits (
          ap (λ b. concat_buffers l.buffers ++ b)
            (buffer_append_fits size line l.current_buffer fits)
          ∙ sym (append_assoc (concat_buffers l.buffers) l.current_buffer line))
      | inr full ↦ rw full (
          ap (λ b. concat_buffers (l.buffers ++ l.current_buffer ∷ []) ++ buffer_append size line b)
            (fresh_buffer_empty l shared)
          ∙ ap (λ b. concat_buffers (l.buffers ++ l.current_buffer ∷ []) ++ b)
              (buffer_append_empty size line short)
          ∙ ap (λ bytes. bytes ++ line) (concat_last l.buffers l.current_buffer))
    ]

append_all-pending :
    (size : ℕ) (lines : List (List ℕ)) (l : Logger)
    → IsShared l
    → All (λ line. length line < size) lines
    → pending (append_all size lines l) ≡ pending l ++ concat_buffers lines
unfolding append_all
append_all-pending size [] l shared h = sym (append-nil (pending l))
append_all-pending size (line ∷ lines) l shared (short, others) =
    append_all-pending size lines (append size line l) (append-IsShared size line l shared) others
    ∙ ap (λ bytes. bytes ++ concat_buffers lines) (append-pending size line l shared short)
    ∙ append_assoc (pending l) line (concat_buffers lines)

to_output_few :
    (message : List ℕ) (buffers : List (List ℕ)) (last : List ℕ)
    → length buffers ≤ 24
    → to_output message (buffers ++ last ∷ []) ≡ concat_buffers buffers ++ last
unfolding to_output
to_output_few message buffers last few =
    rw
      (
        le→ltb 25 (length (buffers ++ last ∷ []))
            (omega (arith, length-append buffers (last ∷ []))),
        concat_last buffers last,
      )
      refl

regroup : (a b c d : List ℕ) → (a ++ (b ++ c)) ++ d ≡ (a ++ b) ++ (c ++ d)
regroup a b c d = ap (λ z. z ++ d) (sym (append_assoc a b c)) ∙ append_assoc (a ++ b) c d

-- A round loses, repeats and reorders nothing when every line is shorter than a buffer and no more
-- than 25 buffers wait when it takes them: what is written and what waits is then what it was
-- before the round and the round's lines, in their order.
pub run_round-pending :
    (size : ℕ) (r : Round) (l : Logger) (w : Writer)
    → IsShared l
    → IsIdle w
    → All (λ line. length line < size) r.before
    → All (λ line. length line < size) r.during
    → length (append_all size r.before l).buffers ≤ 24
    → (l' : Logger) × (w' : Writer) × (run_round size r l w ≡ done (l', w'))
      × (w'.output ++ pending l'
          ≡ (w.output ++ pending l) ++ (concat_buffers r.before ++ concat_buffers r.during))
run_round-pending size r l w shared idle short short' few =
    let k = run_round-IsRound size r l w shared idle in
    let taken = append_all size r.before l in
    let output : k.writer.output ≡ w.output ++ (pending l ++ concat_buffers r.before) =
      k.written
      ∙ ap (λ z. w.output ++ z)
          (to_output_few r.message taken.buffers taken.current_buffer few
            ∙ append_all-pending size r.before l shared short) in
    let waiting : pending k.after ≡ concat_buffers r.during =
      ap pending k.left ∙ append_all-pending size r.during (handed_over taken) (inl refl) short' in
    (
      k.after,
      k.writer,
      k.result,
      ap (λ o. o ++ pending k.after) output
          ∙ ap (λ z. (w.output ++ (pending l ++ concat_buffers r.before)) ++ z) waiting
          ∙ regroup w.output (pending l) (concat_buffers r.before) (concat_buffers r.during),
    )
