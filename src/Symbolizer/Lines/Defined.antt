-- ===== src/Symbolizer/Lines/Defined.antt =====
-- NextDefineFile and GetFileName (symbolizer/Dwarf.cc): which names can be found.
use claire_common.Common.{
  ℕ, zero, suc, ◌-◌, ◌≤◌, ◌<◌, ◌≡◌, refl, sym, ◌∙◌, ◌≢◌, false, not, Option, none, some, inl, inr,
  Bool-cases, leb, ◌==◌, if◌then◌else◌, arith,
}
use mathlib.Core.Path.{subst}
use claire_common.Common.Outcome.{
  Outcome, done, check_failed, ◌>>=◌, at, Holds, done, Holds-done, Holds-bind, Holds-if,
  Holds-check,
}
use claire_common.Symbolizer.Reader.{Piece, remaining, Read, advance, read, read_uleb}
use claire_common.Symbolizer.Reader.Bounds.{
  Leaves-then, Leaves-advance, Leaves-read, Leaves-read_uleb, Shrinks-read,
}
use claire_common.Symbolizer.Lines.{Header, skip_ulebs}
use claire_common.Symbolizer.Lines.Ends.{Holds-skip_ulebs, at-Holds}
use claire_common.Symbolizer.Lines.Names.{
  FileName, define_file_round, next_define_file, nth_defined_file, get_file_name,
}

-- No file, and no more than there was.
abbrev IsMiss : ℕ → Option FileName × Piece → Type 0
IsMiss n r = (r.0 ≡ none) × (remaining r.1 ≤ n)

standard-IsMiss :
    (h : Header) (opcode : ℕ) (s : Piece)
    → Holds (IsMiss (remaining s)) (do
      arg_count ← at h.standard_opcode_lengths (opcode - 1)
      rest ← skip_ulebs arg_count s
      done (none, rest))
standard-IsMiss h opcode s =
    Holds-bind (λ n. Unit) (IsMiss (remaining s)) (at h.standard_opcode_lengths (opcode - 1)) _
      (at-Holds h.standard_opcode_lengths (opcode - 1))
      (λ n u.
        Holds-bind (λ rest. remaining rest ≤ remaining s) (IsMiss (remaining s)) (skip_ulebs n s) _
          (Holds-skip_ulebs n s) (λ rest g. (refl, g)))

extended-IsMiss : (h : Header) (s : Piece) → Holds (IsMiss (remaining s)) (define_file_round h 0 s)
unfolding define_file_round
extended-IsMiss h s =
    Leaves-then (remaining s - 1) (IsMiss (remaining s)) (read_uleb s) _ (Leaves-read_uleb s)
      (λ size s1 h1. Holds-check (IsMiss (remaining s)) (not (size == 0)) _ (λ e.
        Leaves-then (remaining s1 - 1) (IsMiss (remaining s)) (read 1 s1) _ (Leaves-read 1 s1)
          (λ opcode s2 h2.
            Holds-bind (λ rest. remaining rest ≤ remaining s2 - (size - 1)) (IsMiss (remaining s))
              (advance (size - 1) s2) _ (Leaves-advance (size - 1) s2)
              (λ rest g. (refl, omega (arith, h1, h2, g))))))

round-IsMiss :
    (h : Header) (opcode : ℕ) (s : Piece)
    → Holds (IsMiss (remaining s)) (define_file_round h opcode s)
unfolding define_file_round
round-IsMiss h opcode s = elim (Bool-cases (opcode == 0)) [
  | inl same ↦
      let e : 0 ≡ opcode = ground arith in
      subst (λ n. Holds (IsMiss (remaining s)) (define_file_round h n s)) e (extended-IsMiss h s)
  | inr other ↦ rw other (standard-IsMiss h opcode s)
]

miss_again :
    (found : Option FileName) (rest : Piece) (again : Read (Option FileName))
    → found ≡ none
    → Holds (λ r. r.0 ≡ none) again
    → Holds (λ r. r.0 ≡ none) (elim found [ none ↦ again | some fn ↦ done (some fn, rest) ])
miss_again none rest again e h = h
miss_again (some fn) rest again e h = e

next_define_file_miss :
    (fuel : ℕ) (h : Header) (program : Piece)
    → remaining program < fuel
    → Holds (λ r. r.0 ≡ none) (next_define_file fuel h program)
unfolding next_define_file
next_define_file_miss zero h program enough = absurd (omega (arith, enough))
next_define_file_miss (suc fuel) h program enough =
    Holds-if (λ r. r.0 ≡ none) (program.size == 0) (done (none, program)) _ refl
      (Holds-bind (λ a. remaining a.1 < remaining program) (λ r. r.0 ≡ none) (read 1 program) _
        (Shrinks-read 1 program (omega arith))
        (λ a g.
          Holds-bind (IsMiss (remaining a.1)) (λ r. r.0 ≡ none)
            (if leb h.opcode_base a.0 then done (none, a.1) else define_file_round h a.0 a.1) _
            (Holds-if (IsMiss (remaining a.1)) (leb h.opcode_base a.0) (done (none, a.1))
              (define_file_round h a.0 a.1) (refl, omega arith) (round-IsMiss h a.0 a.1))
            (λ b k.
              miss_again b.0 b.1 (next_define_file fuel h b.1) k.0
                (next_define_file_miss fuel h b.1 (omega (arith, g, k.1, enough))))))

pub nth_defined_file_miss :
    (h : Header) (index : ℕ) (s : Piece) (fn : Option FileName)
    → 0 < index
    → Holds (λ found. ⊥) (nth_defined_file h index s fn)
unfolding nth_defined_file
nth_defined_file_miss h zero s fn positive = absurd (omega (arith, positive))
nth_defined_file_miss h (suc index) s fn positive =
    Holds-bind (λ r. r.0 ≡ none) (λ found. ⊥) (next_define_file (suc (remaining s)) h s) _
      (next_define_file_miss (suc (remaining s)) h s (omega arith))
      (λ r e. missed r.0 (λ next. nth_defined_file h index r.1 (some next)) e)
  where
    missed :
        (found : Option FileName) (f : FileName → Outcome FileName)
        → found ≡ none
        → Holds (λ fn. ⊥) (elim found [ none ↦ check_failed | some next ↦ f next ])
    missed none f e = tt
    missed (some next) f e = absurd cc

none-ne-some : {A : Type 0} {a : A} → none ≢ some a
none-ne-some e = cc

-- NextDefineFile gives no file, whatever the program defines with DW_LNE_define_file, and so
-- GetFileName gives none for an index past the table of the header.
pub get_file_name_miss :
    (h : Header) (program : Piece) (index : ℕ)
    → h.file_name_count < index
    → (fn : FileName)
    → ((rest : Piece) → next_define_file (suc (remaining program)) h program ≢ done (some fn, rest))
      × (get_file_name h index ≢ done fn)
unfolding get_file_name
get_file_name_miss h program index past fn = (
  λ rest e. none-ne-some (
      sym (
        Holds-done (λ r. r.0 ≡ none) e
          (next_define_file_miss (suc (remaining program)) h program (omega arith)))),
  λ e.
      Holds-done (λ fn. ⊥) (sym (rw (gt→leb index h.file_name_count past) refl) ∙ e)
        (nth_defined_file_miss h (index - h.file_name_count) h.program none (omega (arith, past))),
)
  where
    gt→leb : (a b : ℕ) → b < a → leb a b ≡ false
    gt→leb a b p = ground arith
