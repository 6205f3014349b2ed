-- ===== src/Symbolizer/Entries/ValueEnds.antt =====
-- The readers of attributes and their values (symbolizer/Dwarf.cc) end.
use claire_common.Common.{ℕ, zero, suc, ◌-◌, ◌≤◌, ◌<◌, Bool, not, List, ◌==◌, arith}
use claire_common.Common.Outcome.{done, ◌>>=◌, Holds, Holds-bind, Holds-if, Holds-check, Holds-mono}
use claire_common.Symbolizer.Reader.{
  Piece, remaining, Read, advance, read, read_uleb, read_sleb, read_offset, read_bytes,
  read_null_terminated,
}
use claire_common.Symbolizer.Reader.Bounds.{
  Leaves, Leaves-any, Leaves-bind, Leaves-then, Leaves-mono, Leaves-advance, Leaves-read, Shrinks,
  Shrinks-read_uleb, Leaves-read_uleb, Leaves-read_sleb, Leaves-read_offset, Leaves-read_bytes,
  Leaves-read_null_terminated,
}
use claire_common.Symbolizer.Entries.{
  read_attribute, is_last, skip_attributes, AttributeValue, piece, get_string_from_string_section,
  as_number, as_piece, as_block, Form, invalid, addr, block1, block2, block4, block, exprloc, data1,
  ref1, data2, ref2, data4, ref4, data8, ref8, sdata, udata, ref_udata, flag, flag_present,
  sec_offset, ref_addr, inline_string, strp, indirect, form_of, read_form, read_value_loop,
  read_attribute_value,
}

pub Shrinks-read_attribute : (s : Piece) → Shrinks s (read_attribute s)
unfolding read_attribute
Shrinks-read_attribute s =
    Holds-bind (λ r. remaining r.1 < remaining s) (λ r. remaining r.1 < remaining s) (read_uleb s) _
      (Shrinks-read_uleb s)
      (λ name h1.
        Holds-bind (λ r. remaining r.1 ≤ remaining name.1 - 1) (λ r. remaining r.1 < remaining s)
          (read_uleb name.1) _ (Leaves-read_uleb name.1) (λ form h2. omega (arith, h1, h2)))

pub Holds-skip_attributes :
    (fuel : ℕ) (s : Piece)
    → remaining s < fuel
    → Holds (λ rest. remaining rest ≤ remaining s) (skip_attributes fuel s)
unfolding skip_attributes
Holds-skip_attributes zero s h = absurd (omega (arith, h))
Holds-skip_attributes (suc fuel) s h =
    Holds-check (λ rest. remaining rest ≤ remaining s) (not (s.size == 0)) _
      (λ full.
        Holds-bind (λ r. remaining r.1 < remaining s) (λ rest. remaining rest ≤ remaining s)
          (read_attribute s) _ (Shrinks-read_attribute s)
          (λ r less.
            Holds-if (λ rest. remaining rest ≤ remaining s) (is_last r.0) (done r.1)
              (skip_attributes fuel r.1) (omega (arith, less))
              (Holds-mono (λ rest. remaining rest ≤ remaining r.1)
                (λ rest. remaining rest ≤ remaining s) (skip_attributes fuel r.1)
                (λ rest g. omega (arith, g, less))
                (Holds-skip_attributes fuel r.1 (omega (arith, h, less))))))

pub Leaves-as_number : (n : ℕ) (m : Read ℕ) → Leaves n m → Leaves n (as_number m)
Leaves-as_number n m h = Leaves-bind n n m _ h (λ a rest g. g)

pub Leaves-as_piece : (n : ℕ) (m : Read (List ℕ)) → Leaves n m → Leaves n (as_piece m)
Leaves-as_piece n m h = Leaves-bind n n m _ h (λ a rest g. g)

pub Leaves-as_block : (n : ℕ) (m : Read ℕ) → Leaves n m → Leaves n (as_block m)
Leaves-as_block n m h = Leaves-bind n n m _ h (λ len s g. Leaves-as_piece n (read_bytes len s) (
    Leaves-mono (remaining s - len) n (read_bytes len s) (omega (arith, g))
      (Leaves-read_bytes len s)))

pub Holds-get_string :
    (strings : Piece) (offset : ℕ)
    → Holds (λ text. Unit) (get_string_from_string_section strings offset)
unfolding get_string_from_string_section
Holds-get_string strings offset =
    Holds-bind (λ s. remaining s ≤ remaining strings - offset) (λ text. Unit)
      (advance offset strings) _ (Leaves-advance offset strings)
      (λ s h.
        Leaves-then (remaining s - 1) (λ text. Unit) (read_null_terminated s) _
          (Leaves-read_null_terminated s) (λ text rest g. tt))

pub Leaves-read_strp :
    (strings : Piece) (wide : Bool) (s : Piece)
    → Leaves (remaining s) (do
      (offset, rest) ← read_offset wide s
      text ← get_string_from_string_section strings offset
      done (piece text, rest))
Leaves-read_strp strings wide s =
    Leaves-bind (remaining s - 4) (remaining s) (read_offset wide s) _ (Leaves-read_offset wide s)
      (λ offset rest h.
        Holds-bind (λ text. Unit) (λ r. remaining r.1 ≤ remaining s)
          (get_string_from_string_section strings offset) _ (Holds-get_string strings offset)
          (λ text u. omega (arith, h)))

-- Each case leaves no more than there was, if the call of the indirect case does so.
module _ (strings : Piece) (wide : Bool) (again : ℕ → Piece → Read AttributeValue) (s : Piece)
    (inner : (form : ℕ) (rest : Piece)
      → remaining rest < remaining s
      → Leaves (remaining rest) (again form rest)) where
  fixed : (n : ℕ) → Leaves (remaining s) (as_number (read n s))
  fixed n =
      Leaves-as_number (remaining s) (read n s)
        (Leaves-any (remaining s) n (read n s) (Leaves-read n s))

  counted : (n : ℕ) → Leaves (remaining s) (as_block (read n s))
  counted n =
      Leaves-as_block (remaining s) (read n s)
        (Leaves-any (remaining s) n (read n s) (Leaves-read n s))

  any_uleb : Leaves (remaining s) (read_uleb s)
  any_uleb = Leaves-any (remaining s) 1 (read_uleb s) (Leaves-read_uleb s)

  any_offset : Leaves (remaining s) (as_number (read_offset wide s))
  any_offset =
      Leaves-as_number (remaining s) (read_offset wide s)
        (Leaves-any (remaining s) 4 (read_offset wide s) (Leaves-read_offset wide s))

  Leaves-read_form : (form : Form) → Leaves (remaining s) (read_form strings wide again form s)
  unfolding read_form
  Leaves-read_form addr = fixed 8
  Leaves-read_form block1 = counted 1
  Leaves-read_form block2 = counted 2
  Leaves-read_form block4 = counted 4
  Leaves-read_form block = Leaves-as_block (remaining s) (read_uleb s) any_uleb
  Leaves-read_form exprloc = Leaves-as_block (remaining s) (read_uleb s) any_uleb
  Leaves-read_form data1 = fixed 1
  Leaves-read_form ref1 = fixed 1
  Leaves-read_form data2 = fixed 2
  Leaves-read_form ref2 = fixed 2
  Leaves-read_form data4 = fixed 4
  Leaves-read_form ref4 = fixed 4
  Leaves-read_form data8 = fixed 8
  Leaves-read_form ref8 = fixed 8
  Leaves-read_form sdata =
      Leaves-as_number (remaining s) (read_sleb s)
        (Leaves-any (remaining s) 1 (read_sleb s) (Leaves-read_sleb s))
  Leaves-read_form udata = Leaves-as_number (remaining s) (read_uleb s) any_uleb
  Leaves-read_form ref_udata = Leaves-as_number (remaining s) (read_uleb s) any_uleb
  Leaves-read_form flag = fixed 1
  Leaves-read_form flag_present = omega arith
  Leaves-read_form sec_offset = any_offset
  Leaves-read_form ref_addr = any_offset
  Leaves-read_form inline_string =
      Leaves-as_piece (remaining s) (read_null_terminated s)
        (Leaves-any (remaining s) 1 (read_null_terminated s) (Leaves-read_null_terminated s))
  Leaves-read_form strp = Leaves-read_strp strings wide s
  Leaves-read_form indirect =
      Holds-bind (λ r. remaining r.1 < remaining s) (λ r. remaining r.1 ≤ remaining s) (read_uleb s)
        _ (Shrinks-read_uleb s)
        (λ r h.
          Leaves-mono (remaining r.1) (remaining s) (again r.0 r.1) (omega (arith, h))
            (inner r.0 r.1 h))
  Leaves-read_form invalid = omega arith

pub Leaves-read_value_loop :
    (fuel : ℕ) (strings : Piece) (wide : Bool) (form : ℕ) (s : Piece)
    → remaining s < fuel
    → Leaves (remaining s) (read_value_loop fuel strings wide form s)
unfolding read_value_loop
Leaves-read_value_loop zero strings wide form s h = absurd (omega (arith, h))
Leaves-read_value_loop (suc fuel) strings wide form s h =
    Leaves-read_form strings wide (read_value_loop fuel strings wide) s
      (λ inner rest g. Leaves-read_value_loop fuel strings wide inner rest (omega (arith, g, h)))
      (form_of form)

-- ReadAttributeValue ends, for every form and through every chain of DW_FORM_indirect, and leaves no
-- more than there was.
pub Leaves-read_attribute_value :
    (strings s : Piece) (form : ℕ) (wide : Bool)
    → Leaves (remaining s) (read_attribute_value strings s form wide)
unfolding read_attribute_value
Leaves-read_attribute_value strings s form wide =
    Leaves-read_value_loop (suc (remaining s)) strings wide form s (omega arith)
