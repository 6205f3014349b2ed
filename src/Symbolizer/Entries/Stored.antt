-- ===== src/Symbolizer/Entries/Stored.antt =====
-- An abbreviation as the standard stores it, and what ReadAbbreviation makes of it
-- (symbolizer/Dwarf.cc).
use claire_common.Common.{
  ℕ, zero, suc, ◌-◌, ◌<◌, ◌≡◌, refl, ◌∙◌, ◌≢◌, false, not, ◌&&◌, some, List, [], ◌∷◌, ◌++◌, ◌==◌,
  if◌then◌else◌, length, length-append, All, arith, ==_ne,
}
use claire_common.Common.Outcome.{done}
use claire_common.Symbolizer.Reader.Varint.{read_uleb-uleb}
use claire_common.Symbolizer.Reader.{Piece, advance, read, read_uleb}
use claire_common.Symbolizer.Entries.{
  Attribute, Abbreviation, read_attribute, is_last, skip_attributes, read_entry, read_abbreviation,
}
use mathlib.Core.List.{append_assoc}

-- A number and some bytes that ReadULEB reads it from.
pub record Number : Type 0 where
  pub value : ℕ
  pub bytes : List ℕ

abbrev pub IsNumber : Number → Type 0
IsNumber n =
    (0 < length n.bytes)
    × ((rest : List ℕ) (size : ℕ)
        → 0 < size
        → read_uleb (record { ahead = n.bytes ++ rest; size = size })
          ≡ done (n.value, record { ahead = rest; size = size }))

pub record StoredAttribute : Type 0 where
  pub name : Number
  pub form : Number

abbrev pub IsAttribute : StoredAttribute → Type 0
IsAttribute a =
    IsNumber a.name × IsNumber a.form × ((a.name.value == 0) && (a.form.value == 0) ≡ false)

-- Attributes and their terminator.
abbrev pub attribute_bytes : List StoredAttribute → List ℕ
attribute_bytes [] = 0 ∷ 0 ∷ []
attribute_bytes (a ∷ others) = a.name.bytes ++ (a.form.bytes ++ attribute_bytes others)

pub record StoredEntry : Type 0 where
  pub code : Number
  pub tag : Number
  pub children : ℕ
  pub attributes : List StoredAttribute

abbrev pub IsEntry : StoredEntry → Type 0
IsEntry e = IsNumber e.code × (e.code.value ≢ 0) × IsNumber e.tag × All IsAttribute e.attributes

abbrev pub entry_bytes : StoredEntry → List ℕ
entry_bytes e = e.code.bytes ++ (e.tag.bytes ++ (e.children ∷ attribute_bytes e.attributes))

abbrev pub table_bytes : List StoredEntry → List ℕ
table_bytes [] = []
table_bytes (e ∷ others) = entry_bytes e ++ table_bytes others

-- What ReadAbbreviation makes of an entry, before `rest`.
abbrev pub abbreviation_of : StoredEntry → List ℕ → Abbreviation
abbreviation_of e rest = record {
  code = e.code.value;
  tag = e.tag.value;
  has_children = not (e.children == 0);
  attributes = record {
    ahead = attribute_bytes e.attributes ++ rest;
    size = length (attribute_bytes e.attributes);
  };
}

abbrev pub at_size : ℕ → List ℕ → Piece
at_size size ahead = record { ahead = ahead; size = size }

pub read_zero :
    (size : ℕ) (rest : List ℕ)
    → 0 < size
    → read_attribute (at_size size (0 ∷ 0 ∷ rest))
      ≡ done (record { name = 0; form = 0 }, at_size size rest)
unfolding read_attribute
read_zero size rest full =
    rw
      (
        read_uleb-uleb 0 0 size (0 ∷ rest) full (omega arith) (omega arith) (omega arith),
        read_uleb-uleb 0 0 size rest full (omega arith) (omega arith) (omega arith),
      )
      refl

pub read_stored :
    (size : ℕ) (a : StoredAttribute) (rest : List ℕ)
    → 0 < size
    → IsAttribute a
    → read_attribute (at_size size (a.name.bytes ++ (a.form.bytes ++ rest)))
      ≡ done (record { name = a.name.value; form = a.form.value }, at_size size rest)
unfolding read_attribute
read_stored size a rest full (name, form, h) =
    rw (name.1 (a.form.bytes ++ rest) size full, form.1 rest size full) refl

pub skip_round :
    (fuel : ℕ) (s rest : Piece) (attribute : Attribute)
    → 0 < s.size
    → read_attribute s ≡ done (attribute, rest)
    → skip_attributes (suc fuel) s
      ≡ (if is_last attribute then done rest else skip_attributes fuel rest)
unfolding skip_attributes
skip_round fuel s rest attribute full h = rw h (ground arith)

pub skip_attributes-attribute_bytes :
    (fuel size : ℕ) (attributes : List StoredAttribute) (rest : List ℕ)
    → 0 < size
    → All IsAttribute attributes
    → length attributes < fuel
    → skip_attributes fuel (at_size size (attribute_bytes attributes ++ rest))
      ≡ done (at_size size rest)
skip_attributes-attribute_bytes zero size attributes rest full h g = absurd (omega (arith, g))
skip_attributes-attribute_bytes (suc fuel) size [] rest full h g =
    skip_round fuel (at_size size (0 ∷ 0 ∷ rest)) (at_size size rest) _ full
      (read_zero size rest full)
skip_attributes-attribute_bytes (suc fuel) size (a ∷ others) rest full (ha, hs) g =
    let s = attribute_bytes others ++ rest in
    rw
      (
        append_assoc a.name.bytes (a.form.bytes ++ attribute_bytes others) rest,
        append_assoc a.form.bytes (attribute_bytes others) rest,
      )
      (skip_round fuel _ (at_size size s) _ full (read_stored size a s full ha)
        ∙ rw ha.2
            (skip_attributes-attribute_bytes fuel size others rest full hs (omega (arith, g))))

pub length-attribute_bytes :
    (attributes : List StoredAttribute)
    → All IsAttribute attributes
    → length attributes < length (attribute_bytes attributes)
length-attribute_bytes [] h = omega arith
length-attribute_bytes (a ∷ others) (ha, hs) = omega (
  arith,
  ha.0.0,
  length-attribute_bytes others hs,
  length-append a.name.bytes (a.form.bytes ++ attribute_bytes others),
  length-append a.form.bytes (attribute_bytes others),
)

pub read_byte :
    (size b : ℕ) (s : List ℕ) → 0 < size → read 1 (at_size size (b ∷ s)) ≡ done (b, at_size size s)
unfolding read advance
read_byte size b s full = ground arith

pub read_entry-bytes :
    (size : ℕ) (e : StoredEntry) (rest : List ℕ)
    → 0 < size
    → IsEntry e
    → read_entry e.code.value
        (at_size size (e.tag.bytes ++ (e.children ∷ (attribute_bytes e.attributes ++ rest))))
      ≡ done (some (abbreviation_of e rest), at_size size rest)
unfolding read_entry
read_entry-bytes size e rest full (code, nonzero, tag, attributes) =
    let bytes = attribute_bytes e.attributes in
    let taken : length (bytes ++ rest) - length rest ≡ length bytes =
      omega (arith, length-append bytes rest) in
    rw
      (
        tag.1 (e.children ∷ (bytes ++ rest)) size full,
        read_byte size e.children (bytes ++ rest) full,
        skip_attributes-attribute_bytes (suc (length (bytes ++ rest))) size e.attributes rest full
            attributes
            (omega
              (arith, length-append bytes rest, length-attribute_bytes e.attributes attributes)),
        taken,
      )
      refl

-- ReadAbbreviation reads back an entry, and leaves what follows it.
pub read_abbreviation-entry_bytes :
    (size : ℕ) (e : StoredEntry) (rest : List ℕ)
    → 0 < size
    → IsEntry e
    → read_abbreviation (at_size size (entry_bytes e ++ rest))
      ≡ done (some (abbreviation_of e rest), at_size size rest)
unfolding read_abbreviation
read_abbreviation-entry_bytes size e rest full h =
    let bytes = attribute_bytes e.attributes in
    rw
      (
        append_assoc e.code.bytes (e.tag.bytes ++ (e.children ∷ bytes)) rest,
        append_assoc e.tag.bytes (e.children ∷ bytes) rest,
        h.0.1 (e.tag.bytes ++ (e.children ∷ (bytes ++ rest))) size full,
        ==_ne e.code.value 0 h.1,
      )
      (read_entry-bytes size e rest full h)
