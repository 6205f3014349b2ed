-- ===== src/Symbolizer/FilePath/Normal.antt =====
-- The normal form of a path (symbolizer/Dwarf.cc): what the constructor of Dwarf::Path makes.
use claire_common.Common.{
  ℕ, suc, ◌<◌, ◌≤◌, lt→ltb, le→ltb, ◌≡◌, refl, ◌≢◌, ◌⊎◌, inl, inr, Bool, true, false, ◌&&◌, List,
  [], ◌∷◌, ◌==◌, Bool-cases, if◌then◌else◌, length, arith,
}
use claire_common.Symbolizer.FilePath.{
  slash, drop_slashes, drop_last_slashes, strip_slashes, is_empty, FilePath, normalized, new_path,
  clear_if, starts_with_slash,
}

-- No slash at the front, and none at the end.
abbrev pub IsBareInFront : List ℕ → Type 0
IsBareInFront [] = Unit
IsBareInFront (b ∷ s) = b ≢ slash

abbrev pub IsBareAtEnd : List ℕ → Type 0
IsBareAtEnd [] = Unit
IsBareAtEnd (b ∷ []) = b ≢ slash
IsBareAtEnd (b ∷ c ∷ s) = IsBareAtEnd (c ∷ s)

drop_slashes-IsBareInFront : (s : List ℕ) → IsBareInFront (drop_slashes s)
unfolding drop_slashes
drop_slashes-IsBareInFront [] = tt
drop_slashes-IsBareInFront (b ∷ s) = elim (Bool-cases (b == slash)) [
  | inl same ↦ rw same (drop_slashes-IsBareInFront s)
  | inr other ↦ rw other (λ e. ground arith)
]

bare_end :
    (b : ℕ) (rest : List ℕ)
    → IsBareAtEnd rest
    → IsBareAtEnd (if is_empty rest && (b == slash) then [] else b ∷ rest)
bare_end b [] h = elim (Bool-cases (b == slash)) [
  | inl same ↦ rw same tt
  | inr other ↦ rw other (λ e. ground arith)
]
bare_end b (c ∷ rest) h = h

bare_front :
    (t : Bool) (b : ℕ) (rest : List ℕ) → b ≢ slash → IsBareInFront (if t then [] else b ∷ rest)
bare_front true b rest h = tt
bare_front false b rest h = h

drop_last_slashes-IsBareAtEnd : (s : List ℕ) → IsBareAtEnd (drop_last_slashes s)
unfolding drop_last_slashes
drop_last_slashes-IsBareAtEnd [] = tt
drop_last_slashes-IsBareAtEnd (b ∷ s) =
    bare_end b (drop_last_slashes s) (drop_last_slashes-IsBareAtEnd s)

drop_last_slashes-IsBareInFront :
    (s : List ℕ) → IsBareInFront s → IsBareInFront (drop_last_slashes s)
unfolding drop_last_slashes
drop_last_slashes-IsBareInFront [] h = tt
drop_last_slashes-IsBareInFront (b ∷ s) h = bare_front _ b (drop_last_slashes s) h

-- A part without a slash at either end.
abbrev pub IsBare : List ℕ → Type 0
IsBare s = IsBareInFront s × IsBareAtEnd s

abbrev pub IsBase : List ℕ → Type 0
IsBase s = IsBareAtEnd s ⊎ (s ≡ slash ∷ [])

bare-IsBase :
    (t : Bool) (core : List ℕ) → IsBareAtEnd core → IsBase (if t then slash ∷ core else core)
bare-IsBase true [] h = inr refl
bare-IsBase true (c ∷ core) h = inl h
bare-IsBase false core h = inl h

-- ToString and ToBuffer assert that a path with a sub-directory has a base directory.
abbrev pub IsNormal : FilePath → Type 0
IsNormal p =
    IsBare p.file
    × IsBare p.sub_dir
    × IsBase p.base_dir
    × (is_empty p.base_dir ≡ true → is_empty p.sub_dir ≡ true)

strip_slashes-IsBare : (s : List ℕ) → IsBare (strip_slashes false s)
unfolding strip_slashes
strip_slashes-IsBare [] = (tt, tt)
strip_slashes-IsBare (b ∷ s) = (
  drop_last_slashes-IsBareInFront _ (drop_slashes-IsBareInFront (b ∷ s)),
  drop_last_slashes-IsBareAtEnd (drop_slashes (b ∷ s)),
)

strip_slashes-IsBase : (s : List ℕ) → IsBase (strip_slashes true s)
unfolding strip_slashes
strip_slashes-IsBase [] = inl tt
strip_slashes-IsBase (b ∷ s) =
    bare-IsBase _ (drop_last_slashes (drop_slashes (b ∷ s)))
      (drop_last_slashes-IsBareAtEnd (drop_slashes (b ∷ s)))

length-drop_slashes : (s : List ℕ) → length (drop_slashes s) ≤ length s
unfolding drop_slashes
length-drop_slashes [] = omega arith
length-drop_slashes (b ∷ s) = ground (arith, length-drop_slashes s)

still_full :
    (t : Bool) (b : ℕ) (rest : List ℕ)
    → (b == slash) ≡ false
    → is_empty (if t && (b == slash) then [] else b ∷ rest) ≡ false
still_full true b rest other = rw other refl
still_full false b rest other = refl

is_empty-strip_slashes : (s : List ℕ) → is_empty (strip_slashes true s) ≡ is_empty s
unfolding strip_slashes drop_slashes drop_last_slashes
is_empty-strip_slashes [] = refl
is_empty-strip_slashes (b ∷ s) = elim (Bool-cases (b == slash)) [
  | inl same ↦ rw (same, lt→ltb _ _ (shorter s)) refl
  | inr other ↦
      rw (other, le→ltb (suc (length s)) (suc (length s)) (omega arith))
        (still_full _ b (drop_last_slashes s) other)
]
  where
    shorter : (s : List ℕ) → length (drop_slashes s) < suc (length s)
    shorter s = omega (arith, length-drop_slashes s)

normalized-IsNormal : (base_dir sub_dir file : List ℕ) → IsNormal (normalized base_dir sub_dir file)
unfolding normalized strip_slashes
normalized-IsNormal [] sub_dir file =
    (strip_slashes-IsBare file, (strip_slashes-IsBare []), strip_slashes-IsBase sub_dir, λ h. refl)
normalized-IsNormal (b ∷ base_dir) sub_dir file = (
  strip_slashes-IsBare file,
  strip_slashes-IsBare sub_dir,
  strip_slashes-IsBase (b ∷ base_dir),
  λ h. absurd (cc (h, is_empty-strip_slashes (b ∷ base_dir))),
)

-- The constructor of Path leaves no slash at the ends of the file and of the sub-directory, and none
-- at the end of the base directory unless that is the root; and there is no sub-directory without a
-- base directory, which is what ToString and ToBuffer assert.
pub new_path-IsNormal : (base_dir sub_dir file : List ℕ) → IsNormal (new_path base_dir sub_dir file)
unfolding new_path
new_path-IsNormal base_dir sub_dir [] = ((tt, tt), (tt, tt), inl tt, λ h. refl)
new_path-IsNormal base_dir sub_dir (b ∷ file) =
    let absolute = starts_with_slash (b ∷ file) in
    let sub = clear_if absolute sub_dir in
    normalized-IsNormal (clear_if (starts_with_slash sub) (clear_if absolute base_dir)) sub
      (b ∷ file)
