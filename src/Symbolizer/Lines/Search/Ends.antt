-- ===== src/Symbolizer/Lines/Search/Ends.antt =====
-- The loops over names and rows (symbolizer/Dwarf.cc): each ends.
use claire_common.Common.{
  ℕ, zero, suc, ◌+◌, ◌-◌, ◌≤◌, ◌<◌, Bool, not, ◌&&◌, Option, none, some, List, [], inl, inr,
  Bool-cases, leb, ◌==◌, if◌then◌else◌, arith,
}
use claire_common.Common.Outcome.{
  Outcome, done, check_failed, ◌>>=◌, Holds, Holds-bind, Holds-if, Holds-check, Holds-mono,
}
use claire_common.Symbolizer.Reader.{
  Piece, remaining, Read, advance, read, read_uleb, read_offset, read_null_terminated,
}
use claire_common.Symbolizer.Reader.Bounds.{
  Leaves, Leaves-bind, Leaves-read, Leaves-read_uleb, Leaves-read_offset, Ends, Ends-advance,
  Ends-read, Ends-bind, Ends-byte, Shrinks, Shrinks-read_null_terminated,
}
use claire_common.Symbolizer.FilePath.{is_empty}
use claire_common.Symbolizer.Lines.{Header, Registers, reset, next_row}
use claire_common.Symbolizer.Lines.Ends.{Shrinks-next_row}
use claire_common.Symbolizer.Lines.Names.{
  FileName, read_file_fields, read_file_name, count_directories, count_file_names, check_max_ops,
  read_fields, read_header, nth_file_name, nth_defined_file, get_file_name, nth_directory,
  get_include_directory,
}
use claire_common.Symbolizer.Lines.Defined.{nth_defined_file_miss}
use claire_common.Symbolizer.Lines.Search.{
  Scan, Round, found, going, round, finish, find_loop, first_scan, locate, find_line,
}

Leaves-read_file_fields :
    (name : List ℕ) (s : Piece) → Leaves (remaining s) (read_file_fields name s)
Leaves-read_file_fields name s =
    Leaves-bind (remaining s - 1) (remaining s) (read_uleb s) _ (Leaves-read_uleb s) (λ index s1 h1.
      Leaves-bind (remaining s1 - 1) (remaining s) (read_uleb s1) _ (Leaves-read_uleb s1)
        (λ modified s2 h2.
          Leaves-bind (remaining s2 - 1) (remaining s) (read_uleb s2) _ (Leaves-read_uleb s2)
            (λ size s3 h3. omega (arith, h1, h2, h3))))

Shrinks-read_file_name : (s : Piece) → Shrinks s (read_file_name s)
unfolding read_file_name
Shrinks-read_file_name s =
    Holds-bind (λ r. remaining r.1 < remaining s) (λ r. remaining r.1 < remaining s)
      (read_null_terminated s) _ (Shrinks-read_null_terminated s)
      (λ r g.
        Holds-if (λ a. remaining a.1 < remaining s) (is_empty r.0) (done (none, r.1))
          (read_file_fields r.0 r.1) g
          (Holds-mono (λ a. remaining a.1 ≤ remaining r.1) (λ a. remaining a.1 < remaining s)
            (read_file_fields r.0 r.1) (λ a k. omega (arith, k, g))
            (Leaves-read_file_fields r.0 r.1)))

Holds-count_directories :
    (fuel count : ℕ) (s : Piece)
    → remaining s < fuel
    → Holds (λ r. Unit) (count_directories fuel count s)
unfolding count_directories
Holds-count_directories zero count s enough = absurd (omega (arith, enough))
Holds-count_directories (suc fuel) count s enough =
    Holds-bind (λ r. remaining r.1 < remaining s) (λ r. Unit) (read_null_terminated s) _
      (Shrinks-read_null_terminated s)
      (λ r g.
        Holds-if (λ a. Unit) (is_empty r.0) (done (count, r.1))
          (count_directories fuel (count + 1) r.1) tt
          (Holds-count_directories fuel (count + 1) r.1 (omega (arith, enough, g))))

counted :
    (name : Option FileName) (count : ℕ) (rest : Piece) (more : Read ℕ)
    → Holds (λ r. Unit) more
    → Holds {A = ℕ × Piece} (λ r. Unit) (elim name [ none ↦ done (count, rest) | some fn ↦ more ])
counted none count rest more h = tt
counted (some fn) count rest more h = h

Holds-count_file_names :
    (fuel count : ℕ) (s : Piece)
    → remaining s < fuel
    → Holds (λ r. Unit) (count_file_names fuel count s)
unfolding count_file_names
Holds-count_file_names zero count s enough = absurd (omega (arith, enough))
Holds-count_file_names (suc fuel) count s enough =
    Holds-bind (λ r. remaining r.1 < remaining s) (λ r. Unit) (read_file_name s) _
      (Shrinks-read_file_name s)
      (λ r g.
        counted r.0 count r.1 (count_file_names fuel (count + 1) r.1)
          (Holds-count_file_names fuel (count + 1) r.1 (omega (arith, enough, g))))

Ends-name :
    {B : Type 0} (s : Piece) (f : Option FileName × Piece → Outcome B)
    → ((a : Option FileName × Piece) → Ends (f a))
    → Ends (read_file_name s >>= f)
Ends-name s f h =
    Holds-bind (λ r. remaining r.1 < remaining s) (λ b. Unit) (read_file_name s) f
      (Shrinks-read_file_name s) (λ a g. h a)

Ends-check_max_ops : (version : ℕ) (s : Piece) → Ends (check_max_ops version s)
unfolding check_max_ops
Ends-check_max_ops version s =
    Holds-if (λ a. Unit) (version == 4) _ (done s)
      (Ends-byte s _ (λ r. Holds-check (λ a. Unit) (r.0 == 1) _ (λ e. tt))) tt

Ends-read_fields :
    (version : ℕ) (header program : Piece) → Ends (read_fields version header program)
unfolding read_fields
Ends-read_fields version header program = Ends-byte header _ (λ min_length.
    Ends-bind (check_max_ops version min_length.1) _ (Ends-check_max_ops version min_length.1)
      (λ h2. Ends-byte h2 _ (λ default_is_stmt. Ends-byte default_is_stmt.1 _ (λ line_base.
        Ends-byte line_base.1 _ (λ line_range. Ends-byte line_range.1 _ (λ opcode_base.
          Holds-check (λ a. Unit) (not (opcode_base.0 == 0)) _
            (λ e.
              Ends-bind (advance (opcode_base.0 - 1) opcode_base.1) _
                (Ends-advance (opcode_base.0 - 1) opcode_base.1)
                (λ h7.
                  Ends-bind (count_directories (suc (remaining h7)) 0 h7) _
                    (Holds-count_directories (suc (remaining h7)) 0 h7 (omega arith))
                    (λ directories.
                      Ends-bind (count_file_names (suc (remaining directories.1)) 0 directories.1) _
                        (Holds-count_file_names (suc (remaining directories.1)) 0 directories.1
                          (omega arith))
                        (λ files. tt))))))))))

-- Init ends.
pub Ends-read_header : (wide : Bool) (s : Piece) → Ends (read_header wide s)
unfolding read_header
Ends-read_header wide s = Ends-read (remaining s - 2) (read 2 s) _ (Leaves-read 2 s) (λ version.
    Holds-check (λ a. Unit) (leb 2 version.0 && leb version.0 4) _
      (λ e.
        Ends-read (remaining version.1 - 4) (read_offset wide version.1) _
          (Leaves-read_offset wide version.1)
          (λ size.
            Holds-check (λ a. Unit) (leb size.0 size.1.size) _
              (λ fits.
                Ends-bind (advance size.0 size.1) _ (Ends-advance size.0 size.1)
                  (λ rest. Ends-read_fields version.0 _ _)))))

Ends-nth_file_name :
    (index : ℕ) (s : Piece) (fn : Option FileName) → Ends (nth_file_name index s fn)
unfolding nth_file_name
Ends-nth_file_name zero s none = tt
Ends-nth_file_name zero s (some fn) = tt
Ends-nth_file_name (suc index) s fn = Ends-name s _ (λ r.
    either r.0 (λ next. nth_file_name index r.1 (some next))
      (λ next. Ends-nth_file_name index r.1 (some next)))
  where
    either :
        (name : Option FileName) (f : FileName → Outcome FileName)
        → ((next : FileName) → Ends (f next))
        → Ends (elim name as (λ n. Outcome FileName) [ none ↦ check_failed | some next ↦ f next ])
    either none f h = tt
    either (some next) f h = h next

Ends-get_file_name : (h : Header) (index : ℕ) → Ends (get_file_name h index)
unfolding get_file_name
Ends-get_file_name h index = elim (Bool-cases (leb index h.file_name_count)) [
  | inl inside ↦ rw inside (Ends-nth_file_name index h.file_names none)
  | inr past ↦ rw past (
      Holds-mono (λ fn. ⊥) (λ fn. Unit)
        (nth_defined_file h (index - h.file_name_count) h.program none) (λ fn h. tt)
        (nth_defined_file_miss h (index - h.file_name_count) h.program none (ground arith)))
]

Ends-nth_directory :
    (index : ℕ) (s : Piece) (directory : List ℕ) → Ends (nth_directory index s directory)
unfolding nth_directory
Ends-nth_directory zero s directory = tt
Ends-nth_directory (suc index) s directory =
    Holds-bind (λ r. remaining r.1 < remaining s) (λ r. Unit) (read_null_terminated s) _
      (Shrinks-read_null_terminated s)
      (λ r g.
        Holds-check (λ a. Unit) (not (is_empty r.0)) _ (λ e. Ends-nth_directory index r.1 r.0))

Ends-get_include_directory : (h : Header) (index : ℕ) → Ends (get_include_directory h index)
unfolding get_include_directory
Ends-get_include_directory h index =
    Holds-if (λ a. Unit) (index == 0) (done []) _ tt
      (Holds-check (λ a. Unit) (leb index h.include_directory_count) _
        (λ e. Ends-nth_directory index h.include_directories []))

Ends-finish :
    (o : Round) (f : Scan → Outcome (Option (ℕ × ℕ)))
    → ((later : Scan) → Ends (f later))
    → Ends (finish o f)
Ends-finish (found prev_file prev_line) f h = tt
Ends-finish (going later) f h = h later

Ends-find_loop :
    (fuel : ℕ) (h : Header) (target : ℕ) (r : Registers) (scan : Scan) (s : Piece)
    → remaining s < fuel
    → Ends (find_loop fuel h target r scan s)
unfolding find_loop
Ends-find_loop zero h target r scan s enough = absurd (omega (arith, enough))
Ends-find_loop (suc fuel) h target r scan s enough =
    Holds-if (λ a. Unit) (s.size == 0) (done none) _ tt
      (Holds-bind (λ a. remaining a.1 < remaining s) (λ a. Unit)
        (next_row (suc (remaining s)) h r s) _
        (Shrinks-next_row (suc (remaining s)) h r s (omega arith))
        (λ a g. Ends-finish (round target a.0.0 a.0.1 scan) _ (λ later.
          Ends-find_loop fuel h target (if a.0.0 then a.0.1 else reset h) later a.1
            (omega (arith, enough, g)))))

Ends-locate :
    (h : Header) (directory : List ℕ) (row : Option (ℕ × ℕ)) → Ends (locate h directory row)
unfolding locate
Ends-locate h directory none = tt
Ends-locate h directory (some (zero, prev_line)) = tt
Ends-locate h directory (some (suc prev_file, prev_line)) =
    Ends-bind (get_file_name h (suc prev_file)) _ (Ends-get_file_name h (suc prev_file)) (λ fn.
      Ends-bind (get_include_directory h fn.directory_index) _
        (Ends-get_include_directory h fn.directory_index) (λ path. tt))

-- LineNumberVM::FindAddress ends on every program and for every address.
pub Ends-find_line :
    (h : Header) (directory : List ℕ) (target : ℕ) → Ends (find_line h directory target)
unfolding find_line
Ends-find_line h directory target =
    Ends-bind (find_loop (suc (remaining h.program)) h target (reset h) first_scan h.program) _
      (Ends-find_loop (suc (remaining h.program)) h target (reset h) first_scan h.program
        (omega arith))
      (λ row. Ends-locate h directory row)
