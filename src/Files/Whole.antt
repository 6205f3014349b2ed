-- ===== src/Files/Whole.antt =====
-- The functions of files/FileUtil.cc on names of files, and those that read and write whole files.
use claire_common.Common.{
  ℕ, zero, suc, ◌+◌, Bool, true, false, Option, none, some, List, [], ◌∷◌, ◌++◌, ltb, if◌then◌else◌,
}
use claire_common.Common.Outcome.{Outcome, done, undefined, out_of_fuel, ◌>>=◌}
use claire_common.Files.System.{System}
use claire_common.Files.Streams.{
  Status, ok, io_error, status_of, read_sequential, WritableFile, append_file, close_file, destroy,
  new_sequential_file, new_writable_file,
}
pub mod Reading
pub mod Writing

module _ (S : System) where
  unfoldable pub file_exists : List ℕ → S.State → Bool
  file_exists name s = S.access name s

  unfoldable pub delete_file : List ℕ → S.State → Status × S.State
  delete_file name s = status_of (S.unlink name s)

  unfoldable pub create_dir : List ℕ → S.State → Status × S.State
  create_dir name s = status_of (S.mkdir name s)

  unfoldable pub delete_dir : List ℕ → S.State → Status × S.State
  delete_dir name s = status_of (S.rmdir name s)

  unfoldable pub get_file_size : List ℕ → S.State → Status × ℕ
  get_file_size name s = elim (S.stat_size name s) [ none ↦ (io_error, 0) | some n ↦ (ok, n) ]

  unfoldable pub rename_file : List ℕ → List ℕ → S.State → Status × S.State
  rename_file source target s = status_of (S.rename source target s)

  unfoldable pub sym_link : List ℕ → List ℕ → S.State → Status × S.State
  sym_link old_name new_name s = status_of (S.symlink old_name new_name s)

  unfoldable pub is_sym_link : List ℕ → S.State → Bool
  is_sym_link name s = elim (S.lstat_is_link name s) [ none ↦ false | some is_link ↦ is_link ]

  unfoldable pub read_link : List ℕ → S.State → Status × List ℕ
  read_link name s = elim (S.readlink name 1024 s) [
    | none ↦ (io_error, [])
    | some target ↦ (ok, target)
  ]

  -- With the descriptor of the FileLock.
  abbrev pub locked : ℕ → Bool × S.State → (Status × Option ℕ) × S.State
  locked fd (true, s) = ((ok, some fd), s)
  locked fd (false, s) = ((io_error, none), S.close fd s)

  abbrev pub lock_opened : Option ℕ × S.State → (Status × Option ℕ) × S.State
  lock_opened (none, s) = ((io_error, none), s)
  lock_opened (some fd, s) = locked fd (S.flock fd true s)

  unfoldable pub lock_file : List ℕ → S.State → (Status × Option ℕ) × S.State
  lock_file name s = lock_opened (S.open_lock name s)

  unfoldable pub unlock_file : ℕ → S.State → Status × S.State
  unlock_file fd s = let (unlocked, s') = S.flock fd false s in status_of (unlocked, S.close fd s')

  -- A round of the loop of ReadFileToString stops on an error as it does at the end of the file.
  abbrev pub stop_or {ℓ} : {A : Type ℓ} → Status → List ℕ → A → A → A
  stop_or io_error fragment stop again = stop
  stop_or ok [] stop again = stop
  stop_or ok (b ∷ fragment) stop again = again

  -- The loop: what it appends to.
  unfoldable pub read_loop : ℕ → S.Stream → List ℕ → S.State → Outcome (List ℕ × S.State)
  unfolding read_sequential
  read_loop zero f text s = out_of_fuel
  read_loop (suc fuel) f text s =
      let ((status, fragment), s') = read_sequential S f 8192 s in
      let again = read_loop fuel f (text ++ fragment) s' in
      stop_or status fragment (done (text, s')) again

  abbrev pub read_opened : ℕ → Option S.Stream × S.State → Outcome ((Status × List ℕ) × S.State)
  read_opened fuel (none, s) = done ((io_error, []), s)
  read_opened fuel (some f, s) = do
    (text, s') ← read_loop fuel f [] s
    done ((ok, text), (S.fclose f s').1)

  unfoldable pub read_file_to_string : ℕ → List ℕ → S.State → Outcome ((Status × List ℕ) × S.State)
  unfolding read_loop new_sequential_file
  read_file_to_string fuel name s = read_opened fuel (new_sequential_file S name s)

  -- `if (s)`: the file is closed before its destructor closes it only when Append failed.
  unfoldable pub close_if : Status → WritableFile S → S.State → Status × (WritableFile S × S.State)
  unfolding close_file
  close_if ok file s = (ok, (file, s))
  close_if io_error file s = close_file S file s

  abbrev pub delete_if : Status → List ℕ → S.State → S.State
  delete_if ok name s = s
  delete_if io_error name s = (delete_file name s).1

  unfoldable pub write_opened :
      List ℕ → List ℕ → Option (WritableFile S) × S.State → Outcome (Status × S.State)
  unfolding close_if delete_file append_file destroy
  write_opened bytes name (none, s) = done (io_error, s)
  write_opened bytes name (some file, s) = do
    ((appended, file'), s') ← append_file S bytes file s
    let (status, (file'', s'')) = close_if appended file' s'
    last ← destroy S file'' s''
    done (status, delete_if status name last)

  unfoldable pub write_string_to_file : List ℕ → List ℕ → S.State → Outcome (Status × S.State)
  unfolding write_opened new_writable_file
  write_string_to_file bytes name s = write_opened bytes name (new_writable_file S name s)
