-- ===== src/Files/Streams.antt =====
-- The files of files/FileUtil.h: SequentialFile, RandomAccessFile and WritableFile. PLOG is dropped.
use claire_common.Common.{
  ℕ, zero, suc, ◌+◌, ◌%◌, ◌^◌, Bool, true, false, not, ◌&&◌, Option, none, some, List, [], ltb,
  ◌==◌, if◌then◌else◌, length, drop,
}
use claire_common.Common.Outcome.{Outcome, done, undefined, out_of_fuel, ◌>>=◌}
use claire_common.Files.System.{System, Mode, to_read, to_write, to_append}
pub mod Appending

pub data Status : Type 0 where
  ok io_error : Status

-- What a call comes to whose only report is its success.
abbrev pub status_of {ℓ} : {A : Type ℓ} → Bool × A → Status × A
status_of (succeeded, s) = (if succeeded then ok else io_error, s)

module _ (S : System) where
  -- The stream of a SequentialFile.
  unfoldable pub read_sequential : S.Stream → ℕ → S.State → (Status × List ℕ) × S.State
  read_sequential f n s =
      let (bytes, s') = S.fread f n s in
      let failed = ltb (length bytes) n && not (S.feof f s') in
      ((if failed then io_error else ok, bytes), s')

  unfoldable pub skip : S.Stream → ℕ → S.State → Status × S.State
  skip f n s = status_of (S.fseek f n s)

  -- The descriptor of a RandomAccessFile.
  unfoldable pub read_random : ℕ → ℕ → ℕ → S.State → (Status × List ℕ) × S.State
  read_random fd offset n s =
      let (result, s') = S.pread fd n offset s in
      (elim result [ none ↦ (io_error, []) | some bytes ↦ (ok, bytes) ], s')

  -- `is_closed` is not a field: it tells that fclose was called on `fp_`, which leaves it dangling.
  pub record WritableFile : Type 0 where
    pub filename : List ℕ
    pub stream : S.Stream
    pub written_bytes : ℕ
    pub is_closed : Bool

  abbrev pub new_file : List ℕ → S.Stream → WritableFile
  new_file name f = record { filename = name; stream = f; written_bytes = 0; is_closed = false }

  -- The loop of Append, with `n` bytes written: the status, and the bytes written in the end.
  unfoldable pub append_loop :
      ℕ → S.Stream → List ℕ → ℕ → S.State → Outcome ((Status × ℕ) × S.State)
  append_loop zero f bytes n s = out_of_fuel
  append_loop (suc fuel) f bytes n s =
      let (x, s') = S.fwrite f (drop n bytes) s in
      let again = append_loop fuel f bytes (n + x) s' in
      if ltb n (length bytes)
      then if x == 0 then done ((io_error, n), s') else again
      else done ((ok, n), s)

  unfoldable pub append_file :
      List ℕ → WritableFile → S.State → Outcome ((Status × WritableFile) × S.State)
  unfolding append_loop
  append_file bytes file s = do
    let (n, s') = S.fwrite file.stream bytes s
    (result, s'') ← append_loop (suc (length bytes)) file.stream bytes n s'
    let count = (file.written_bytes + result.1) % 2 ^ 64
    done ((result.0, record file { written_bytes = count }), s'')

  unfoldable pub close_file : WritableFile → S.State → Status × (WritableFile × S.State)
  close_file file s =
      let (closed, s') = S.fclose file.stream s in
      status_of (closed, (record file { is_closed = true }, s'))

  unfoldable pub flush_file : WritableFile → S.State → Status × S.State
  flush_file file s = status_of (S.fflush file.stream s)

  -- The destructor, which closes the stream in any case.
  unfoldable pub destroy : WritableFile → S.State → Outcome S.State
  destroy file s = if file.is_closed then undefined else done (S.fclose file.stream s).1

  unfoldable pub new_sequential_file : List ℕ → S.State → Option S.Stream × S.State
  new_sequential_file name s = S.fopen name to_read s

  unfoldable pub new_random_access_file : List ℕ → S.State → Option ℕ × S.State
  new_random_access_file name s = S.open_read name s

  abbrev pub opened : List ℕ → Option S.Stream × S.State → Option WritableFile × S.State
  opened name (none, s) = (none, s)
  opened name (some f, s) = (some (new_file name f), s)

  unfoldable pub new_writable_file : List ℕ → S.State → Option WritableFile × S.State
  new_writable_file name s = opened name (S.fopen name to_write s)

  -- The size is asked for and not kept.
  abbrev pub sized : List ℕ → Option ℕ → Option S.Stream × S.State → Option WritableFile × S.State
  sized name size (none, s) = (none, s)
  sized name none (some f, s) = (none, (S.fclose f s).1)
  sized name (some size) (some f, s) = (some (new_file name f), s)

  unfoldable pub new_appendable_file : List ℕ → S.State → Option WritableFile × S.State
  new_appendable_file name s =
      let (f, s') = S.fopen name to_append s in sized name (S.stat_size name s') (f, s')
