-- ===== src/Logging/File.antt =====
-- LogFile (claire/common/logging): a log that rolls over to a new file when one is full or a day
-- ends, on the files of files/FileUtil.cc. The mutex makes a call one step.
use claire_common.Common.{
  ℕ, zero, suc, ◌+◌, ◌-◌, ◌*◌, ◌/◌, ◌%◌, ◌^◌, Bool, true, false, not, ◌&&◌, Option, none, some,
  List, [], ◌∷◌, ◌++◌, ltb, leb, ◌==◌, if◌then◌else◌,
}
use claire_common.Common.Outcome.{Outcome, done, undefined, ◌>>=◌}
use claire_common.Files.System.{System, to_append}
use claire_common.Files.Streams.{
  Status, ok, io_error, WritableFile, new_file, append_file, flush_file, destroy,
}
use claire_common.Files.Whole.{file_exists, delete_file, get_file_size, sym_link, read_link}
pub mod Rolling

-- The flags, the parts of a file's name that the process gives, and the size of a page.
pub record Settings : Type 0 where
  pub max_log_size : ℕ
  pub logbufsecs : ℕ
  pub log_dir : List ℕ
  pub drop_log_memory : Bool
  pub base_name : List ℕ
  pub host : List ℕ
  pub pid_string : List ℕ
  pub user : List ℕ
  pub page_size : ℕ

-- What the calls of Timestamp::Now give during an Append: in AppendUnLocked, in RollFile and in
-- GetLogFileName.
pub record Moment : Type 0 where
  pub now : ℕ
  pub roll_now : ℕ
  pub formatted : List ℕ

-- The start of the day.
abbrev pub period_of : ℕ → ℕ
period_of now = now / 86400 * 86400

abbrev slash_unless_last : List ℕ → List ℕ
slash_unless_last [] = []
slash_unless_last (b ∷ []) = if b == b'/' then b ∷ [] else b ∷ b'/' ∷ []
slash_unless_last (b ∷ c ∷ s) = b ∷ slash_unless_last (c ∷ s)

unfoldable pub get_log_file_name : Settings → Moment → List ℕ
get_log_file_name p m =
    slash_unless_last p.log_dir
    ++ p.base_name
    ++ (b'.' ∷ [])
    ++ m.formatted
    ++ (b'.' ∷ [])
    ++ p.host
    ++ (b'.' ∷ [])
    ++ p.pid_string
    ++ (b'.' ∷ [])
    ++ p.user
    ++ (b'.' ∷ b'l' ∷ b'o' ∷ b'g' ∷ [])

unfoldable pub get_link_log_file_name : Settings → List ℕ
get_link_log_file_name p =
    slash_unless_last p.log_dir ++ p.base_name ++ (b'.' ∷ b'l' ∷ b'o' ∷ b'g' ∷ [])

module _ (S : System) where
  -- `file` is none for NULL.
  pub record LogFile : Type 0 where
    pub count : ℕ
    pub file : Option (WritableFile S)
    pub last_period : ℕ
    pub last_roll : ℕ
    pub last_flush : ℕ

  -- What the constructors set.
  abbrev pub blank : LogFile
  blank = record { count = 0; file = none; last_period = 0; last_roll = 0; last_flush = 0 }

  -- `delete` of the file that reset replaces.
  abbrev pub delete_old : Option (WritableFile S) → S.State → Outcome S.State
  delete_old none s = done s
  delete_old (some file) s = destroy S file s

  -- The constructor of AppendableFile, which calls setbuffer on what fopen gives, and reset.
  abbrev pub reset_file :
      List ℕ
      → Option S.Stream × S.State
      → Option (WritableFile S)
      → Outcome (WritableFile S × S.State)
  reset_file name (none, s) old = undefined
  reset_file name (some f, s) old = do s' ← delete_old old s; done (new_file S name f, s')

  abbrev pub delete_if_empty : List ℕ → Status × ℕ → S.State → S.State
  delete_if_empty name (ok, zero) s = (delete_file S name s).1
  delete_if_empty name (ok, suc n) s = s
  delete_if_empty name (io_error, n) s = s

  -- The file that the link names is deleted if it is empty.
  abbrev pub delete_target : Status × List ℕ → S.State → S.State
  delete_target (io_error, name) s = s
  delete_target (ok, name) s = delete_if_empty name (get_file_size S name s) s

  unfoldable pub replace_link : List ℕ → List ℕ → S.State → S.State
  unfolding file_exists read_link get_file_size delete_file sym_link
  replace_link name link s =
      let removed = (delete_file S link (delete_target (read_link S link s) s)).1 in
      (sym_link S name link (if file_exists S link s then removed else s)).1

  unfoldable pub roll_file : Settings → Moment → LogFile → S.State → Outcome (LogFile × S.State)
  unfolding replace_link
  roll_file p m l s =
      let name = get_log_file_name p m in
      let rolled = (do
        (file, s') ← reset_file name (S.fopen name to_append s) l.file
        done (
          record {
            count = l.count;
            file = some file;
            last_period = period_of m.roll_now;
            last_roll = m.roll_now;
            last_flush = m.roll_now;
          },
          replace_link name (get_link_log_file_name p) s',
        )) in
      if ltb l.last_roll m.roll_now then rolled else done (l, s)

  unfoldable pub new_log_file : Settings → Moment → S.State → Outcome (LogFile × S.State)
  unfolding roll_file
  new_log_file p m s = roll_file p m blank s

  -- The flush of a file that was not flushed for long.
  unfoldable pub flush_if_due :
      Settings → Moment → WritableFile S → LogFile → S.State → LogFile × S.State
  unfolding flush_file
  flush_if_due p m file l s =
      if ltb p.logbufsecs (m.now - l.last_flush)
      then (record l { last_flush = m.now }, (flush_file S file s).1)
      else (l, s)

  -- The check of the time, when `count_` exceeds kCheckTimeRoll.
  unfoldable pub check_time :
      Settings → Moment → WritableFile S → LogFile → S.State → Outcome (LogFile × S.State)
  unfolding roll_file flush_if_due
  check_time p m file l s =
      let l' = record l { count = 0 } in
      if not (period_of m.now == l.last_period)
      then roll_file p m l' s
      else done (flush_if_due p m file l' s)

  -- AppendUnLocked behind its Append. The bound is computed in 32 bits.
  unfoldable pub roll_or_check :
      Settings → Moment → WritableFile S → LogFile → S.State → Outcome (LogFile × S.State)
  unfolding check_time
  roll_or_check p m file l s =
      if ltb (p.max_log_size % 2 ^ 32 * 1024 * 1024 % 2 ^ 32) file.written_bytes
      then roll_file p m l s
      else if ltb 1024 l.count
      then check_time p m file l s
      else done (record l { count = l.count + 1 }, s)

  -- Append to a file; the status is not looked at.
  unfoldable pub append_to :
      Settings
      → Moment
      → List ℕ
      → Option (WritableFile S)
      → LogFile
      → S.State
      → Outcome (LogFile × S.State)
  unfolding append_file roll_or_check
  append_to p m bytes none l s = undefined
  append_to p m bytes (some file) l s = do
    ((status, file'), s') ← append_file S bytes file s
    roll_or_check p m file' (record l { file = some file' }) s'

  unfoldable pub append_log :
      Settings → Moment → List ℕ → LogFile → S.State → Outcome (LogFile × S.State)
  unfolding append_to
  append_log p m bytes l s = append_to p m bytes l.file l s

  -- DropFileMemory: the bytes from the start that the kernel is told it need not keep, up to the
  -- last whole page. The length is compared as an int.
  unfoldable pub dropped_length : Settings → WritableFile S → Option ℕ
  dropped_length p file =
      let low = file.written_bytes % 2 ^ 32 in
      let at_least_a_page = leb p.page_size low && ltb low (2 ^ 31) in
      if p.drop_log_memory && at_least_a_page
      then some (file.written_bytes - file.written_bytes % p.page_size)
      else none

  abbrev pub flush_some :
      Settings → Option (WritableFile S) → S.State → Outcome (Option ℕ × S.State)
  flush_some p none s = undefined
  flush_some p (some file) s = done (dropped_length p file, (flush_file S file s).1)

  unfoldable pub flush_log : Settings → LogFile → S.State → Outcome (Option ℕ × S.State)
  unfolding dropped_length flush_file
  flush_log p l s = flush_some p l.file s
