-- ===== src/Tests/Files.antt =====
-- A system whose one disk has a room, which its streams share, and the files and logs on it.
use claire_common.Common.{
  ℕ, ◌-◌, ◌≡◌, refl, sym, true, false, some, List, [], ◌∷◌, ◌++◌, min, ◌==◌, length, take, drop,
  take-drop, length-take, arith, ==_iff,
}
use claire_common.Common.Outcome.{done, undefined, Yields}
use claire_common.Files.System.{System, Streams}
use claire_common.Files.Streams.{
  ok, new_file, append_loop, append_file, close_file, destroy, new_writable_file,
}
use claire_common.Files.Streams.Appending.{IsAppended, append_file-IsAppended}
use claire_common.Files.Whole.{
  file_exists, read_link, get_file_size, delete_file, sym_link, read_file_to_string, close_if,
  write_opened, write_string_to_file,
}
use claire_common.Files.Whole.Reading.{IsRead, read_file_to_string-IsRead}
use claire_common.Files.Whole.Writing.{IsClosed, write_string_to_file-IsClosed}
use claire_common.Logging.File.{
  Settings, Moment, LogFile, append_log, append_to, roll_or_check, roll_file, replace_link,
  get_log_file_name,
}
use claire_common.Logging.File.Rolling.{IsLogFile, IsRolled, append_log-IsRolled}

-- What was written, and what can be read.
abbrev Disk : Type 0
Disk = List ℕ × List ℕ

-- fwrite takes two bytes at most, while there is room.
abbrev taken : ℕ → List ℕ → Disk → ℕ
taken room bytes d = min (min 2 (room - length d.0)) (length bytes)

abbrev disk : ℕ → System
disk room = record {
  State = Disk;
  Stream = ℕ;
  fopen = λ name mode d. (some 3, d);
  fclose = λ f d. (true, d);
  fflush = λ f d. (true, d);
  fread = λ f n d. (take n d.1, (d.0, drop n d.1));
  feof = λ f d. length d.1 == 0;
  fseek = λ f n d. (true, (d.0, drop n d.1));
  fwrite = λ f bytes d. (taken room bytes d, (d.0 ++ take (taken room bytes d) bytes, d.1));
  open_read = λ name d. (some 3, d);
  open_lock = λ name d. (some 3, d);
  pread = λ fd n offset d. (some (take n (drop offset d.1)), d);
  close = λ fd d. d;
  flock = λ fd locks d. (true, d);
  access = λ name d. true;
  unlink = λ name d. (true, d);
  mkdir = λ name d. (true, d);
  rmdir = λ name d. (true, d);
  rename = λ name target d. (true, d);
  symlink = λ name target d. (true, d);
  stat_size = λ name d. some (length d.1);
  lstat_is_link = λ name d. some false;
  readlink = λ name n d. some [];
}

length-zero : (xs : List ℕ) → length xs ≡ 0 → xs ≡ []
length-zero [] e = refl
length-zero (x ∷ xs) e = absurd (omega (arith, e))

disk-Streams : (room : ℕ) → Streams (disk room)
disk-Streams room = record {
  held = λ f d. d.0;
  ahead = λ f d. d.1;
  fwrite_short = λ f bytes d. omega arith;
  fwrite_held = λ f bytes d. refl;
  fread_short = λ f n d. length-take n d.1;
  fread_ahead = λ f n d. sym (take-drop n d.1);
  feof_ahead = λ f d e. length-zero d.1 ((==_iff (length d.1) 0).0 e);
}

abbrev abc : List ℕ
abc = b'a' ∷ b'b' ∷ b'c' ∷ []

-- Without room for it the third byte is lost, and the file is closed twice.
write_abc : write_string_to_file (disk 9) abc [] ([], []) ≡ done (ok, (abc, []))
unfolding write_string_to_file new_writable_file write_opened append_file append_loop close_if
    close_file destroy
write_abc = refl

write_too_much : write_string_to_file (disk 2) abc [] ([], []) ≡ undefined
unfolding write_string_to_file new_writable_file write_opened append_file append_loop close_if
    close_file destroy
write_too_much = refl

append_file-IsAppended_example :
    Yields
      (IsAppended (disk 2) (disk-Streams 2) abc (new_file (disk 2) [] 3) ([], []))
      (append_file (disk 2) abc (new_file (disk 2) [] 3) ([], []))
append_file-IsAppended_example =
    append_file-IsAppended (disk 2) (disk-Streams 2) abc (new_file (disk 2) [] 3) ([], [])

write_string_to_file-IsClosed_example :
    IsClosed
      (disk 2)
      (disk-Streams 2)
      abc
      []
      3
      ([], [])
      (write_string_to_file (disk 2) abc [] ([], []))
write_string_to_file-IsClosed_example =
    write_string_to_file-IsClosed (disk 2) (disk-Streams 2) abc [] 3 ([], []) ([], []) refl

read_file_to_string-IsRead_example :
    Yields (IsRead (disk 2) (disk-Streams 2) 3 abc) (read_file_to_string (disk 2) 4 [] ([], abc))
unfolding disk-Streams
read_file_to_string-IsRead_example =
    read_file_to_string-IsRead (disk 2) (disk-Streams 2) 4 [] 3 ([], abc) ([], abc) refl
      (omega arith)

abbrev settings : Settings
settings = record {
  max_log_size = 4096;
  logbufsecs = 30;
  log_dir = b'/' ∷ b't' ∷ [];
  drop_log_memory = true;
  base_name = b'x' ∷ [];
  host = b'h' ∷ [];
  pid_string = b'1' ∷ [];
  user = b'u' ∷ [];
  page_size = 4096;
}

abbrev moment : ℕ → Moment
moment now = record { now = now; roll_now = now; formatted = b'z' ∷ [] }

-- "/t/x.z.h.1.u.log"
named :
    get_log_file_name settings (moment 1)
    ≡ b'/' ∷ b't' ∷ b'/' ∷ b'x' ∷ b'.' ∷ b'z' ∷ b'.' ∷ b'h' ∷ b'.' ∷ b'1' ∷ b'.' ∷ b'u' ∷ b'.'
      ∷ b'l' ∷ b'o' ∷ b'g' ∷ []
unfolding get_log_file_name
named = refl

abbrev log : LogFile (disk 9)
log = record {
  count = 0;
  file = some (new_file (disk 9) [] 3);
  last_period = 86400;
  last_roll = 86405;
  last_flush = 86405;
}

log-IsLogFile : IsLogFile (disk 9) settings log (new_file (disk 9) [] 3)
log-IsLogFile = record {
  is_current = refl;
  is_open = refl;
  is_day = refl;
  is_flushed = omega arith;
  is_checked = omega arith;
}

-- 4096 MB are 0 bytes in 32 bits, so the file is replaced after any byte, a second later.
rolled :
    (append_log (disk 9) settings (moment 86406) abc log ([], []))
    ≡ done (
      record {
        count = 0;
        file = some (new_file (disk 9) (get_log_file_name settings (moment 86406)) 3);
        last_period = 86400;
        last_roll = 86406;
        last_flush = 86406;
      },
      (abc, []),
    )
unfolding append_log append_to append_file append_loop roll_or_check roll_file replace_link destroy
    file_exists read_link get_file_size delete_file sym_link
rolled = refl

append_log-IsRolled_example :
    Yields
      (IsRolled (disk 9) settings log 3 (moment 86406))
      (append_log (disk 9) settings (moment 86406) abc log ([], []))
append_log-IsRolled_example =
    append_log-IsRolled (disk 9) settings (λ name s. (3, s, refl)) (moment 86406) (disk-Streams 9)
      abc log (new_file (disk 9) [] 3) ([], []) log-IsLogFile
