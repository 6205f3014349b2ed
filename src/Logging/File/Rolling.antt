-- ===== src/Logging/File/Rolling.antt =====
-- When a LogFile (claire/common/logging) rolls over.
use mathlib.Core.Path.{subst}
use claire_common.Common.{
  ℕ, ◌+◌, ◌*◌, ◌%◌, ◌^◌, ◌≤◌, ◌<◌, ◌≡◌, refl, ap, ◌∙◌, ◌⊎◌, inl, inr, false, not, some, List, ltb,
  ◌==◌, arith, lt→ltb, Bool-cases, ◌-◌,
}
use claire_common.Common.Outcome.{done, Yields, Yields-bind, Yields-cases, Yields-mono}
use claire_common.Files.System.{System, Streams, to_append}
use claire_common.Files.Streams.{WritableFile, new_file, append_file, destroy}
use claire_common.Files.Streams.Appending.{IsAppended, append_file-IsAppended}
use claire_common.Logging.File.{
  Settings, Moment, period_of, LogFile, get_log_file_name, roll_file, new_log_file, flush_if_due,
  check_time, roll_or_check, append_to, append_log,
}

-- kMaxLogSize in bytes, in 32 bits.
abbrev pub limit_of : Settings → ℕ
limit_of p = p.max_log_size % 2 ^ 32 * 1024 * 1024 % 2 ^ 32

module _ (S : System) (p : Settings) where
  -- fopen for appending succeeds.
  abbrev pub Opens : Type 0
  Opens =
      (name : List ℕ) (s : S.State)
      → (f : S.Stream) × (s' : S.State) × (S.fopen name to_append s ≡ (some f, s'))

  -- The file is open, the period is the day of the last roll, the last flush was no earlier, and the
  -- time is looked at within 1026 calls.
  pub record IsLogFile (l : LogFile S) (file : WritableFile S) : Type 0 where
    pub is_current : l.file ≡ some file
    pub is_open : file.is_closed ≡ false
    pub is_day : l.last_period ≡ period_of l.last_roll
    pub is_flushed : l.last_roll ≤ l.last_flush
    pub is_checked : l.count ≤ 1025

  abbrev IsKept : LogFile S → WritableFile S → Moment → LogFile S → WritableFile S → Type 0
  IsKept l file m l' file' =
      (file' ≡ file) × (l'.last_roll ≡ l.last_roll) × (m.roll_now ≤ l.last_roll)

  abbrev IsNew : LogFile S → Moment → LogFile S → WritableFile S → Type 0
  IsNew l m l' file' =
      (l.last_roll < l'.last_roll) × (l'.last_roll ≡ m.roll_now) × (file'.written_bytes ≡ 0)

  abbrev IsAfter : LogFile S → WritableFile S → Moment → LogFile S × S.State → Type 0
  IsAfter l file m (l', s) =
      (file' : WritableFile S) × IsLogFile l' file'
      × (IsKept l file m l' file' ⊎ IsNew l m l' file')

  Yields-roll_file :
      Opens
      → (m : Moment) (l : LogFile S) (file : WritableFile S) (s : S.State) → IsLogFile l file
      → Yields (IsAfter l file m) (roll_file S p m l s)
  unfolding roll_file destroy
  Yields-roll_file opens m l file s w =
      let (f, s', e) = opens (get_log_file_name p m) s in
      Yields-cases (IsAfter l file m) (ltb l.last_roll m.roll_now) _ (done (l, s))
        (λ later.
          rw (e, w.is_current, w.is_open)
            (
              new_file S (get_log_file_name p m) f,
              record {
                is_current = refl;
                is_open = refl;
                is_day = refl;
                is_flushed = omega arith;
                is_checked = w.is_checked;
              },
              inr (ground (arith, later), refl, refl),
            ))
        (λ earlier. (file, w, inl (refl, refl, ground (arith, earlier))))

  -- The log is in order. Its file is the same, or a new one that was opened at a later second than
  -- the last. It is no larger than the bound, or a file was opened in that second already.
  abbrev pub IsRolled : LogFile S → S.Stream → Moment → LogFile S × S.State → Type 0
  IsRolled l f m (l', s) =
      (file' : WritableFile S) × IsLogFile l' file'
      × (((file'.stream ≡ f) × (l'.last_roll ≡ l.last_roll))
          ⊎ ((l.last_roll < l'.last_roll) × (l'.last_roll ≡ m.roll_now)))
      × ((file'.written_bytes ≤ limit_of p) ⊎ (m.roll_now ≤ l.last_roll))

  IsAfter-IsRolled :
      (m : Moment) (l : LogFile S) (file : WritableFile S) (r : LogFile S × S.State)
      → IsAfter l file m r
      → IsRolled l file.stream m r
  IsAfter-IsRolled m l file (l', s) (file', w, inl (same, roll, early)) =
      (file', w, inl (ap (λ f. f.stream) same, roll), inr early)
  IsAfter-IsRolled m l file (l', s) (file', w, inr (later, roll, empty)) =
      (file', w, inr (later, roll), inl (omega (arith, empty)))

  IsLogFile-count :
      (l : LogFile S) (file : WritableFile S) (count : ℕ)
      → IsLogFile l file
      → count ≤ 1025
      → IsLogFile (record l { count = count }) file
  IsLogFile-count l file count w small = record {
    is_current = w.is_current;
    is_open = w.is_open;
    is_day = w.is_day;
    is_flushed = w.is_flushed;
    is_checked = small;
  }

  IsLogFile-flush :
      (l : LogFile S) (file : WritableFile S) (now : ℕ)
      → IsLogFile l file
      → l.last_flush ≤ now
      → IsLogFile (record l { last_flush = now }) file
  IsLogFile-flush l file now w later = record {
    is_current = w.is_current;
    is_open = w.is_open;
    is_day = w.is_day;
    is_flushed = omega (arith, w.is_flushed, later);
    is_checked = w.is_checked;
  }

  IsLogFile-file :
      (l : LogFile S) (file file' : WritableFile S)
      → IsLogFile l file
      → file'.is_closed ≡ file.is_closed
      → IsLogFile (record l { file = some file' }) file'
  IsLogFile-file l file file' w same = record {
    is_current = refl;
    is_open = same ∙ w.is_open;
    is_day = w.is_day;
    is_flushed = w.is_flushed;
    is_checked = w.is_checked;
  }

  module _ (opens : Opens) (m : Moment) where
    Yields-roll :
        (l : LogFile S) (file : WritableFile S) (s : S.State)
        → IsLogFile l file
        → Yields (IsRolled l file.stream m) (roll_file S p m l s)
    Yields-roll l file s w =
        Yields-mono (IsAfter l file m) (IsRolled l file.stream m) (roll_file S p m l s)
          (IsAfter-IsRolled m l file) (Yields-roll_file opens m l file s w)

    IsRolled-flush :
        (l : LogFile S) (file : WritableFile S) (s : S.State)
        → IsLogFile l file
        → file.written_bytes ≤ limit_of p
        → IsRolled l file.stream m (flush_if_due S p m file l s)
    unfolding flush_if_due
    IsRolled-flush l file s w small = elim (Bool-cases (ltb p.logbufsecs (m.now - l.last_flush))) [
      | inl due ↦
          rw due (
            file,
            IsLogFile-flush l file m.now w (ground (arith, due)),
            inl (refl, refl),
            inl small,
          )
      | inr recent ↦ rw recent (file, w, inl (refl, refl), inl small)
    ]

    Yields-check_time :
        (l : LogFile S) (file : WritableFile S) (s : S.State)
        → IsLogFile l file
        → file.written_bytes ≤ limit_of p
        → Yields (IsRolled l file.stream m) (check_time S p m file l s)
    unfolding check_time
    Yields-check_time l file s w small =
        let l' = record l { count = 0 } in
        let w' = IsLogFile-count l file 0 w (omega arith) in
        Yields-cases (IsRolled l file.stream m) (not (period_of m.now == l.last_period)) _ _
          (λ other. Yields-roll l' file s w') (λ same. IsRolled-flush l' file s w' small)

    Yields-roll_or_check :
        (l : LogFile S) (file : WritableFile S) (s : S.State)
        → IsLogFile l file
        → Yields (IsRolled l file.stream m) (roll_or_check S p m file l s)
    unfolding roll_or_check
    Yields-roll_or_check l file s w =
        Yields-cases (IsRolled l file.stream m) (ltb (limit_of p) file.written_bytes) _ _
          (λ full. Yields-roll l file s w)
          (λ fits.
            Yields-cases (IsRolled l file.stream m) (ltb 1024 l.count) _ _
              (λ due. Yields-check_time l file s w (ground (arith, fits)))
              (λ early. (
                file,
                IsLogFile-count l file (l.count + 1) w (ground (arith, early)),
                inl (refl, refl),
                inl (ground (arith, fits)),
              )))

    -- When fopen succeeds and streams behave as the C standard says, Append ends, keeps the log file
    -- in order, opens a new file at most once a second, and leaves a file within the bound unless
    -- one was opened in that second already.
    pub append_log-IsRolled :
        (L : Streams S) (bytes : List ℕ) (l : LogFile S) (file : WritableFile S) (s : S.State)
        → IsLogFile l file
        → Yields (IsRolled l file.stream m) (append_log S p m bytes l s)
    unfolding append_log append_to
    append_log-IsRolled L bytes l file s w = rw w.is_current (
        Yields-bind (IsAppended S L bytes file s) (IsRolled l file.stream m)
          (append_file S bytes file s) _ (append_file-IsAppended S L bytes file s)
          (λ ((status, file'), s') (n, written, kept).
            let w' = IsLogFile-file l file file' w (ap (λ f. f.is_closed) kept) in
            subst
              (λ f.
                Yields (IsRolled l f m)
                  (roll_or_check S p m file' (record l { file = some file' }) s'))
              (ap (λ f. f.stream) kept)
              (Yields-roll_or_check (record l { file = some file' }) file' s' w')))

  -- The constructor opens the first file.
  pub new_log_file-IsLogFile :
      Opens
      → (m : Moment) (s : S.State) → 0 < m.roll_now
      → Yields (λ r. (file : WritableFile S) × IsLogFile r.0 file) (new_log_file S p m s)
  unfolding new_log_file roll_file
  new_log_file-IsLogFile opens m s positive =
      let (f, s', e) = opens (get_log_file_name p m) s in
      rw (lt→ltb 0 m.roll_now positive, e)
        (
          new_file S (get_log_file_name p m) f,
          record {
            is_current = refl;
            is_open = refl;
            is_day = refl;
            is_flushed = omega arith;
            is_checked = omega arith;
          },
        )
