-- ===== src/Files/System.antt =====
-- The calls that files/FileUtil.cc makes of the C library and the system, over an unknown state.
use claire_common.Common.{ℕ, ◌≤◌, ◌≡◌, Bool, Option, List, ◌++◌, length, take, true, []}

pub data Mode : Type 0 where
  to_read to_write to_append : Mode

-- A Bool tells whether the call succeeded. `open` is for reading, `open_lock` for a file to lock.
pub record System : Type 1 where
  pub State : Type 0
  pub Stream : Type 0
  pub fopen : List ℕ → Mode → State → Option Stream × State
  pub fclose : Stream → State → Bool × State
  pub fflush : Stream → State → Bool × State
  pub fread : Stream → ℕ → State → List ℕ × State
  pub feof : Stream → State → Bool
  pub fseek : Stream → ℕ → State → Bool × State
  pub fwrite : Stream → List ℕ → State → ℕ × State
  pub open_read : List ℕ → State → Option ℕ × State
  pub open_lock : List ℕ → State → Option ℕ × State
  pub pread : ℕ → ℕ → ℕ → State → Option (List ℕ) × State
  pub close : ℕ → State → State
  pub flock : ℕ → Bool → State → Bool × State
  pub access : List ℕ → State → Bool
  pub unlink : List ℕ → State → Bool × State
  pub mkdir : List ℕ → State → Bool × State
  pub rmdir : List ℕ → State → Bool × State
  pub rename : List ℕ → List ℕ → State → Bool × State
  pub symlink : List ℕ → List ℕ → State → Bool × State
  pub stat_size : List ℕ → State → Option ℕ
  pub lstat_is_link : List ℕ → State → Option Bool
  pub readlink : List ℕ → ℕ → State → Option (List ℕ)

-- What the C standard says of streams: fwrite takes a front of what it is given, and puts it behind
-- what the stream holds; fread takes a front of what lies ahead, no more than is asked for; and feof
-- tells that nothing lies ahead.
pub record Streams (S : System) : Type 0 where
  pub held : S.Stream → S.State → List ℕ
  pub ahead : S.Stream → S.State → List ℕ
  pub fwrite_short :
      (f : S.Stream) (bytes : List ℕ) (s : S.State) → (S.fwrite f bytes s).0 ≤ length bytes
  pub fwrite_held :
      (f : S.Stream) (bytes : List ℕ) (s : S.State)
      → held f (S.fwrite f bytes s).1 ≡ held f s ++ take (S.fwrite f bytes s).0 bytes
  pub fread_short : (f : S.Stream) (n : ℕ) (s : S.State) → length (S.fread f n s).0 ≤ n
  pub fread_ahead :
      (f : S.Stream) (n : ℕ) (s : S.State)
      → ahead f s ≡ (S.fread f n s).0 ++ ahead f (S.fread f n s).1
  pub feof_ahead : (f : S.Stream) (s : S.State) → S.feof f s ≡ true → ahead f s ≡ []
