-- ===== src/Files/Streams/Appending.antt =====
-- WritableFile::Append (files/FileUtil.cc) on streams that behave as the C standard says.
use mathlib.Core.List.{append_assoc}
use claire_common.Common.{
  ℕ, zero, suc, ◌+◌, ◌%◌, ◌^◌, ◌≤◌, ◌<◌, ◌≡◌, refl, ap, ◌∙◌, List, ◌++◌, ltb, ◌==◌, length, take,
  drop, take-plus, take_all, length-drop, arith,
}
use claire_common.Common.Outcome.{done, Yields, Yields-bind, Yields-cases}
use claire_common.Files.System.{System, Streams}
use claire_common.Files.Streams.{Status, ok, io_error, WritableFile, append_loop, append_file}

module _ (S : System) (L : Streams S) where
  -- From what the stream held, `n` bytes were written, which are all if the status is kOk.
  abbrev IsWritten : S.Stream → List ℕ → List ℕ → (Status × ℕ) × S.State → Type 0
  IsWritten f before bytes ((ok, n), s) = (n ≡ length bytes) × (L.held f s ≡ before ++ bytes)
  IsWritten f before bytes ((io_error, n), s) =
      (n < length bytes) × (L.held f s ≡ before ++ take n bytes)

  fwrite-held :
      (f : S.Stream) (before bytes : List ℕ) (n : ℕ) (s : S.State)
      → L.held f s ≡ before ++ take n bytes
      → L.held f (S.fwrite f (drop n bytes) s).1
        ≡ before ++ take (n + (S.fwrite f (drop n bytes) s).0) bytes
  fwrite-held f before bytes n s held =
      let x = (S.fwrite f (drop n bytes) s).0 in
      L.fwrite_held f (drop n bytes) s
      ∙ ap (λ t. t ++ take x (drop n bytes)) held
      ∙ append_assoc before (take n bytes) (take x (drop n bytes))
      ∙ ap (λ t. before ++ t) (take-plus n x bytes)

  Yields-append_loop :
      (fuel : ℕ) (f : S.Stream) (before bytes : List ℕ) (n : ℕ) (s : S.State)
      → length bytes < fuel + n
      → n ≤ length bytes
      → L.held f s ≡ before ++ take n bytes
      → Yields (IsWritten f before bytes) (append_loop S fuel f bytes n s)
  unfolding append_loop
  Yields-append_loop zero f before bytes n s enough within held =
      absurd (omega (arith, enough, within))
  Yields-append_loop (suc fuel) f before bytes n s enough within held =
      Yields-cases (IsWritten f before bytes) (ltb n (length bytes)) _ (done ((ok, n), s))
        (λ less.
          let after = fwrite-held f before bytes n s held in
          let x = (S.fwrite f (drop n bytes) s).0 in
          let short = L.fwrite_short f (drop n bytes) s in
          Yields-cases (IsWritten f before bytes) (x == 0)
            (done ((io_error, n), (S.fwrite f (drop n bytes) s).1)) _
            (λ none_taken. (
              ground (arith, less),
              after ∙ ap (λ k. before ++ take k bytes) (ground (arith, none_taken)),
            ))
            (λ some_taken.
              Yields-append_loop fuel f before bytes (n + x) (S.fwrite f (drop n bytes) s).1
                (ground (arith, enough, some_taken))
                (ground (arith, less, short, length-drop n bytes)) after))
        (λ all. (
          ground (arith, within, all),
          held ∙ ap (λ t. before ++ t) (take_all n bytes (ground (arith, all))),
        ))

  abbrev pub IsAppended :
      List ℕ → WritableFile S → S.State → (Status × WritableFile S) × S.State → Type 0
  IsAppended bytes file s ((status, file'), s') =
      (n : ℕ) × IsWritten file.stream (L.held file.stream s) bytes ((status, n), s')
      × (file' ≡ record file { written_bytes = (file.written_bytes + n) % 2 ^ 64 })

  -- On a stream that behaves as the C standard says, Append ends. With kOk the stream holds all the
  -- bytes behind what it held; with kIOError it holds a front of them, and not all; and
  -- written_bytes_ has grown by as many as the stream took.
  pub append_file-IsAppended :
      (bytes : List ℕ) (file : WritableFile S) (s : S.State)
      → Yields (IsAppended bytes file s) (append_file S bytes file s)
  unfolding append_file
  append_file-IsAppended bytes file s =
      let f = file.stream in
      let before = L.held f s in
      let n = (S.fwrite f bytes s).0 in
      Yields-bind (IsWritten f before bytes) (IsAppended bytes file s)
        (append_loop S (suc (length bytes)) f bytes n (S.fwrite f bytes s).1) _
        (Yields-append_loop (suc (length bytes)) f before bytes n (S.fwrite f bytes s).1
          (omega arith) (L.fwrite_short f bytes s) (L.fwrite_held f bytes s))
        (λ result written. (result.0.1, written, refl))
