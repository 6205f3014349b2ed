-- ===== src/Files/Whole/Writing.antt =====
-- WriteStringToFile (files/FileUtil.cc): what its inverted test does.
use claire_common.Common.{ℕ, ◌<◌, ◌≡◌, refl, ◌⊎◌, inl, inr, some, List, ◌++◌, length, take}
use claire_common.Common.Outcome.{Outcome, done, undefined, Yields-done}
use claire_common.Files.System.{System, Streams, to_write}
use claire_common.Files.Streams.{
  Status, ok, io_error, WritableFile, new_file, append_file, close_file, destroy, new_writable_file,
}
use claire_common.Files.Streams.Appending.{IsAppended, append_file-IsAppended}
use claire_common.Files.Whole.{close_if, write_opened, write_string_to_file}

module _ (S : System) (L : Streams S) (bytes name : List ℕ) where
  -- Either the Append to the new file gave kOk, the stream took all the bytes, and it is closed once,
  -- with kOk; or the Append gave an error, the stream took fewer, and the call closes it twice.
  abbrev pub IsClosed : S.Stream → S.State → Outcome (Status × S.State) → Type 0
  IsClosed f s result =
      (file : WritableFile S) × (t : S.State) × (((append_file S bytes (new_file S name f) s
            ≡ done ((ok, file), t))
          × (L.held f t ≡ L.held f s ++ bytes)
          × (result ≡ done (ok, (S.fclose f t).1)))
        ⊎ ((append_file S bytes (new_file S name f) s ≡ done ((io_error, file), t))
            × (n : ℕ) × (n < length bytes)
            × (L.held f t ≡ L.held f s ++ take n bytes)
            × (result ≡ undefined)))

  write_opened-IsClosed :
      (f : S.Stream) (s : S.State) (appended : (Status × WritableFile S) × S.State)
      → append_file S bytes (new_file S name f) s ≡ done appended
      → IsAppended S L bytes (new_file S name f) s appended
      → IsClosed f s (write_opened S bytes name (some (new_file S name f), s))
  unfolding write_opened close_if close_file destroy
  write_opened-IsClosed f s ((ok, file), t) e (n, (all, held), kept) =
      (file, t, inl (e, held, rw (e, kept) refl))
  write_opened-IsClosed f s ((io_error, file), t) e (n, (less, held), kept) =
      (file, t, inr (e, n, less, held, rw e refl))

  -- When the file can be opened, and streams behave as the C standard says, WriteStringToFile returns
  -- kOk with all the bytes written and the stream closed once, exactly when its Append gives kOk; when
  -- the Append gives an error, having written fewer, the call closes the stream twice, which is
  -- undefined: it never reports that a write failed.
  pub write_string_to_file-IsClosed :
      (f : S.Stream) (s s' : S.State)
      → S.fopen name to_write s ≡ (some f, s')
      → IsClosed f s' (write_string_to_file S bytes name s)
  unfolding write_string_to_file new_writable_file
  write_string_to_file-IsClosed f s s' e =
      let appended =
        Yields-done (IsAppended S L bytes (new_file S name f) s')
          (append_file S bytes (new_file S name f) s')
          (append_file-IsAppended S L bytes (new_file S name f) s') in
      rw e (write_opened-IsClosed f s' appended.0 appended.1 appended.2)
