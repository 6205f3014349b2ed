-- ===== src/Files/Whole/Reading.antt =====
-- ReadFileToString (files/FileUtil.cc) on streams that behave as the C standard says.
use mathlib.Core.Path.{subst}
use mathlib.Core.List.{append-nil, append_assoc}
use claire_common.Common.{
  ℕ, zero, suc, ◌<◌, ◌≡◌, refl, sym, ap, ◌∙◌, inl, inr, some, List, [], ◌∷◌, ◌++◌, length,
  length-append, arith, false, ◌⊎◌, inl, inr,
}
use claire_common.Common.Outcome.{Outcome, done, Yields, Yields-bind}
use claire_common.Files.System.{System, Streams, to_read}
use claire_common.Files.Streams.{Status, ok, io_error, read_sequential, new_sequential_file}
use claire_common.Files.Whole.{stop_or, read_loop, read_file_to_string}

module _ (S : System) (L : Streams S) where
  fread-shrinks :
      (f : S.Stream) (s : S.State) (fuel : ℕ)
      → length (L.ahead f s) < suc fuel
      → 0 < length (S.fread f 8192 s).0
      → length (L.ahead f (S.fread f 8192 s).1) < fuel
  fread-shrinks f s fuel enough more =
      let (fragment, s') = S.fread f 8192 s in
      omega (
        arith,
        enough,
        more,
        ap length (L.fread_ahead f 8192 s) ∙ length-append fragment (L.ahead f s'),
      )

  fread-advances :
      (f : S.Stream) (text : List ℕ) (s : S.State)
      → text ++ (S.fread f 8192 s).0 ++ L.ahead f (S.fread f 8192 s).1 ≡ text ++ L.ahead f s
  fread-advances f text s =
      let (fragment, s') = S.fread f 8192 s in
      append_assoc text fragment (L.ahead f s') ∙ ap (λ t. text ++ t) (sym (L.fread_ahead f 8192 s))

  -- A read that was short and not at the end of the file.
  abbrev pub IsFailed : S.Stream → S.State → Type 0
  IsFailed f s = (length (S.fread f 8192 s).0 < 8192) × (S.feof f (S.fread f 8192 s).1 ≡ false)

  -- The text is all of the file, or a front of it that ends where a read failed.
  abbrev pub IsFront : S.Stream → List ℕ → List ℕ → Type 0
  IsFront f all text =
      (text ≡ all) ⊎ ((s : S.State) × IsFailed f s × ((rest : List ℕ) × (all ≡ text ++ rest)))

  abbrev IsLooped : S.Stream → List ℕ → List ℕ × S.State → Type 0
  IsLooped f all (text, s) = IsFront f all text

  read_sequential-IsFailed :
      (f : S.Stream) (s : S.State) → (read_sequential S f 8192 s).0.0 ≡ io_error → IsFailed f s
  unfolding read_sequential
  read_sequential-IsFailed f s e = ground (arith, e)

  read_sequential_ended :
      (f : S.Stream) (s : S.State)
      → (read_sequential S f 8192 s).0.0 ≡ ok
      → (S.fread f 8192 s).0 ≡ []
      → L.ahead f s ≡ []
  unfolding read_sequential
  read_sequential_ended f s e empty =
      L.fread_ahead f 8192 s
      ∙ ap (λ t. t ++ L.ahead f (S.fread f 8192 s).1) empty
      ∙ L.feof_ahead f (S.fread f 8192 s).1 (ground (arith, e, ap length empty))

  Yields-stop_or :
      (f : S.Stream) (text : List ℕ) (s : S.State) (status : Status) (fragment : List ℕ)
      (again : Outcome (List ℕ × S.State))
      → (read_sequential S f 8192 s).0.0 ≡ status
      → (S.fread f 8192 s).0 ≡ fragment
      → (0 < length fragment → Yields (IsLooped f (text ++ L.ahead f s)) again)
      → Yields
          (IsLooped f (text ++ L.ahead f s))
          (stop_or S status fragment (done (text, (S.fread f 8192 s).1)) again)
  Yields-stop_or f text s io_error fragment again e g h =
      inr (s, read_sequential-IsFailed f s e, (L.ahead f s, refl))
  Yields-stop_or f text s ok [] again e g h =
      inl (sym (ap (λ t. text ++ t) (read_sequential_ended f s e g) ∙ append-nil text))
  Yields-stop_or f text s ok (b ∷ fragment) again e g h = h (omega arith)

  Yields-read_loop :
      (fuel : ℕ) (f : S.Stream) (text : List ℕ) (s : S.State)
      → length (L.ahead f s) < fuel
      → Yields (IsLooped f (text ++ L.ahead f s)) (read_loop S fuel f text s)
  unfolding read_loop
  Yields-read_loop zero f text s enough = absurd (omega (arith, enough))
  Yields-read_loop (suc fuel) f text s enough =
      let (fragment, s') = S.fread f 8192 s in
      Yields-stop_or f text s (read_sequential S f 8192 s).0.0 fragment _ refl refl (λ more.
        subst (λ all. Yields (IsLooped f all) (read_loop S fuel f (text ++ fragment) s'))
          (fread-advances f text s)
          (Yields-read_loop fuel f (text ++ fragment) s' (fread-shrinks f s fuel enough more)))

  abbrev pub IsRead : S.Stream → List ℕ → (Status × List ℕ) × S.State → Type 0
  IsRead f all ((status, text), s) = (status ≡ ok) × IsFront f all text

  -- On streams that behave as the C standard says, with fuel above the length of the file,
  -- ReadFileToString ends and returns kOk for every file that can be opened: with the whole file, or,
  -- if a read failed, with a front of it.
  pub read_file_to_string-IsRead :
      (fuel : ℕ) (name : List ℕ) (f : S.Stream) (s s' : S.State)
      → S.fopen name to_read s ≡ (some f, s')
      → length (L.ahead f s') < fuel
      → Yields (IsRead f (L.ahead f s')) (read_file_to_string S fuel name s)
  unfolding read_file_to_string new_sequential_file
  read_file_to_string-IsRead fuel name f s s' e enough = rw e (
      Yields-bind (IsLooped f (L.ahead f s')) (IsRead f (L.ahead f s')) (read_loop S fuel f [] s') _
        (Yields-read_loop fuel f [] s' enough) (λ result front. (refl, front)))
