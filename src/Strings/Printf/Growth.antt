-- ===== src/Strings/Printf/Growth.antt =====
-- The growing buffers of StringAppendVT (claire/common/strings/StringPrintf.cc).
use mathlib.Core.List.{append-nil}
use claire_common.Common.{
  ℕ, zero, suc, ◌+◌, ◌-◌, ◌*◌, ◌^◌, ◌≤◌, ◌<◌, ◌≡◌, refl, sym, inl, inr, Bool-cases, Option, none,
  some, List, [], ◌++◌, ltb, ◌==◌, if◌then◌else◌, take, take_all, ap, ◌∙◌, length, arith, lt→ltb,
  lt→==, le→ltb,
}
use claire_common.Common.Outcome.{
  Outcome, done, check_failed, Holds, Holds-bind, Holds-if, Holds-cases,
}
use claire_common.Strings.Printf.{
  Printed, Vsnprintf, fitting, append_or, try_size, limit, is_hopeless, grown, grow_loop,
  string_append_v,
}

-- The target, followed by something that was printed or by nothing.
abbrev pub IsExtended : List ℕ → List ℕ → Type 0
IsExtended dst out = (printed : List ℕ) × (out ≡ dst ++ printed)

abbrev IsLarger : ℕ → Option ℕ → Type 0
IsLarger mem_length none = Unit
IsLarger mem_length (some larger) = mem_length < larger

Holds-grown :
    (mem_length errno : ℕ) (result : Option ℕ)
    → 0 < mem_length
    → fitting mem_length result ≡ none
    → Holds (IsLarger mem_length) (grown mem_length errno result)
Holds-grown mem_length errno none positive long =
    Holds-if (IsLarger mem_length) (is_hopeless errno) (done none) (done (some (mem_length * 2))) tt
      (omega (arith, positive))
Holds-grown mem_length errno (some n) positive long =
    Holds-if (IsLarger mem_length) (n + 1 == 2 ^ 31) check_failed (done (some (n + 1))) tt
      (ground (arith, long))

module _ (vsnprintf : Vsnprintf) (dst : List ℕ) where
  Holds-append_or :
      (printed : Printed) (otherwise : Outcome (List ℕ)) (fits : Option ℕ)
      → (fits ≡ none → Holds (IsExtended dst) otherwise)
      → Holds (IsExtended dst) (append_or dst printed otherwise fits)
  Holds-append_or printed otherwise none h = h refl
  Holds-append_or printed otherwise (some n) h = (take n printed.buffer, refl)

  Holds-try_size :
      (mem_length : ℕ) (attempt : ℕ → Outcome (List ℕ)) (size : Option ℕ)
      → IsLarger mem_length size
      → ((larger : ℕ)
          → mem_length < larger
          → larger ≤ limit
          → Holds (IsExtended dst) (attempt larger))
      → Holds (IsExtended dst) (try_size dst attempt size)
  Holds-try_size mem_length attempt none l h = ([], sym (append-nil dst))
  Holds-try_size mem_length attempt (some larger) l h =
      Holds-cases (IsExtended dst) (ltb limit larger) (done dst) (attempt larger)
        (λ e. ([], sym (append-nil dst))) (λ e. h larger l (ground (arith, e)))

  Holds-grow_loop :
      (fuel call mem_length : ℕ) (printed : Printed)
      → 0 < mem_length
      → limit < fuel + mem_length
      → mem_length ≤ limit
      → fitting mem_length printed.result ≡ none
      → Holds (IsExtended dst) (grow_loop vsnprintf fuel call mem_length printed dst)
  unfolding grow_loop
  Holds-grow_loop zero call mem_length printed positive enough within long =
      absurd (omega (arith, enough, within))
  Holds-grow_loop (suc fuel) call mem_length printed positive enough within long =
      Holds-bind (IsLarger mem_length) (IsExtended dst)
        (grown mem_length printed.errno printed.result) _
        (Holds-grown mem_length printed.errno printed.result positive long)
        (λ size l. Holds-try_size mem_length _ size l (λ larger grew small.
          Holds-append_or (vsnprintf call larger) _ (fitting larger (vsnprintf call larger).result)
            (λ e.
              Holds-grow_loop fuel (call + 1) larger (vsnprintf call larger) (omega (arith, grew))
                (omega (arith, enough, grew)) small e)))

  -- Whatever vsnprintf does, StringAppendV ends, and appends to its target or leaves it, or throws for
  -- a size that is no int.
  pub string_append_v-IsExtended : Holds (IsExtended dst) (string_append_v vsnprintf dst)
  unfolding string_append_v
  string_append_v-IsExtended =
      Holds-append_or (vsnprintf 0 1024) _ (fitting 1024 (vsnprintf 0 1024).result) (λ e.
        Holds-grow_loop (limit + 1) 1 1024 (vsnprintf 0 1024) (omega arith) (omega arith)
          (omega arith) e)

-- What the C standard says of vsnprintf: it returns the length of the whole text, and writes as much
-- of it as fits before the null.
abbrev pub Prints : Vsnprintf → List ℕ → Type 0
Prints vsnprintf text =
    (call size : ℕ)
    → 0 < size
    → (vsnprintf call size).result ≡ some (length text)
      × (vsnprintf call size).buffer ≡ take (size - 1) text

module _ (vsnprintf : Vsnprintf) (text dst : List ℕ) (prints : Prints vsnprintf text) where
  round_fits :
      (call size : ℕ) (otherwise : Outcome (List ℕ))
      → length text < size
      → append_or dst (vsnprintf call size) otherwise (fitting size (vsnprintf call size).result)
        ≡ done (dst ++ text)
  round_fits call size otherwise fits =
      let printed = prints call size (omega (arith, fits)) in
      rw (printed.0, lt→ltb (length text) size fits, printed.1)
        (ap (λ shown. done (dst ++ shown))
          (ap (take (length text)) (take_all (size - 1) text (omega (arith, fits)))
            ∙ take_all (length text) text (omega arith)))

  round_fails :
      (call size : ℕ) (otherwise : Outcome (List ℕ))
      → 0 < size
      → size ≤ length text
      → append_or dst (vsnprintf call size) otherwise (fitting size (vsnprintf call size).result)
        ≡ otherwise
  round_fails call size otherwise positive long =
      rw ((prints call size positive).0, le→ltb (length text) size long) refl

  grow_loop-Prints :
      (fuel call size : ℕ)
      → 0 < size
      → length text + 1 < 2 ^ 31
      → grow_loop vsnprintf (suc fuel) call size (vsnprintf 0 size) dst
        ≡ done (if ltb (length text) limit then dst ++ text else dst)
  unfolding grow_loop
  grow_loop-Prints fuel call size positive small =
      rw ((prints 0 size positive).0, lt→== (length text + 1) (2 ^ 31) small)
        (elim (Bool-cases (ltb limit (length text + 1))) [
          | inl large ↦ rw (large, le→ltb (length text) limit (ground (arith, large))) refl
          | inr fits ↦
              rw (fits, lt→ltb (length text) limit (ground (arith, fits)))
                (round_fits call (length text + 1) _ (omega arith))
        ])

  -- Against a vsnprintf that does what the C standard says StringAppendV appends a text of less than
  -- 32 MB whole, and nothing of a longer one, up to the largest int.
  pub string_append_v-Prints :
      length text + 1 < 2 ^ 31
      → string_append_v vsnprintf dst ≡ done (if ltb (length text) limit then dst ++ text else dst)
  unfolding string_append_v
  string_append_v-Prints small = elim (Bool-cases (ltb (length text) 1024)) [
    | inl short ↦
        round_fits 0 1024 _ (ground (arith, short))
        ∙ ap (λ b. done (if b then dst ++ text else dst))
            (sym (lt→ltb (length text) limit (ground (arith, short))))
    | inr long ↦
        round_fails 0 1024 _ (omega arith) (ground (arith, long))
        ∙ grow_loop-Prints limit 1 1024 (omega arith) small
  ]
