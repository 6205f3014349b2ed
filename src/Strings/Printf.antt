-- ===== src/Strings/Printf.antt =====
-- claire/common/strings/StringPrintf.cc, over the vsnprintf of the C library.
use claire_common.Common.{
  ℕ, zero, suc, ◌+◌, ◌*◌, ◌^◌, Bool, true, false, not, ◌&&◌, Option, none, some, List, [], ◌++◌,
  ltb, ◌==◌, if◌then◌else◌, take,
}
use claire_common.Common.Outcome.{Outcome, done, check_failed, out_of_fuel, ◌>>=◌}
pub mod Growth

-- What a call of vsnprintf leaves: its result, none for a negative one, errno, and the buffer.
pub record Printed : Type 0 where
  pub result : Option ℕ
  pub errno : ℕ
  pub buffer : List ℕ

-- A format with its arguments: what the call of a number does with a buffer of a size.
abbrev pub Vsnprintf : Type 0
Vsnprintf = ℕ → ℕ → Printed

-- The length of what was printed, if it fits the buffer.
abbrev pub fitting : ℕ → Option ℕ → Option ℕ
fitting mem_length none = none
fitting mem_length (some n) = if ltb n mem_length then some n else none

abbrev pub append_or : List ℕ → Printed → Outcome (List ℕ) → Option ℕ → Outcome (List ℕ)
append_or dst printed otherwise none = otherwise
append_or dst printed otherwise (some n) = done (dst ++ take n printed.buffer)

abbrev pub eoverflow : ℕ
eoverflow = 75

abbrev pub limit : ℕ
limit = 32 * 1024 * 1024

abbrev pub is_hopeless : ℕ → Bool
is_hopeless errno = not (errno == 0) && not (errno == eoverflow)

-- The size of the next buffer, none when the loop gives up. INT_MAX + 1 wraps to a negative size,
-- for which the constructor of std::vector throws.
abbrev pub grown : ℕ → ℕ → Option ℕ → Outcome (Option ℕ)
grown mem_length errno none = if is_hopeless errno then done none else done (some (mem_length * 2))
grown mem_length errno (some n) = if n + 1 == 2 ^ 31 then check_failed else done (some (n + 1))

abbrev pub try_size : List ℕ → (ℕ → Outcome (List ℕ)) → Option ℕ → Outcome (List ℕ)
try_size dst attempt none = done dst
try_size dst attempt (some larger) = if ltb limit larger then done dst else attempt larger

-- The loop with buffers of the heap, from what the last call printed into one of `mem_length`.
unfoldable pub grow_loop : Vsnprintf → ℕ → ℕ → ℕ → Printed → List ℕ → Outcome (List ℕ)
grow_loop vsnprintf zero call mem_length printed dst = out_of_fuel
grow_loop vsnprintf (suc fuel) call mem_length printed dst = do
  size ← grown mem_length printed.errno printed.result
  let attempt = (λ (larger : ℕ).
      let again = vsnprintf call larger in
      append_or dst again (grow_loop vsnprintf fuel (call + 1) larger again dst)
        (fitting larger again.result))
  try_size dst attempt size

-- StringAppendVT: first into 1024 bytes of the stack.
unfoldable pub string_append_v : Vsnprintf → List ℕ → Outcome (List ℕ)
unfolding grow_loop
string_append_v vsnprintf dst =
    let first = vsnprintf 0 1024 in
    append_or dst first (grow_loop vsnprintf (limit + 1) 1 1024 first dst)
      (fitting 1024 first.result)

-- StringPrintf and StringPrintV.
unfoldable pub string_printf : Vsnprintf → Outcome (List ℕ)
unfolding string_append_v
string_printf vsnprintf = string_append_v vsnprintf []

-- SStringPrintf, which forgets what its target held.
unfoldable pub sstring_printf : Vsnprintf → List ℕ → Outcome (List ℕ)
unfolding string_append_v
sstring_printf vsnprintf dst = string_append_v vsnprintf []
