-- ===== src/Tests/Printf.antt =====
-- A vsnprintf of one text, and the texts appended with it.
use claire_common.Common.{
  ℕ, ◌-◌, ◌≡◌, refl, some, List, [], ◌∷◌, ◌++◌, length, take, ltb, if◌then◌else◌, arith,
}
use claire_common.Common.Outcome.{done, Holds}
use claire_common.Strings.Printf.{Vsnprintf, limit, grow_loop, string_append_v}
use claire_common.Strings.Printf.Growth.{
  IsExtended, string_append_v-IsExtended, string_append_v-Prints,
}

abbrev shown : List ℕ
shown = b'4' ∷ b'1' ∷ []

abbrev print_shown : Vsnprintf
print_shown = λ call size. record { result = some 2; errno = 0; buffer = take (size - 1) shown }

appended : string_append_v print_shown (b'x' ∷ []) ≡ done (b'x' ∷ b'4' ∷ b'1' ∷ [])
unfolding string_append_v grow_loop
appended = refl

string_append_v-Prints_example :
    string_append_v print_shown (b'x' ∷ [])
    ≡ done (if ltb (length shown) limit then b'x' ∷ [] ++ shown else b'x' ∷ [])
string_append_v-Prints_example =
    string_append_v-Prints print_shown shown (b'x' ∷ []) (λ call size positive. (refl, refl))
      (omega arith)

string_append_v-IsExtended_example :
    Holds (IsExtended (b'x' ∷ [])) (string_append_v print_shown (b'x' ∷ []))
string_append_v-IsExtended_example = string_append_v-IsExtended print_shown (b'x' ∷ [])
