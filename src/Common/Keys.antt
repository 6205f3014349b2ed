-- ===== src/Common/Keys.antt =====
-- Keys that can be compared, and maps from them as lists of pairs. A map's order of iteration is
-- the order of the list.
use Prim.Native.Nat.{ℕ}
use Prim.Native.String.{String}
use text.Mathlib.Text.{◌==◌ as same_text}
use text.Mathlib.TextEquality.{eq_iff}
use mathlib.Core.Path.{◌≡◌, refl}
use mathlib.Core.Logic.{◌↔◌, ◌≢◌, inl, inr}
use mathlib.Core.Bool.{Bool, true, false}
use mathlib.Core.List.{List, [], ◌∷◌, ◌++◌}
use mathlib.Core.Option.{Option, none, some}
use native.Mathlib.Omega.{arith}
use claire_common.Common.Tests.{if◌then◌else◌, ◌==◌, ==_iff, Bool-cases}

pub record Key {ℓ} (K : Type ℓ) : Type ℓ where
  pub same : K → K → Bool
  pub same_iff : (a b : K) → (same a b ≡ true) ↔ (a ≡ b)

instance abbrev pub number_key : Key ℕ
number_key = record { same = ◌==◌; same_iff = ==_iff }

instance abbrev pub text_key : Key String
text_key = record { same = same_text; same_iff = eq_iff }

module _ {ℓ κ} {K : Type ℓ} {V : Type κ} ⦃key : Key K⦄ where
  abbrev pub lookup : K → List (K × V) → Option V
  lookup k [] = none
  lookup k (p ∷ m) = let rest = lookup k m in if key.same p.0 k then some p.1 else rest

  -- `m[k] = v` for a key that is not there yet.
  abbrev pub put_new : K → V → List (K × V) → List (K × V)
  put_new k v m = m ++ (k, v) ∷ []

  abbrev pub remove : K → List (K × V) → List (K × V)
  remove k [] = []
  remove k (p ∷ m) = let rest = remove k m in if key.same p.0 k then rest else p ∷ rest

module _ {ℓ} {K : Type ℓ} ⦃key : Key K⦄ where
  pub same_refl : (k : K) → key.same k k ≡ true
  same_refl k = (key.same_iff k k).1 refl

  pub same_ne : (j k : K) → j ≢ k → key.same j k ≡ false
  same_ne j k h = elim (Bool-cases (key.same j k)) [
    | inl e ↦ absurd (h ((key.same_iff j k).0 e))
    | inr e ↦ e
  ]

module _ {ℓ κ} {K : Type ℓ} {V : Type κ} ⦃key : Key K⦄ where
  pub lookup-put_new :
      (k : K) (v : V) (m : List (K × V)) (i : K)
      → lookup k m ≡ none
      → lookup i (put_new k v m) ≡ (if key.same k i then some v else lookup i m)
  lookup-put_new k v [] i h = refl
  lookup-put_new k v (p ∷ m) i h =
      grind
        (arith, lookup-put_new k v m i, key.same_iff p.0 k, key.same_iff p.0 i, key.same_iff k i)

  pub lookup-remove :
      (k : K) (m : List (K × V)) (i : K)
      → lookup i (remove k m) ≡ (if key.same k i then none else lookup i m)
  lookup-remove k [] i = ground arith
  lookup-remove k (p ∷ m) i =
      grind (arith, lookup-remove k m i, key.same_iff p.0 k, key.same_iff p.0 i, key.same_iff k i)
