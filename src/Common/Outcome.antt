-- ===== src/Common/Outcome.antt =====
-- What a call comes to: a value, the end of the process at a CHECK, behaviour that C++ leaves
-- undefined (an access out of bounds), or a loop of the model that ran out of its fuel.
use mathlib.Core.Path.{◌≡◌, refl, subst}
use mathlib.Core.Bool.{Bool, true, false}
use mathlib.Core.List.{List}
use Prim.Native.Nat.{ℕ, ◌<◌, ◌≤◌, zero, suc}
use mathlib.Core.List.{[], ◌∷◌}
use mathlib.Core.Option.{Option, none, some}
use native.Mathlib.Omega.{arith}
use claire_common.Common.Tests.{if◌then◌else◌}
use claire_common.Common.Lists.{get_elem?, get_or, length}

pub data Outcome {ℓ} (A : Type ℓ) : Type ℓ where
  done : A → Outcome A
  check_failed undefined out_of_fuel : Outcome A

infixl 5 ◌>>=◌ ◌>>◌
abbrev pub ◌>>=◌ {ℓ κ} : {A : Type ℓ} {B : Type κ} → Outcome A → (A → Outcome B) → Outcome B
done a >>= f = f a
check_failed >>= f = check_failed
undefined >>= f = undefined
out_of_fuel >>= f = out_of_fuel

abbrev pub ◌>>◌ {ℓ} : {B : Type ℓ} → Outcome (Unit {0}) → Outcome B → Outcome B
m >> k = m >>= λ _. k

-- CHECK(b).
abbrev pub check : Bool → Outcome (Unit {0})
check true = done tt
check false = check_failed

-- `xs[i]` of a std::vector.
unfoldable pub at {ℓ} : {A : Type ℓ} → List A → ℕ → Outcome A
at xs i = elim (get_elem? xs i) [ none ↦ undefined | some x ↦ done x ]

pub at-get_or {ℓ} :
    {A : Type ℓ} (values : List A) (place : ℕ) (default : A)
    → place < length values
    → at values place ≡ done (get_or values place default)
unfolding at
at-get_or [] place default inside = elim inside [ ]
at-get_or (first ∷ others) zero default inside = refl
at-get_or (first ∷ others) (suc place) default inside =
    at-get_or others place default (omega (arith, inside))

pub at_past {ℓ} :
    {A : Type ℓ} (values : List A) (place : ℕ) → length values ≤ place → at values place ≡ undefined
unfolding at
at_past [] place outside = refl
at_past (first ∷ others) zero outside = absurd (omega (arith, outside))
at_past (first ∷ others) (suc place) outside = at_past others place (omega (arith, outside))

pub done-injective {ℓ} : {A : Type ℓ} {a b : A} → done a ≡ done b → a ≡ b
done-injective e = cc

-- The result is in P; the call ended at a CHECK, or met undefined behaviour; but it did not run out
-- of fuel.
abbrev pub Holds {ℓ} : {A : Type ℓ} → (A → Type 0) → Outcome A → Type 0
Holds P (done a) = P a
Holds P check_failed = Unit
Holds P undefined = Unit
Holds P out_of_fuel = ⊥

module _ {ℓ κ} {A : Type ℓ} {B : Type κ} where
  pub Holds-bind :
      (P : A → Type 0) (Q : B → Type 0) (m : Outcome A) (f : A → Outcome B)
      → Holds P m
      → ((a : A) → P a → Holds Q (f a))
      → Holds Q (m >>= f)
  Holds-bind P Q (done a) f h k = k a h
  Holds-bind P Q check_failed f h k = tt
  Holds-bind P Q undefined f h k = tt
  Holds-bind P Q out_of_fuel f h k = elim h [ ]

pub Holds-mono {ℓ} :
    {A : Type ℓ} (P Q : A → Type 0) (m : Outcome A) → ((a : A) → P a → Q a) → Holds P m → Holds Q m
Holds-mono P Q (done a) f h = f a h
Holds-mono P Q check_failed f h = tt
Holds-mono P Q undefined f h = tt
Holds-mono P Q out_of_fuel f h = h

pub Holds-if {ℓ} :
    {A : Type ℓ} (P : A → Type 0) (b : Bool) (m k : Outcome A)
    → Holds P m
    → Holds P k
    → Holds P (if b then m else k)
Holds-if P true m k h g = h
Holds-if P false m k h g = g

pub Holds-check {ℓ} :
    {A : Type ℓ} (P : A → Type 0) (b : Bool) (m : Outcome A)
    → (b ≡ true → Holds P m)
    → Holds P (check b >> m)
Holds-check P true m h = h refl
Holds-check P false m h = tt

pub Holds-done {ℓ} :
    {A : Type ℓ} (P : A → Type 0) {m : Outcome A} {a : A} → m ≡ done a → Holds P m → P a
Holds-done P e h = subst (Holds P) e h

pub Holds-both {ℓ} :
    {A : Type ℓ} (P Q : A → Type 0) (m : Outcome A)
    → Holds P m
    → Holds Q m
    → Holds (λ a. P a × Q a) m
Holds-both P Q (done a) h g = (h, g)
Holds-both P Q check_failed h g = tt
Holds-both P Q undefined h g = tt
Holds-both P Q out_of_fuel h g = h

-- The value is known to be the call's.
pub Holds-self : {A : Type 0} (m : Outcome A) → Holds (λ a. Unit) m → Holds (λ a. m ≡ done a) m
Holds-self (done a) h = refl
Holds-self check_failed h = tt
Holds-self undefined h = tt
Holds-self out_of_fuel h = h

-- Each branch knows how the test came out.
pub Holds-cases {ℓ} :
    {A : Type ℓ} (P : A → Type 0) (b : Bool) (m k : Outcome A)
    → (b ≡ true → Holds P m)
    → (b ≡ false → Holds P k)
    → Holds P (if b then m else k)
Holds-cases P true m k h g = h refl
Holds-cases P false m k h g = g refl

-- The call returns, with a result in P.
abbrev pub Yields {ℓ} : {A : Type ℓ} → (A → Type 0) → Outcome A → Type 0
Yields P (done a) = P a
Yields P check_failed = ⊥
Yields P undefined = ⊥
Yields P out_of_fuel = ⊥

pub Yields-bind {ℓ κ} :
    {A : Type ℓ} {B : Type κ} (P : A → Type 0) (Q : B → Type 0) (m : Outcome A) (f : A → Outcome B)
    → Yields P m
    → ((a : A) → P a → Yields Q (f a))
    → Yields Q (m >>= f)
Yields-bind P Q (done a) f h k = k a h
Yields-bind P Q check_failed f h k = elim h [ ]
Yields-bind P Q undefined f h k = elim h [ ]
Yields-bind P Q out_of_fuel f h k = elim h [ ]

pub Yields-cases {ℓ} :
    {A : Type ℓ} (P : A → Type 0) (b : Bool) (m k : Outcome A)
    → (b ≡ true → Yields P m)
    → (b ≡ false → Yields P k)
    → Yields P (if b then m else k)
Yields-cases P true m k h g = h refl
Yields-cases P false m k h g = g refl

pub Yields-done {ℓ} :
    {A : Type ℓ} (P : A → Type 0) (m : Outcome A) → Yields P m → (a : A) × (m ≡ done a) × P a
Yields-done P (done a) h = (a, refl, h)
Yields-done P check_failed h = elim h [ ]
Yields-done P undefined h = elim h [ ]
Yields-done P out_of_fuel h = elim h [ ]

pub Yields-mono {ℓ} :
    {A : Type ℓ} (P Q : A → Type 0) (m : Outcome A)
    → ((a : A) → P a → Q a)
    → Yields P m
    → Yields Q m
Yields-mono P Q (done a) f h = f a h
Yields-mono P Q check_failed f h = h
Yields-mono P Q undefined f h = h
Yields-mono P Q out_of_fuel f h = h

pub Holds-option {ℓ κ} :
    {A : Type ℓ} {B : Type κ} (P : B → Type 0) (found : Option A) (f : A → Outcome B)
    (otherwise : Outcome B)
    → ((a : A) → found ≡ some a → Holds P (f a))
    → (found ≡ none → Holds P otherwise)
    → Holds P (elim found [ some a ↦ f a | none ↦ otherwise ])
Holds-option P none f otherwise h g = g refl
Holds-option P (some a) f otherwise h g = h a refl
