-- ===== src/Common/Table.antt =====
-- A fact about each number of a short run, by evaluation.
use Prim.Native.Nat.{ℕ, zero, suc, ◌+◌, ◌<◌, ◌≤◌}
use mathlib.Core.Path.{◌≡◌}
use mathlib.Core.Bool.{Bool, true, false}
use native.Mathlib.Omega.{arith}
use claire_common.Common.Tests.{if◌then◌else◌}

unfoldable pub holds_from : (ℕ → Bool) → ℕ → ℕ → Bool
holds_from test low zero = true
holds_from test low (suc width) =
    let rest = holds_from test (low + 1) width in if test low then rest else false

pub holds_from-at :
    (test : ℕ → Bool) (low width place : ℕ)
    → holds_from test low width ≡ true
    → low ≤ place
    → place < low + width
    → test place ≡ true
unfolding holds_from
holds_from-at test low zero place h above below = absurd (omega arith)
holds_from-at test low (suc width) place h above below =
    ground (arith, holds_from-at test (low + 1) width place)
