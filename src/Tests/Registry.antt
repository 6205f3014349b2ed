-- ===== src/Tests/Registry.antt =====
-- Traces 10 and 11 have the ids 1, trace 20 has the ids 2.
use claire_common.Common.{ℕ, ◌≡◌, refl, [], ◌∷◌, ltb, if◌then◌else◌, arith}
use claire_common.Common.Keys.{number_key}
use claire_common.Registry.{Registry, register_or_delete_duplicate, register_found}
use claire_common.Registry.Ownership.{IsOwner, IsRegistered, register-IsRegistered}

abbrev ids : ℕ → ℕ
ids object = if ltb object 20 then 1 else 2

abbrev recorder : Registry ℕ
recorder = record { entries = (1, 10) ∷ []; deleted = [] }

recorder-IsOwner : IsOwner ids recorder
recorder-IsOwner = record { own_key = λ k object e. ground arith; alive = λ k object e. refl }

register-IsRegistered_example :
    IsRegistered ids 11 recorder (register_or_delete_duplicate ids 11 recorder)
register-IsRegistered_example = register-IsRegistered ids 11 recorder recorder-IsOwner refl

-- The duplicate is deleted, and the first trace returned.
register_duplicate :
    register_or_delete_duplicate ids 11 recorder ≡ (record recorder { deleted = 11 ∷ [] }, 10)
unfolding register_or_delete_duplicate register_found
register_duplicate = refl
