-- ===== src/Registry.antt =====
-- HistogramRecorder (claire/common/metrics) and TraceRecorder (claire/common/tracing): objects
-- registered under a key, the first under each key for good.
use claire_common.Common.{
  ℕ, ◌≡◌, Bool, true, false, Option, none, some, List, [], ◌∷◌, ◌==◌, if◌then◌else◌,
}
use claire_common.Common.Keys.{Key, lookup, put_new, remove}
pub mod Ownership

-- Objects are known by their pointers; `key_of` is the name of a histogram, or the ids of a trace.
-- `deleted` has the pointers passed to `delete`.
pub record Registry {ℓ} (K : Type ℓ) : Type ℓ where
  pub entries : List (K × ℕ)
  pub deleted : List ℕ

module _ {ℓ} {K : Type ℓ} ⦃key : Key K⦄ where
  unfoldable pub new_registry : Registry K
  new_registry = record { entries = []; deleted = [] }

  -- RegisterOrDeleteDuplicate once the key was looked up.
  unfoldable pub register_found : K → ℕ → Option ℕ → Registry K → Registry K × ℕ
  register_found k object none r = (record r { entries = put_new k object r.entries }, object)
  register_found k object (some other) r =
      if object == other then (r, object) else (record r { deleted = object ∷ r.deleted }, other)

  unfoldable pub register_or_delete_duplicate : (ℕ → K) → ℕ → Registry K → Registry K × ℕ
  register_or_delete_duplicate key_of object r =
      register_found (key_of object) object (lookup (key_of object) r.entries) r

  unfoldable pub find : K → Registry K → Option ℕ
  find k r = lookup k r.entries

  unfoldable pub erase_found : K → Option ℕ → Registry K → Registry K
  erase_found k none r = r
  erase_found k (some object) r = record {
    entries = remove k r.entries;
    deleted = object ∷ r.deleted;
  }

  unfoldable pub erase : K → Registry K → Registry K
  erase k r = erase_found k (lookup k r.entries) r
