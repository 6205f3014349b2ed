-- ===== src/Registry/Ownership.antt =====
-- Which objects the recorders return, keep and delete (HistogramRecorder and TraceRecorder).
use claire_common.Common.{
  ℕ, ◌≡◌, ◌≢◌, inl, inr, refl, sym, ap, ◌∙◌, Bool, true, false, Option, none, some, List, [], ◌∷◌,
  ◌==◌, ==_iff, if◌then◌else◌, Bool-cases, arith,
}
use claire_common.Common.Keys.{Key, lookup, lookup-put_new, lookup-remove, same_refl}
use claire_common.Registry.{
  Registry, register_found, register_or_delete_duplicate, find, erase_found, erase,
}

-- The pointer was passed to `delete`.
abbrev pub is_deleted : ℕ → List ℕ → Bool
is_deleted object [] = false
is_deleted object (o ∷ os) = let rest = is_deleted object os in if o == object then true else rest

true-ne : true ≢ false
true-ne e = ground arith

module _ {ℓ} {K : Type ℓ} ⦃key : Key K⦄ (key_of : ℕ → K) where
  -- Every registered object stands under its own key and was not deleted.
  pub record IsOwner (r : Registry K) : Type ℓ where
    pub own_key : (k : K) (object : ℕ) → lookup k r.entries ≡ some object → key_of object ≡ k
    pub alive :
        (k : K) (object : ℕ)
        → lookup k r.entries ≡ some object
        → is_deleted object r.deleted ≡ false

  -- What registering an object comes to.
  pub record IsRegistered (object : ℕ) (r : Registry K) (result : Registry K × ℕ) : Type ℓ where
    pub owner : IsOwner result.0
    pub found : lookup (key_of object) result.0.entries ≡ some result.1
    pub first_stays :
        (k : K) (other : ℕ)
        → lookup k r.entries ≡ some other
        → lookup k result.0.entries ≡ some other
    pub lost :
        (is_deleted object result.0.deleted ≡ true → result.1 ≢ object)
        × (result.1 ≢ object → is_deleted object result.0.deleted ≡ true)

  register_found-IsRegistered :
      (object : ℕ) (r : Registry K) (looked : Option ℕ)
      → IsOwner r
      → is_deleted object r.deleted ≡ false
      → lookup (key_of object) r.entries ≡ looked
      → IsRegistered object r (register_found (key_of object) object looked r)
  unfolding register_found
  register_found-IsRegistered object r none w live h = record {
    owner = record {
      own_key = λ k o e. grind (
        arith,
        lookup-put_new (key_of object) object r.entries k h,
        key.same_iff (key_of object) k,
        w.own_key k o,
      );
      alive = λ k o e. grind (
        arith,
        lookup-put_new (key_of object) object r.entries k h,
        key.same_iff (key_of object) k,
        w.alive k o,
      );
    };
    found =
        lookup-put_new (key_of object) object r.entries (key_of object) h
        ∙ rw (same_refl (key_of object)) refl;
    first_stays = λ k other e. grind (
      arith,
      lookup-put_new (key_of object) object r.entries k h,
      key.same_iff (key_of object) k,
    );
    lost = ((λ e. absurd (ground arith)), (λ ne. absurd (ne refl)));
  }
  register_found-IsRegistered object r (some other) w live h = elim (Bool-cases (object == other)) [
    | inl same ↦ rw same (record {
      owner = w;
      found = h ∙ ap some (sym ((==_iff object other).0 same));
      first_stays = λ k o e. e;
      lost = ((λ e. absurd (true-ne (sym e ∙ live))), (λ ne. absurd (ne refl)));
    })
    | inr different ↦ rw different (record {
      owner = record {
        own_key = w.own_key;
        alive = λ k o e. elim (Bool-cases (object == o)) [
          | inl same ↦
              let e' = (==_iff object o).0 same in
              let own = w.own_key k o e in
              let again : some other ≡ some object =
                sym h ∙ ap (λ j. lookup j r.entries) (ap key_of e' ∙ own) ∙ e ∙ ap some (sym e') in
              absurd (ground arith)
          | inr apart ↦ rw apart (w.alive k o e)
        ];
      };
      found = h;
      first_stays = λ k o e. e;
      lost = ((λ e same. ground arith), (λ ne. rw ((==_iff object object).1 refl) refl));
    })
  ]

  -- Registering an object that was not deleted returns the object that stands under its key from
  -- then on; what stood under a key stays. The object is deleted exactly if another is returned, and
  -- no registered object is ever deleted.
  pub register-IsRegistered :
      (object : ℕ) (r : Registry K)
      → IsOwner r
      → is_deleted object r.deleted ≡ false
      → IsRegistered object r (register_or_delete_duplicate key_of object r)
  unfolding register_or_delete_duplicate
  register-IsRegistered object r w live =
      register_found-IsRegistered object r (lookup (key_of object) r.entries) w live refl

  erase_found-IsOwner :
      (k : K) (r : Registry K) (looked : Option ℕ)
      → IsOwner r
      → lookup k r.entries ≡ looked
      → IsOwner (erase_found k looked r)
        × ((i : K)
            → lookup i (erase_found k looked r).entries
              ≡ (if key.same k i then none else lookup i r.entries))
  unfolding erase_found
  erase_found-IsOwner k r none w h = (w, λ i. grind (arith, key.same_iff k i))
  erase_found-IsOwner k r (some object) w h = (
    record {
      own_key = λ i o e. grind (arith, lookup-remove k r.entries i, w.own_key i o);
      alive = λ i o e. grind (
        arith,
        lookup-remove k r.entries i,
        w.own_key k object h,
        w.own_key i o,
        key.same_iff k i,
        w.alive i o,
      );
    },
    λ i. lookup-remove k r.entries i,
  )

  -- Erase deletes what stands under the key and takes the key away, no other; no object that is
  -- still registered is deleted.
  pub erase-IsOwner :
      (k : K) (r : Registry K)
      → IsOwner r
      → IsOwner (erase k r)
        × ((i : K) → find i (erase k r) ≡ (if key.same k i then none else find i r))
  unfolding erase find
  erase-IsOwner k r w = erase_found-IsOwner k r (lookup k r.entries) w refl
