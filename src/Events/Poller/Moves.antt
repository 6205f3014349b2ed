-- ===== src/Events/Poller/Moves.antt =====
-- The steps that UpdateChannel is made of keep the poller well formed
-- (claire/common/events/poller/EPollPoller.cc).
use claire_common.Common.{
  ℕ, zero, suc, ◌<◌, ◌≡◌, ◌≢◌, ◌⊎◌, inl, inr, refl, sym, ap, ◌∙◌, none, some, List, [], ◌∷◌, ◌++◌,
  leb, length, replicate, get_or, get_or_past, Bool-cases, arith, ==_self, ==_ne,
}
use claire_common.Events.Poller.{
  Channel, Context, fresh, added, deleted, ControlCall, ctl_add, ctl_mod, ctl_del, Poller,
  write_channel, control, set_context,
}
use claire_common.Events.Poller.Interest.{
  IsPoller, IsMoved, IsAccepted, interest, watched, holder, none-ne, moved-IsPoller,
}

pub written_self :
    (c : ℕ) (channel : Channel) (p : Poller) → (write_channel c channel p).heap c ≡ channel
written_self c channel p = rw (==_self c) refl

pub written_other :
    (c : ℕ) (channel : Channel) (p : Poller) (x : ℕ)
    → x ≢ c
    → (write_channel c channel p).heap x ≡ p.heap x
written_other c channel p x ne = rw (==_ne x c ne) refl

pub get_or_padded :
    {A : Type 0} (xs : List A) (n i : ℕ) (a : A) → get_or (xs ++ replicate n a) i a ≡ get_or xs i a
get_or_padded [] zero i a = refl
get_or_padded [] (suc n) zero a = refl
get_or_padded [] (suc n) (suc i) a = get_or_padded [] n i a
get_or_padded (x ∷ xs) n zero a = refl
get_or_padded (x ∷ xs) n (suc i) a = get_or_padded xs n i a

pub place_inside : (p : Poller) (fd c : ℕ) → holder p fd ≡ some c → fd < length p.channels
place_inside p fd c h = elim (Bool-cases (leb (length p.channels) fd)) [
  | inl past ↦ absurd (none-ne (sym (get_or_past p.channels fd none (ground arith)) ∙ h))
  | inr inside ↦ ground arith
]

-- `q` is `p` with other events in the channel `c`.
pub record IsEdited (c : ℕ) (p q : Poller) : Type 0 where
  pub heap_same : (x : ℕ) → x ≢ c → q.heap x ≡ p.heap x
  pub fd_same : (q.heap c).fd ≡ (p.heap c).fd
  pub context_same : (q.heap c).context ≡ (p.heap c).context
  pub places_same : (fd : ℕ) → holder q fd ≡ holder p fd
  pub calls_same : q.calls ≡ p.calls

-- The state after the call `operation`, with the channel in the state `context`.
abbrev pub stepped : (ℕ → ℕ → ControlCall) → Context → ℕ → Poller → Poller
stepped operation context c q = record (set_context c context q) {
  calls = operation (q.heap c).fd (q.heap c).events ∷ q.calls;
}

pub stepped-IsMoved :
    (operation : ℕ → ℕ → ControlCall) (context : Context) (c : ℕ) (p q : Poller)
    → IsPoller p
    → IsEdited c p q
    → IsAccepted (operation (p.heap c).fd (q.heap c).events ∷ p.calls)
    → ((fd : ℕ)
        → fd ≢ (p.heap c).fd
        → interest (operation (p.heap c).fd (q.heap c).events ∷ p.calls) fd ≡ interest p.calls fd)
    → (holder p (p.heap c).fd ≡ none) ⊎ (holder p (p.heap c).fd ≡ some c)
    → IsMoved c p (stepped operation context c q)
unfolding set_context
stepped-IsMoved operation context c p q w e acc other own = record {
  accepted = rw (e.calls_same, e.fd_same) acc;
  heap_same =
      λ x ne. written_other c (record (q.heap c) { context = context }) q x ne ∙ e.heap_same x ne;
  fd_same =
      ap (λ ch. ch.fd) (written_self c (record (q.heap c) { context = context }) q) ∙ e.fd_same;
  holder_same = λ fd ne. e.places_same fd;
  interest_same = λ fd ne. rw (e.calls_same, e.fd_same) (other fd ne);
  own_place = own;
}

pub watched_again :
    (context : Context) (channel : Channel)
    → watched context channel ≡ watched context (record channel { context = context })
watched_again fresh channel = refl
watched_again added channel = refl
watched_again deleted channel = refl

pub control-set_context :
    (operation : ℕ → ℕ → ControlCall) (context : Context) (c : ℕ) (q : Poller)
    → control operation c (set_context c context q) ≡ stepped operation context c q
unfolding control set_context
control-set_context operation context c q =
    ap (λ ch. record (set_context c context q) { calls = operation ch.fd ch.events ∷ q.calls })
      (written_self c (record (q.heap c) { context = context }) q)

pub live_step :
    (operation : ℕ → ℕ → ControlCall) (context : Context) (c : ℕ) (p q : Poller)
    → IsPoller p
    → IsEdited c p q
    → holder p (p.heap c).fd ≡ some c
    → context ≢ fresh
    → IsAccepted (operation (p.heap c).fd (q.heap c).events ∷ p.calls)
    → ((fd : ℕ)
        → fd ≢ (p.heap c).fd
        → interest (operation (p.heap c).fd (q.heap c).events ∷ p.calls) fd ≡ interest p.calls fd)
    → interest (operation (p.heap c).fd (q.heap c).events ∷ p.calls) (p.heap c).fd
      ≡ watched context (q.heap c)
    → IsPoller (stepped operation context c q)
unfolding set_context
live_step operation context c p q w e here live acc other seen =
    let edited = record (q.heap c) { context = context } in
    moved-IsPoller c p (stepped operation context c q) w
      (stepped-IsMoved operation context c p q w e acc other (inr here))
      (e.places_same (p.heap c).fd ∙ here) (rw (written_self c edited q) live)
      (ap (λ fd. interest (operation fd (q.heap c).events ∷ q.calls) (p.heap c).fd) e.fd_same
        ∙ ap (λ calls. interest (operation (p.heap c).fd (q.heap c).events ∷ calls) (p.heap c).fd)
            e.calls_same
        ∙ seen
        ∙ watched_again context (q.heap c)
        ∙ sym (ap (λ ch. watched ch.context ch) (written_self c edited q)))

pub added_same :
    (calls : List ControlCall) (fd events f : ℕ)
    → f ≢ fd
    → (interest (ctl_add fd events ∷ calls) f ≡ interest calls f)
      × (interest (ctl_mod fd events ∷ calls) f ≡ interest calls f)
      × (interest (ctl_del fd events ∷ calls) f ≡ interest calls f)
added_same calls fd events f ne = rw (==_ne fd f (λ e. ne (sym e))) (refl, refl, refl)

pub added_own :
    (calls : List ControlCall) (fd events : ℕ)
    → (interest (ctl_add fd events ∷ calls) fd ≡ some events)
      × (interest (ctl_mod fd events ∷ calls) fd ≡ some events)
      × (interest (ctl_del fd events ∷ calls) fd ≡ none)
added_own calls fd events = rw (==_self fd) (refl, refl, refl)
