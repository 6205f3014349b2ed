-- ===== src/Events/Poller/Interest.antt =====
-- What the kernel watches after the calls of epoll_ctl that EPollPoller makes, and that it is what
-- the channels ask for (claire/common/events/poller/EPollPoller.cc).
use claire_common.Common.{
  ℕ, ◌≡◌, ◌≢◌, ◌⊎◌, inl, inr, sym, ap, ◌∙◌, Option, none, some, List, [], ◌∷◌, ◌==◌, ==_iff,
  if◌then◌else◌, get_or, Bool-cases, arith,
}
use claire_common.Events.Poller.{
  Channel, Context, fresh, added, deleted, ControlCall, ctl_add, ctl_mod, ctl_del, Poller,
}

-- The events that the kernel watches a descriptor for, after these calls: EPOLL_CTL_ADD registers
-- it, EPOLL_CTL_MOD changes its events, EPOLL_CTL_DEL forgets it.
abbrev pub interest : List ControlCall → ℕ → Option ℕ
interest [] fd = none
interest (ctl_add f e ∷ calls) fd = let rest = interest calls fd in if f == fd then some e else rest
interest (ctl_mod f e ∷ calls) fd = let rest = interest calls fd in if f == fd then some e else rest
interest (ctl_del f e ∷ calls) fd = let rest = interest calls fd in if f == fd then none else rest

-- No call fails: a descriptor is added when it is not registered, and changed or forgotten when it
-- is.
abbrev pub IsAccepted : List ControlCall → Type 0
IsAccepted [] = Unit {0}
IsAccepted (ctl_add f e ∷ calls) = (interest calls f ≡ none) × IsAccepted calls
IsAccepted (ctl_mod f e ∷ calls) = (interest calls f ≢ none) × IsAccepted calls
IsAccepted (ctl_del f e ∷ calls) = (interest calls f ≢ none) × IsAccepted calls

-- What a channel in a state is watched for.
abbrev pub watched : Context → Channel → Option ℕ
watched fresh c = none
watched added c = some c.events
watched deleted c = none

-- The channel that stands for a descriptor in `channels_`.
abbrev pub holder : Poller → ℕ → Option ℕ
holder p fd = get_or p.channels fd none

pub record IsPoller (p : Poller) : Type 0 where
  pub accepted : IsAccepted p.calls
  pub stands : (c : ℕ) → (p.heap c).context ≢ fresh → holder p (p.heap c).fd ≡ some c
  pub free : (fd : ℕ) → holder p fd ≡ none → interest p.calls fd ≡ none
  pub known :
      (fd c : ℕ)
      → holder p fd ≡ some c
      → ((p.heap c).fd ≡ fd)
        × ((p.heap c).context ≢ fresh)
        × (interest p.calls fd ≡ watched (p.heap c).context (p.heap c))

-- `p'` is `p` but for the channel `c`, its place in `channels_` and the calls for its descriptor.
pub record IsMoved (c : ℕ) (p p' : Poller) : Type 0 where
  pub accepted : IsAccepted p'.calls
  pub heap_same : (x : ℕ) → x ≢ c → p'.heap x ≡ p.heap x
  pub fd_same : (p'.heap c).fd ≡ (p.heap c).fd
  pub holder_same : (fd : ℕ) → fd ≢ (p.heap c).fd → holder p' fd ≡ holder p fd
  pub interest_same : (fd : ℕ) → fd ≢ (p.heap c).fd → interest p'.calls fd ≡ interest p.calls fd
  pub own_place : (holder p (p.heap c).fd ≡ none) ⊎ (holder p (p.heap c).fd ≡ some c)

pub none-ne : {A : Type 0} {a : A} → none ≢ some a
none-ne e = cc

decide_eq : (a b : ℕ) → (a ≡ b) ⊎ (a ≢ b)
decide_eq a b = elim (Bool-cases (a == b)) [
  | inl e ↦ inl ((==_iff a b).0 e)
  | inr e ↦ inr (λ h. ground arith)
]

some_of : {a b : ℕ} → some a ≡ some b → a ≡ b
some_of e = cc

other_place :
    (c x : ℕ) (p p' : Poller)
    → IsPoller p
    → IsMoved c p p'
    → x ≢ c
    → (p.heap x).context ≢ fresh
    → (p.heap x).fd ≢ (p.heap c).fd
other_place c x p p' w m ne live e =
    let h = w.stands x live in
    elim (m.own_place) [
      | inl empty ↦ absurd (none-ne (sym empty ∙ ap (holder p) (sym e) ∙ h))
      | inr own ↦ ne (some_of (sym h ∙ ap (holder p) e ∙ own))
    ]

-- The channel stands in its place and is watched for what its state asks.
pub moved-IsPoller :
    (c : ℕ) (p p' : Poller)
    → IsPoller p
    → IsMoved c p p'
    → holder p' (p.heap c).fd ≡ some c
    → (p'.heap c).context ≢ fresh
    → interest p'.calls (p.heap c).fd ≡ watched (p'.heap c).context (p'.heap c)
    → IsPoller p'
moved-IsPoller c p p' w m here live seen = record {
  accepted = m.accepted;
  stands = λ x h. elim (decide_eq x c) [
    | inl e ↦ rw (e, m.fd_same) here
    | inr ne ↦
        let same = m.heap_same x ne in
        let live_before : (p.heap x).context ≢ fresh = rw (sym same) h in
        ap (λ ch. holder p' ch.fd) same
        ∙ m.holder_same (p.heap x).fd (other_place c x p p' w m ne live_before)
        ∙ w.stands x live_before
  ];
  free = λ fd h. elim (decide_eq fd (p.heap c).fd) [
    | inl e ↦ absurd (none-ne (sym h ∙ ap (holder p') e ∙ here))
    | inr ne ↦ m.interest_same fd ne ∙ w.free fd (sym (m.holder_same fd ne) ∙ h)
  ];
  known = λ fd x h. elim (decide_eq fd (p.heap c).fd) [
    | inl e ↦
        let own : x ≡ c = some_of (sym h ∙ ap (holder p') e ∙ here) in
        rw (own, e) (m.fd_same, live, seen)
    | inr ne ↦
        let (at_fd, live_before, seen_before) = w.known fd x (sym (m.holder_same fd ne) ∙ h) in
        let same = m.heap_same x (λ e. ne (sym at_fd ∙ ap (λ y. (p.heap y).fd) e)) in
        rw (same, m.interest_same fd ne) (at_fd, live_before, seen_before)
  ];
}

-- The channel has left its place and is not watched.
pub left-IsPoller :
    (c : ℕ) (p p' : Poller)
    → IsPoller p
    → IsMoved c p p'
    → holder p' (p.heap c).fd ≡ none
    → (p'.heap c).context ≡ fresh
    → interest p'.calls (p.heap c).fd ≡ none
    → IsPoller p'
left-IsPoller c p p' w m gone unused unseen = record {
  accepted = m.accepted;
  stands = λ x h. elim (decide_eq x c) [
    | inl e ↦ absurd (h (ap (λ y. (p'.heap y).context) e ∙ unused))
    | inr ne ↦
        let same = m.heap_same x ne in
        let live_before : (p.heap x).context ≢ fresh = rw (sym same) h in
        ap (λ ch. holder p' ch.fd) same
        ∙ m.holder_same (p.heap x).fd (other_place c x p p' w m ne live_before)
        ∙ w.stands x live_before
  ];
  free = λ fd h. elim (decide_eq fd (p.heap c).fd) [
    | inl e ↦ ap (interest p'.calls) e ∙ unseen
    | inr ne ↦ m.interest_same fd ne ∙ w.free fd (sym (m.holder_same fd ne) ∙ h)
  ];
  known = λ fd x h. elim (decide_eq fd (p.heap c).fd) [
    | inl e ↦ absurd (none-ne (sym gone ∙ ap (holder p') (sym e) ∙ h))
    | inr ne ↦
        let (at_fd, live_before, seen_before) = w.known fd x (sym (m.holder_same fd ne) ∙ h) in
        let same = m.heap_same x (λ e. ne (sym at_fd ∙ ap (λ y. (p.heap y).fd) e)) in
        rw (same, m.interest_same fd ne) (at_fd, live_before, seen_before)
  ];
}
