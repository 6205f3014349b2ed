-- ===== src/Events/Poller/Updates.antt =====
-- UpdateChannel keeps what the kernel watches in step with the channels
-- (claire/common/events/poller/EPollPoller.cc).
use mathlib.Core.Path.{subst}
use claire_common.Common.{
  ℕ, ◌+◌, ◌*◌, ◌≤◌, ◌<◌, ◌≡◌, inl, inr, refl, sym, ap, ◌∙◌, Option, none, leb, le→leb,
  if◌then◌else◌, length, replicate, length-append, length-replicate, Bool-cases, arith,
}
use claire_common.Common.Outcome.{undefined, at_past}
use claire_common.Events.Poller.{
  Context, fresh, added, deleted, Poller, write_channel, put_channel, grow, update_in_state,
  update_far, update_channel, set_events,
}
use claire_common.Events.Poller.Interest.{IsPoller, holder}
use claire_common.Events.Poller.Steps.{
  IsUpdated, added_live, deleted_live, update_fresh, update_added, update_deleted,
}
use claire_common.Events.Poller.Moves.{
  IsEdited, written_self, written_other, get_or_padded, place_inside,
}

write_channel-IsEdited :
    (c events : ℕ) (p : Poller)
    → IsEdited c p (write_channel c (record (p.heap c) { events = events }) p)
write_channel-IsEdited c events p =
    let edited = record (p.heap c) { events = events } in
    record {
      heap_same = written_other c edited p;
      fd_same = ap (λ ch. ch.fd) (written_self c edited p);
      context_same = ap (λ ch. ch.context) (written_self c edited p);
      places_same = λ fd. refl;
      calls_same = refl;
    }

grown-IsEdited : (c : ℕ) (p q : Poller) → IsEdited c p q → IsEdited c p (grow q)
unfolding grow
grown-IsEdited c p q e = record {
  heap_same = e.heap_same;
  fd_same = e.fd_same;
  context_same = e.context_same;
  places_same = λ fd. get_or_padded q.channels (length q.channels) fd none ∙ e.places_same fd;
  calls_same = e.calls_same;
}

length-grow : (p : Poller) → length (grow p).channels ≡ length p.channels + length p.channels
unfolding grow
length-grow p = omega (
  arith,
  length-append p.channels (replicate (length p.channels) none),
  length-replicate {A = Option ℕ} (length p.channels) none,
)

update_any :
    (context : Context) (c : ℕ) (p q : Poller)
    → IsPoller p
    → IsEdited c p q
    → (p.heap c).context ≡ context
    → (context ≡ fresh → (holder p (p.heap c).fd ≡ none) × ((p.heap c).fd < length q.channels))
    → IsUpdated (p.heap c).fd (q.heap c).events context (update_in_state context c q)
update_any fresh c p q w e state free = update_fresh c p q w e (free refl).0 (free refl).1
update_any added c p q w e state free =
    update_added c p q w e (w.stands c (λ h. added_live (sym state ∙ h))) state
update_any deleted c p q w e state free =
    update_deleted c p q w e (w.stands c (λ h. deleted_live (sym state ∙ h))) state

update_channel-split :
    (context : Context) (c fd : ℕ) (q : Poller)
    → (q.heap c).fd ≡ fd
    → (q.heap c).context ≡ context
    → update_channel c q
      ≡ (if leb (length q.channels) fd then update_far context c q else update_in_state context c q)
unfolding update_channel
update_channel-split context c fd q h k =
    ap
      (λ f.
        if leb (length q.channels) f
        then update_far (q.heap c).context c q
        else update_in_state (q.heap c).context c q)
      h
    ∙ ap (λ s. if leb (length q.channels) fd then update_far s c q else update_in_state s c q) k

update_far-any :
    (context : Context) (c : ℕ) (p q : Poller)
    → IsPoller p
    → IsEdited c p q
    → (p.heap c).context ≡ context
    → length q.channels ≡ length p.channels
    → length p.channels ≤ (p.heap c).fd
    → (context ≡ fresh → (holder p (p.heap c).fd ≡ none) × ((p.heap c).fd < 2 * length p.channels))
    → IsUpdated (p.heap c).fd (q.heap c).events context (update_far context c q)
unfolding update_far grow
update_far-any fresh c p q w e state same far free =
    update_fresh c p (grow q) w (grown-IsEdited c p q e) (free refl).0
      (omega (arith, (free refl).1, length-grow q))
update_far-any added c p q w e state same far free =
    absurd
      (omega (arith, place_inside p (p.heap c).fd c (w.stands c (λ h. added_live (sym state ∙ h)))))
update_far-any deleted c p q w e state same far free =
    absurd (
      omega
        (arith, place_inside p (p.heap c).fd c (w.stands c (λ h. deleted_live (sym state ∙ h)))))

update_edited :
    (context : Context) (c : ℕ) (p q : Poller)
    → IsPoller p
    → IsEdited c p q
    → (p.heap c).context ≡ context
    → length q.channels ≡ length p.channels
    → (context ≡ fresh → (holder p (p.heap c).fd ≡ none) × ((p.heap c).fd < 2 * length p.channels))
    → IsUpdated (p.heap c).fd (q.heap c).events context (update_channel c q)
update_edited context c p q w e state same free =
    let fd = (p.heap c).fd in
    let split = update_channel-split context c fd q e.fd_same (e.context_same ∙ state) in
    subst (λ r. IsUpdated fd (q.heap c).events context r) (sym split)
      (elim (Bool-cases (leb (length q.channels) fd)) [
        | inl far ↦ rw far (update_far-any context c p q w e state same (ground arith) free)
        | inr near ↦ rw near (update_any context c p q w e state (λ h. ((free h).0, ground arith)))
      ])

-- Setting the events of a channel and updating the poller ends, calls epoll_ctl in a way that the
-- kernel accepts, and leaves the kernel watching every registered channel for its events and
-- nothing else: this channel as asked, so not at all once it asks for no event. A channel that is
-- new must find its place in `channels_` free and below twice its size.
pub set_events-IsPoller :
    (c events : ℕ) (p : Poller)
    → IsPoller p
    → ((p.heap c).context ≡ fresh
        → (holder p (p.heap c).fd ≡ none) × ((p.heap c).fd < 2 * length p.channels))
    → IsUpdated (p.heap c).fd events (p.heap c).context (set_events c events p)
unfolding set_events
set_events-IsPoller c events p w free =
    let edited = record (p.heap c) { events = events } in
    subst (λ ev. IsUpdated (p.heap c).fd ev (p.heap c).context (set_events c events p))
      (ap (λ ch. ch.events) (written_self c edited p))
      (update_edited (p.heap c).context c p (write_channel c edited p) w
        (write_channel-IsEdited c events p) refl refl free)

-- A new channel whose descriptor is not below twice the size of `channels_` is written out of
-- bounds: the size is doubled once, and not until the descriptor fits.
pub set_events_far :
    (c events : ℕ) (p : Poller)
    → (p.heap c).context ≡ fresh
    → 2 * length p.channels ≤ (p.heap c).fd
    → set_events c events p ≡ undefined
unfolding set_events update_far update_in_state put_channel grow
set_events_far c events p new far =
    let edited = record (p.heap c) { events = events } in
    let q : Poller = write_channel c edited p in
    let fd_same : (q.heap c).fd ≡ (p.heap c).fd = ap (λ ch. ch.fd) (written_self c edited p) in
    let past : length (grow q).channels ≤ (q.heap c).fd = omega (arith, length-grow q, fd_same) in
    update_channel-split fresh c (p.heap c).fd q fd_same
      (ap (λ ch. ch.context) (written_self c edited p) ∙ new)
    ∙ rw
        (
          le→leb (length p.channels) (p.heap c).fd (omega arith),
          at_past (grow q).channels (q.heap c).fd past,
        )
        refl
