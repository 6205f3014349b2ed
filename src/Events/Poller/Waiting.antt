-- ===== src/Events/Poller/Waiting.antt =====
-- RemoveChannel, and the channels that poll reports
-- (claire/common/events/poller/EPollPoller.cc).
use mathlib.Core.List.{append-nil, append_assoc}
use claire_common.Common.{
  ℕ, ◌*◌, ◌<◌, ◌≡◌, ◌≢◌, inl, inr, refl, sym, ap, ◌∙◌, false, Option, none, some, List, [], ◌∷◌,
  ◌++◌, map, leb, ◌==◌, length, get_or, All, Bool-cases, Option-cases, arith,
}
use claire_common.Common.Outcome.{done, at-get_or}
use claire_common.Events.Poller.{
  Channel, Context, fresh, added, deleted, ControlCall, Poller, write_channel, ready, deliver,
  deliver_all, poll,
}
use claire_common.Events.Poller.Interest.{
  IsPoller, IsMoved, interest, watched, holder, moved-IsPoller,
}
use claire_common.Events.Poller.Moves.{written_self, written_other, place_inside}

watched_reported :
    (context : Context) (channel : Channel) (revents : ℕ)
    → watched context channel ≡ watched context (record channel { revents = revents })
watched_reported fresh channel revents = refl
watched_reported added channel revents = refl
watched_reported deleted channel revents = refl

lt→leb : (a b : ℕ) → b < a → leb a b ≡ false
lt→leb a b h = ground arith

reported-IsPoller :
    (c revents : ℕ) (p : Poller)
    → IsPoller p
    → holder p (p.heap c).fd ≡ some c
    → IsPoller (write_channel c (record (p.heap c) { revents = revents }) p)
reported-IsPoller c revents p w here =
    let edited = record (p.heap c) { revents = revents } in
    let own = written_self c edited p in
    let (at_fd, live, seen) = w.known (p.heap c).fd c here in
    let p' : Poller = write_channel c edited p in
    let moved : IsMoved c p p' = record {
      accepted = w.accepted;
      heap_same = written_other c edited p;
      fd_same = ap (λ ch. ch.fd) own;
      holder_same = λ f ne. refl;
      interest_same = λ f ne. refl;
      own_place = inr here;
    } in
    moved-IsPoller c p p' w moved here (λ h. live (sym (ap (λ ch. ch.context) own) ∙ h))
      (seen
        ∙ watched_reported (p.heap c).context (p.heap c) revents
        ∙ sym (ap (λ ch. watched ch.context ch) own))

-- The channels of `active` stand in `channels_` for these descriptors, in this order.
abbrev pub StandFor : List (Option ℕ) → List ℕ → List ℕ → Type 0
StandFor channels [] [] = Unit {0}
StandFor channels [] (fd ∷ fds) = ⊥
StandFor channels (c ∷ active) [] = ⊥
StandFor channels (c ∷ active) (fd ∷ fds) =
    (get_or channels fd none ≡ some c) × StandFor channels active fds

deliver-done :
    (fd revents : ℕ) (p : Poller) (active : List ℕ)
    → IsPoller p
    → interest p.calls fd ≢ none
    → (c : ℕ) × (holder p fd ≡ some c)
      × (deliver (fd, revents) p active
          ≡ done (write_channel c (record (p.heap c) { revents = revents }) p, active ++ c ∷ []))
unfolding deliver
deliver-done fd revents p active w seen = elim (Option-cases (holder p fd)) [
  | inl empty ↦ absurd (seen (w.free fd empty))
  | inr (c, here) ↦
      let inside = place_inside p fd c here in
      (
        c,
        here,
        rw (lt→leb (length p.channels) fd inside, at-get_or p.channels fd none inside, here) refl,
      )
]

abbrev IsWatched : List ControlCall → ℕ × ℕ → Type 0
IsWatched calls event = interest calls event.0 ≢ none

deliver_all-done :
    (events : List (ℕ × ℕ)) (p : Poller) (active : List ℕ)
    → IsPoller p
    → All (IsWatched p.calls) events
    → (p' : Poller) × (found : List ℕ) × (deliver_all events p active ≡ done (p', active ++ found))
      × IsPoller p'
      × StandFor p.channels found (map (λ e. e.0) events)
unfolding deliver_all
deliver_all-done [] p active w h = (p, [], ap (λ a. done (p, a)) (sym (append-nil active)), w, tt)
deliver_all-done ((fd, revents) ∷ events) p active w (seen, others) =
    let (c, here, step) = deliver-done fd revents p active w seen in
    let p1 : Poller = write_channel c (record (p.heap c) { revents = revents }) p in
    let own_fd = (w.known fd c here).0 in
    let w1 = reported-IsPoller c revents p w (ap (holder p) own_fd ∙ here) in
    let (p', found, rest, w', stand) = deliver_all-done events p1 (active ++ c ∷ []) w1 others in
    (
      p',
      c ∷ found,
      rw step (rest ∙ ap (λ a. done (p', a)) (append_assoc active (c ∷ []) found)),
      w',
      (here, stand),
    )

event_room-IsPoller :
    (room : ℕ) (p : Poller) → IsPoller p → IsPoller (record p { event_room = room })
event_room-IsPoller room p w = record {
  accepted = w.accepted;
  stands = w.stands;
  free = w.free;
  known = w.known;
}

-- When epoll_wait reports descriptors that are watched, poll ends, keeps the poller well formed and
-- reports the channels that stand for them, in their order.
pub poll-StandFor :
    (events : List (ℕ × ℕ)) (p : Poller)
    → IsPoller p
    → All (λ e. interest p.calls e.0 ≢ none) events
    → (p' : Poller) × (active : List ℕ) × (poll (ready events) p ≡ done (p', active))
      × IsPoller p'
      × StandFor p.channels active (map (λ e. e.0) events)
unfolding poll
poll-StandFor events p w h =
    let (p', active, result, w', stand) = deliver_all-done events p [] w h in
    elim (Bool-cases (p.event_room == length events)) [
      | inl full ↦ (
        record p' { event_room = length events * 2 },
        active,
        rw (result, full) refl,
        event_room-IsPoller (length events * 2) p' w',
        stand,
      )
      | inr room ↦ (p', active, rw (result, room) refl, w', stand)
    ]
