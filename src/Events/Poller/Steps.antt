-- ===== src/Events/Poller/Steps.antt =====
-- What UpdateChannel does in each state of the channel keeps the poller well formed
-- (claire/common/events/poller/EPollPoller.cc).
use claire_common.Common.{
  ℕ, ◌<◌, ◌≡◌, ◌≢◌, inl, inr, refl, sym, ap, ◌∙◌, Option, none, some, ◌∷◌, ◌==◌, if◌then◌else◌,
  length, set, get_or-set_self, get_or-set_ne, Bool-cases, arith,
}
use claire_common.Common.Outcome.{Outcome, done, ◌>>=◌, at-get_or}
use claire_common.Events.Poller.{
  Context, fresh, added, deleted, ctl_add, ctl_mod, ctl_del, Poller, control, set_context,
  put_channel, update_in_state, is_none_event,
}
use claire_common.Events.Poller.Interest.{
  IsPoller, IsMoved, interest, watched, holder, none-ne, moved-IsPoller,
}
use claire_common.Events.Poller.Moves.{
  written_self, written_other, IsEdited, stepped, control-set_context, live_step, added_same,
  added_own,
}

-- What a channel is watched for after Channel::Update with these events.
abbrev pub asked : Context → ℕ → Option ℕ
asked fresh events = some events
asked added events = if events == 0 then none else some events
asked deleted events = some events

-- An update is right if it ends in a well-formed poller that watches the channel as asked.
abbrev pub IsUpdated : ℕ → ℕ → Context → Outcome Poller → Type 0
IsUpdated fd events context result =
    (p' : Poller) × (result ≡ done p') × IsPoller p' × (interest p'.calls fd ≡ asked context events)

pub added_live : added ≢ fresh
added_live e = grind arith

pub deleted_live : deleted ≢ fresh
deleted_live e = grind arith

modify_step :
    (c : ℕ) (p q : Poller)
    → IsPoller p
    → IsEdited c p q
    → holder p (p.heap c).fd ≡ some c
    → (p.heap c).context ≡ added
    → interest p.calls (p.heap c).fd ≢ none
    → IsPoller (control ctl_mod c q)
unfolding control
modify_step c p q w e here state registered =
    let fd = (p.heap c).fd in
    let events = (q.heap c).events in
    let still : (q.heap c).context ≡ added = e.context_same ∙ state in
    let moved : IsMoved c p (control ctl_mod c q) = record {
      accepted = rw (e.calls_same, e.fd_same) (registered, w.accepted);
      heap_same = e.heap_same;
      fd_same = e.fd_same;
      holder_same = λ f ne. e.places_same f;
      interest_same = λ f ne. rw (e.calls_same, e.fd_same) (added_same p.calls fd events f ne).1;
      own_place = inr here;
    } in
    moved-IsPoller c p (control ctl_mod c q) w moved (e.places_same fd ∙ here)
      (λ h. added_live (sym still ∙ h))
      (ap (λ f. interest (ctl_mod f events ∷ q.calls) fd) e.fd_same
        ∙ (added_own q.calls fd events).1
        ∙ sym (ap (λ k. watched k (q.heap c)) still))

pub update_added :
    (c : ℕ) (p q : Poller)
    → IsPoller p
    → IsEdited c p q
    → holder p (p.heap c).fd ≡ some c
    → (p.heap c).context ≡ added
    → IsUpdated (p.heap c).fd (q.heap c).events added (update_in_state added c q)
unfolding update_in_state is_none_event control set_context
update_added c p q w e here state =
    let fd = (p.heap c).fd in
    let events = (q.heap c).events in
    let registered : interest p.calls fd ≢ none =
      λ h. none-ne (sym h ∙ (w.known fd c here).2 ∙ ap (λ k. watched k (p.heap c)) state) in
    let same = added_same p.calls fd events in
    let own = added_own p.calls fd events in
    elim (Bool-cases (events == 0)) [
      | inl empty ↦ rw empty (
        stepped ctl_del deleted c q,
        refl,
        live_step ctl_del deleted c p q w e here deleted_live (registered, w.accepted)
            (λ f ne. (same f ne).2) own.2,
        rw (e.calls_same, e.fd_same) own.2,
      )
      | inr full ↦ rw full (
        control ctl_mod c q,
        refl,
        modify_step c p q w e here state registered,
        rw (e.calls_same, e.fd_same) own.1,
      )
    ]

pub update_deleted :
    (c : ℕ) (p q : Poller)
    → IsPoller p
    → IsEdited c p q
    → holder p (p.heap c).fd ≡ some c
    → (p.heap c).context ≡ deleted
    → IsUpdated (p.heap c).fd (q.heap c).events deleted (update_in_state deleted c q)
unfolding update_in_state control set_context
update_deleted c p q w e here state =
    let fd = (p.heap c).fd in
    let events = (q.heap c).events in
    let own = added_own p.calls fd events in
    let unseen : interest p.calls fd ≡ none =
      (w.known fd c here).2 ∙ ap (λ k. watched k (p.heap c)) state in
    (
      stepped ctl_add added c q,
      ap done (control-set_context ctl_add added c q),
      live_step ctl_add added c p q w e here added_live (unseen, w.accepted)
          (λ f ne. (added_same p.calls fd events f ne).0) own.0,
      rw (e.calls_same, e.fd_same) own.0,
    )

fresh-IsMoved :
    (c : ℕ) (p q : Poller)
    → IsPoller p
    → IsEdited c p q
    → holder p (p.heap c).fd ≡ none
    → IsMoved c p
        (stepped ctl_add added c (record q { channels = set q.channels (p.heap c).fd (some c) }))
unfolding set_context
fresh-IsMoved c p q w e empty =
    let fd = (p.heap c).fd in
    let edited = record (q.heap c) { context = added } in
    record {
      accepted = rw (e.calls_same, e.fd_same) (w.free fd empty, w.accepted);
      heap_same = λ x ne. written_other c edited q x ne ∙ e.heap_same x ne;
      fd_same = ap (λ ch. ch.fd) (written_self c edited q) ∙ e.fd_same;
      holder_same =
          λ f ne. get_or-set_ne q.channels fd f (some c) none (λ h. ne (sym h)) ∙ e.places_same f;
      interest_same =
          λ f ne. rw (e.calls_same, e.fd_same) (added_same p.calls fd (q.heap c).events f ne).0;
      own_place = inl empty;
    }

pub put_channel_inside :
    (fd : ℕ) (pointer : Option ℕ) (p : Poller)
    → fd < length p.channels
    → put_channel fd pointer p ≡ done (record p { channels = set p.channels fd pointer })
unfolding put_channel
put_channel_inside fd pointer p room = rw (at-get_or p.channels fd none room) refl

pub update_fresh :
    (c : ℕ) (p q : Poller)
    → IsPoller p
    → IsEdited c p q
    → holder p (p.heap c).fd ≡ none
    → (p.heap c).fd < length q.channels
    → IsUpdated (p.heap c).fd (q.heap c).events fresh (update_in_state fresh c q)
unfolding update_in_state set_context
update_fresh c p q w e empty room =
    let fd = (p.heap c).fd in
    let edited = record (q.heap c) { context = added } in
    let q' : Poller = record q { channels = set q.channels fd (some c) } in
    let p' : Poller = stepped ctl_add added c q' in
    let own_channel = written_self c edited q' in
    let finish : Poller → Outcome Poller = λ x. done (control ctl_add c (set_context c added x)) in
    let own = added_own p.calls fd (q.heap c).events in
    let seen : interest p'.calls fd ≡ some (q.heap c).events = rw (e.calls_same, e.fd_same) own.0 in
    (
      p',
      ap (λ f. put_channel f (some c) q >>= finish) e.fd_same
          ∙ ap (λ o. o >>= finish) (put_channel_inside fd (some c) q room)
          ∙ ap done (control-set_context ctl_add added c q'),
      moved-IsPoller c p p' w (fresh-IsMoved c p q w e empty)
          (get_or-set_self q.channels fd (some c) none room)
          (λ h. added_live (sym (ap (λ ch. ch.context) own_channel) ∙ h))
          (seen ∙ sym (ap (λ ch. watched ch.context ch) own_channel)),
      seen,
    )
