-- ===== src/Events/Poller/Removal.antt =====
-- RemoveChannel (claire/common/events/poller/EPollPoller.cc).
use claire_common.Common.{
  ℕ, ◌≡◌, ◌≢◌, true, length, lt→ltb, ==_self, inr, refl, sym, ap, ◌∙◌, none, some, List, ◌∷◌, set,
  get_or-set_self, get_or-set_ne,
}
use claire_common.Common.Outcome.{done}
use claire_common.Events.Poller.{
  Context, fresh, added, deleted, ControlCall, ctl_del, Poller, write_channel, control, set_context,
  put_channel, delete_if_added, is_none_event, is_registered, remove_channel,
}
use claire_common.Events.Poller.Interest.{
  IsPoller, IsMoved, IsAccepted, interest, watched, holder, none-ne, left-IsPoller,
}
use claire_common.Events.Poller.Steps.{put_channel_inside}
use claire_common.Events.Poller.Moves.{
  written_self, written_other, place_inside, added_own, added_same,
}

-- What is left when the channel is fresh again and its place is free.
abbrev pub cleared : ℕ → List ControlCall → Poller → Poller
cleared c calls p = record (write_channel c (record (p.heap c) { context = fresh }) p) {
  channels = set p.channels (p.heap c).fd none;
  calls = calls;
}

pub cleared-IsPoller :
    (c : ℕ) (calls : List ControlCall) (p : Poller)
    → IsPoller p
    → holder p (p.heap c).fd ≡ some c
    → IsAccepted calls
    → ((fd : ℕ) → fd ≢ (p.heap c).fd → interest calls fd ≡ interest p.calls fd)
    → interest calls (p.heap c).fd ≡ none
    → IsPoller (cleared c calls p)
cleared-IsPoller c calls p w here acc other unseen =
    let fd = (p.heap c).fd in
    let edited = record (p.heap c) { context = fresh } in
    let moved : IsMoved c p (cleared c calls p) = record {
      accepted = acc;
      heap_same = written_other c edited p;
      fd_same = ap (λ ch. ch.fd) (written_self c edited p);
      holder_same = λ f ne. get_or-set_ne p.channels fd f none none (λ h. ne (sym h));
      interest_same = other;
      own_place = inr here;
    } in
    left-IsPoller c p (cleared c calls p) w moved
      (get_or-set_self p.channels fd none none (place_inside p fd c here))
      (ap (λ ch. ch.context) (written_self c edited p)) unseen

pub remove_in_state :
    (context : Context) (c : ℕ) (p : Poller)
    → IsPoller p
    → holder p (p.heap c).fd ≡ some c
    → (p.heap c).context ≡ context
    → context ≢ fresh
    → (p' : Poller) × (put_channel
          (p.heap c).fd
          none
          (set_context c fresh (delete_if_added context c p))
        ≡ done p')
      × IsPoller p'
      × (interest p'.calls (p.heap c).fd ≡ none)
unfolding set_context control
remove_in_state fresh c p w here state live = absurd (live refl)
remove_in_state deleted c p w here state live =
    let fd = (p.heap c).fd in
    let unseen : interest p.calls fd ≡ none =
      (w.known fd c here).2 ∙ ap (λ k. watched k (p.heap c)) state in
    (
      cleared c p.calls p,
      put_channel_inside fd none (set_context c fresh p) (place_inside p fd c here),
      cleared-IsPoller c p.calls p w here w.accepted (λ f ne. refl) unseen,
      unseen,
    )
remove_in_state added c p w here state live =
    let fd = (p.heap c).fd in
    let events = (p.heap c).events in
    let own = added_own p.calls fd events in
    let registered : interest p.calls fd ≢ none =
      λ h. none-ne (sym h ∙ (w.known fd c here).2 ∙ ap (λ k. watched k (p.heap c)) state) in
    (
      cleared c (ctl_del fd events ∷ p.calls) p,
      put_channel_inside fd none (set_context c fresh (control ctl_del c p))
          (place_inside p fd c here),
      cleared-IsPoller c (ctl_del fd events ∷ p.calls) p w here (registered, w.accepted)
          (λ f ne. (added_same p.calls fd events f ne).2) own.2,
      own.2,
    )

registered_live : (context : Context) → context ≢ fresh → is_registered context ≡ true
registered_live fresh live = absurd (live refl)
registered_live added live = refl
registered_live deleted live = refl

-- RemoveChannel of a registered channel that asks for no events meets the assertions of the code and
-- ends, keeps the poller well formed and its calls accepted, and the descriptor is not watched any
-- more.
pub remove_channel-IsPoller :
    (c : ℕ) (p : Poller)
    → IsPoller p
    → (p.heap c).context ≢ fresh
    → (p.heap c).events ≡ 0
    → (p' : Poller) × (remove_channel c p ≡ done p')
      × IsPoller p'
      × (interest p'.calls (p.heap c).fd ≡ none)
unfolding remove_channel is_none_event
remove_channel-IsPoller c p w live quiet =
    let here = w.stands c live in
    rw
      (
        lt→ltb (p.heap c).fd (length p.channels) (place_inside p (p.heap c).fd c here),
        here,
        ==_self c,
        quiet,
        registered_live (p.heap c).context live,
      )
      (remove_in_state (p.heap c).context c p w here refl live)
