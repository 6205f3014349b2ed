-- ===== src/Tests/Poller.antt =====
-- EPollPoller with four places, where channel 0 is registered for descriptor 2.
use claire_common.Common.{
  ℕ, zero, suc, ◌+◌, ◌≡◌, ◌≢◌, refl, sym, true, none, some, List, [], ◌∷◌, ◌==◌, if◌then◌else◌,
  arith,
}
use claire_common.Common.Outcome.{done}
use claire_common.Events.Poller.{
  Channel, fresh, added, ctl_add, Poller, new_channel, set_events, remove_channel, ready, poll,
  on_event, on_event_with_guard, close, read,
}
use claire_common.Events.Poller.Interest.{IsPoller, interest, holder, watched, none-ne}
use claire_common.Events.Poller.Steps.{IsUpdated, added_live}
use claire_common.Events.Poller.Updates.{set_events-IsPoller}
use claire_common.Events.Poller.Waiting.{StandFor, poll-StandFor}
use claire_common.Events.Poller.Removal.{remove_channel-IsPoller}

-- Hang-up without input closes and then reads, since POLLRDHUP is set too.
hang_up :
    on_event
      (record (new_channel 2) {
        revents = 16 + 0x2000;
        has_close_callback = true;
        has_read_callback = true;
      })
      true
    ≡ close ∷ read ∷ []
unfolding on_event on_event_with_guard new_channel
hang_up = refl

-- A channel that is added, and asks for these events.
abbrev registered : ℕ → Channel
registered events = record (new_channel 2) { events = events; context = added }

abbrev other : Channel
other = new_channel 3

abbrev poller_for : ℕ → Poller
poller_for events = record {
  heap = λ x. if x == 0 then registered events else other;
  channels = none ∷ none ∷ some 0 ∷ none ∷ [];
  event_room = 2;
  calls = ctl_add 2 events ∷ [];
}

abbrev poller : Poller
poller = poller_for 3

-- It was added without events.
abbrev quiet_poller : Poller
quiet_poller = poller_for 0

poller_stands :
    (events c : ℕ)
    → ((poller_for events).heap c).context ≢ fresh
    → holder (poller_for events) ((poller_for events).heap c).fd ≡ some c
unfolding new_channel
poller_stands events zero live = refl
poller_stands events (suc c) live = absurd (live (ground arith))

poller_free :
    (events fd : ℕ)
    → holder (poller_for events) fd ≡ none
    → interest (poller_for events).calls fd ≡ none
poller_free events zero h = refl
poller_free events (suc zero) h = refl
poller_free events (suc (suc zero)) h = absurd (none-ne (sym h))
poller_free events (suc (suc (suc fd))) h = ground arith

poller_known :
    (events fd c : ℕ)
    → holder (poller_for events) fd ≡ some c
    → (((poller_for events).heap c).fd ≡ fd)
      × (((poller_for events).heap c).context ≢ fresh)
      × (interest (poller_for events).calls fd
          ≡ watched ((poller_for events).heap c).context ((poller_for events).heap c))
unfolding new_channel
poller_known events zero c h = absurd (none-ne h)
poller_known events (suc zero) c h = absurd (none-ne h)
poller_known events (suc (suc zero)) zero h = (refl, added_live, refl)
poller_known events (suc (suc zero)) (suc c) h = absurd (ground arith)
poller_known events (suc (suc (suc zero))) c h = absurd (none-ne h)
poller_known events (suc (suc (suc (suc fd)))) c h = absurd (none-ne h)

poller_for-IsPoller : (events : ℕ) → IsPoller (poller_for events)
poller_for-IsPoller events = record {
  accepted = (refl, tt);
  stands = poller_stands events;
  free = poller_free events;
  known = poller_known events;
}

set_events-IsPoller_example : IsUpdated 2 0 added (set_events 0 0 poller)
unfolding new_channel
set_events-IsPoller_example =
    set_events-IsPoller 0 0 poller (poller_for-IsPoller 3) (λ h. absurd (added_live h))

remove_channel-IsPoller_example :
    (p' : Poller) × (remove_channel 0 quiet_poller ≡ done p')
    × IsPoller p'
    × (interest p'.calls 2 ≡ none)
unfolding new_channel
remove_channel-IsPoller_example =
    remove_channel-IsPoller 0 quiet_poller (poller_for-IsPoller 0) added_live refl

poll-StandFor_example :
    (p' : Poller) × (active : List ℕ) × (poll (ready ((2, 1) ∷ [])) poller ≡ done (p', active))
    × IsPoller p'
    × StandFor poller.channels active (2 ∷ [])
poll-StandFor_example =
    poll-StandFor ((2, 1) ∷ []) poller (poller_for-IsPoller 3) ((λ h. none-ne (sym h)), tt)
