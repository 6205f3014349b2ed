-- ===== src/Events/Poller.antt =====
-- Channel and EPollPoller (claire/common/events): which file descriptors the kernel watches for
-- which channels.
use Prim.Native.Nat.{bit_and, bit_or}
use claire_common.Common.{
  ℕ, zero, suc, ◌+◌, ◌-◌, ◌*◌, ◌^◌, ◌≡◌, Bool, true, false, not, ◌&&◌, ◌||◌, Option, none, some,
  List, [], ◌∷◌, ◌++◌, ltb, leb, get_or, ◌==◌, if◌then◌else◌, length, set, replicate,
}
use claire_common.Common.Outcome.{Outcome, done, check_failed, undefined, ◌>>=◌, ◌>>◌, check, at}
pub mod Interest
pub mod Moves
pub mod Steps
pub mod Updates
pub mod Removal
pub mod Waiting

abbrev poll_in : ℕ
poll_in = 1

abbrev poll_pri : ℕ
poll_pri = 2

abbrev poll_out : ℕ
poll_out = 4

abbrev poll_err : ℕ
poll_err = 8

abbrev poll_hup : ℕ
poll_hup = 16

abbrev poll_nval : ℕ
poll_nval = 32

abbrev poll_rdhup : ℕ
poll_rdhup = 0x2000

-- kReadEvent is POLLIN | POLLPRI.
abbrev pub read_event : ℕ
read_event = 3

abbrev pub write_event : ℕ
write_event = 4

-- What the poller keeps in a channel's `context_`: kNew, kAdded or kDeleted.
pub data Context : Type 0 where
  fresh added deleted : Context

-- `has_…_callback` says whether the callback is set.
pub record Channel : Type 0 where
  pub fd : ℕ
  pub events : ℕ
  pub revents : ℕ
  pub context : Context
  pub tied : Bool
  pub has_read_callback : Bool
  pub has_write_callback : Bool
  pub has_close_callback : Bool
  pub has_error_callback : Bool

pub data Callback : Type 0 where
  read write close error : Callback

unfoldable pub new_channel : ℕ → Channel
new_channel fd = record {
  fd = fd;
  events = 0;
  revents = 0;
  context = fresh;
  tied = false;
  has_read_callback = false;
  has_write_callback = false;
  has_close_callback = false;
  has_error_callback = false;
}

-- `revents_ & mask`, as a condition.
abbrev has_any : ℕ → ℕ → Bool
has_any revents mask = not (bit_and revents mask == 0)

abbrev call_if : Bool → Callback → List Callback
call_if b c = if b then c ∷ [] else []

-- The callbacks that OnEventWithGuard calls, in their order.
unfoldable pub on_event_with_guard : Channel → List Callback
on_event_with_guard c =
    call_if (has_any c.revents poll_hup && not (has_any c.revents poll_in) && c.has_close_callback)
      close
    ++ call_if (has_any c.revents (poll_err + poll_nval) && c.has_error_callback) error
    ++ call_if (has_any c.revents (poll_in + poll_pri + poll_rdhup) && c.has_read_callback) read
    ++ call_if (has_any c.revents poll_out && c.has_write_callback) write

-- The flag says whether the tie can still be locked.
unfoldable pub on_event : Channel → Bool → List Callback
on_event c alive =
    if c.tied then (if alive then on_event_with_guard c else []) else on_event_with_guard c

unfoldable pub is_none_event : Channel → Bool
is_none_event c = c.events == 0

unfoldable pub is_writing : Channel → Bool
is_writing c = has_any c.events write_event

-- A call of epoll_ctl: EPOLL_CTL_ADD, EPOLL_CTL_MOD or EPOLL_CTL_DEL with its event.
pub data ControlCall : Type 0 where
  ctl_add ctl_mod ctl_del : ℕ → ℕ → ControlCall

-- `heap` has the channel of every pointer, `channels` the pointers of `channels_` with none for
-- NULL. `calls` are the calls of epoll_ctl so far, the last one first.
pub record Poller : Type 0 where
  pub heap : ℕ → Channel
  pub channels : List (Option ℕ)
  pub event_room : ℕ
  pub calls : List ControlCall

unfoldable pub new_poller : (ℕ → Channel) → Poller
new_poller heap = record { heap = heap; channels = replicate 64 none; event_room = 64; calls = [] }

abbrev pub write_channel : ℕ → Channel → Poller → Poller
write_channel c channel p = record p { heap = λ x. if x == c then channel else p.heap x }

-- EPollPoller::Update.
unfoldable pub control : (ℕ → ℕ → ControlCall) → ℕ → Poller → Poller
control operation c p = record p { calls = operation (p.heap c).fd (p.heap c).events ∷ p.calls }

unfoldable pub set_context : ℕ → Context → Poller → Poller
set_context c context p = write_channel c (record (p.heap c) { context = context }) p

unfoldable pub put_channel : ℕ → Option ℕ → Poller → Outcome Poller
put_channel fd pointer p = do
  old ← at p.channels fd
  done (record p { channels = set p.channels fd pointer })

-- `channels_.resize(channels_.size()*2)`.
unfoldable pub grow : Poller → Poller
grow p = record p { channels = p.channels ++ replicate (length p.channels) none }

-- UpdateChannel once `channels_` was grown, by the state of the channel.
unfoldable pub update_in_state : Context → ℕ → Poller → Outcome Poller
update_in_state fresh c p = do
  p' ← put_channel (p.heap c).fd (some c) p
  done (control ctl_add c (set_context c added p'))
update_in_state deleted c p = done (control ctl_add c (set_context c added p))
update_in_state added c p =
    if is_none_event (p.heap c)
    then done (set_context c deleted (control ctl_del c p))
    else done (control ctl_mod c p)

unfoldable pub update_far : Context → ℕ → Poller → Outcome Poller
update_far fresh c p = update_in_state fresh c (grow p)
update_far added c p = done p
update_far deleted c p = done p

unfoldable pub update_channel : ℕ → Poller → Outcome Poller
update_channel c p =
    if leb (length p.channels) (p.heap c).fd
    then update_far (p.heap c).context c p
    else update_in_state (p.heap c).context c p

abbrev pub delete_if_added : Context → ℕ → Poller → Poller
delete_if_added added c p = control ctl_del c p
delete_if_added fresh c p = p
delete_if_added deleted c p = p

abbrev pub is_at : ℕ → Option ℕ → Bool
is_at c none = false
is_at c (some x) = x == c

abbrev pub is_registered : Context → Bool
is_registered fresh = false
is_registered added = true
is_registered deleted = true

-- RemoveChannel; its DCHECKs stand, since callers meet them in the default build, Debug.
unfoldable pub remove_channel : ℕ → Poller → Outcome Poller
remove_channel c p = do
  check (ltb (p.heap c).fd (length p.channels))
  check (is_at c (get_or p.channels (p.heap c).fd none))
  check (is_none_event (p.heap c))
  check (is_registered (p.heap c).context)
  put_channel (p.heap c).fd none (set_context c fresh (delete_if_added (p.heap c).context c p))

-- EnableReading and its kin: new `events_`, then Channel::Update.
unfoldable pub set_events : ℕ → ℕ → Poller → Outcome Poller
set_events c events p = update_channel c (write_channel c (record (p.heap c) { events = events }) p)

unfoldable pub enable_reading : ℕ → Poller → Outcome Poller
enable_reading c p = set_events c (bit_or (p.heap c).events read_event) p

unfoldable pub enable_writing : ℕ → Poller → Outcome Poller
enable_writing c p = set_events c (bit_or (p.heap c).events write_event) p

unfoldable pub disable_reading : ℕ → Poller → Outcome Poller
disable_reading c p = set_events c (bit_and (p.heap c).events (2 ^ 32 - 1 - read_event)) p

unfoldable pub disable_writing : ℕ → Poller → Outcome Poller
disable_writing c p = set_events c (bit_and (p.heap c).events (2 ^ 32 - 1 - write_event)) p

unfoldable pub disable_all : ℕ → Poller → Outcome Poller
disable_all c p = set_events c 0 p

-- What epoll_wait comes to: events with their data and flags, EINTR or another error.
pub data WaitResult : Type 0 where
  ready : List (ℕ × ℕ) → WaitResult
  interrupted failed : WaitResult

-- One event of the loop of poll.
unfoldable pub deliver : ℕ × ℕ → Poller → List ℕ → Outcome (Poller × List ℕ)
deliver event p active =
    let found = (do
      pointer ← at p.channels event.0
      elim pointer [
        | none ↦ undefined
        | some c ↦
            done (write_channel c (record (p.heap c) { revents = event.1 }) p, active ++ c ∷ [])
      ]) in
    if leb (length p.channels) event.0 then done (p, active) else found

unfoldable pub deliver_all : List (ℕ × ℕ) → Poller → List ℕ → Outcome (Poller × List ℕ)
deliver_all [] p active = done (p, active)
deliver_all (event ∷ events) p active = do
  (p', active') ← deliver event p active
  deliver_all events p' active'

unfoldable pub poll : WaitResult → Poller → Outcome (Poller × List ℕ)
poll (ready events) p = do
  (p', active) ← deliver_all events p []
  done (
    if p.event_room == length events then record p' { event_room = length events * 2 } else p',
    active,
  )
poll interrupted p = done (p, [])
poll failed p = check_failed
