-- ===== src/Poll.antt =====
-- src/poll_poll.c: watched file descriptors over poll. The ring `updates` is a list read from its head, and
-- a descriptor has a `prev` where it is on it. What poll answers is an argument. The calls of
-- poll_common.c are those of Timers, and the events those of Epoll.
pub mod Slots
pub mod Holding
pub mod Watching
pub mod Turning
pub mod Calling
pub mod Dispatching
pub mod Moving
mod Tests
use molerat.Base.{
  ℕ, zero, suc, ◌+◌, ◌-◌, ◌*◌, Bool, true, false, not, ◌&&◌, ◌||◌, Option, none, some, List, [],
  ◌∷◌, ◌++◌, ltb, ◌==◌, if◌then◌else◌, update, has, remove, Result, ok, aborted, out_of_fuel, ◌>>=◌,
  ◌>>◌, assert,
}
use molerat.Timers.{PollCommon, poll_common_wake}
use molerat.Epoll.{Events, no_events, union}

-- The bits POLLIN, POLLOUT, POLLERR and POLLHUP.
pub record PollEvents : Type 0 where
  pub pollin : Bool
  pub pollout : Bool
  pub pollerr : Bool
  pub pollhup : Bool

abbrev pub no_poll_events : PollEvents
no_poll_events = record { pollin = false; pollout = false; pollerr = false; pollhup = false }

abbrev pub any_poll_event : PollEvents → Bool
any_poll_event e = e.pollin || (e.pollout || (e.pollerr || e.pollhup))

abbrev pub any_event : Events → Bool
any_event e = e.ev_in || (e.ev_out || e.ev_err)

-- `a & ~b`
abbrev pub without : Events → Events → Events
without a b = record {
  ev_in = a.ev_in && not b.ev_in;
  ev_out = a.ev_out && not b.ev_out;
  ev_err = a.ev_err && not b.ev_err;
}

unfoldable pub events_to_system : Events → PollEvents
events_to_system e = record {
  pollin = e.ev_in;
  pollout = e.ev_out;
  pollerr = e.ev_err;
  pollhup = false;
}

unfoldable pub events_from_system : PollEvents → Events
events_from_system e = record {
  ev_in = e.pollin;
  ev_out = e.pollout;
  ev_err = e.pollerr || e.pollhup;
}

-- `struct watched_fd` but for the handler and the links.
pub record WatchedFd : Type 0 where
  pub fd : Option ℕ
  pub interest : Events
  pub slot : Option ℕ

-- `struct pollfd`, but for `revents`.
pub record PollFd : Type 0 where
  pub fd : Option ℕ
  pub events : PollEvents

-- `struct poll`: the watched descriptors by their addresses, which of these are allocated, and the
-- arrays of `pollfds`.
pub record Poll : Type 0 where
  pub common : PollCommon
  pub watched_fd : ℕ → WatchedFd
  pub allocated : ℕ → Bool
  pub updates : List ℕ
  pub pollfds : ℕ → PollFd
  pub watched_fds : ℕ → ℕ
  pub size : ℕ
  pub used : ℕ

abbrev pub set_watched_fd : ℕ → WatchedFd → Poll → Poll
set_watched_fd w r p = record p { watched_fd = update p.watched_fd w r }

-- `poll_create` with the pipe's descriptor, over whatever the memory held.
unfoldable pub poll_create : PollCommon → (pipe : ℕ) → Poll → Poll
poll_create common pipe p = record p {
  common = common;
  updates = [];
  used = 1;
  size = 10;
  pollfds =
      update p.pollfds 0
        (record { fd = some pipe; events = record no_poll_events { pollin = true } });
}

-- `poll_destroy` after `poll_common_stop`.
unfoldable pub poll_destroy : Poll → Result (Unit {0})
poll_destroy p = do
  assert (elim p.updates as (λ _. Bool) [ [] ↦ true | _ ∷ _ ↦ false ])
  assert (p.used == 1)

-- `watched_fd_create` at the address that `xalloc` returns.
unfoldable pub watched_fd_create : (w fd : ℕ) → Poll → Poll
watched_fd_create w fd p = record p {
  watched_fd = update p.watched_fd w (record { fd = some fd; interest = no_events; slot = none });
  allocated = update p.allocated w true;
}

unfoldable pub updated : (w : ℕ) → Poll → Poll
unfolding poll_common_wake
updated w p =
    if has w p.updates
    then p
    else record p { updates = p.updates ++ w ∷ []; common = poll_common_wake p.common }

unfoldable pub watched_fd_destroy : (w : ℕ) → Poll → Poll
unfolding updated
watched_fd_destroy w p = elim (p.watched_fd w).slot as (λ _. Poll) [
  | none ↦ record p { updates = remove w p.updates; allocated = update p.allocated w false }
  | some slot ↦
      updated w (set_watched_fd w (record (p.watched_fd w) { fd = none; interest = no_events }) p)
]

unfoldable pub watched_fd_set_interest : (w : ℕ) → Events → Poll → Poll
unfolding updated
watched_fd_set_interest w events p =
    let interest = union (p.watched_fd w).interest events in
    updated w (set_watched_fd w (record (p.watched_fd w) { interest = interest }) p)

unfoldable pub add_pollfd : (w : ℕ) → Poll → Poll
unfolding events_to_system
add_pollfd w p =
    let slot = p.used in
    let pollfd : PollFd = record {
      fd = (p.watched_fd w).fd;
      events = events_to_system (p.watched_fd w).interest;
    } in
    record p {
      used = slot + 1;
      size = if slot == p.size then p.size * 2 else p.size;
      pollfds = update p.pollfds slot pollfd;
      watched_fds = update p.watched_fds slot w;
      watched_fd = update p.watched_fd w (record (p.watched_fd w) { slot = some slot });
    }

-- The part of `remove_pollfd` that copies the last entry.
unfoldable pub move_last : (slot : ℕ) → Poll → Poll
move_last slot p =
    let used = p.used - 1 in
    let last = p.watched_fds used in
    record p {
      used = used;
      pollfds = update p.pollfds slot (p.pollfds used);
      watched_fds = update p.watched_fds slot last;
      watched_fd = update p.watched_fd last (record (p.watched_fd last) { slot = some slot });
    }

unfoldable pub remove_pollfd : (slot : ℕ) → Poll → Poll
unfolding move_last
remove_pollfd slot p =
    let w = p.watched_fds slot in
    let p' = move_last slot p in
    elim (p.watched_fd w).fd as (λ _. Poll) [
      | none ↦ record p' { allocated = update p'.allocated w false }
      | some fd ↦ set_watched_fd w (record (p'.watched_fd w) { slot = none }) p'
    ]

-- The loop of `poll_prepare` at a descriptor.
unfoldable pub sync : (w : ℕ) → Poll → Poll
unfolding add_pollfd remove_pollfd events_to_system
sync w p =
    let interest = (p.watched_fd w).interest in
    elim (p.watched_fd w).slot as (λ _. Poll) [
      | none ↦ if any_event interest then add_pollfd w p else p
      | some slot ↦
          if any_event interest
          then record p {
            pollfds =
                update p.pollfds slot
                  (record (p.pollfds slot) { events = events_to_system interest });
          }
          else remove_pollfd slot p
    ]

-- The loop of `poll_prepare`. A descriptor that is not allocated would be read through.
unfoldable pub sync_all : List ℕ → Poll → Result Poll
unfolding sync
sync_all [] p = ok p
sync_all (w ∷ ws) p = do assert (p.allocated w); sync_all ws (sync w p)

unfoldable pub poll_prepare : Poll → Result Poll
unfolding sync_all
poll_prepare p = sync_all p.updates p >>= (λ p'. ok (record p' { updates = [] }))

-- A handler's call.
abbrev pub Call : Type 0
Call = ℕ × Events

abbrev pub DispatchResult : Type 0
DispatchResult = Result (Poll × List Call)

-- The turn of the loop of `poll_dispatch` at a slot: whether the slot is in use, whether it has `revents`,
-- and the number of its descriptor; and what comes of the loop at its end, after a `continue`, and
-- after the call.
abbrev pub turn_at :
    (in_use busy : Bool) (fd : Option ℕ) (ended skipped dispatched : DispatchResult)
    → DispatchResult
turn_at false busy fd ended skipped dispatched = ended
turn_at true false fd ended skipped dispatched = skipped
turn_at true true none ended skipped dispatched = skipped
turn_at true true (some n) ended skipped dispatched = dispatched

-- The loop of `poll_dispatch` from a slot on, with the `revents` that poll has set, by descriptors: those
-- of an entry go with it. It gives the calls of handlers.
unfoldable pub dispatch_loop : (fuel i : ℕ) → (ℕ → PollEvents) → Poll → Result (Poll × List Call)
unfolding events_from_system remove_pollfd
dispatch_loop zero i revents p = out_of_fuel
dispatch_loop (suc fuel) i revents p =
    let w = p.watched_fds i in
    let r = p.watched_fd w in
    let got = events_from_system (revents w) in
    let p' = set_watched_fd w (record r { interest = without r.interest got }) p in
    let skipped = dispatch_loop fuel (i + 1) revents p in
    let removed = dispatch_loop fuel i revents (remove_pollfd i p') in
    let kept = dispatch_loop fuel (i + 1) revents p' in
    let dispatched = if any_event (without r.interest got) then kept else removed in
    turn_at (ltb i p.used) (any_poll_event (revents w)) r.fd (ok (p, [])) skipped
      (dispatched >>= (λ d. ok (d.0, (w, got) ∷ d.1)))

-- `poll_dispatch`; `answered` is whether the result of poll is not 0.
unfoldable pub poll_dispatch :
    (answered : Bool) → (ℕ → PollEvents) → Poll → Result (Poll × List Call)
unfolding dispatch_loop
poll_dispatch answered revents p = if answered then dispatch_loop p.used 1 revents p else ok (p, [])
