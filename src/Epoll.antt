-- ===== src/Epoll.antt =====
-- src/poll_epoll.c, include/molerat/watched_fd.h: watched file descriptors over epoll. What epoll_ctl
-- answers is an argument, `true` for success. The calls of poll_common.c are those of Timers.
pub mod Dispatching
mod Tests
use molerat.Base.{
  ℕ, zero, suc, ◌+◌, ◌-◌, Bool, true, false, not, ◌&&◌, ◌||◌, Option, none, some, List, [], ◌∷◌,
  ◌==◌, if◌then◌else◌, update, Result, ok, aborted, ◌>>=◌, ◌>>◌, assert,
}
use molerat.Timers.{PollCommon, poll_common_wake}

-- A `poll_events_t`: the bits WATCHED_FD_IN, WATCHED_FD_OUT and WATCHED_FD_ERR.
pub record Events : Type 0 where
  pub ev_in : Bool
  pub ev_out : Bool
  pub ev_err : Bool

abbrev pub no_events : Events
no_events = record { ev_in = false; ev_out = false; ev_err = false }

abbrev pub only_in : Events
only_in = record { ev_in = true; ev_out = false; ev_err = false }

abbrev pub only_out : Events
only_out = record { ev_in = false; ev_out = true; ev_err = false }

-- `|` of two sets, and `==`.
abbrev pub union : Events → Events → Events
union a b = record {
  ev_in = a.ev_in || b.ev_in;
  ev_out = a.ev_out || b.ev_out;
  ev_err = a.ev_err || b.ev_err;
}

abbrev pub same_bit : Bool → Bool → Bool
same_bit true b = b
same_bit false b = not b

abbrev pub same_events : Events → Events → Bool
same_events a b =
    same_bit a.ev_in b.ev_in && (same_bit a.ev_out b.ev_out && same_bit a.ev_err b.ev_err)

-- The bits EPOLLIN, EPOLLOUT, EPOLLERR and EPOLLHUP; EPOLLET is always set, and is left out.
pub record SystemEvents : Type 0 where
  pub epollin : Bool
  pub epollout : Bool
  pub epollerr : Bool
  pub epollhup : Bool

unfoldable pub events_to_system : Events → SystemEvents
events_to_system e = record {
  epollin = e.ev_in;
  epollout = e.ev_out;
  epollerr = e.ev_err;
  epollhup = false;
}

unfoldable pub events_from_system : SystemEvents → Events
events_from_system e = record {
  ev_in = e.epollin;
  ev_out = e.epollout;
  ev_err = e.epollerr || e.epollhup;
}

-- `struct watched_fd` but for the handler; `told` is what epoll_ctl was last told of the descriptor.
pub record WatchedFd : Type 0 where
  pub fd : Option ℕ
  pub interest : Events
  pub added : Bool
  pub told : SystemEvents

-- `watched_fd_create` up to the count.
unfoldable pub new_watched_fd : ℕ → WatchedFd
new_watched_fd fd = record {
  fd = some fd;
  interest = no_events;
  added = false;
  told = record { epollin = false; epollout = false; epollerr = false; epollhup = false };
}

unfoldable pub watched_fd_set_interest : (answer : Bool) → Events → WatchedFd → WatchedFd × Bool
unfolding events_to_system
watched_fd_set_interest answer events w =
    let interest = union events w.interest in
    let told = record w { told = events_to_system interest; added = true; interest = interest } in
    if w.added && same_events w.interest interest
    then (w, true)
    else if answer
    then (told, true)
    else (w, false)

-- `struct poll`: the watched descriptors by their addresses, which of these are allocated, and the list
-- `gone`.
pub record Poll : Type 0 where
  pub common : PollCommon
  pub watched_fd : ℕ → WatchedFd
  pub allocated : ℕ → Bool
  pub watched_fd_count : ℕ
  pub gone_count : ℕ
  pub gone : List ℕ

unfoldable pub poll_create : PollCommon → Poll → Poll
poll_create common p = record p { common = common; watched_fd_count = 0; gone_count = 0; gone = [] }

-- `watched_fd_create` at the address that `xalloc` returns.
unfoldable pub watched_fd_create : (w fd : ℕ) → Poll → Poll
unfolding new_watched_fd
watched_fd_create w fd p = record p {
  watched_fd = update p.watched_fd w (new_watched_fd fd);
  allocated = update p.allocated w true;
  watched_fd_count = p.watched_fd_count + 1;
}

unfoldable pub set_interest_of : (answer : Bool) (w : ℕ) → Events → Poll → Poll × Bool
unfolding watched_fd_set_interest
set_interest_of answer w events p =
    let r = watched_fd_set_interest answer events (p.watched_fd w) in
    (record p { watched_fd = update p.watched_fd w r.0 }, r.1)

-- `watched_fd_destroy` after the call of epoll_ctl.
unfoldable pub let_go : (w : ℕ) → Poll → Poll
unfolding poll_common_wake
let_go w p =
    let count = p.gone_count + 1 in
    record p {
      watched_fd = update p.watched_fd w (record (p.watched_fd w) { fd = none });
      watched_fd_count = p.watched_fd_count - 1;
      gone = w ∷ p.gone;
      gone_count = count;
      common = if count == 100 then poll_common_wake p.common else p.common;
    }

-- `check_syscall` ends the program where epoll_ctl fails.
unfoldable pub watched_fd_destroy : (answer : Bool) (w : ℕ) → Poll → Result Poll
unfolding let_go
watched_fd_destroy answer w p = do
  assert (not ((p.watched_fd w).added && not answer))
  ok (let_go w p)

-- The loop of `free_gone_watched_fds`.
unfoldable pub free_all : List ℕ → (ℕ → Bool) → ℕ → Bool
free_all [] allocated = allocated
free_all (w ∷ ws) allocated = free_all ws (update allocated w false)

unfoldable pub free_gone_watched_fds : Poll → Poll
unfolding free_all
free_gone_watched_fds p = record p {
  allocated = free_all p.gone p.allocated;
  gone = [];
  gone_count = 0;
}

-- `poll_destroy` after `poll_common_stop`.
unfoldable pub poll_destroy : Poll → Result Poll
unfolding free_gone_watched_fds
poll_destroy p = do assert (p.watched_fd_count == 0); ok (free_gone_watched_fds p)

unfoldable pub poll_prepare : Poll → Poll
unfolding free_gone_watched_fds
poll_prepare p = free_gone_watched_fds p

-- The calls of handlers that `poll_dispatch` makes for the events of epoll_wait, each event with
-- `data.ptr` and with the state that the loop then finds. A descriptor that is not allocated would be
-- read through.
unfoldable pub poll_dispatch : List ((ℕ × SystemEvents) × Poll) → Result (List (ℕ × Events))
unfolding events_from_system
poll_dispatch [] = ok []
poll_dispatch (((w, events), p) ∷ ee) = do
  assert (p.allocated w)
  calls ← poll_dispatch ee
  ok (elim (p.watched_fd w).fd as (λ _. List (ℕ × Events)) [
    | none ↦ calls
    | some fd ↦ (w, events_from_system events) ∷ calls
  ])
