-- ===== src/Poll/Tests.antt =====
-- src/poll_poll.c: concrete runs.
use molerat.Base.{◌≡◌, refl, arith, update, true, false, none, some, List, [], ok}
use molerat.Timers.{Timer, PollCommon}
use molerat.Epoll.{no_events, only_in}
use molerat.Poll.{
  PollEvents, no_poll_events, Poll, Call, poll_create, watched_fd_create, watched_fd_set_interest,
  poll_prepare, poll_dispatch,
}
use molerat.Poll.Calling.{Dispatched}
use molerat.Poll.Dispatching.{poll_dispatch-Dispatched}
use molerat.Poll.Watching.{Watches}
use molerat.Poll.Holding.{IsPoll}
use molerat.Poll.Moving.{Reach, created, steps, creates, sets, poll_prepare-Watches}

abbrev timer : Timer
timer = record { earliest = 0; latest = 0; fired = false; next = none; prev = 0; waiting = 0 }

abbrev common : PollCommon
common = record {
  timer = λ t. timer;
  timers = none;
  thread_woken = false;
  thread_stopping = false;
  wakes = 0;
}

-- Memory with nothing allocated.
abbrev memory : Poll
memory = record {
  common = common;
  watched_fd = λ w. record { fd = none; interest = no_events; slot = none };
  allocated = λ w. false;
  updates = [];
  pollfds = λ i. record { fd = none; events = no_poll_events };
  watched_fds = λ i. 0;
  size = 0;
  used = 0;
}

-- The descriptor 9 at the address 4, with an interest in reading.
abbrev one : Poll
one = watched_fd_set_interest 4 only_in (watched_fd_create 4 9 (poll_create common 3 memory))

reached : Reach one
unfolding poll_create watched_fd_create
reached =
    steps (steps (created common 3 memory (λ w. refl)) (creates 4 9 refl))
      (sets 4 9 only_in refl refl)

poll_prepare-Watches_example : (q : Poll) × (poll_prepare one ≡ ok q) × Watches q
poll_prepare-Watches_example = poll_prepare-Watches reached

abbrev readable : PollEvents
readable = record { pollin = true; pollout = false; pollerr = false; pollhup = false }

-- The state in which poll is called.
abbrev prepared : Poll
prepared = record memory {
  common = record common { thread_woken = true };
  watched_fd =
      update memory.watched_fd 4 (record { fd = some 9; interest = only_in; slot = some 1 });
  allocated = update memory.allocated 4 true;
  pollfds =
      update (update memory.pollfds 0 (record { fd = some 3; events = readable })) 1
        (record { fd = some 9; events = readable });
  watched_fds = update memory.watched_fds 1 4;
  size = 10;
  used = 2;
}

-- Its slots fit.
prepared-IsPoll : IsPoll prepared
prepared-IsPoll = (
  record {
    slots = record {
      first = omega arith;
      taken_allocated = λ i pos lt. ground arith;
      taken_slot = λ i pos lt. ground arith;
      slot_pos = λ w i a e. ground arith;
      slot_used = λ w i a e. ground arith;
      slot_taken = λ w i a e. ground arith;
    };
    fits = omega arith;
    pending_allocated = λ w e. absurd (cc);
    gone_pending = λ w a e. absurd (ground arith);
    gone_slot = λ w a e. absurd (ground arith);
    gone_interest = λ w a e. absurd (ground arith);
    wanted = λ w a e. ground arith;
    covered = λ w i a e t. ground arith;
    same_fd = λ w i n a t e. ground arith;
  },
  tt,
)

poll_dispatch-Dispatched_example :
    (r : Poll × List Call) × (poll_dispatch true (λ w. readable) prepared ≡ ok r)
    × Dispatched 1 (λ w. readable) prepared r
poll_dispatch-Dispatched_example = poll_dispatch-Dispatched (λ w. readable) prepared prepared-IsPoll
