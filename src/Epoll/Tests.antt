-- ===== src/Epoll/Tests.antt =====
-- src/poll_epoll.c: concrete runs.
use molerat.Base.{◌≡◌, refl, arith, true, false, none, [], ◌∷◌, update, ok}
use molerat.Timers.{Timer}
use molerat.Epoll.{only_in, SystemEvents, new_watched_fd, Poll, let_go, poll_dispatch}
use molerat.Epoll.Dispatching.{
  IsPoll, destroys, none_more, moves, events_alive, poll_dispatch-events_alive,
}

abbrev timer : Timer
timer = record { earliest = 0; latest = 0; fired = false; next = none; prev = 0; waiting = 0 }

-- Nothing is allocated.
abbrev empty : Poll
empty = record {
  common = record {
    timer = λ t. timer;
    timers = none;
    thread_woken = false;
    thread_stopping = false;
    wakes = 0;
  };
  watched_fd = λ w. new_watched_fd 0;
  allocated = λ w. false;
  watched_fd_count = 0;
  gone_count = 0;
  gone = [];
}

empty-IsPoll : IsPoll empty
empty-IsPoll = record { destroyed = λ w e. absurd (cc); allocated = λ w e. e; count = refl }

-- The descriptors 4 and 7, and then without 4.
abbrev four : Poll
four = record empty {
  watched_fd = update empty.watched_fd 4 (new_watched_fd 9);
  allocated = update empty.allocated 4 true;
}

four-IsPoll : IsPoll four
unfolding new_watched_fd
four-IsPoll = record {
  destroyed = λ w e. ground arith;
  allocated = λ w e. absurd (cc);
  count = refl;
}

abbrev readable : SystemEvents
readable = record { epollin = true; epollout = false; epollerr = false; epollhup = false }

poll_dispatch-events_alive_example :
    poll_dispatch (((4, readable), four) ∷ ((4, readable), let_go 4 four) ∷ [])
    ≡ ok (events_alive (((4, readable), four) ∷ ((4, readable), let_go 4 four) ∷ []))
unfolding new_watched_fd
poll_dispatch-events_alive_example =
    poll_dispatch-events_alive (((4, readable), four) ∷ ((4, readable), let_go 4 four) ∷ [])
      four-IsPoll (refl, (refl, tt)) (none_more, (moves (destroys 4 9 refl refl) none_more, tt))

-- The handler of a live descriptor is called.
poll_dispatch_run : poll_dispatch (((4, readable), four) ∷ []) ≡ ok ((4, only_in) ∷ [])
unfolding poll_dispatch new_watched_fd
poll_dispatch_run = refl
