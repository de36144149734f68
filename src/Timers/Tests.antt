-- ===== src/Timers/Tests.antt =====
-- Runs of the timers, and their theorems at a concrete ring.
use molerat.Base.{
  if◌then◌else◌, ◌+◌, ℕ, ◌≡◌, refl, arith, true, false, Option, none, some, List, [], ◌∷◌, ok,
  update,
}
use molerat.Tasklet.{World, current_started}
use molerat.Timers.{Timer, PollCommon, timer_set, timer_cancel, dispatch_timers, earliest_latest}
use molerat.Timers.Ring.{IsTimers, KeepsOthers, timer_cancel-IsTimers}
use molerat.Timers.Setting.{HasTimes, timer_set-IsTimers}
use molerat.Timers.Firing.{Dispatched, dispatch_timers-Dispatched}
use molerat.Timers.Waking.{Least, earliest_latest-Least}
use molerat.Timers.Sleeping.{PollThread, cancel, Sleeps, Move-Sleeps}

-- Timers 1, 2 and 3 are in the ring, from 1 on; 1 and 3 are due at 25.
abbrev timers : ℕ → Timer
timers =
    update
      (update
        (update
          (λ k. record {
            earliest = 0;
            latest = 0;
            fired = true;
            next = none;
            prev = 0;
            waiting = k;
          })
          1
          (record {
            earliest = 20;
            latest = 40;
            fired = false;
            next = some 2;
            prev = 3;
            waiting = 1;
          }))
        2
        (record {
          earliest = 30;
          latest = 35;
          fired = false;
          next = some 3;
          prev = 1;
          waiting = 2;
        }))
      3 (record { earliest = 10; latest = 50; fired = false; next = some 1; prev = 2; waiting = 3 })

abbrev ring_of_three : PollCommon
ring_of_three = record {
  timer = timers;
  timers = some 1;
  thread_woken = false;
  thread_stopping = false;
  wakes = 0;
}

ring_of_three-IsTimers : IsTimers ring_of_three (1 ∷ 2 ∷ 3 ∷ [])
ring_of_three-IsTimers = record {
  ring = (refl, (refl, refl, (refl, refl, (refl, refl))), (refl, (refl, (refl, tt))));
  outside = λ k m. ground arith;
  unfired = λ k m. ground arith;
}

-- Nobody waits.
abbrev quiet : World
quiet = record {
  tasklet = λ t. record { handler = 0; wait = none; unwaiting = 0; waited = false; runq = none };
  wait_list = λ w. record { waiters = []; finishing = false; unwaiting = 0; up_count = 0 };
  run_queue = λ q. record {
    queued = [];
    current = none;
    current_state = current_started;
    stop_waiting = false;
    worker_waiting = false;
    signalled = false;
  };
}

timer_set-IsTimers_example :
    (q : PollCommon) × (timer_set 7 60 70 ring_of_three ≡ ok q)
    × IsTimers q (1 ∷ 2 ∷ 3 ∷ 7 ∷ [])
    × KeepsOthers 7 ring_of_three q
    × HasTimes 60 70 (q.timer 7)
    × (q.thread_woken ≡ true)
    × (q.wakes
        ≡ (if ring_of_three.thread_woken then ring_of_three.wakes else ring_of_three.wakes + 1))
    × ((q.timer 7).waiting ≡ (ring_of_three.timer 7).waiting)
timer_set-IsTimers_example =
    timer_set-IsTimers 7 60 70 ring_of_three (1 ∷ 2 ∷ 3 ∷ []) ring_of_three-IsTimers (omega arith)

timer_cancel-IsTimers_example :
    IsTimers (timer_cancel 1 ring_of_three) (2 ∷ 3 ∷ [])
    × KeepsOthers 1 ring_of_three (timer_cancel 1 ring_of_three)
    × (((timer_cancel 1 ring_of_three).timer 1).fired ≡ false)
timer_cancel-IsTimers_example =
    timer_cancel-IsTimers 1 ring_of_three (1 ∷ 2 ∷ 3 ∷ []) ring_of_three-IsTimers

dispatch_timers-Dispatched_example :
    (r : PollCommon × World) × (dispatch_timers 3 0 25 ring_of_three quiet ≡ ok r)
    × Dispatched 0 25 ring_of_three quiet [] (1 ∷ 2 ∷ 3 ∷ []) r
dispatch_timers-Dispatched_example =
    dispatch_timers-Dispatched 3 0 25 (1 ∷ 2 ∷ 3 ∷ []) ring_of_three quiet ring_of_three-IsTimers
      (omega arith)

earliest_latest-Least_example :
    (o : Option ℕ) × (earliest_latest 3 ring_of_three ≡ ok o)
    × Least ring_of_three (1 ∷ 2 ∷ 3 ∷ []) o
earliest_latest-Least_example =
    earliest_latest-Least 3 (1 ∷ 2 ∷ 3 ∷ []) ring_of_three ring_of_three-IsTimers (omega arith)

least_test : earliest_latest 3 ring_of_three ≡ ok (some 35)
unfolding earliest_latest
least_test = refl

abbrev sleeping : PollThread
sleeping = record { common = ring_of_three; world = quiet; timeout = some 35 }

sleeping-Sleeps : Sleeps (1 ∷ 2 ∷ 3 ∷ []) sleeping
sleeping-Sleeps = record {
  timers = ring_of_three-IsTimers;
  timeout = λ _. Least.at_timer 2 refl (λ j m. ground arith);
}

Move-Sleeps_example :
    (us : List ℕ) × Sleeps us (record sleeping { common = timer_cancel 2 ring_of_three })
Move-Sleeps_example =
    Move-Sleeps (1 ∷ 2 ∷ 3 ∷ []) sleeping
      (record sleeping { common = timer_cancel 2 ring_of_three }) sleeping-Sleeps (cancel 2)
