-- ===== src/Tasklet/Tests.antt =====
-- Runs of the tasklet model, and its theorems at concrete states.
use molerat.Base.{
  ℕ, ◌≡◌, ◌≢◌, refl, ◌⊎◌, inl, Bool, true, false, none, some, [], ◌∷◌, arith, has, ◌==◌,
  if◌then◌else◌,
}
use molerat.Tasklet.{RunQueue, World, current_started, current_stopped, current_requeue}
use molerat.Tasklet.Runq.{
  tasklet_run, tasklet_run_round, tasklet_stop_round, dangling, settle_asserts,
}
use molerat.Tasklet.Scheduling.{IsScheduled, IsPlaced}
use molerat.Tasklet.Steps.{stop, vetoed, returned, step, here, later}
use molerat.Tasklet.Safety.{Reach-IsScheduled, step-IsPlaced, vetoed_stop_loses, tasklet_run_runs}

-- Tasklet 1 is run by the worker of run queue 0, and tasklet 2 is queued there; the others are at
-- rest. The run queue is in the given state.
abbrev busy : RunQueue → World
busy r = record {
  tasklet = λ t. record {
    handler = 0;
    wait = some 0;
    unwaiting = 0;
    waited = true;
    runq = if t == 1 then some 0 else if t == 2 then some 0 else none;
  };
  wait_list = λ _. record { waiters = []; finishing = false; unwaiting = 0; up_count = 0 };
  run_queue = λ q. if q == 0 then r else record {
    queued = [];
    current = none;
    current_state = current_started;
    stop_waiting = false;
    worker_waiting = false;
    signalled = false;
  };
}

abbrev running : RunQueue
running = record {
  queued = 2 ∷ [];
  current = some 1;
  current_state = current_started;
  stop_waiting = false;
  worker_waiting = false;
  signalled = false;
}

abbrev stopped_queue : RunQueue
stopped_queue = record running { current_state = current_stopped; stop_waiting = true }

busy-IsScheduled :
    (r : RunQueue)
    → r.queued ≡ 2 ∷ []
    → r.current ≡ some 1
    → r.worker_waiting ≡ false
    → IsScheduled (busy r)
busy-IsScheduled r e c w = record {
  queued_runq = λ t q h. ground arith;
  current_runq = λ t q h. ground arith;
  distinct = λ q. ground arith;
  apart = λ t q h. ground arith;
  awake = λ q h. ground arith;
}

busy-IsPlaced :
    (r : RunQueue) → r.queued ≡ 2 ∷ [] → r.current ≡ some 1 → (t : ℕ) → IsPlaced (busy r) t
busy-IsPlaced r e c t q h = ground arith

-- Tasklet 2 is stopped, then the handler of tasklet 1 returns.
abbrev stop_two : World
stop_two = step (returned 0 1) (step (stop (some 0) false 2) (busy running))

Reach-IsScheduled_example : IsScheduled stop_two
unfolding step tasklet_stop_round settle_asserts
Reach-IsScheduled_example =
    Reach-IsScheduled (busy-IsScheduled running refl refl refl)
      (later (later here (stop (some 0) false 2) λ e. cc) (returned 0 1) (inl refl, refl))

step-IsPlaced_example : IsPlaced (step (returned 0 1) (busy running)) 2
unfolding settle_asserts
step-IsPlaced_example =
    step-IsPlaced 2 (returned 0 1) (busy running) (inl refl, refl)
      (busy-IsScheduled running refl refl refl) (λ d. d) (busy-IsPlaced running refl refl 2)

vetoed_stop_loses_example :
    let s = step (vetoed 0) (busy stopped_queue) in
    ((r : ℕ) → (has 1 (s.run_queue r).queued ≡ false) × ((s.run_queue r).current ≢ some 1))
    × ((s.tasklet 1).runq ≡ some 0)
    × (tasklet_run 3 1 s ≡ s)
    × ((self : Bool) → (tasklet_stop_round (some 0) self 1 s).1 ≡ dangling)
vetoed_stop_loses_example =
    vetoed_stop_loses 0 1 3 (busy stopped_queue) (busy-IsScheduled stopped_queue refl refl refl)
      refl refl

tasklet_run_runs_example :
    let s = tasklet_run 0 5 (busy running) in
    ((tasklet_run_round none 0 5 (busy running)).1 ≡ true)
    × ((q : ℕ) × ((has 5 (s.run_queue q).queued ≡ true)
          ⊎ (((s.run_queue q).current ≡ some 5)
              × ((s.run_queue q).current_state ≡ current_requeue))))
tasklet_run_runs_example = tasklet_run_runs 0 5 (busy running) (busy-IsPlaced running refl refl 5)
