-- ===== src/Tasklet/Steps.antt =====
-- src/tasklet.c: the critical sections of tasklets and run queues as steps of one system, which the
-- threads take in any order.
use molerat.Base.{ℕ, ◌≡◌, ◌⊎◌, Bool, true, Option, none, some, []}
use molerat.Tasklet.{World}
use molerat.Tasklet.Runq.{
  tasklet_run_round, run_next, worker_waits, worker_wakes, transfer_vetoed, handler_returned,
  tasklet_stop_round, tasklet_fini_round, settle_asserts, dangling,
}

pub data Action : Type 0 where
  -- a round of `tasklet_run`, `tasklet_stop` or `tasklet_fini`, whatever was read before it
  run : (seen : Option ℕ) (here t : ℕ) → Action
  stop : (seen : Option ℕ) (self : Bool) (t : ℕ) → Action
  fini : (seen : Option ℕ) (self : Bool) (t : ℕ) → Action
  -- the worker of run queue `q` in `run_queue_run`
  starts : (q : ℕ) → Action
  waits : (q : ℕ) → Action
  wakes : (q : ℕ) → Action
  vetoed : (q : ℕ) → Action
  returned : (q t : ℕ) → Action

unfoldable pub step : Action → World → World
step (run seen here t) s = (tasklet_run_round seen here t s).0
step (stop seen self t) s = (tasklet_stop_round seen self t s).0
step (fini seen self t) s = (tasklet_fini_round seen self t s).0
step (starts q) s = run_next q s
step (waits q) s = worker_waits q s
step (wakes q) s = worker_wakes q s
step (vetoed q) s = transfer_vetoed q s
step (returned q t) s = handler_returned q t s

-- Where the worker must stand. A run queue has one worker, which has a `current` tasklet from when
-- it takes one until the handler has returned, unless the handler destroyed the tasklet. No assertion
-- fails, and no tasklet is unlinked from a ring that it is not on.
abbrev pub Enabled : Action → World → Type 0
Enabled (starts q) s = (s.run_queue q).current ≡ none
Enabled (waits q) s = ((s.run_queue q).current ≡ none) × ((s.run_queue q).queued ≡ [])
Enabled (wakes q) s = ((s.run_queue q).current ≡ none) × ((s.run_queue q).worker_waiting ≡ true)
Enabled (vetoed q) s = (t : ℕ) × ((s.run_queue q).current ≡ some t)
Enabled (returned q t) s =
    (((s.run_queue q).current ≡ some t) ⊎ ((s.run_queue q).current ≡ none))
    × (settle_asserts q t s ≡ true)
Enabled (stop seen self t) s = (tasklet_stop_round seen self t s).1 ≡ dangling → ⊥
Enabled (fini seen self t) s = (tasklet_fini_round seen self t s).1 ≡ dangling → ⊥
Enabled _ s = Unit {0}

pub data Reach (s : World) : World → Type 0 where
  here : Reach s s
  later : {u : World} → Reach s u → (a : Action) → Enabled a u → Reach s (step a u)
