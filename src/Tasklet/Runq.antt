-- ===== src/Tasklet/Runq.antt =====
-- src/tasklet.c: run queues, from `run_queue_enqueue` to `tasklet_run`, and the worker's loop
-- `run_queue_run`, one critical section of `runq->mutex` at a time.
use molerat.Base.{
  ℕ, Bool, true, false, ◌||◌, Option, none, some, [], ◌∷◌, ◌++◌, if◌then◌else◌, is, update, remove,
  has,
}
use molerat.Tasklet.{RunQueue, World, current_started, current_stopped, current_requeue}

abbrev pub set_runq : ℕ → Option ℕ → World → World
set_runq t q s = record s { tasklet = update s.tasklet t (record (s.tasklet t) { runq = q }) }

abbrev pub set_run_queue : ℕ → RunQueue → World → World
set_run_queue q r s = record s { run_queue = update s.run_queue q r }

-- `run_queue_enqueue`: into the empty ring, waking a worker that waits, or before the head.
unfoldable pub run_queue_enqueue : ℕ → ℕ → World → World
run_queue_enqueue q t s = elim (s.run_queue q).queued [
  | [] ↦
      set_run_queue q
        (record (s.run_queue q) {
          queued = t ∷ [];
          signalled = (s.run_queue q).signalled || (s.run_queue q).worker_waiting;
        })
        s
  | head ∷ rest ↦ set_run_queue q (record (s.run_queue q) { queued = head ∷ rest ++ t ∷ [] }) s
]

-- `run_queue_remove`, of a tasklet that is on the ring.
unfoldable pub run_queue_remove : ℕ → ℕ → World → World
run_queue_remove q t s =
    set_run_queue q (record (s.run_queue q) { queued = remove t (s.run_queue q).queued }) s

-- `tasklet_run`: one round of its loop, once `t->runq` was read, unlocked, as `seen`. `here` is what
-- `thread_run_queue` gives the calling thread. The flag says whether the loop is done.
unfoldable pub tasklet_run_round : Option ℕ → ℕ → ℕ → World → World × Bool
unfolding run_queue_enqueue
tasklet_run_round none here t s = elim (s.tasklet t).runq [
  | none ↦ (run_queue_enqueue here t (set_runq t (some here) s), true)
  | some _ ↦ (s, false)
]
tasklet_run_round (some q) here t s =
    if is (s.tasklet t).runq q
    then (
      if is (s.run_queue q).current t
          then set_run_queue q (record (s.run_queue q) { current_state = current_requeue }) s
          else s,
      true,
    )
    else (s, false)

-- `tasklet_run` with no other thread between the read and the lock.
unfoldable pub tasklet_run : ℕ → ℕ → World → World
unfolding tasklet_run_round
tasklet_run here t s = (tasklet_run_round (s.tasklet t).runq here t s).0

-- The worker takes the next tasklet: from `t = runq->head` at the end of the loop of
-- `run_queue_run` to `CURRENT_STARTED`, or out of the loop where the queue is empty.
unfoldable pub run_next : ℕ → World → World
unfolding run_queue_remove
run_next q s = elim (s.run_queue q).queued [
  | [] ↦ set_run_queue q (record (s.run_queue q) { current = none }) s
  | t ∷ _ ↦
      let s' = run_queue_remove q t s in
      record s' {
        run_queue =
            update s'.run_queue q
              (record (s'.run_queue q) { current = some t; current_state = current_started });
        tasklet = update s'.tasklet t (record (s'.tasklet t) { waited = false });
      }
]

-- The label `next`: threads in `tasklet_stop` are woken, and the next tasklet is taken.
unfoldable pub next_label : ℕ → World → World
unfolding run_next
next_label q s = run_next q (set_run_queue q (record (s.run_queue q) { stop_waiting = false }) s)

-- `run_queue_run` as a worker enters it with `wait` set and finds nothing to run.
unfoldable pub worker_waits : ℕ → World → World
worker_waits q s = set_run_queue q (record (s.run_queue q) { worker_waiting = true }) s

-- The worker after `cond_wait`: it waits on while the queue is empty.
unfoldable pub worker_wakes : ℕ → World → World
unfolding run_next
worker_wakes q s = elim (s.run_queue q).queued [
  | [] ↦ set_run_queue q (record (s.run_queue q) { signalled = false }) s
  | _ ∷ _ ↦
      run_next q
        (set_run_queue q (record (s.run_queue q) { signalled = false; worker_waiting = false }) s)
]

-- `mutex_transfer` failed by a veto: the tasklet is passed over only if it was stopped.
unfoldable pub transfer_vetoed : ℕ → World → World
unfolding next_label
transfer_vetoed q s = elim (s.run_queue q).current_state [
  | current_stopped ↦ next_label q s
  | _ ↦ set_run_queue q (record (s.run_queue q) { current_state = current_started }) s
]

-- The assertions of `CURRENT_STARTED`, where the worker comes back to tasklet `t`.
unfoldable pub settle_asserts : ℕ → ℕ → World → Bool
settle_asserts q t s =
    if is (s.run_queue q).current t
    then elim (s.run_queue q).current_state [
      | current_started ↦ elim (s.tasklet t).wait [ none ↦ false | some w ↦ (s.tasklet t).waited ]
      | _ ↦ true
    ]
    else true

-- What becomes of tasklet `t` once its handler has returned: the `switch` of `run_queue_run`, behind
-- the assertions.
unfoldable pub settle : ℕ → ℕ → World → World
unfolding run_queue_enqueue
settle q t s = elim (s.run_queue q).current_state [
  | current_requeue ↦ run_queue_enqueue q t s
  | _ ↦ set_runq t none s
]

-- The worker once `t->handler` has returned; a destroyed tasklet is not touched again.
unfoldable pub handler_returned : ℕ → ℕ → World → World
unfolding settle next_label
handler_returned q t s =
    if is (s.run_queue q).current t then next_label q (settle q t s) else next_label q s

-- What a round of the loops of `tasklet_stop` and `tasklet_fini` comes to.
pub data StopResult : Type 0 where
  stopped : StopResult
  retry : StopResult  -- `t->runq` has changed since it was read
  wait_for : ℕ → StopResult  -- until the run queue's `current` is another
  dangling : StopResult  -- `t` is not on the ring that it would be unlinked from by its stale links

-- `tasklet_stop` after `tasklet_unwait`: one round, with `t->runq` read unlocked as `seen`. `self`
-- says whether the calling thread is the run queue's own.
unfoldable pub tasklet_stop_round : Option ℕ → Bool → ℕ → World → World × StopResult
unfolding run_queue_remove
tasklet_stop_round none self t s = (s, stopped)
tasklet_stop_round (some q) self t s =
    if is (s.tasklet t).runq q
    then (if is (s.run_queue q).current t
        then (if self
            then (
              set_run_queue q (record (s.run_queue q) { current_state = current_stopped }) s,
              stopped,
            )
            else (
              set_run_queue q
                  (record (s.run_queue q) { current_state = current_stopped; stop_waiting = true })
                  s,
              wait_for q,
            ))
        else (if has t (s.run_queue q).queued
            then (set_runq t none (run_queue_remove q t s), stopped)
            else (s, dangling)))
    else (s, retry)

-- `tasklet_fini`, likewise: on its own thread the tasklet stops being `current` at once.
unfoldable pub tasklet_fini_round : Option ℕ → Bool → ℕ → World → World × StopResult
unfolding run_queue_remove
tasklet_fini_round none self t s = (s, stopped)
tasklet_fini_round (some q) self t s =
    if is (s.tasklet t).runq q
    then (if is (s.run_queue q).current t
        then (if self
            then (
              set_run_queue q
                  (record (s.run_queue q) { current_state = current_stopped; current = none }) s,
              stopped,
            )
            else (
              set_run_queue q
                  (record (s.run_queue q) { current_state = current_stopped; stop_waiting = true })
                  s,
              wait_for q,
            ))
        else (if has t (s.run_queue q).queued
            then (set_runq t none (run_queue_remove q t s), stopped)
            else (s, dangling)))
    else (s, retry)
