-- ===== src/Tasklet.antt =====
-- src/tasklet.c, include/molerat/tasklet.h: tasklets, run queues and wait lists.
-- Tasklets, run queues and wait lists are known by numbers, their addresses in three stores.
pub mod Runq
pub mod Scheduling
pub mod Steps
pub mod Safety
pub mod Waiting
pub mod Effects
mod Tests
use molerat.Base.{ℕ, Bool, false, Option, none, List, []}

-- `struct tasklet`; the links of the two rings are the lists below.
pub record Tasklet : Type 0 where
  pub handler : ℕ
  pub wait : Option ℕ  -- the wait list that the tasklet is on
  pub unwaiting : ℕ
  pub waited : Bool
  pub runq : Option ℕ  -- the run queue that the tasklet is queued on or run by

-- `struct wait_list`; `waiters` is the ring, read from `head`. `finishing` is the bit that
-- `wait_list_fini` sets in `head` while it waits for other threads.
pub record WaitList : Type 0 where
  pub waiters : List ℕ
  pub finishing : Bool
  pub unwaiting : ℕ
  pub up_count : ℕ

pub data CurrentState : Type 0 where
  current_started current_stopped current_requeue : CurrentState

-- `struct run_queue`; `queued` is the ring, read from `head`. `signalled` records a `cond_signal`
-- that the worker in `cond_wait` has not yet acted on.
pub record RunQueue : Type 0 where
  pub queued : List ℕ
  pub current : Option ℕ
  pub current_state : CurrentState
  pub stop_waiting : Bool
  pub worker_waiting : Bool
  pub signalled : Bool

pub record World : Type 0 where
  pub tasklet : ℕ → Tasklet
  pub wait_list : ℕ → WaitList
  pub run_queue : ℕ → RunQueue

-- `tasklet_init`, over whatever the memory held: `waited` is not set.
unfoldable pub tasklet_init : Tasklet → Tasklet
tasklet_init t = record t { handler = 0; wait = none; unwaiting = 0; runq = none }

-- `wait_list_init`
unfoldable pub wait_list_init : ℕ → WaitList
wait_list_init up_count = record {
  waiters = [];
  finishing = false;
  unwaiting = 0;
  up_count = up_count;
}

-- `run_queue_create_unlinked`, over whatever the memory held: `current_state` is not set.
unfoldable pub run_queue_create_unlinked : RunQueue → RunQueue
run_queue_create_unlinked r = record r {
  queued = [];
  current = none;
  stop_waiting = false;
  worker_waiting = false;
  signalled = false;
}
