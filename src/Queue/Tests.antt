-- ===== src/Queue/Tests.antt =====
-- Runs of the queue model, and its theorems at a concrete state.
use molerat.Base.{◌+◌, ◌≡◌, refl, false, none, [], ◌∷◌, PowerOfTwo, one, double, arith}
use molerat.Tasklet.{World, current_started}
use molerat.Tasklet.Waiting.{wait_list_down}
use molerat.Queue.{Queue, was_full, queue_push, queue_shift}
use molerat.Queue.Fifo.{contents}
use molerat.Queue.Counting.{IsCounted}
use molerat.Queue.Pushing.{Pushed, queue_push-Pushed}
use molerat.Queue.Shifting.{Shifted, queue_shift-Shifted}

-- Nobody runs or waits, and every wait list has two ups.
abbrev quiet : World
quiet = record {
  tasklet = λ _. record { handler = 0; wait = none; unwaiting = 0; waited = false; runq = none };
  wait_list = λ _. record { waiters = []; finishing = false; unwaiting = 0; up_count = 2 };
  run_queue = λ _. record {
    queued = [];
    current = none;
    current_state = current_started;
    stop_waiting = false;
    worker_waiting = false;
    signalled = false;
  };
}

-- Eight items round the end of an array of eight, where writers have waited and two may go on.
abbrev wrapped : Queue
wrapped = record {
  items = λ i. 10 + i;
  capacity = 8;
  read = 6;
  write = 14;
  max_size = 10;
  waiters = 0;
  waiters_state = was_full;
}

eight : PowerOfTwo 8
eight = double (double (double (one {c = 1} refl) refl) refl) refl

wrapped-IsCounted : IsCounted wrapped quiet
wrapped-IsCounted = record {
  ring = record { power = eight; read_lt = omega arith; read_le = omega arith; room = omega arith };
  within = omega arith;
  limit = omega arith;
  free_places = λ _. refl;
  items_left = λ n. cc;
}

wrapped_items : contents wrapped ≡ 16 ∷ 17 ∷ 10 ∷ 11 ∷ 12 ∷ 13 ∷ 14 ∷ 15 ∷ []
wrapped_items = refl

-- The push has to resize.
push_test :
    contents (queue_push 0 (λ _. 0) 99 7 wrapped quiet).0.0
    ≡ 16 ∷ 17 ∷ 10 ∷ 11 ∷ 12 ∷ 13 ∷ 14 ∷ 15 ∷ 99 ∷ []
unfolding queue_push wait_list_down
push_test = refl

queue_push-Pushed_example : Pushed 99 wrapped (queue_push 0 (λ _. 0) 99 7 wrapped quiet)
queue_push-Pushed_example = queue_push-Pushed 0 (λ _. 0) 99 7 wrapped quiet wrapped-IsCounted

queue_shift-Shifted_example : Shifted wrapped (queue_shift 0 7 wrapped quiet)
queue_shift-Shifted_example = queue_shift-Shifted 0 7 wrapped quiet wrapped-IsCounted
