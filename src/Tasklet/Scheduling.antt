-- ===== src/Tasklet/Scheduling.antt =====
-- The state that tasklets and run queues keep between critical sections of src/tasklet.c.
use molerat.Base.{
  refl, Bool-cases, is, is→some, ℕ, ◌≡◌, ◌≢◌, refl, ◌⊎◌, inl, inr, Bool, true, false, Option, none,
  some, [], ◌∷◌, arith, Option-cases, has, Distinct, has-append, has-remove, remove-Distinct,
  append-Distinct,
}
use molerat.Tasklet.{World, CurrentState, current_stopped}
use molerat.Tasklet.Runq.{
  set_runq, run_queue_enqueue, run_queue_remove, tasklet_run_round, run_next, next_label,
  transfer_vetoed, handler_returned, worker_waits, worker_wakes, transfer_vetoed, settle,
  handler_returned, tasklet_stop_round, tasklet_fini_round,
}

-- What `t->runq` says is where the tasklet is, and a tasklet is in one place only.
pub record IsScheduled (s : World) : Type 0 where
  pub queued_runq : (t q : ℕ) → has t (s.run_queue q).queued ≡ true → (s.tasklet t).runq ≡ some q
  pub current_runq : (t q : ℕ) → (s.run_queue q).current ≡ some t → (s.tasklet t).runq ≡ some q
  pub distinct : (q : ℕ) → Distinct (s.run_queue q).queued
  pub apart : (t q : ℕ) → (s.run_queue q).current ≡ some t → has t (s.run_queue q).queued ≡ false
  pub awake :
      (q : ℕ)
      → (s.run_queue q).worker_waiting ≡ true
      → ((s.run_queue q).queued ≡ []) ⊎ ((s.run_queue q).signalled ≡ true)

-- The same, but for what is said of the `current` of run queue `q`: inside a critical section of the
-- worker, between two tasklets.
pub record IsScheduledBut (q : ℕ) (s : World) : Type 0 where
  pub queued_runq : (t p : ℕ) → has t (s.run_queue p).queued ≡ true → (s.tasklet t).runq ≡ some p
  pub current_runq :
      (t p : ℕ) → p ≢ q → (s.run_queue p).current ≡ some t → (s.tasklet t).runq ≡ some p
  pub distinct : (p : ℕ) → Distinct (s.run_queue p).queued
  pub apart :
      (t p : ℕ) → p ≢ q → (s.run_queue p).current ≡ some t → has t (s.run_queue p).queued ≡ false
  pub awake :
      (p : ℕ)
      → (s.run_queue p).worker_waiting ≡ true
      → ((s.run_queue p).queued ≡ []) ⊎ ((s.run_queue p).signalled ≡ true)

-- `t->runq` points to a run queue that will run `t` again.
abbrev pub IsPlaced : World → ℕ → Type 0
IsPlaced s t =
    (q : ℕ)
    → (s.tasklet t).runq ≡ some q
    → (has t (s.run_queue q).queued ≡ true) ⊎ ((s.run_queue q).current ≡ some t)

module _ (q t : ℕ) (s : World) (v : IsScheduled s) where
  open v use {queued_runq, current_runq, distinct, apart, awake}

  pub enqueue-IsScheduled :
      (s.tasklet t).runq ≡ none → IsScheduled (run_queue_enqueue q t (set_runq t (some q) s))
  unfolding run_queue_enqueue
  enqueue-IsScheduled e = record {
    queued_runq = λ u p h.
        ground
          (arith, queued_runq u p, queued_runq t q, has-append u (s.run_queue q).queued (t ∷ []));
    current_runq = λ u p h. ground (arith, current_runq u p);
    distinct = λ p.
        ground (
          arith,
          distinct p,
          queued_runq t q,
          append-Distinct t (s.run_queue q).queued (distinct q),
        );
    apart = λ u p h.
        ground (arith, apart u p, current_runq u p, has-append u (s.run_queue q).queued (t ∷ []));
    awake = λ p h. ground (arith, awake p);
  }

  pub IsScheduled-but : IsScheduledBut q s
  IsScheduled-but = record {
    queued_runq = queued_runq;
    current_runq = λ u p _. current_runq u p;
    distinct = distinct;
    apart = λ u p _. apart u p;
    awake = awake;
  }

  pub settle-IsScheduledBut : (s.run_queue q).current ≡ some t → IsScheduledBut q (settle q t s)
  unfolding settle run_queue_enqueue
  settle-IsScheduledBut e = record {
    queued_runq = λ u p h. ground (
      arith,
      queued_runq u p,
      current_runq t q e,
      apart t q e,
      has-append u (s.run_queue q).queued (t ∷ []),
    );
    current_runq = λ u p n h. ground (arith, current_runq u p, current_runq t q e);
    distinct = λ p.
        ground
          (arith, distinct p, apart t q e, append-Distinct t (s.run_queue q).queued (distinct q));
    apart = λ u p n h. ground (arith, apart u p);
    awake = λ p h. ground (arith, awake p);
  }

  pub stop-IsScheduled :
      (seen : Option ℕ) (self : Bool) → IsScheduled (tasklet_stop_round seen self t s).0
  unfolding tasklet_stop_round run_queue_remove
  stop-IsScheduled none self = v
  stop-IsScheduled (some p) self = record {
    queued_runq = λ u r h.
        ground (arith, queued_runq u r, has-remove u t (s.run_queue p).queued (distinct p));
    current_runq = λ u r h. ground (arith, current_runq u r);
    distinct =
        λ r. ground (arith, distinct r, remove-Distinct t (s.run_queue p).queued (distinct p));
    apart = λ u r h. ground (arith, apart u r, has-remove u t (s.run_queue p).queued (distinct p));
    awake = λ r h. ground (arith, awake r);
  }

  pub fini-IsScheduled :
      (seen : Option ℕ) (self : Bool) → IsScheduled (tasklet_fini_round seen self t s).0
  unfolding tasklet_fini_round run_queue_remove
  fini-IsScheduled none self = v
  fini-IsScheduled (some p) self = record {
    queued_runq = λ u r h.
        ground (arith, queued_runq u r, has-remove u t (s.run_queue p).queued (distinct p));
    current_runq = λ u r h. ground (arith, current_runq u r);
    distinct =
        λ r. ground (arith, distinct r, remove-Distinct t (s.run_queue p).queued (distinct p));
    apart = λ u r h. ground (arith, apart u r, has-remove u t (s.run_queue p).queued (distinct p));
    awake = λ r h. ground (arith, awake r);
  }

module _ (q : ℕ) (s : World) (v : IsScheduledBut q s) where
  open v use {queued_runq, current_runq, distinct, apart, awake}

  pub run_next-IsScheduled : IsScheduled (run_next q s)
  unfolding run_next run_queue_remove
  run_next-IsScheduled = record {
    queued_runq = λ u p h. ground (arith, queued_runq u p);
    current_runq = λ u p h. ground (arith, current_runq u p, queued_runq u q);
    distinct = λ p. ground (arith, distinct p);
    apart = λ u p h. ground (arith, apart u p, distinct q);
    awake = λ p h. ground (arith, awake p);
  }

  -- The label `next`, also when the queue's other flags were changed on the way.
  pub next_label-IsScheduled : IsScheduled (next_label q s)
  unfolding next_label run_next run_queue_remove
  next_label-IsScheduled = record {
    queued_runq = λ u p h. ground (arith, queued_runq u p);
    current_runq = λ u p h. ground (arith, current_runq u p, queued_runq u q);
    distinct = λ p. ground (arith, distinct p);
    apart = λ u p h. ground (arith, apart u p, distinct q);
    awake = λ p h. ground (arith, awake p);
  }

  pub wakes-IsScheduled : (s.run_queue q).current ≡ none → IsScheduled (worker_wakes q s)
  unfolding worker_wakes run_next run_queue_remove
  wakes-IsScheduled e = record {
    queued_runq = λ u p h. ground (arith, queued_runq u p);
    current_runq = λ u p h. ground (arith, current_runq u p, queued_runq u q);
    distinct = λ p. ground (arith, distinct p);
    apart = λ u p h. ground (arith, apart u p, distinct q);
    awake = λ p h. ground (arith, awake p);
  }

module _ (s : World) (v : IsScheduled s) where
  open v use {queued_runq, current_runq, distinct, apart, awake}

  pub run-IsScheduled :
      (seen : Option ℕ) (here t : ℕ) → IsScheduled (tasklet_run_round seen here t s).0
  unfolding tasklet_run_round
  run-IsScheduled none here t = elim (Option-cases (s.tasklet t).runq) [
    | inl e ↦ rw (e, tasklet_run_round) (enqueue-IsScheduled here t s v e)
    | inr (p, e) ↦ rw (e, tasklet_run_round) v
  ]
  run-IsScheduled (some q) here t = record {
    queued_runq = λ u p h. ground (arith, queued_runq u p);
    current_runq = λ u p h. ground (arith, current_runq u p);
    distinct = λ p. ground (arith, distinct p);
    apart = λ u p h. ground (arith, apart u p);
    awake = λ p h. ground (arith, awake p);
  }

  pub waits-IsScheduled : (q : ℕ) → (s.run_queue q).queued ≡ [] → IsScheduled (worker_waits q s)
  unfolding worker_waits
  waits-IsScheduled q e = record {
    queued_runq = λ u p h. ground (arith, queued_runq u p);
    current_runq = λ u p h. ground (arith, current_runq u p);
    distinct = λ p. ground (arith, distinct p);
    apart = λ u p h. ground (arith, apart u p);
    awake = λ p h. ground (arith, awake p);
  }

  vetoed_in :
      (q : ℕ) (c : CurrentState)
      → (s.run_queue q).current_state ≡ c
      → IsScheduled (transfer_vetoed q s)
  unfolding transfer_vetoed
  vetoed_in q current_stopped e =
      rw (e, transfer_vetoed) (next_label-IsScheduled q s (IsScheduled-but q 0 s v))
  vetoed_in q _ e =
      rw (e, transfer_vetoed)
        record {
          queued_runq = λ u p h. ground (arith, queued_runq u p);
          current_runq = λ u p h. ground (arith, current_runq u p);
          distinct = λ p. ground (arith, distinct p);
          apart = λ u p h. ground (arith, apart u p);
          awake = λ p h. ground (arith, awake p);
        }

  pub vetoed-IsScheduled : (q : ℕ) → IsScheduled (transfer_vetoed q s)
  vetoed-IsScheduled q = vetoed_in q (s.run_queue q).current_state refl

  pub returned-IsScheduled : (q t : ℕ) → IsScheduled (handler_returned q t s)
  unfolding handler_returned
  returned-IsScheduled q t = elim (Bool-cases (is (s.run_queue q).current t)) [
    | inl e ↦ rw e (
        next_label-IsScheduled q (settle q t s)
          (settle-IsScheduledBut q t s v (is→some (s.run_queue q).current t e)))
    | inr e ↦ rw e (next_label-IsScheduled q s (IsScheduled-but q t s v))
  ]
