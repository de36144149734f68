-- ===== src/Tasklet/Safety.antt =====
-- src/tasklet.c: the critical sections in any order, on tasklets and run queues.
use molerat.Base.{
  ℕ, ◌≡◌, ◌≢◌, ◌⊎◌, inl, inr, Bool, true, false, Option, none, some, [], ◌∷◌, arith, has,
  Option-cases, has-append, has-remove,
}
use molerat.Tasklet.{World, current_started, current_stopped, current_requeue}
use molerat.Tasklet.Runq.{
  run_queue_enqueue, run_queue_remove, tasklet_run_round, tasklet_run, run_next, next_label,
  worker_waits, worker_wakes, transfer_vetoed, settle, handler_returned, tasklet_stop_round,
  tasklet_fini_round, dangling,
}
use molerat.Tasklet.Scheduling.{
  IsScheduled, IsPlaced, run-IsScheduled, stop-IsScheduled, fini-IsScheduled, waits-IsScheduled,
  wakes-IsScheduled, vetoed-IsScheduled, returned-IsScheduled, IsScheduled-but,
  run_next-IsScheduled,
}
use molerat.Tasklet.Steps.{
  Action, run, stop, fini, starts, waits, wakes, vetoed, returned, step, Enabled, Reach, here,
  later,
}

step-IsScheduled : (a : Action) (s : World) → Enabled a s → IsScheduled s → IsScheduled (step a s)
unfolding step
step-IsScheduled (run seen q t) s e v = run-IsScheduled s v seen q t
step-IsScheduled (stop seen self t) s e v = stop-IsScheduled 0 t s v seen self
step-IsScheduled (fini seen self t) s e v = fini-IsScheduled 0 t s v seen self
step-IsScheduled (starts q) s e v = run_next-IsScheduled q s (IsScheduled-but q 0 s v)
step-IsScheduled (waits q) s e v = waits-IsScheduled s v q e.1
step-IsScheduled (wakes q) s e v = wakes-IsScheduled q s (IsScheduled-but q 0 s v) e.0
step-IsScheduled (vetoed q) s e v = vetoed-IsScheduled s v q
step-IsScheduled (returned q t) s e v = returned-IsScheduled s v q t

-- In every state that any interleaving of the critical sections reaches in which no assertion fails and
-- no tasklet is unlinked by `tasklet_stop` or `tasklet_fini` from a ring that it is not on, a tasklet is on at most one
-- run queue and once at most, no queued tasklet is also being run, `t->runq` names the queue that
-- holds or runs `t`, and a worker waits for a non-empty queue only if it was signalled.
pub Reach-IsScheduled : {s u : World} → IsScheduled s → Reach s u → IsScheduled u
Reach-IsScheduled v here = v
Reach-IsScheduled v (later {u} r a e) = step-IsScheduled a u e (Reach-IsScheduled v r)

-- The two actions after which `t->runq` may be set though no run queue has `t`.
abbrev pub Drops : Action → ℕ → World → Type 0
Drops (fini _ _ u) t s = u ≡ t
Drops (vetoed q) t s =
    ((s.run_queue q).current ≡ some t) × ((s.run_queue q).current_state ≡ current_stopped)
Drops _ t s = ⊥

module _ (t : ℕ) (s : World) (v : IsScheduled s) (p : IsPlaced s t) where
  open v use {queued_runq, current_runq, distinct, apart}

  run-IsPlaced : (seen : Option ℕ) (h u : ℕ) → IsPlaced (tasklet_run_round seen h u s).0 t
  unfolding tasklet_run_round run_queue_enqueue
  run-IsPlaced none h u q e = ground (arith, p q, has-append t (s.run_queue h).queued (u ∷ []))
  run-IsPlaced (some r) h u q e = ground (arith, p q)

  stop-IsPlaced :
      (seen : Option ℕ) (self : Bool) (u : ℕ) → IsPlaced (tasklet_stop_round seen self u s).0 t
  unfolding tasklet_stop_round run_queue_remove
  stop-IsPlaced none self u q e = p q e
  stop-IsPlaced (some r) self u q e =
      ground (arith, p q, has-remove t u (s.run_queue r).queued (distinct r))

  fini-IsPlaced :
      (seen : Option ℕ) (self : Bool) (u : ℕ)
      → u ≢ t
      → IsPlaced (tasklet_fini_round seen self u s).0 t
  unfolding tasklet_fini_round run_queue_remove
  fini-IsPlaced none self u n q e = p q e
  fini-IsPlaced (some r) self u n q e =
      ground (arith, p q, has-remove t u (s.run_queue r).queued (distinct r))

  starts-IsPlaced : (r : ℕ) → (s.run_queue r).current ≡ none → IsPlaced (run_next r s) t
  unfolding run_next run_queue_remove
  starts-IsPlaced r idle q e = ground (arith, p q)

  waits-IsPlaced : (r : ℕ) → IsPlaced (worker_waits r s) t
  unfolding worker_waits
  waits-IsPlaced r q e = ground (arith, p q)

  wakes-IsPlaced : (r : ℕ) → (s.run_queue r).current ≡ none → IsPlaced (worker_wakes r s) t
  unfolding worker_wakes run_next run_queue_remove
  wakes-IsPlaced r idle q e = ground (arith, p q)

  vetoed-IsPlaced :
      (r : ℕ)
      → ¬ (((s.run_queue r).current ≡ some t) × ((s.run_queue r).current_state ≡ current_stopped))
      → IsPlaced (transfer_vetoed r s) t
  unfolding transfer_vetoed next_label run_next run_queue_remove
  vetoed-IsPlaced r n q e = ground (arith, p q, current_runq t r)

  returned-IsPlaced :
      (r u : ℕ)
      → ((s.run_queue r).current ≡ some u) ⊎ ((s.run_queue r).current ≡ none)
      → IsPlaced (handler_returned r u s) t
  unfolding handler_returned settle run_queue_enqueue next_label run_next run_queue_remove
  returned-IsPlaced r u c q e = ground (arith, p q, has-append t (s.run_queue r).queued (u ∷ []))

-- Every critical section in which no assertion fails, and which unlinks no tasklet from a ring that it is
-- not on, keeps a tasklet in the reach of its run queue: if `t->runq` names a run
-- queue afterwards, that queue holds or runs `t`. Left out are `tasklet_fini` of `t` itself and a
-- vetoed transfer to `t` after `tasklet_stop`.
pub step-IsPlaced :
    (t : ℕ) (a : Action) (s : World)
    → Enabled a s
    → IsScheduled s
    → ¬ (Drops a t s)
    → IsPlaced s t
    → IsPlaced (step a s) t
unfolding step
step-IsPlaced t (run seen h u) s e v n p = run-IsPlaced t s v p seen h u
step-IsPlaced t (stop seen self u) s e v n p = stop-IsPlaced t s v p seen self u
step-IsPlaced t (fini seen self u) s e v n p = fini-IsPlaced t s v p seen self u n
step-IsPlaced t (starts q) s e v n p = starts-IsPlaced t s v p q e
step-IsPlaced t (waits q) s e v n p = waits-IsPlaced t s v p q
step-IsPlaced t (wakes q) s e v n p = wakes-IsPlaced t s v p q e.0
step-IsPlaced t (vetoed q) s e v n p = vetoed-IsPlaced t s v p q n
step-IsPlaced t (returned q u) s e v n p = returned-IsPlaced t s v p q u e.0

-- Where the transfer to a tasklet is vetoed after `tasklet_stop`, the worker passes it over and
-- leaves `t->runq` as it was: no run queue has the tasklet, from then on `tasklet_run` does nothing, and
-- `tasklet_stop` would unlink it by stale links.
pub vetoed_stop_loses :
    (q t h : ℕ) (s : World)
    → IsScheduled s
    → (s.run_queue q).current ≡ some t
    → (s.run_queue q).current_state ≡ current_stopped
    → let s' = step (vetoed q) s in
      ((r : ℕ) → (has t (s'.run_queue r).queued ≡ false) × ((s'.run_queue r).current ≢ some t))
      × ((s'.tasklet t).runq ≡ some q)
      × (tasklet_run h t s' ≡ s')
      × ((self : Bool) → (tasklet_stop_round (some q) self t s').1 ≡ dangling)
unfolding step transfer_vetoed next_label run_next run_queue_remove tasklet_run tasklet_run_round
    tasklet_stop_round
vetoed_stop_loses q t h s v c st =
    let runq = v.current_runq t q c in
    let out = v.apart t q c in
    (
      λ r. (
        ground (arith, out, runq, v.queued_runq t r),
        λ e. ground (arith, out, runq, v.current_runq t r),
      ),
      ground (arith, runq),
      ground (arith, runq, out),
      λ self. ground (arith, runq, out),
    )

-- With no other thread between the read of `t->runq` and the lock, `tasklet_run` of a tasklet that
-- is where its `runq` says is done in one round, and the tasklet is then in a queue, or is being run
-- and marked to be queued again.
pub tasklet_run_runs :
    (h t : ℕ) (s : World)
    → IsPlaced s t
    → let s' = tasklet_run h t s in
      ((tasklet_run_round (s.tasklet t).runq h t s).1 ≡ true)
      × ((q : ℕ) × ((has t (s'.run_queue q).queued ≡ true)
            ⊎ (((s'.run_queue q).current ≡ some t)
                × ((s'.run_queue q).current_state ≡ current_requeue))))
unfolding tasklet_run tasklet_run_round run_queue_enqueue
tasklet_run_runs h t s p = elim (Option-cases (s.tasklet t).runq) [
  | inl e ↦ (ground arith, (h, ground (arith, has-append t (s.run_queue h).queued (t ∷ []))))
  | inr (q, e) ↦ (ground arith, (q, ground (arith, p q)))
]

-- A tasklet that was run again while its handler was running is in the queue, or is already being
-- run anew, when the worker goes on.
requeued_runs :
    (q t : ℕ) (s : World)
    → IsScheduled s
    → (s.run_queue q).current ≡ some t
    → (s.run_queue q).current_state ≡ current_requeue
    → let s' = step (returned q t) s in
      (has t (s'.run_queue q).queued ≡ true)
      ⊎ (((s'.run_queue q).current ≡ some t) × ((s'.run_queue q).current_state ≡ current_started))
unfolding step handler_returned settle run_queue_enqueue next_label run_next run_queue_remove
requeued_runs q t s v c st =
    ground (arith, v.apart t q c, has-append t (s.run_queue q).queued (t ∷ []))
