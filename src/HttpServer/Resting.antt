-- ===== src/HttpServer/Resting.antt =====
-- src/http_server.c: proofs about the tasklets of a connection.
use molerat.Base.{
  ℕ, ◌≡◌, ◌≢◌, refl, ap, sym, ◌∙◌, arith, ◌⊎◌, inl, inr, Bool, true, false, Option-cases, none,
  some, List, [], ◌∷◌, has, remove, ◌==◌, ◌++◌, if◌then◌else◌, has-append,
}
use molerat.Tasklet.{World, Tasklet, current_stopped}
use molerat.Tasklet.Runq.{
  run_queue_enqueue, run_queue_remove, tasklet_run, tasklet_run_round, tasklet_stop_round,
  tasklet_fini_round,
}
use molerat.Tasklet.Waiting.{
  mark_waited, set_wait_list, set_tasklet, tasklet_unwait, unwait_begin, unwait_finish,
  unwait_leave, release_waiters, wait_list_wait, wait_list_wait_round, wait_list_add,
  wait_list_fini_begin,
}
use molerat.Tasklet.Effects.{tasklet_run-wait, unwait-wait, unmoved}
use molerat.HttpServer.Exchange.{tasklet_stop, tasklet_fini}

-- A tasklet that is on no wait list, and on no run queue that would run it: where `t->runq` is set, the
-- tasklet is not queued there, or the worker lets it go once the handler has returned.
abbrev pub AtRest : ℕ → World → Type 0
AtRest t s =
    ((s.tasklet t).wait ≡ none)
    × ((q : ℕ)
        → (s.tasklet t).runq ≡ some q
        → (has t (s.run_queue q).queued ≡ false)
          ⊎ ((((s.run_queue q).current ≡ some t) ⊎ ((s.run_queue q).current ≡ none))
              × ((s.run_queue q).current_state ≡ current_stopped)))

runq-tasklet_run :
    (here t u : ℕ) (s : World)
    → u ≢ t
    → ((tasklet_run here u s).tasklet t).runq ≡ (s.tasklet t).runq
unfolding tasklet_run tasklet_run_round run_queue_enqueue
runq-tasklet_run here t u s other = ground arith

-- Another tasklet is run.
run-AtRest : (here t u : ℕ) (s : World) → u ≢ t → AtRest t s → AtRest t (tasklet_run here u s)
unfolding tasklet_run tasklet_run_round run_queue_enqueue
run-AtRest here t u s other (waits, runs) = (
  tasklet_run-wait here u s t ∙ waits,
  λ q e.
      let e' : (s.tasklet t).runq ≡ some q = sym (runq-tasklet_run here t u s other) ∙ e in
      let r = runs q e' in ground (arith, has-append t (s.run_queue q).queued (u ∷ [])),
)

has_not-remove : (t u : ℕ) (xs : List ℕ) → has t xs ≡ false → has t (remove u xs) ≡ false
has_not-remove t u [] h = refl
has_not-remove t u (x ∷ xs) h = let r = has_not-remove t u xs in ground arith

stop_round-AtRest :
    (t : ℕ) (s : World)
    → (s.tasklet t).wait ≡ none
    → AtRest t (tasklet_stop_round (s.tasklet t).runq true t s).0
unfolding tasklet_stop_round run_queue_remove
stop_round-AtRest t s waits = elim (Option-cases (s.tasklet t).runq) [
  | inl e ↦ rw e (waits, λ q d. absurd (cc))
  | inr (p, e) ↦ rw e (ground (arith, waits), λ q d. ground arith)
]

fini_round-AtRest :
    (t : ℕ) (s : World)
    → (s.tasklet t).wait ≡ none
    → AtRest t (tasklet_fini_round (s.tasklet t).runq true t s).0
unfolding tasklet_fini_round run_queue_remove
fini_round-AtRest t s waits = elim (Option-cases (s.tasklet t).runq) [
  | inl e ↦ rw e (waits, λ q d. absurd (cc))
  | inr (p, e) ↦ rw e (ground (arith, waits), λ q d. ground arith)
]

-- Another tasklet is finished.
fini_other-AtRest :
    (t u : ℕ) (s : World)
    → u ≢ t
    → AtRest t s
    → AtRest t (tasklet_fini_round (s.tasklet u).runq true u s).0
unfolding tasklet_fini_round run_queue_remove
fini_other-AtRest t u s other (waits, runs) = elim (Option-cases (s.tasklet u).runq) [
  | inl e ↦ rw e (waits, runs)
  | inr (p, e) ↦ rw e (
    ground (arith, waits),
    λ q d.
        let d' : (s.tasklet t).runq ≡ some q = ground arith in
        let r = runs q d' in ground (arith, has_not-remove t u (s.run_queue q).queued),
  )
]

pub stop-AtRest : (here t : ℕ) (s : World) → AtRest t (tasklet_stop here t s)
unfolding tasklet_stop
stop-AtRest here t s = stop_round-AtRest t (tasklet_unwait here t s) (unwait-wait here 0 s t)

pub fini-AtRest : (here t : ℕ) (s : World) → AtRest t (tasklet_fini here t s)
unfolding tasklet_fini
fini-AtRest here t s = fini_round-AtRest t (tasklet_unwait here t s) (unwait-wait here 0 s t)

-- Another tasklet changes but for its `runq`.
set_other-AtRest :
    (t u : ℕ) (r : Tasklet) (s : World) → u ≢ t → AtRest t s → AtRest t (set_tasklet u r s)
set_other-AtRest t u r s other (waits, runs) = (ground (arith, waits), λ q e. runs q (ground arith))

fini_round_wait :
    (t : ℕ) (s : World) (u : ℕ)
    → ((tasklet_fini_round (s.tasklet t).runq true t s).0.tasklet u).wait ≡ (s.tasklet u).wait
unfolding tasklet_fini_round run_queue_remove
fini_round_wait t s u = ground arith

module _ (here t : ℕ) (s : World) where
  -- A tasklet that is not on a list does not come there.
  fini-not :
      (w : ℕ)
      → has t (s.wait_list w).waiters ≡ false
      → has t ((tasklet_fini here t s).wait_list w).waiters ≡ false
  unfolding tasklet_fini tasklet_fini_round run_queue_remove tasklet_unwait unwait_begin
      unwait_finish unwait_leave
  fini-not w out = grind (arith, unmoved, has_not-remove t t (s.wait_list w).waiters out)

  -- The others wait as they did.
  unwait_other : (u : ℕ) → u ≢ t → ((tasklet_unwait here t s).tasklet u).wait ≡ (s.tasklet u).wait
  unfolding tasklet_unwait unwait_begin unwait_finish unwait_leave
  unwait_other u other = grind (arith, unmoved)

  fini_wait : (u : ℕ) → u ≢ t → ((tasklet_fini here t s).tasklet u).wait ≡ (s.tasklet u).wait
  unfolding tasklet_fini
  fini_wait u other = fini_round_wait t (tasklet_unwait here t s) u ∙ unwait_other u other

same-AtRest :
    (t : ℕ) (s s' : World)
    → s'.tasklet t ≡ s.tasklet t
    → ((q : ℕ) → s'.run_queue q ≡ s.run_queue q)
    → AtRest t s
    → AtRest t s'
same-AtRest t s s' same queues (waits, runs) =
    (ap (λ x. x.wait) same ∙ waits, λ q e. rw (queues q) (runs q (ap (λ x. x.runq) (sym same) ∙ e)))

module _ (here w t u : ℕ) (other : u ≢ t) where
  -- The tasklets of `w` are released; `u` is on `w` or on no list.
  release-AtRest :
      (ts : List ℕ) (s : World)
      → has t ts ≡ false
      → ((s.tasklet u).wait ≡ none) ⊎ ((s.tasklet u).wait ≡ some w)
      → AtRest t s
      → AtRest t (release_waiters here w ts s)
        × ((((release_waiters here w ts s).tasklet u).wait ≡ none)
            ⊎ (((release_waiters here w ts s).tasklet u).wait ≡ some w))
  unfolding release_waiters
  release-AtRest [] s out on rest = (rest, on)
  release-AtRest (v ∷ ts) s out on rest =
      let s' = tasklet_run here v s in
      let ne : v ≢ t = λ e. ground arith in
      let ran = run-AtRest here t v s ne rest in
      let on' : ((s'.tasklet u).wait ≡ none) ⊎ ((s'.tasklet u).wait ≡ some w) =
        rw (tasklet_run-wait here v s u) on in
      release-AtRest ts _ (ground arith) (ground arith)
        (set_other-AtRest t v (record (s'.tasklet v) { wait = none; unwaiting = 0 }) s' ne ran)

  unwait_apart :
      (s : World)
      → (s.wait_list w).waiters ≡ []
      → ((s.tasklet u).wait ≡ none) ⊎ ((s.tasklet u).wait ≡ some w)
      → ((tasklet_unwait here u s).tasklet t ≡ s.tasklet t)
        × ((q : ℕ) → (tasklet_unwait here u s).run_queue q ≡ s.run_queue q)
  unfolding tasklet_unwait unwait_begin unwait_finish unwait_leave
  unwait_apart s nobody (inl e) = (ground arith, λ q. ground arith)
  unwait_apart s nobody (inr e) = (ground arith, λ q. ground arith)

  -- `u` is finished, once nobody waits on `w`.
  fini_apart-AtRest :
      (s : World)
      → (s.wait_list w).waiters ≡ []
      → ((s.tasklet u).wait ≡ none) ⊎ ((s.tasklet u).wait ≡ some w)
      → AtRest t s
      → AtRest t (tasklet_fini here u s)
  unfolding tasklet_fini
  fini_apart-AtRest s nobody on rest = fini_other-AtRest t u (tasklet_unwait here u s) other (
      same-AtRest t s (tasklet_unwait here u s) (unwait_apart s nobody on).0
        (unwait_apart s nobody on).1 rest)

  -- What goes on when a connection is destroyed, where `t` is not among the tasklets that wait on `w`.
  pub destroyed-AtRest :
      (s : World)
      → has t (s.wait_list w).waiters ≡ false
      → ((s.tasklet u).wait ≡ none) ⊎ ((s.tasklet u).wait ≡ some w)
      → AtRest t (tasklet_fini here u (wait_list_fini_begin here w (tasklet_fini here t s)))
  unfolding wait_list_fini_begin
  destroyed-AtRest s out on =
      let s₁ = tasklet_fini here t s in
      let (rest, on') =
        release-AtRest (s₁.wait_list w).waiters s₁ (fini-not here t s w out)
          (rw (fini_wait here t s u other) on) (fini-AtRest here t s) in
      fini_apart-AtRest (wait_list_fini_begin here w s₁) (ground arith) on' rest

-- Another tasklet comes to a wait list.
add-AtRest : (here w t u : ℕ) (s : World) → u ≢ t → AtRest t s → AtRest t (wait_list_add here w u s)
unfolding wait_list_add
add-AtRest here w t u s other rest =
    let joined = set_tasklet u (record (s.tasklet u) { wait = some w }) s in
    by_waiters joined (set_other-AtRest t u (record (s.tasklet u) { wait = some w }) s other rest)
      (s.wait_list w).waiters ((s.wait_list w).up_count == 0)
  where
    by_waiters :
        (joined : World)
        → AtRest t joined
        → (waiters : List ℕ) (none_spare : Bool)
        → let added : World = elim waiters [
          | [] ↦
              let s' = set_wait_list w (record (s.wait_list w) { waiters = u ∷ [] }) joined in
              if none_spare then s' else tasklet_run here u s'
          | head ∷ rest ↦
              set_wait_list w (record (s.wait_list w) { waiters = head ∷ rest ++ u ∷ [] }) joined
        ] in
          AtRest t added
    by_waiters joined rest [] true = rest
    by_waiters joined rest [] false =
        run-AtRest here t u (set_wait_list w (record (s.wait_list w) { waiters = u ∷ [] }) joined)
          other rest
    by_waiters joined rest (head ∷ more) b = rest

mark-AtRest : (t u : ℕ) (s : World) → u ≢ t → AtRest t s → AtRest t (mark_waited u s)
mark-AtRest t u s other rest =
    set_other-AtRest t u (record (s.tasklet u) { waited = true }) s other rest

module _ (here w u : ℕ) (s : World) where
  waits_newly :
      (s.tasklet u).wait ≡ none
      → wait_list_wait here w u s ≡ mark_waited u (wait_list_add here w u s)
  unfolding wait_list_wait wait_list_wait_round
  waits_newly e =
      let r : wait_list_wait_round here w u s ≡ (wait_list_add here w u s, true) =
        rw (wait_list_wait_round, e) refl in
      rw (wait_list_wait, r) refl

  waits_already : (s.tasklet u).wait ≡ some w → wait_list_wait here w u s ≡ mark_waited u s
  unfolding wait_list_wait wait_list_wait_round
  waits_already e =
      let d : w == w ≡ true = ground arith in
      let r : wait_list_wait_round here w u s ≡ (s, true) = rw (wait_list_wait_round, e, d) refl in
      rw (wait_list_wait, r) refl

-- Another tasklet waits.
pub wait-AtRest :
    (here w t u : ℕ) (s : World)
    → u ≢ t
    → ((s.tasklet u).wait ≡ none) ⊎ ((s.tasklet u).wait ≡ some w)
    → AtRest t s
    → AtRest t (wait_list_wait here w u s)
wait-AtRest here w t u s other (inr e) rest =
    rw (waits_already here w u s e) (mark-AtRest t u s other rest)
wait-AtRest here w t u s other (inl e) rest =
    rw (waits_newly here w u s e)
      (mark-AtRest t u (wait_list_add here w u s) other (add-AtRest here w t u s other rest))

stop_round_wait :
    (t : ℕ) (s : World) (u : ℕ)
    → ((tasklet_stop_round (s.tasklet t).runq true t s).0.tasklet u).wait ≡ (s.tasklet u).wait
unfolding tasklet_stop_round run_queue_remove
stop_round_wait t s u = ground arith

-- `tasklet_stop` of a tasklet that is not on a list, and of another one.
module _ (here t : ℕ) (s : World) where
  pub stop-not :
      (w : ℕ)
      → has t (s.wait_list w).waiters ≡ false
      → has t ((tasklet_stop here t s).wait_list w).waiters ≡ false
  unfolding tasklet_stop tasklet_stop_round run_queue_remove tasklet_unwait unwait_begin
      unwait_finish unwait_leave
  stop-not w out = grind (arith, unmoved, has_not-remove t t (s.wait_list w).waiters out)

  pub stop_wait : (u : ℕ) → u ≢ t → ((tasklet_stop here t s).tasklet u).wait ≡ (s.tasklet u).wait
  unfolding tasklet_stop
  stop_wait u other = stop_round_wait t (tasklet_unwait here t s) u ∙ unwait_other here t s u other

-- A tasklet waits on a list, or goes on waiting there.
module _ (here w t u : ℕ) (s : World) (other : u ≢ t) where
  add-not :
      has t (s.wait_list w).waiters ≡ false
      → has t ((wait_list_add here w u s).wait_list w).waiters ≡ false
  unfolding wait_list_add
  add-not out = grind (arith, unmoved, has-append t (s.wait_list w).waiters (u ∷ []))

  add_on : ((wait_list_add here w u s).tasklet u).wait ≡ some w
  unfolding wait_list_add
  add_on = grind (arith, unmoved)

  pub wait-alone :
      ((s.tasklet u).wait ≡ none) ⊎ ((s.tasklet u).wait ≡ some w)
      → has t (s.wait_list w).waiters ≡ false
      → (has t ((wait_list_wait here w u s).wait_list w).waiters ≡ false)
        × (((wait_list_wait here w u s).tasklet u).wait ≡ some w)
  wait-alone (inl e) out =
      rw (waits_newly here w u s e) (add-not out, let a = add_on in ground arith)
  wait-alone (inr e) out = rw (waits_already here w u s e) (out, ground arith)
