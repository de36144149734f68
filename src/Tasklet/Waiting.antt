-- ===== src/Tasklet/Waiting.antt =====
-- src/tasklet.c: wait lists, from `wait_list_init` to `wait_list_nonempty`, one critical section at a
-- time. `here` is what `thread_run_queue` gives the calling thread.
use molerat.Base.{
  ℕ, ◌+◌, ◌-◌, Bool, true, false, not, ◌&&◌, Option, none, some, List, [], ◌∷◌, ◌++◌, leb, ◌==◌,
  if◌then◌else◌, is, update, remove,
}
use molerat.Tasklet.{Tasklet, WaitList, World}
use molerat.Tasklet.Runq.{tasklet_run}

abbrev pub set_tasklet : ℕ → Tasklet → World → World
set_tasklet t r s = record s { tasklet = update s.tasklet t r }

abbrev pub set_wait_list : ℕ → WaitList → World → World
set_wait_list w r s = record s { wait_list = update s.wait_list w r }

-- `wait_list_broadcast_locked`, over the ring from its head.
unfoldable pub broadcast : ℕ → List ℕ → World → World
broadcast here [] s = s
broadcast here (t ∷ ts) s = broadcast here ts (tasklet_run here t s)

unfoldable pub wait_list_broadcast : ℕ → ℕ → World → World
wait_list_broadcast here w s = broadcast here (s.wait_list w).waiters s

unfoldable pub wait_list_set : ℕ → ℕ → ℕ → Bool → World → World
unfolding wait_list_broadcast
wait_list_set here w n all s =
    let s' = set_wait_list w (record (s.wait_list w) { up_count = n }) s in
    if all then wait_list_broadcast here w s' else s'

unfoldable pub wait_list_up : ℕ → ℕ → ℕ → World → World
wait_list_up here w n s =
    let l = s.wait_list w in
    let s' = set_wait_list w (record l { up_count = l.up_count + n }) s in
    elim l.waiters [ [] ↦ s' | head ∷ _ ↦ tasklet_run here head s' ]

-- `head` is set while there are waiters, and while `wait_list_fini` waits.
unfoldable pub wait_list_nonempty : ℕ → World → Bool
wait_list_nonempty w s = elim (s.wait_list w).waiters [
  | [] ↦ (s.wait_list w).finishing
  | _ ∷ _ ↦ true
]

-- `wait_list_add`: a tasklet that comes to an empty list with ups to spare is run at once.
unfoldable pub wait_list_add : ℕ → ℕ → ℕ → World → World
wait_list_add here w t s =
    let l = s.wait_list w in
    let joined = set_tasklet t (record (s.tasklet t) { wait = some w }) s in
    elim l.waiters [
      | [] ↦
          let s' = set_wait_list w (record l { waiters = t ∷ [] }) joined in
          if l.up_count == 0 then s' else tasklet_run here t s'
      | head ∷ rest ↦ set_wait_list w (record l { waiters = head ∷ rest ++ t ∷ [] }) joined
    ]

abbrev pub mark_waited : ℕ → World → World
mark_waited t s = set_tasklet t (record (s.tasklet t) { waited = true }) s

-- `wait_list_wait`: one round; the flag says whether it is done. `t->waited` is set after the loop.
unfoldable pub wait_list_wait_round : ℕ → ℕ → ℕ → World → World × Bool
unfolding wait_list_add
wait_list_wait_round here w t s = elim (s.tasklet t).wait [
  | none ↦ (wait_list_add here w t s, true)
  | some v ↦ (s, v == w)
]

-- `wait_list_down`: one round, with its result; without one the tasklet has to leave another list
-- first.
unfoldable pub wait_list_down_round : ℕ → ℕ → ℕ → ℕ → World → World × Option Bool
unfolding wait_list_add
wait_list_down_round here w n t s =
    let l = s.wait_list w in
    elim (s.tasklet t).wait [
      | none ↦
          if leb n l.up_count
          then (set_wait_list w (record l { up_count = l.up_count - n }) s, some true)
          else (mark_waited t (wait_list_add here w t s), some false)
      | some v ↦
          if v == w
          then (if leb n l.up_count
              then (set_wait_list w (record l { up_count = l.up_count - n }) s, some true)
              else (mark_waited t s, some false))
          else (s, none)
    ]

-- `tasklet_unwait`, first critical section: the wait list that the tasklet is on, if it is on one,
-- and a note that this thread is about to take it off.
unfoldable pub unwait_begin : ℕ → World → World × Option ℕ
unwait_begin t s = elim (s.tasklet t).wait [
  | none ↦ (s, none)
  | some w ↦
      (set_tasklet t (record (s.tasklet t) { unwaiting = (s.tasklet t).unwaiting + 1 }) s, some w)
]

-- The tasklet leaves the ring of `w`; if it was the head and there are ups, the next one is run.
unfoldable pub unwait_leave : ℕ → ℕ → ℕ → World → World
unwait_leave here w t s =
    let l = s.wait_list w in
    let r = s.tasklet t in
    let rest = remove t l.waiters in
    let s' =
      set_wait_list w (record l { waiters = rest; unwaiting = l.unwaiting + r.unwaiting - 1 })
        (set_tasklet t (record r { wait = none; unwaiting = 0 }) s) in
    elim l.waiters [
      | [] ↦ s'
      | head ∷ _ ↦
          if head == t && not (l.up_count == 0)
          then (elim rest [ [] ↦ s' | next ∷ _ ↦ tasklet_run here next s' ])
          else s'
    ]

-- `tasklet_unwait`, second critical section, with both mutexes held. The flag says that it is done;
-- if the tasklet is no longer on `w` only the count goes down.
unfoldable pub unwait_finish : ℕ → ℕ → ℕ → World → World × Bool
unfolding unwait_leave
unwait_finish here w t s =
    if is (s.tasklet t).wait w
    then (unwait_leave here w t s, true)
    else (let l = s.wait_list w in
        (set_wait_list w (record l { unwaiting = l.unwaiting - 1 }) s, false))

-- `tasklet_unwait` with no other thread between the two critical sections.
unfoldable pub tasklet_unwait : ℕ → ℕ → World → World
unfolding unwait_begin unwait_finish
tasklet_unwait here t s = elim (unwait_begin t s).1 [
  | none ↦ s
  | some w ↦ (unwait_finish here w t (unwait_begin t s).0).0
]

-- `wait_list_wait` and `wait_list_down` undisturbed: after `tasklet_unwait` the second round is the
-- last.
unfoldable pub wait_list_wait : ℕ → ℕ → ℕ → World → World
unfolding wait_list_wait_round tasklet_unwait
wait_list_wait here w t s =
    let first = wait_list_wait_round here w t s in
    mark_waited t (
      if first.1
      then first.0
      else (wait_list_wait_round here w t (tasklet_unwait here t first.0)).0)

unfoldable pub wait_list_down : ℕ → ℕ → ℕ → ℕ → World → World × Option Bool
unfolding wait_list_down_round tasklet_unwait
wait_list_down here w n t s = elim (wait_list_down_round here w n t s).1 [
  | some done ↦ ((wait_list_down_round here w n t s).0, some done)
  | none ↦
      wait_list_down_round here w n t (tasklet_unwait here t (wait_list_down_round here w n t s).0)
]

-- `wait_list_fini`: the loop over the ring, from the tasklet given.
unfoldable pub release_waiters : ℕ → ℕ → List ℕ → World → World
release_waiters here w [] s = s
release_waiters here w (t ∷ ts) s =
    let s' = tasklet_run here t s in
    let l = s'.wait_list w in
    let r = s'.tasklet t in
    release_waiters here w ts (
      set_wait_list w (record l { unwaiting = l.unwaiting + r.unwaiting })
        (set_tasklet t (record r { wait = none; unwaiting = 0 }) s'))

-- `wait_list_fini` up to `cond_wait`; it is over at once where nobody has to be waited for.
unfoldable pub wait_list_fini_begin : ℕ → ℕ → World → World
unfolding release_waiters
wait_list_fini_begin here w s =
    let s' = release_waiters here w (s.wait_list w).waiters s in
    let l = s'.wait_list w in
    set_wait_list w (record l { waiters = []; finishing = not (l.unwaiting == 0) }) s'

-- The condition on which `wait_list_fini` goes on, and what it leaves.
unfoldable pub wait_list_fini_ready : ℕ → World → Bool
wait_list_fini_ready w s = (s.wait_list w).unwaiting == 0

unfoldable pub wait_list_fini_end : ℕ → World → World
wait_list_fini_end w s = set_wait_list w (record (s.wait_list w) { finishing = false }) s
