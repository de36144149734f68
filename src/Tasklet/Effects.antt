-- ===== src/Tasklet/Effects.antt =====
-- What the operations of Tasklet/Waiting.antt do to wait lists and to the fields of tasklets.
use molerat.Base.{
  subst, sym, Option, ◌≢◌, Option-cases, ℕ_discrete, ◌+◌, ◌<◌, ◌⊎◌, inl, inr, true, false, some,
  leb, Bool-cases, ℕ, ◌+◌, ◌≡◌, refl, ap, ◌∙◌, Bool, true, false, none, List, [], ◌∷◌, arith,
}
use molerat.Tasklet.{World, Tasklet}
use molerat.Tasklet.Runq.{run_queue_enqueue, tasklet_run_round, tasklet_run}
use molerat.Tasklet.Waiting.{
  tasklet_unwait, wait_list_down, wait_list_down_round, broadcast, wait_list_broadcast,
  wait_list_set, wait_list_up, wait_list_add, unwait_begin, unwait_leave, unwait_finish,
  tasklet_unwait,
}

module _ (h t : ℕ) (s : World) where
  pub tasklet_run-wait_list : (w : ℕ) → (tasklet_run h t s).wait_list w ≡ s.wait_list w
  unfolding tasklet_run tasklet_run_round run_queue_enqueue
  tasklet_run-wait_list w = ground arith

  pub tasklet_run-wait : (u : ℕ) → ((tasklet_run h t s).tasklet u).wait ≡ (s.tasklet u).wait
  unfolding tasklet_run tasklet_run_round run_queue_enqueue
  tasklet_run-wait u = ground arith

  pub tasklet_run-unwaiting :
      (u : ℕ) → ((tasklet_run h t s).tasklet u).unwaiting ≡ (s.tasklet u).unwaiting
  unfolding tasklet_run tasklet_run_round run_queue_enqueue
  tasklet_run-unwaiting u = ground arith

  pub tasklet_run-waited : (u : ℕ) → ((tasklet_run h t s).tasklet u).waited ≡ (s.tasklet u).waited
  unfolding tasklet_run tasklet_run_round run_queue_enqueue
  tasklet_run-waited u = ground arith

pub ruleset unmoved =
    (tasklet_run-wait_list, tasklet_run-wait, tasklet_run-unwaiting, tasklet_run-waited)

-- The fields of a tasklet that `wait_mutex` and the wait list's mutex cover.
pub record SameWait (a b : Tasklet) : Type 0 where
  pub wait : a.wait ≡ b.wait
  pub unwaiting : a.unwaiting ≡ b.unwaiting
  pub waited : a.waited ≡ b.waited

-- Wait lists and waiting tasklets are as they were.
pub record Unmoved (s s' : World) : Type 0 where
  pub wait_list : (w : ℕ) → s'.wait_list w ≡ s.wait_list w
  pub tasklet : (t : ℕ) → SameWait (s'.tasklet t) (s.tasklet t)

pub tasklet_run-Unmoved : (h t : ℕ) (s : World) → Unmoved s (tasklet_run h t s)
tasklet_run-Unmoved h t s = record {
  wait_list = tasklet_run-wait_list h t s;
  tasklet = λ u. record {
    wait = tasklet_run-wait h t s u;
    unwaiting = tasklet_run-unwaiting h t s u;
    waited = tasklet_run-waited h t s u;
  };
}

pub Unmoved-trans : {s u v : World} → Unmoved s u → Unmoved u v → Unmoved s v
Unmoved-trans a b = record {
  wait_list = λ w. b.wait_list w ∙ a.wait_list w;
  tasklet = λ t. record {
    wait = (b.tasklet t).wait ∙ (a.tasklet t).wait;
    unwaiting = (b.tasklet t).unwaiting ∙ (a.tasklet t).unwaiting;
    waited = (b.tasklet t).waited ∙ (a.tasklet t).waited;
  };
}

pub Unmoved-refl : (s : World) → Unmoved s s
Unmoved-refl s = record {
  wait_list = λ w. refl;
  tasklet = λ t. record { wait = refl; unwaiting = refl; waited = refl };
}

pub broadcast-Unmoved : (h : ℕ) (ts : List ℕ) (s : World) → Unmoved s (broadcast h ts s)
unfolding broadcast
broadcast-Unmoved h [] s = Unmoved-refl s
broadcast-Unmoved h (t ∷ ts) s =
    Unmoved-trans (tasklet_run-Unmoved h t s) (broadcast-Unmoved h ts (tasklet_run h t s))

pub broadcast-wait_list :
    (h : ℕ) (ts : List ℕ) (s : World) (w : ℕ) → (broadcast h ts s).wait_list w ≡ s.wait_list w
broadcast-wait_list h ts s w = (broadcast-Unmoved h ts s).wait_list w

module _ (h w : ℕ) (s : World) where
  pub wait_list_set-up_count :
      (n : ℕ) (all : Bool) → ((wait_list_set h w n all s).wait_list w).up_count ≡ n
  unfolding wait_list_set wait_list_broadcast
  wait_list_set-up_count n true = grind (arith, broadcast-wait_list)
  wait_list_set-up_count n false = ground arith

  pub wait_list_up-up_count :
      (n : ℕ) → ((wait_list_up h w n s).wait_list w).up_count ≡ (s.wait_list w).up_count + n
  unfolding wait_list_up
  wait_list_up-up_count n = grind (arith, unmoved)

  pub wait_list_add-up_count :
      (v t : ℕ) → ((wait_list_add h v t s).wait_list w).up_count ≡ (s.wait_list w).up_count
  unfolding wait_list_add
  wait_list_add-up_count v t = grind (arith, unmoved)

  pub unwait-up_count :
      (t : ℕ) → ((tasklet_unwait h t s).wait_list w).up_count ≡ (s.wait_list w).up_count
  unfolding tasklet_unwait unwait_begin unwait_finish unwait_leave
  unwait-up_count t = grind (arith, unmoved)

  pub unwait-wait : (t : ℕ) → ((tasklet_unwait h t s).tasklet t).wait ≡ none
  unfolding tasklet_unwait unwait_begin unwait_finish unwait_leave
  unwait-wait t = grind (arith, unmoved)

  -- `wait_list_down` takes `n` ups where there are as many, and otherwise takes none and leaves the
  -- tasklet on the list.
  abbrev pub TakesUps : ℕ → ℕ → World × Option Bool → Type 0
  TakesUps n t r =
      ((r.1 ≡ some true) × ((r.0.wait_list w).up_count + n ≡ (s.wait_list w).up_count))
      ⊎ ((r.1 ≡ some false)
          × ((r.0.wait_list w).up_count ≡ (s.wait_list w).up_count)
          × ((s.wait_list w).up_count < n)
          × ((r.0.tasklet t).wait ≡ some w)
          × ((r.0.tasklet t).waited ≡ true))

  down_round-TakesUps :
      (n t : ℕ)
      → ((s.tasklet t).wait ≡ none) ⊎ ((s.tasklet t).wait ≡ some w)
      → TakesUps n t (wait_list_down_round h w n t s)
  unfolding wait_list_down_round wait_list_add
  down_round-TakesUps n t e = elim (Bool-cases (leb n (s.wait_list w).up_count)) [
    | inl enough ↦ inl (ground arith, ground arith)
    | inr few ↦
        inr
          (ground arith, grind (arith, unmoved), ground arith, grind (arith, unmoved), ground arith)
  ]

module _ (h w : ℕ) (s : World) where
  down_elsewhere :
      (n t v : ℕ) → (s.tasklet t).wait ≡ some v → v ≢ w → wait_list_down_round h w n t s ≡ (s, none)
  unfolding wait_list_down_round
  down_elsewhere n t v e ne = ground arith

  down_first :
      (n t : ℕ) (b : Bool)
      → (wait_list_down_round h w n t s).1 ≡ some b
      → wait_list_down h w n t s ≡ wait_list_down_round h w n t s
  unfolding wait_list_down
  down_first n t b e = ground arith

  down_second :
      (n t v : ℕ)
      → (s.tasklet t).wait ≡ some v
      → v ≢ w
      → wait_list_down h w n t s ≡ wait_list_down_round h w n t (tasklet_unwait h t s)
  unfolding wait_list_down
  down_second n t v e ne = ground (arith, down_elsewhere n t v e ne)

  down_here :
      (n t : ℕ)
      → ((s.tasklet t).wait ≡ none) ⊎ ((s.tasklet t).wait ≡ some w)
      → TakesUps h w s n t (wait_list_down h w n t s)
  down_here n t e = elim (down_round-TakesUps h w s n t e) [
    | inl d ↦ subst (TakesUps h w s n t) (sym (down_first n t true d.0)) (inl d)
    | inr d ↦ subst (TakesUps h w s n t) (sym (down_first n t false d.0)) (inr d)
  ]

  pub wait_list_down-TakesUps : (n t : ℕ) → TakesUps h w s n t (wait_list_down h w n t s)
  wait_list_down-TakesUps n t = elim (Option-cases (s.tasklet t).wait) [
    | inl e ↦ down_here n t (inl e)
    | inr (v, e) ↦ elim (ℕ_discrete v w) [
      | yes same ↦ down_here n t (inr (e ∙ ap some same))
      | no other ↦ subst (TakesUps h w s n t) (sym (down_second n t v e other)) (
          rw (unwait-up_count h w s t) at
            (down_round-TakesUps h w (tasklet_unwait h t s) n t (inl (unwait-wait h w s t))))
    ]
  ]
