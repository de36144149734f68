-- ===== src/Queue/Pushing.antt =====
-- src/queue.c: `queue_push` on every branch.
use molerat.Base.{
  ap, ℕ, ◌+◌, ◌<◌, ◌≡◌, ◌≢◌, refl, ◌⊎◌, inl, inr, Bool, true, false, ◌∷◌, ◌++◌, [], leb, arith,
  Bool-cases, sym, ◌∙◌,
}
use molerat.Tasklet.{World}
use molerat.Tasklet.Waiting.{wait_list_up}
use molerat.Tasklet.Effects.{wait_list_up-up_count}
use molerat.Queue.{
  Queue, was_full, was_empty, same_state, flip_waiters_state, blocked, store, push_unless_blocked,
  queue_push,
}
use molerat.Queue.Fifo.{size, contents, CanGrow, store-IsRing, contents-store}
use molerat.Queue.Counting.{
  ups, IsCounted, store-Keeps, size-store, blocked-BlockOutcome, Flipped, flip_full,
}

-- What a push of `x` comes to.
pub record Pushed (x : ℕ) (q : Queue) (r : (Queue × World) × Bool) : Type 0 where
  pub counted : IsCounted r.0.0 r.0.1
  pub outcome :
      ((r.1 ≡ true) × (size q < q.max_size) × (contents r.0.0 ≡ contents q ++ x ∷ []))
      ⊎ ((r.1 ≡ false) × (size q ≡ q.max_size) × (contents r.0.0 ≡ contents q))

module _ (h : ℕ) (junk : ℕ → ℕ) (x t : ℕ) (q : Queue) (s : World) (v : IsCounted q s) where
  grows : size q < q.max_size → CanGrow q
  grows lt e = let limit = v.limit in omega arith

  stored :
      (s' : World)
      → (q.waiters_state ≡ was_full → ups q s' + (size q + 1) ≡ q.max_size)
      → (q.waiters_state ≡ was_empty → ups q s' ≡ size q + 1)
      → size q < q.max_size
      → Pushed x q ((store junk x q, s'), true)
  stored s' full empty lt =
      let k = store-Keeps junk x q in
      let more = size-store junk x q v.ring in
      let same : ups (store junk x q) s' ≡ ups q s' =
        ap (λ w. (s'.wait_list w).up_count) k.waiters in
      record {
        counted = record {
          ring = store-IsRing junk x q v.ring (grows lt);
          within = omega (arith, more, k.max_size);
          limit = omega (arith, k.max_size, v.limit);
          free_places = λ e. omega (arith, same, more, k.max_size, full (sym k.waiters_state ∙ e));
          items_left = λ e. omega (arith, same, more, empty (sym k.waiters_state ∙ e));
        };
        outcome = inl (refl, lt, contents-store junk x q v.ring (grows lt));
      }

  push-Pushed :
      (size q ≡ q.max_size → q.waiters_state ≡ was_full)
      → Pushed x q (push_unless_blocked h junk x t q s)
  unfolding push_unless_blocked
  push-Pushed full = elim (blocked-BlockOutcome h was_full t q s) [
    | inl b ↦
        let k = store-Keeps junk x q in
        let ne : size q ≢ q.max_size = λ e. b.0 (full e) in
        let lt : size q < q.max_size = omega (arith, v.within) in
        elim (Bool-cases (same_state (store junk x q).waiters_state was_empty)) [
          | inl readers ↦
              rw (b.1, push_unless_blocked, readers)
                (stored (wait_list_up h (store junk x q).waiters 1 s) (λ e. absurd (b.0 e))
                  (λ e.
                    rw k.waiters
                      (omega (arith, v.items_left e, wait_list_up-up_count h q.waiters s 1)))
                  lt)
          | inr others ↦
              rw (b.1, push_unless_blocked, others)
                (stored s (λ e. absurd (b.0 e)) (λ e. ground (arith, k.waiters_state)) lt)
        ]
    | inr (inl c) ↦
        let k = store-Keeps junk x q in
        let e = v.free_places c.0 in
        let writers : same_state (store junk x q).waiters_state was_empty ≡ false =
          ground (arith, k.waiters_state, c.0) in
        rw (c.1, push_unless_blocked, writers)
          (stored (blocked h was_full t q s).0 (λ _. omega (arith, c.2)) (λ n. cc)
            (omega (arith, c.2)))
    | inr (inr c) ↦
        let e = v.free_places c.0 in
        rw (c.1, push_unless_blocked)
          record {
            counted = record {
              ring = v.ring;
              within = v.within;
              limit = v.limit;
              free_places = λ _. omega (arith, c.2);
              items_left = λ n. cc;
            };
            outcome = inr (refl, omega (arith, c.3), refl);
          }
  ]

module _ (h : ℕ) (junk : ℕ → ℕ) (x t : ℕ) (q : Queue) (s : World) (v : IsCounted q s) where
  Pushed-Flipped :
      {r : (Queue × World) × Bool} (p : Queue × World) → Flipped q p → Pushed x p.0 r → Pushed x q r
  Pushed-Flipped p f r = record {
    counted = r.counted;
    outcome = ground (arith, r.outcome, f.same, f.same_size, f.same_max);
  }

  -- On a queue that is counted, `queue_push` succeeds exactly while there is a free place, puts its
  -- item behind the others if it does, and else changes none of them; and the queue stays counted.
  pub queue_push-Pushed : Pushed x q (queue_push h junk x t q s)
  unfolding queue_push
  queue_push-Pushed = elim (Bool-cases (leb q.max_size (size q))) [
    | inl full ↦
        let (f, state) = flip_full h q s v (ground (arith, v.within)) in
        rw full (
          Pushed-Flipped (flip_waiters_state h was_full q s) f (
            push-Pushed h junk x t (flip_waiters_state h was_full q s).0
              (flip_waiters_state h was_full q s).1 f.counted (λ _. state)))
    | inr room ↦ rw room (push-Pushed h junk x t q s v (λ e. absurd (ground arith)))
  ]
