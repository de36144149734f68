-- ===== src/Queue/Shifting.antt =====
-- src/queue.c: `queue_shift` on every branch.
use molerat.Base.{
  ap, ℕ, ◌+◌, ◌≡◌, ◌≢◌, refl, ◌⊎◌, inl, inr, false, ◌∷◌, [], ◌==◌, arith, Bool-cases, sym, ◌∙◌,
}
use molerat.Tasklet.{World}
use molerat.Tasklet.Waiting.{wait_list_up}
use molerat.Tasklet.Effects.{wait_list_up-up_count}
use molerat.Queue.{
  Queue, was_full, was_empty, same_state, flip_waiters_state, blocked, fetch, shift_unless_blocked,
  queue_shift, Shift, item, null,
}
use molerat.Queue.Fifo.{size, contents, fetch-IsRing, contents-fetch}
use molerat.Queue.Counting.{
  ups, IsCounted, fetch-Keeps, size-fetch, blocked-BlockOutcome, Flipped, flip_empty,
}

-- What a shift comes to; its assertion never fails.
pub record Shifted (q : Queue) (r : (Queue × World) × Shift) : Type 0 where
  pub counted : IsCounted r.0.0 r.0.1
  pub outcome :
      ((x : ℕ) × (r.1 ≡ item x) × (contents q ≡ x ∷ contents r.0.0))
      ⊎ ((r.1 ≡ null) × (contents q ≡ []) × (contents r.0.0 ≡ []))

module _ (h t : ℕ) (q : Queue) (s : World) (v : IsCounted q s) where
  fetched :
      (s' : World)
      → (q.waiters_state ≡ was_full → ups q s' + size q ≡ q.max_size + 1)
      → (q.waiters_state ≡ was_empty → ups q s' + 1 ≡ size q)
      → q.read ≢ q.write
      → Shifted q ((fetch q, s'), item (q.items q.read))
  fetched s' full empty ne =
      let k = fetch-Keeps q in
      let less = size-fetch q v.ring ne in
      let same : ups (fetch q) s' ≡ ups q s' = ap (λ w. (s'.wait_list w).up_count) k.waiters in
      record {
        counted = record {
          ring = fetch-IsRing q v.ring ne;
          within = omega (arith, less, k.max_size, v.within);
          limit = omega (arith, k.max_size, v.limit);
          free_places = λ e. omega (arith, same, less, k.max_size, full (sym k.waiters_state ∙ e));
          items_left = λ e. omega (arith, same, less, empty (sym k.waiters_state ∙ e));
        };
        outcome = inl (q.items q.read, refl, contents-fetch q v.ring ne);
      }

  shift-Shifted :
      (q.read ≡ q.write → q.waiters_state ≡ was_empty) → Shifted q (shift_unless_blocked h t q s)
  unfolding shift_unless_blocked
  shift-Shifted none_left = elim (blocked-BlockOutcome h was_empty t q s) [
    | inl b ↦
        let k = fetch-Keeps q in
        let ne : q.read ≢ q.write = λ e. b.0 (none_left e) in
        let here : (q.read == q.write) ≡ false = ground arith in
        elim (Bool-cases (same_state (fetch q).waiters_state was_full)) [
          | inl writers ↦
              rw (b.1, shift_unless_blocked, here, writers)
                (fetched (wait_list_up h (fetch q).waiters 1 s)
                  (λ e.
                    rw k.waiters
                      (omega (arith, v.free_places e, wait_list_up-up_count h q.waiters s 1)))
                  (λ e. absurd (b.0 e)) ne)
          | inr others ↦
              rw (b.1, shift_unless_blocked, here, others)
                (fetched s (λ e. ground (arith, k.waiters_state)) (λ e. absurd (b.0 e)) ne)
        ]
    | inr (inl c) ↦
        let k = fetch-Keeps q in
        let e = v.items_left c.0 in
        let le = v.ring.read_le in
        let ne : q.read ≢ q.write = omega (arith, c.2) in
        let here : (q.read == q.write) ≡ false = ground arith in
        let readers : same_state (fetch q).waiters_state was_full ≡ false =
          ground (arith, k.waiters_state, c.0) in
        rw (c.1, shift_unless_blocked, here, readers)
          (fetched (blocked h was_empty t q s).0 (λ n. cc) (λ _. omega (arith, c.2)) ne)
    | inr (inr c) ↦
        let e = v.items_left c.0 in
        let no_items : size q ≡ 0 = omega (arith, c.3) in
        let no_contents : contents q ≡ [] = rw no_items in
        rw (c.1, shift_unless_blocked)
          record {
            counted = record {
              ring = v.ring;
              within = v.within;
              limit = v.limit;
              free_places = λ n. cc;
              items_left = λ _. omega (arith, c.2);
            };
            outcome = inr (refl, no_contents, no_contents);
          }
  ]

module _ (h t : ℕ) (q : Queue) (s : World) (v : IsCounted q s) where
  Shifted-Flipped :
      {r : (Queue × World) × Shift} (p : Queue × World) → Flipped q p → Shifted p.0 r → Shifted q r
  Shifted-Flipped p f r = record { counted = r.counted; outcome = rw (← f.same) r.outcome }

  -- On a queue that is counted, `queue_shift` takes the oldest item if there is one, and else gives
  -- `NULL`; its assertion never fails, and the queue stays counted.
  pub queue_shift-Shifted : Shifted q (queue_shift h t q s)
  unfolding queue_shift
  queue_shift-Shifted = elim (Bool-cases (q.read == q.write)) [
    | inl empty ↦
        let (f, state) = flip_empty h q s v (ground arith) in
        rw empty (
          Shifted-Flipped (flip_waiters_state h was_empty q s) f (
            shift-Shifted h t (flip_waiters_state h was_empty q s).0
              (flip_waiters_state h was_empty q s).1 f.counted (λ _. state)))
    | inr items ↦ rw items (shift-Shifted h t q s v (λ e. absurd (ground arith)))
  ]
