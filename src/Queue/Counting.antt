-- ===== src/Queue/Counting.antt =====
-- src/queue.c: the wait list's count of ups and the size of the queue.
use molerat.Base.{ℕ, ◌+◌, ◌^◌, ◌≤◌, ◌≡◌, ◌≢◌, refl, ◌⊎◌, inl, inr, true, false, arith, Bool-cases}
use molerat.Tasklet.{World}
use molerat.Tasklet.Effects.{wait_list_set-up_count, wait_list_down-TakesUps}
use molerat.Queue.{
  Queue, WaitersState, was_full, was_empty, same_state, flip_waiters_state, blocked, store, put,
  make_room, resize, fetch,
}
use molerat.Queue.Fifo.{IsRing, size, contents}

abbrev pub ups : Queue → World → ℕ
ups q s = (s.wait_list q.waiters).up_count

-- While writers wait the ups are the free places, and while readers wait they are the items.
pub record IsCounted (q : Queue) (s : World) : Type 0 where
  pub ring : IsRing q
  pub within : size q ≤ q.max_size
  pub limit : q.max_size ≤ 2 ^ 31
  pub free_places : q.waiters_state ≡ was_full → ups q s + size q ≡ q.max_size
  pub items_left : q.waiters_state ≡ was_empty → ups q s ≡ size q

-- What the waiters have to do with: all but the array.
pub record Keeps (q p : Queue) : Type 0 where
  pub max_size : p.max_size ≡ q.max_size
  pub waiters : p.waiters ≡ q.waiters
  pub waiters_state : p.waiters_state ≡ q.waiters_state

pub store-Keeps : (junk : ℕ → ℕ) (x : ℕ) (q : Queue) → Keeps q (store junk x q)
unfolding store put make_room resize
store-Keeps junk x q = record {
  max_size = ground arith;
  waiters = ground arith;
  waiters_state = ground arith;
}

pub size-store : (junk : ℕ → ℕ) (x : ℕ) (q : Queue) → IsRing q → size (store junk x q) ≡ size q + 1
unfolding store put make_room resize
size-store junk x q v = let le = v.read_le in ground arith

pub fetch-Keeps : (q : Queue) → Keeps q (fetch q)
unfolding fetch
fetch-Keeps q = record {
  max_size = ground arith;
  waiters = ground arith;
  waiters_state = ground arith;
}

pub size-fetch : (q : Queue) → IsRing q → q.read ≢ q.write → size (fetch q) + 1 ≡ size q
unfolding fetch
size-fetch q v ne = let le = v.read_le in let lt = v.read_lt in ground arith

-- What `blocked` finds where the waiters are those of the state asked for, and where they are not.
abbrev pub BlockOutcome : ℕ → WaitersState → ℕ → Queue → World → Type 0
BlockOutcome h st t q s =
    let r = blocked h st t q s in
    ((q.waiters_state ≢ st) × (r ≡ (s, false)))
    ⊎ ((q.waiters_state ≡ st) × (r.1 ≡ false) × (ups q r.0 + 1 ≡ ups q s))
    ⊎ ((q.waiters_state ≡ st) × (r.1 ≡ true) × (ups q r.0 ≡ ups q s) × (ups q s ≡ 0))

pub blocked-BlockOutcome :
    (h : ℕ) (st : WaitersState) (t : ℕ) (q : Queue) (s : World) → BlockOutcome h st t q s
unfolding blocked
blocked-BlockOutcome h st t q s = ground (arith, wait_list_down-TakesUps h q.waiters s 1 t)

-- A queue that shall stand for `q` after its waiters may have changed sides.
pub record Flipped (q : Queue) (r : Queue × World) : Type 0 where
  pub counted : IsCounted r.0 r.1
  pub same_size : size r.0 ≡ size q
  pub same_max : r.0.max_size ≡ q.max_size
  pub same : contents r.0 ≡ contents q

module _ (h : ℕ) (q : Queue) (s : World) (v : IsCounted q s) where
  pub unflipped : Flipped q (q, s)
  unflipped = record { counted = v; same_size = refl; same_max = refl; same = refl }

  pub flip_full :
      size q ≡ q.max_size
      → Flipped q (flip_waiters_state h was_full q s)
        × ((flip_waiters_state h was_full q s).0.waiters_state ≡ was_full)
  unfolding flip_waiters_state
  flip_full e = elim (Bool-cases (same_state q.waiters_state was_full)) [
    | inl same ↦ rw same (unflipped, ground arith)
    | inr other ↦ rw other (
      record {
        counted = record {
          ring = record {
            power = v.ring.power;
            read_lt = v.ring.read_lt;
            read_le = v.ring.read_le;
            room = v.ring.room;
          };
          within = v.within;
          limit = v.limit;
          free_places = λ _. omega (arith, wait_list_set-up_count h q.waiters s 0 true);
          items_left = λ n. cc;
        };
        same_size = refl;
        same_max = refl;
        same = refl;
      },
      refl,
    )
  ]

  pub flip_empty :
      q.read ≡ q.write
      → Flipped q (flip_waiters_state h was_empty q s)
        × ((flip_waiters_state h was_empty q s).0.waiters_state ≡ was_empty)
  unfolding flip_waiters_state
  flip_empty e = elim (Bool-cases (same_state q.waiters_state was_empty)) [
    | inl same ↦ rw same (unflipped, ground arith)
    | inr other ↦ rw other (
      record {
        counted = record {
          ring = record {
            power = v.ring.power;
            read_lt = v.ring.read_lt;
            read_le = v.ring.read_le;
            room = v.ring.room;
          };
          within = v.within;
          limit = v.limit;
          free_places = λ n. cc;
          items_left = λ _. omega (arith, wait_list_set-up_count h q.waiters s 0 true);
        };
        same_size = refl;
        same_max = refl;
        same = refl;
      },
      refl,
    )
  ]
