-- ===== src/Queue/Fifo.antt =====
-- src/queue.c: the array read as a list, across wrapping round and resizing.
use molerat.Base.{
  Bool-cases, inl, inr, ℕ, zero, suc, ◌+◌, ◌-◌, ◌*◌, ◌%◌, ◌^◌, ◌≤◌, ◌<◌, ◌≡◌, ◌≢◌, refl, ap, ◌∙◌,
  List, [], ◌∷◌, ◌++◌, ◌==◌, ap₂, add-zero, update, wrap, PowerOfTwo, double, bit_and-mask, length,
  arith,
}
use molerat.Queue.{Queue, resize, moved_items, store, fetch, put, make_room}

-- The comments on the fields in queue.h: the capacity is a power of two, `read < capacity`,
-- `read <= write`, and at most `capacity` items lie between them.
pub record IsRing (q : Queue) : Type 0 where
  pub power : PowerOfTwo q.capacity
  pub read_lt : q.read < q.capacity
  pub read_le : q.read ≤ q.write
  pub room : q.write ≤ q.read + q.capacity

-- `n` entries of an array of `c`, from index `r` on and round its end.
abbrev pub window : (ℕ → ℕ) → ℕ → ℕ → ℕ → List ℕ
window f c r zero = []
window f c r (suc n) = f (wrap c r) ∷ window f c (r + 1) n

abbrev pub size : Queue → ℕ
size q = q.write - q.read

-- The items, oldest first.
abbrev pub contents : Queue → List ℕ
contents q = window q.items q.capacity q.read (size q)

length-window : (f : ℕ → ℕ) (c r n : ℕ) → length (window f c r n) ≡ n
length-window f c r zero = refl
length-window f c r (suc n) = ap suc (length-window f c (r + 1) n)

shift_add : (r i : ℕ) → r + suc i ≡ r + 1 + i
shift_add r i = omega arith

-- Equal entries make equal windows.
window-cong :
    (f g : ℕ → ℕ) (c d r s n : ℕ)
    → ((i : ℕ) → i < n → f (wrap c (r + i)) ≡ g (wrap d (s + i)))
    → window f c r n ≡ window g d s n
window-cong f g c d r s zero h = refl
window-cong f g c d r s (suc n) h =
    let first = h 0 (omega arith) in
    let rest =
      window-cong f g c d (r + 1) (s + 1) n
        λ i lt. rw (← shift_add r i, ← shift_add s i) (h (suc i) (omega arith)) in
    ap₂ ◌∷◌ (rw (add-zero r, add-zero s) at first) rest

window-snoc :
    (f : ℕ → ℕ) (c r n : ℕ) → window f c r (suc n) ≡ window f c r n ++ f (wrap c (r + n)) ∷ []
window-snoc f c r zero = rw (add-zero r)
window-snoc f c r (suc n) = ap (◌∷◌ (f (wrap c r))) (window-snoc f c (r + 1) n ∙ rw (shift_add r n))

module _ (junk : ℕ → ℕ) (q : Queue) (v : IsRing q) where
  open v use {power, read_lt, read_le, room}

  resize-IsRing : size q ≡ q.capacity → q.capacity * 2 < 2 ^ 32 → IsRing (resize junk q)
  unfolding resize
  resize-IsRing full fits = record {
    power = double power (omega arith);
    read_lt = omega arith;
    read_le = omega arith;
    room = omega arith;
  }

  resize_free :
      size q ≡ q.capacity
      → q.capacity * 2 < 2 ^ 32
      → size (resize junk q) < (resize junk q).capacity
  unfolding resize
  resize_free full fits = omega arith

  -- The resize moves the items to the front of the new array, in order.
  contents-resize :
      size q ≡ q.capacity → q.capacity * 2 < 2 ^ 32 → contents (resize junk q) ≡ contents q
  unfolding resize moved_items
  contents-resize full fits =
      let all : q.write - q.read - 0 ≡ size q = omega arith in
      rw all (
        window-cong (moved_items junk q) q.items (q.capacity * 2 % 2 ^ 32) q.capacity 0 q.read
          (size q) λ i lt. ground arith)

-- A write one past a window that leaves an entry free makes it longer by that entry.
window-update :
    (f : ℕ → ℕ) (c r w n m item : ℕ)
    → m ≡ suc n
    → r + n ≡ w
    → r < c
    → n < c
    → window (update f (wrap c w) item) c r m ≡ window f c r n ++ item ∷ []
window-update f c r w n m item e d lt free = rw e (
    window-snoc (update f (wrap c w) item) c r n
    ∙ ap₂ (λ xs x. xs ++ x ∷ [])
        (window-cong (update f (wrap c w) item) f c c r r n λ i below. ground arith)
        (rw d (ground arith)))

module _ (item : ℕ) (q : Queue) (v : IsRing q) (free : size q < q.capacity) where
  open v use {power, read_lt, read_le, room}

  put-IsRing : IsRing (put item q)
  unfolding put
  put-IsRing = record {
    power = power;
    read_lt = read_lt;
    read_le = omega arith;
    room = omega arith;
  }

  contents-put : contents (put item q) ≡ contents q ++ item ∷ []
  unfolding put
  contents-put =
      ap (λ i. window (update q.items i item) q.capacity q.read (q.write + 1 - q.read))
        (bit_and-mask q.capacity q.write power (omega arith))
      ∙ window-update q.items q.capacity q.read q.write (size q) (q.write + 1 - q.read) item
          (omega arith) (omega arith) read_lt free

-- What `capacity * 2` fits into an `unsigned int` for.
abbrev pub CanGrow : Queue → Type 0
CanGrow q = size q ≡ q.capacity → q.capacity * 2 < 2 ^ 32

-- A queue with a place free that holds what `q` holds.
record HasRoom (q p : Queue) : Type 0 where
  ring : IsRing p
  free : size p < p.capacity
  same : contents p ≡ contents q

module _ (junk : ℕ → ℕ) (item : ℕ) (q : Queue) (v : IsRing q) (grow : CanGrow q) where
  open v use {power, read_lt, read_le, room}

  make_room-HasRoom : HasRoom q (make_room junk q)
  unfolding make_room
  make_room-HasRoom = elim (Bool-cases (size q == q.capacity)) [
    | inl full ↦
        let e : size q ≡ q.capacity = ground arith in
        rw full record {
          ring = resize-IsRing junk q v e (grow e);
          free = resize_free junk q v e (grow e);
          same = contents-resize junk q v e (grow e);
        }
    | inr other ↦ rw other record { ring = v; free = ground arith; same = refl }
  ]

  pub store-IsRing : IsRing (store junk item q)
  unfolding store
  store-IsRing = let r = make_room-HasRoom in put-IsRing item (make_room junk q) r.ring r.free

  -- A push that is not blocked puts the item at the end, whether or not the array had to grow.
  pub contents-store : contents (store junk item q) ≡ contents q ++ item ∷ []
  unfolding store
  contents-store =
      let r = make_room-HasRoom in
      contents-put item (make_room junk q) r.ring r.free ∙ ap (λ xs. xs ++ item ∷ []) r.same

window-tail :
    (f : ℕ → ℕ) (c r k m : ℕ) → k ≡ suc m → r < c → window f c r k ≡ f r ∷ window f c (r + 1) m
window-tail f c r k m e lt = rw e (ap (λ x. x ∷ window f c (r + 1) m) (ground arith))

-- Past the end of the array the window goes on at its start.
window-tail_end :
    (f : ℕ → ℕ) (c r k m : ℕ)
    → k ≡ suc m
    → r < c
    → r + 1 ≡ c
    → k ≤ c
    → window f c r k ≡ f r ∷ window f c 0 m
window-tail_end f c r k m e lt end fits =
    window-tail f c r k m e lt
    ∙ ap (◌∷◌ (f r)) (window-cong f f c c (r + 1) 0 m λ i below. ground arith)

module _ (q : Queue) (v : IsRing q) (some_item : q.read ≢ q.write) where
  open v use {power, read_lt, read_le, room}

  pub fetch-IsRing : IsRing (fetch q)
  unfolding fetch
  fetch-IsRing = record {
    power = ground (arith, power);
    read_lt = ground arith;
    read_le = ground arith;
    room = ground arith;
  }

  -- A shift takes the oldest item, across the end of the array.
  pub contents-fetch : contents q ≡ q.items q.read ∷ contents (fetch q)
  unfolding fetch
  contents-fetch = elim (Bool-cases (q.read + 1 == q.capacity)) [
    | inl end ↦
        rw (end, fetch)
          (window-tail_end q.items q.capacity q.read (size q) (q.write - q.capacity - 0)
            (ground arith) read_lt (ground arith) (ground arith))
    | inr inside ↦
        rw (inside, fetch)
          (window-tail q.items q.capacity q.read (size q) (q.write - (q.read + 1)) (omega arith)
            read_lt)
  ]
