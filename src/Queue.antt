-- ===== src/Queue.antt =====
-- src/queue.c, include/molerat/queue.h: a bounded queue over a growing array, whose readers and
-- writers wait on one wait list.
pub mod Fifo
pub mod Counting
pub mod Pushing
pub mod Shifting
mod Tests
use Prim.Native.Nat.{bit_and}
use molerat.Base.{
  ℕ, ◌+◌, ◌-◌, ◌*◌, ◌%◌, ◌^◌, Bool, true, false, ◌&&◌, not, Option, none, some, List, [], ltb, leb,
  ◌==◌, if◌then◌else◌, update,
}
use molerat.Tasklet.{World}
use molerat.Tasklet.Waiting.{wait_list_set, wait_list_up, wait_list_down}

pub data WaitersState : Type 0 where
  neither was_full was_empty : WaitersState

-- An array is the function from its indices; what `xalloc` returns holds anything.
pub record Queue : Type 0 where
  pub items : ℕ → ℕ
  pub capacity : ℕ
  pub read : ℕ
  pub write : ℕ
  pub max_size : ℕ
  pub waiters : ℕ  -- the wait list of the queue, by its number
  pub waiters_state : WaitersState

abbrev pub same_state : WaitersState → WaitersState → Bool
same_state neither neither = true
same_state was_full was_full = true
same_state was_empty was_empty = true
same_state _ _ = false

-- `queue_init`; `wait_list_init` of `waiters` is done by the caller of the model.
unfoldable pub queue_init : (junk : ℕ → ℕ) (waiters max_size : ℕ) → Queue
queue_init junk waiters max_size = record {
  items = junk;
  capacity = 8;
  read = 0;
  write = 0;
  max_size = max_size;
  waiters = waiters;
  waiters_state = neither;
}

-- `flip_waiters_state`: all waiters are run, and the ups start from none.
unfoldable pub flip_waiters_state : ℕ → WaitersState → Queue → World → Queue × World
flip_waiters_state here st q s =
    if same_state q.waiters_state st
    then (q, s)
    else (record q { waiters_state = st }, wait_list_set here q.waiters 0 true s)

-- The condition on which `queue_push` and `queue_shift` leave with nothing done: the waiters are
-- those of the given state, and the down fails.
unfoldable pub blocked : ℕ → WaitersState → ℕ → Queue → World → World × Bool
blocked here st t q s =
    if same_state q.waiters_state st
    then (let r = wait_list_down here q.waiters 1 t s in
        (r.0, elim r.1 [ some true ↦ false | _ ↦ true ]))
    else (s, false)

-- The two `memcpy` calls of the resize, over the new array `junk`.
unfoldable pub moved_items : (junk : ℕ → ℕ) → Queue → ℕ → ℕ
moved_items junk q i =
    let first = q.capacity - q.read in
    if ltb i first
    then q.items (q.read + i)
    else if ltb i (first + (q.write - q.capacity))
    then q.items (i - first)
    else junk i

-- The resize; `capacity` is an `unsigned int`.
unfoldable pub resize : (junk : ℕ → ℕ) → Queue → Queue
unfolding moved_items
resize junk q = record q {
  items = moved_items junk q;
  capacity = q.capacity * 2 % 2 ^ 32;
  write = q.write - q.read;
  read = 0;
}

-- `q->items[q->write++ & (q->capacity - 1)] = item`
unfoldable pub put : ℕ → Queue → Queue
put item q = record q {
  items = update q.items (bit_and q.write (q.capacity - 1)) item;
  write = q.write + 1;
}

-- The part of `queue_push` that changes the array: the resize of a full one, and the write.
unfoldable pub make_room : (junk : ℕ → ℕ) → Queue → Queue
unfolding resize
make_room junk q = if q.write - q.read == q.capacity then resize junk q else q

unfoldable pub store : (junk : ℕ → ℕ) → ℕ → Queue → Queue
store junk item q = put item (make_room junk q)

-- `queue_push` from the test of `waiters_state` on.
unfoldable pub push_unless_blocked :
    (here : ℕ) (junk : ℕ → ℕ) (item t : ℕ) → Queue → World → (Queue × World) × Bool
unfolding blocked
push_unless_blocked here junk item t q s =
    let (s', stop) = blocked here was_full t q s in
    if stop
    then ((q, s'), false)
    else (let q' = store junk item q in
        (
          (
            q',
            if same_state q'.waiters_state was_empty then wait_list_up here q'.waiters 1 s' else s',
          ),
          true,
        ))

-- `queue_push`, with the `bool_t` that it returns.
unfoldable pub queue_push :
    (here : ℕ) (junk : ℕ → ℕ) (item t : ℕ) → Queue → World → (Queue × World) × Bool
unfolding flip_waiters_state push_unless_blocked store put make_room
queue_push here junk item t q s =
    let (q', s') =
      if leb q.max_size (q.write - q.read) then flip_waiters_state here was_full q s else (q, s) in
    push_unless_blocked here junk item t q' s'

-- The part of `queue_shift` that changes the array.
unfoldable pub fetch : Queue → Queue
fetch q =
    if q.read + 1 == q.capacity
    then record q { read = 0; write = q.write - q.capacity }
    else record q { read = q.read + 1 }

-- What `queue_shift` returns, or the failure of its assertion that there is an item.
pub data Shift : Type 0 where
  item : ℕ → Shift
  null : Shift
  assertion_failed : Shift

-- `queue_shift` from the test of `waiters_state` on.
unfoldable pub shift_unless_blocked : (here t : ℕ) → Queue → World → (Queue × World) × Shift
unfolding blocked
shift_unless_blocked here t q s =
    let (s', stop) = blocked here was_empty t q s in
    if stop
    then ((q, s'), null)
    else if q.read == q.write
    then ((q, s'), assertion_failed)
    else (let q' = fetch q in
        (
          (
            q',
            if same_state q'.waiters_state was_full then wait_list_up here q'.waiters 1 s' else s',
          ),
          item (q.items q.read),
        ))

unfoldable pub queue_shift : (here t : ℕ) → Queue → World → (Queue × World) × Shift
unfolding flip_waiters_state shift_unless_blocked fetch
queue_shift here t q s =
    let (q', s') = if q.read == q.write then flip_waiters_state here was_empty q s else (q, s) in
    shift_unless_blocked here t q' s'
