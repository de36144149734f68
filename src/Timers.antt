-- ===== src/Timers.antt =====
-- src/poll_common.c, src/poll.h, include/molerat/timer.h: timers, and the part of the poll thread that
-- serves them. Times are microseconds since the epoch, so they are not negative.
pub mod Ring
pub mod Setting
pub mod Dispatch
pub mod Firing
pub mod Waking
pub mod Sleeping
mod Tests
use molerat.Base.{
  ℕ, zero, suc, ◌+◌, Bool, true, false, Option, none, some, ltb, leb, ◌==◌, if◌then◌else◌, is,
  update, Result, ok, aborted, out_of_fuel, ◌>>=◌, ◌>>◌, assert,
}
use molerat.Tasklet.{World, wait_list_init}
use molerat.Tasklet.Waiting.{
  set_wait_list, wait_list_broadcast, wait_list_wait, wait_list_fini_begin,
}

-- `struct timer`, whose field `poll` is the one `struct poll_common`; `waiting` is the number of its
-- wait list.
pub record Timer : Type 0 where
  pub earliest : ℕ
  pub latest : ℕ
  pub fired : Bool
  pub next : Option ℕ
  pub prev : ℕ
  pub waiting : ℕ

-- `struct poll_common`, the timers, and how often `poll_wake` was called.
pub record PollCommon : Type 0 where
  pub timer : ℕ → Timer
  pub timers : Option ℕ
  pub thread_woken : Bool
  pub thread_stopping : Bool
  pub wakes : ℕ

unfoldable pub poll_common_init : (ℕ → Timer) → PollCommon
poll_common_init timer = record {
  timer = timer;
  timers = none;
  thread_woken = true;
  thread_stopping = false;
  wakes = 0;
}

unfoldable pub poll_common_wake : PollCommon → PollCommon
poll_common_wake p =
    if p.thread_woken then p else record p { thread_woken = true; wakes = p.wakes + 1 }

abbrev pub set_timer : ℕ → Timer → PollCommon → PollCommon
set_timer t r p = record p { timer = update p.timer t r }

abbrev pub set_next : ℕ → Option ℕ → PollCommon → PollCommon
set_next t n p = set_timer t (record (p.timer t) { next = n }) p

abbrev pub set_prev : ℕ → ℕ → PollCommon → PollCommon
set_prev t n p = set_timer t (record (p.timer t) { prev = n }) p

-- `timer_init`, over whatever the memory held: `earliest`, `latest` and `prev` are not set.
unfoldable pub timer_init : ℕ → PollCommon → World → PollCommon × World
timer_init t p s = (
  set_timer t (record (p.timer t) { next = none; fired = false }) p,
  set_wait_list (p.timer t).waiting (wait_list_init 0) s,
)

-- `next->prev = t->prev; t->prev->next = next`
unfoldable pub unlink : ℕ → ℕ → PollCommon → PollCommon
unlink t n p = let p' = set_prev n (p.timer t).prev p in set_next (p'.timer t).prev (some n) p'

-- The part of `timer_cancel_locked` before the wake.
unfoldable pub take_out : ℕ → PollCommon → PollCommon
unfolding unlink
take_out t p = elim (p.timer t).next [
  | none ↦ p
  | some n ↦
      if n == t
      then record p { timers = none }
      else (let p' = unlink t n p in
          record p' { timers = if is p'.timers t then some n else p'.timers })
]

unfoldable pub timer_cancel_locked : ℕ → PollCommon → PollCommon
unfolding take_out poll_common_wake
timer_cancel_locked t p = poll_common_wake (take_out t p)

-- `timer_fini` up to the waits of `wait_list_fini`.
unfoldable pub timer_fini : ℕ → ℕ → PollCommon → World → PollCommon × World
unfolding timer_cancel_locked
timer_fini here t p s = (timer_cancel_locked t p, wait_list_fini_begin here (p.timer t).waiting s)

-- `timer_set`: the timer goes to the end of the ring.
unfoldable pub put_in : ℕ → PollCommon → PollCommon
put_in t p = elim p.timers [
  | none ↦ record (set_timer t (record (p.timer t) { next = some t; prev = t }) p) {
    timers = some t;
  }
  | some head ↦
      let tail = (p.timer head).prev in
      let p' = set_timer t (record (p.timer t) { next = some head; prev = tail }) p in
      set_prev head t (set_next tail (some t) p')
]

unfoldable pub timer_set : ℕ → ℕ → ℕ → PollCommon → Result PollCommon
unfolding put_in poll_common_wake
timer_set t earliest latest p =
    let p' =
      set_timer t (record (p.timer t) { earliest = earliest; latest = latest; fired = false }) p in
    let p'' = elim (p'.timer t).next as (λ _. PollCommon) [ none ↦ put_in t p' | some _ ↦ p' ] in
    assert (ltb earliest latest) >> ok (poll_common_wake p'')

-- `timer_set_relative`, at the time `now`.
unfoldable pub timer_set_relative : (now t earliest latest : ℕ) → PollCommon → Result PollCommon
unfolding timer_set
timer_set_relative now t earliest latest p = timer_set t (earliest + now) (latest + now) p

unfoldable pub timer_cancel : ℕ → PollCommon → PollCommon
unfolding timer_cancel_locked
timer_cancel t p =
    let p' = timer_cancel_locked t p in
    set_timer t (record (p'.timer t) { next = none; fired = false }) p'

unfoldable pub timer_wait : ℕ → ℕ → ℕ → PollCommon → World → World × Bool
timer_wait here t tasklet p s =
    if (p.timer t).fired
    then (s, true)
    else (wait_list_wait here (p.timer t).waiting tasklet s, false)

-- What a round of the loop of `dispatch_timers` goes on to: the timer `t`, and whether the loop ends.
pub data Onward : Type 0 where
  next_timer : ℕ → Onward
  done : Onward

-- `t = next; if (t == p->timers) break;`
abbrev pub go_on : ℕ → PollCommon → Onward
go_on n p = if is p.timers n then done else next_timer n

-- `t->fired = TRUE; t->next = NULL`
unfoldable pub fire : ℕ → PollCommon → PollCommon
fire t p = set_timer t (record (p.timer t) { fired = true; next = none }) p

-- A round, where `n` is `t->next`.
unfoldable pub dispatch_round :
    (here now t n : ℕ) → PollCommon → World → (PollCommon × World) × Onward
unfolding fire unlink
dispatch_round here now t n p s =
    if leb (p.timer t).earliest now
    then (let p' = fire t p in
        let s' = wait_list_broadcast here (p.timer t).waiting s in
        if n == t
        then ((record p' { timers = none }, s'), done)
        else (let p'' = unlink t n p' in
            if is p''.timers t
            then ((record p'' { timers = some n }, s'), next_timer n)
            else ((p'', s'), go_on n p'')))
    else ((p, s), go_on n p)

-- The loop; a null `next` would be read through.
unfoldable pub dispatch_loop :
    (fuel here now t : ℕ) → PollCommon → World → Result (PollCommon × World)
unfolding dispatch_round
dispatch_loop zero here now t p s = out_of_fuel
dispatch_loop (suc fuel) here now t p s = elim (p.timer t).next [
  | none ↦ aborted
  | some n ↦
      let r = dispatch_round here now t n p s in
      elim r.1 [ done ↦ ok r.0 | next_timer u ↦ dispatch_loop fuel here now u r.0.0 r.0.1 ]
]

unfoldable pub dispatch_timers :
    (fuel here now : ℕ) → PollCommon → World → Result (PollCommon × World)
unfolding dispatch_loop
dispatch_timers fuel here now p s = elim p.timers [
  | none ↦ ok (p, s)
  | some t ↦ dispatch_loop fuel here now t p s
]

-- The loop of `earliest_latest`.
unfoldable pub earliest_latest_loop : (fuel t latest : ℕ) → PollCommon → Result ℕ
earliest_latest_loop zero t latest p = out_of_fuel
earliest_latest_loop (suc fuel) t latest p = elim (p.timer t).next [
  | none ↦ aborted
  | some u ↦
      let l = (p.timer u).latest in
      let rest = earliest_latest_loop fuel u (if ltb l latest then l else latest) p in
      if is p.timers u then ok latest else rest
]

-- `earliest_latest`; `none` is its result -1.
unfoldable pub earliest_latest : ℕ → PollCommon → Result (Option ℕ)
unfolding earliest_latest_loop
earliest_latest fuel p = elim p.timers [
  | none ↦ ok none
  | some t ↦ do l ← earliest_latest_loop fuel t (p.timer t).latest p; ok (some l)
]

-- `poll_thread` up to the call of `poll_poll`, where the thread is not stopping: the timeout, and the
-- state that is left to the other threads.
unfoldable pub poll_thread_prepare : ℕ → PollCommon → Result (Option ℕ × PollCommon)
unfolding earliest_latest
poll_thread_prepare fuel p = do
  timeout ← earliest_latest fuel p
  ok (timeout, record p { thread_woken = false })

-- `poll_thread` after `poll_poll`; `s` is the world after `poll_dispatch`.
unfoldable pub poll_thread_serve :
    (fuel here now : ℕ) → PollCommon → World → Result (PollCommon × World)
unfolding dispatch_timers
poll_thread_serve fuel here now p s =
    dispatch_timers fuel here now (record p { thread_woken = true }) s
