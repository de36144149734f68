-- ===== src/HttpServer/Phases.antt =====
-- src/http_server.c: the phases of a connection, and its timer.
use molerat.Base.{
  none, some, ℕ, ◌+◌, ◌*◌, ◌≡◌, ◌≢◌, refl, arith, ◌⊎◌, ◌↔◌, Bool, true, false, List, [], ◌∷◌, ◌++◌,
  if◌then◌else◌, has, has-append, IsRing, Result, ok,
}
use molerat.Stream.{StreamResult, stream_waiting}
use molerat.HttpReader.Prebody.{
  PrebodyResult, prebody_closed, prebody_done, prebody_waiting, prebody_progress, prebody_error,
}
use molerat.Timers.{PollCommon, timer_set_relative}
use molerat.Timers.Ring.{next_of, prev_of, IsTimers}
use molerat.Timers.Setting.{timer_set-IsTimers}
use molerat.HttpServer.Table.{IsTable, Has}
use molerat.HttpServer.Resting.{AtRest}
use molerat.HttpServer.Exchange.{
  Exchange, Serving, update_timeout, connection_read_prebody, http_server_exchange_done,
  connection_timeout,
}

-- Reading a request, in the hands of the server's handler, or freed.
pub data Phase : Type 0 where
  reading handling gone : Phase

-- Of the two tasklets of an exchange only the timer's waits for the timer, and it waits for nothing else.
abbrev pub Alone : Exchange → Serving → Type 0
Alone x s =
    let w = (s.timers.timer x.timeout).waiting in
    (x.timeout_tasklet ≢ x.tasklet)
    × (has x.tasklet (s.world.wait_list w).waiters ≡ false)
    × (((s.world.tasklet x.timeout_tasklet).wait ≡ none)
        ⊎ ((s.world.tasklet x.timeout_tasklet).wait ≡ some w))

-- A connection in the table, and the ring of timers.
pub record Present (x : Exchange) (ts : List ℕ) (s : Serving) : Type 0 where
  pub timers : IsTimers s.timers ts
  pub table : IsTable s.connections
  pub listed : Has s.connections x.conn
  pub alone : Alone x s

-- While a request is read the timer is set or has fired; while it is handled neither, and the tasklet does
-- not run. Once the connection is gone none of its tasklets does.
abbrev pub Holds : Phase → Exchange → List ℕ → Serving → Type 0
Holds reading x ts s =
    Present x ts s × ((has x.timeout ts ≡ true) ⊎ ((s.timers.timer x.timeout).fired ≡ true))
Holds handling x ts s =
    Present x ts s
    × (has x.timeout ts ≡ false)
    × ((s.timers.timer x.timeout).fired ≡ false)
    × AtRest x.tasklet s.world
Holds gone x ts s =
    IsRing (next_of s.timers) (prev_of s.timers) s.timers.timers ts
    × (has x.timeout ts ≡ false)
    × IsTable s.connections
    × ¬ Has s.connections x.conn
    × AtRest x.tasklet s.world
    × AtRest x.timeout_tasklet s.world

-- What runs the code: the tasklet, the end of the handler's work, and the tasklet of the timer.
pub data Event : Type 0 where
  runs : PrebodyResult → StreamResult → Event
  finishes : (failed : Bool) → PrebodyResult → StreamResult → Event
  times_out : Event

abbrev pub handle : (here now : ℕ) → Event → Exchange → Serving → Result (Serving × Bool)
handle here now (runs prebody closing) x s = connection_read_prebody here now prebody closing x s
handle here now (finishes failed prebody closing) x s =
    http_server_exchange_done here now failed prebody closing x s
handle here now times_out x s = ok (connection_timeout here x s)

-- The tasklet runs while a request is read, and the handler finishes once.
abbrev pub May : Phase → Event → Type 0
May reading (runs prebody closing) = Unit {0}
May handling (finishes failed prebody closing) = Unit {0}
May reading times_out = Unit {0}
May handling times_out = Unit {0}
May phase event = ⊥

abbrev pub phase_after_prebody : PrebodyResult → StreamResult → Phase
phase_after_prebody prebody_progress closing = reading
phase_after_prebody prebody_waiting closing = reading
phase_after_prebody prebody_done closing = handling
phase_after_prebody prebody_closed stream_waiting = reading
phase_after_prebody prebody_closed closing = gone
phase_after_prebody prebody_error closing = gone

abbrev pub next_phase : Event → (fired : Bool) → Phase → Phase
next_phase (runs prebody closing) fired phase = phase_after_prebody prebody closing
next_phase (finishes true prebody closing) fired phase = gone
next_phase (finishes false prebody closing) fired phase = phase_after_prebody prebody closing
next_phase times_out fired phase = if fired then gone else phase

abbrev pub is_here : Phase → Bool
is_here gone = false
is_here _ = true

-- What an event leaves: the phase, whether the mutex is still there to be unlocked, the other
-- connections as they were, and the connection freed where it is gone.
pub record Leaves (x : Exchange) (s : Serving) (phase : Phase) (r : Serving × Bool) : Type 0 where
  pub ring : List ℕ
  pub holds : Holds phase x ring r.0
  pub here : r.1 ≡ is_here phase
  pub others : (d : ℕ) → d ≢ x.conn → Has r.0.connections d ↔ Has s.connections d
  pub freed : r.0.freed ≡ (if is_here phase then s.freed else x.conn ∷ s.freed)

-- The timer is set, and the rest is as it was.
pub record Timed (x : Exchange) (s : Serving) (q : PollCommon) : Type 0 where
  pub ring : List ℕ
  pub timers : IsTimers q ring
  pub member : has x.timeout ring ≡ true
  pub waiting : (q.timer x.timeout).waiting ≡ (s.timers.timer x.timeout).waiting

pub update_timeout-Timed :
    (now : ℕ) (x : Exchange) (ts : List ℕ) (s : Serving)
    → IsTimers s.timers ts
    → (q : PollCommon) × (update_timeout now x s ≡ ok (record s { timers = q })) × Timed x s q
unfolding update_timeout timer_set_relative
update_timeout-Timed now x ts s h =
    let (q, ran, timers, others, times, woken, calls, waiting) =
      timer_set-IsTimers x.timeout (240 * 1000000 + now) (241 * 1000000 + now) s.timers ts h
        (omega arith) in
    (
      q,
      rw ran refl,
      record {
        ring = if has x.timeout ts then ts else ts ++ x.timeout ∷ [];
        timers = timers;
        member = ground (arith, has-append x.timeout ts (x.timeout ∷ []));
        waiting = waiting;
      },
    )
