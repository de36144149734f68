-- ===== src/HttpServer/Exchange.antt =====
-- src/http_server.c: the handlers of a connection, `struct http_server_exchange`, over its two tasklets,
-- its timer and the table. What the reader and `socket_close` return are arguments, and `here` is what
-- `thread_run_queue` gives the calling thread.
use molerat.Base.{ℕ, ◌*◌, Bool, true, false, List, ◌∷◌, if◌then◌else◌, Result, ok, ◌>>=◌}
use molerat.Tasklet.{World, tasklet_init}
use molerat.Tasklet.Runq.{tasklet_run, tasklet_stop_round, tasklet_fini_round}
use molerat.Tasklet.Waiting.{set_tasklet, tasklet_unwait}
use molerat.Timers.{
  PollCommon, timer_init, timer_set_relative, timer_cancel, timer_wait, timer_fini,
}
use molerat.Stream.{StreamResult, stream_waiting}
use molerat.HttpReader.Prebody.{
  PrebodyResult, prebody_closed, prebody_done, prebody_waiting, prebody_progress, prebody_error,
}
use molerat.HttpServer.{Connections, add_connection, remove_connection}

-- The addresses of a `struct http_server_exchange` and of its parts.
pub record Exchange : Type 0 where
  pub conn : ℕ
  pub tasklet : ℕ
  pub timeout : ℕ
  pub timeout_tasklet : ℕ

-- The table, the timers, the tasklets, the calls of the server's handler, and the exchanges freed.
pub record Serving : Type 0 where
  pub connections : Connections
  pub timers : PollCommon
  pub world : World
  pub handled : List ℕ
  pub freed : List ℕ

abbrev pub read_prebody_handler : ℕ
read_prebody_handler = 1

abbrev pub timeout_handler : ℕ
timeout_handler = 2

-- `tasklet_set_handler`, and `tasklet_later`.
unfoldable pub tasklet_set_handler : (t handler : ℕ) → World → World
tasklet_set_handler t handler s = set_tasklet t (record (s.tasklet t) { handler = handler }) s

unfoldable pub tasklet_later : (here t handler : ℕ) → World → World
unfolding tasklet_set_handler
tasklet_later here t handler s = tasklet_run here t (tasklet_set_handler t handler s)

-- `tasklet_stop` and `tasklet_fini` undisturbed, where no other thread runs the tasklet.
unfoldable pub tasklet_stop : (here t : ℕ) → World → World
tasklet_stop here t s =
    let s' = tasklet_unwait here t s in (tasklet_stop_round (s'.tasklet t).runq true t s').0

unfoldable pub tasklet_fini : (here t : ℕ) → World → World
tasklet_fini here t s =
    let s' = tasklet_unwait here t s in (tasklet_fini_round (s'.tasklet t).runq true t s').0

unfoldable pub update_timeout : (now : ℕ) → Exchange → Serving → Result Serving
update_timeout now x s =
    timer_set_relative now x.timeout (240 * 1000000) (241 * 1000000) s.timers
    >>= (λ p. ok (record s { timers = p }))

-- `connection_create` behind the call of `update_timeout`, over whatever the memory held.
unfoldable pub enroll : (junk : ℕ → ℕ) (here : ℕ) → Exchange → Serving → Serving
unfolding tasklet_later
enroll junk here x s =
    let world =
      set_tasklet x.timeout_tasklet (tasklet_init (s.world.tasklet x.timeout_tasklet)) s.world in
    let world' = tasklet_later here x.tasklet read_prebody_handler world in
    record s {
      connections = add_connection junk x.conn s.connections;
      world = tasklet_later here x.timeout_tasklet timeout_handler world';
    }

unfoldable pub connection_create :
    (junk : ℕ → ℕ) (here now : ℕ) → Exchange → Serving → Result Serving
unfolding update_timeout enroll
connection_create junk here now x s = do
  let world = set_tasklet x.tasklet (tasklet_init (s.world.tasklet x.tasklet)) s.world
  let timer = timer_init x.timeout s.timers world
  s' ← update_timeout now x (record s { timers = timer.0; world = timer.1 })
  ok (enroll junk here x s')

-- `connection_destroy_locked`; the reader, the writer and the socket go with it.
unfoldable pub connection_destroy_locked : (here : ℕ) → Exchange → Serving → Serving
unfolding tasklet_fini
connection_destroy_locked here x s =
    let r = timer_fini here x.timeout s.timers (tasklet_fini here x.tasklet s.world) in
    record s {
      connections = remove_connection x.conn s.connections;
      timers = r.0;
      world = tasklet_fini here x.timeout_tasklet r.1;
      freed = x.conn ∷ s.freed;
    }

-- What is done when the prebody is there, up to the call of the server's handler.
unfoldable pub hand_over : (here : ℕ) → Exchange → Serving → Serving
unfolding tasklet_stop
hand_over here x s = record s {
  timers = timer_cancel x.timeout s.timers;
  world = tasklet_stop here x.tasklet s.world;
  handled = x.conn ∷ s.handled;
}

-- The cases of `socket_close`.
unfoldable pub after_close : (here : ℕ) → StreamResult → Exchange → Serving → Serving × Bool
unfolding connection_destroy_locked
after_close here stream_waiting x s = (s, true)
after_close here _ x s = (connection_destroy_locked here x s, false)

unfoldable pub connection_read_prebody :
    (here now : ℕ)
    → PrebodyResult
    → (closing : StreamResult) → Exchange
    → Serving
    → Result (Serving × Bool)
unfolding update_timeout hand_over after_close connection_destroy_locked
connection_read_prebody here now prebody_progress closing x s =
    update_timeout now x s >>= (λ s'. ok (s', true))
connection_read_prebody here now prebody_waiting closing x s = ok (s, true)
connection_read_prebody here now prebody_done closing x s = ok (hand_over here x s, true)
connection_read_prebody here now prebody_closed closing x s = ok (after_close here closing x s)
connection_read_prebody here now prebody_error closing x s =
    ok (connection_destroy_locked here x s, false)

-- `http_server_exchange_done`, with whether it was given an error.
unfoldable pub http_server_exchange_done :
    (here now : ℕ) (failed : Bool)
    → PrebodyResult
    → (closing : StreamResult) → Exchange
    → Serving
    → Result (Serving × Bool)
unfolding connection_read_prebody update_timeout tasklet_set_handler connection_destroy_locked
http_server_exchange_done here now true prebody closing x s =
    ok (connection_destroy_locked here x s, false)
http_server_exchange_done here now false prebody closing x s = do
  s' ← update_timeout now x s
  connection_read_prebody here now prebody closing x
      (record s' { world = tasklet_set_handler x.tasklet read_prebody_handler s'.world })

-- `connection_timeout`, likewise with whether the exchange is still there.
unfoldable pub connection_timeout : (here : ℕ) → Exchange → Serving → Serving × Bool
unfolding connection_destroy_locked
connection_timeout here x s =
    let r = timer_wait here x.timeout x.timeout_tasklet s.timers s.world in
    if r.1 then (connection_destroy_locked here x s, false) else (record s { world = r.0 }, true)
