-- ===== src/HttpServer/Creating.antt =====
-- src/http_server.c: proofs about `connection_create`.
use molerat.Base.{
  ◌≢◌, sym, ◌∙◌, none, some, true, [], ◌∷◌, has-append, ℕ, ◌<◌, ◌^◌, ◌≡◌, refl, ◌⊎◌, ◌↔◌, inl, inr,
  arith, false, List, has, ◌==◌, Bool-cases, IsRing-frame, ok,
}
use molerat.Timers.{PollCommon, timer_init}
use molerat.Timers.Ring.{next_of, prev_of, IsTimers}
use molerat.HttpServer.Table.{IsTable, Has, add_connection-IsTable}
use molerat.HttpServer.Exchange.{
  Exchange, Serving, enroll, connection_create, tasklet_later, tasklet_set_handler,
  read_prebody_handler, timeout_handler,
}
use molerat.Tasklet.Runq.{run_queue_enqueue, tasklet_run, tasklet_run_round}
use molerat.HttpServer.Phases.{Alone, reading, Holds, update_timeout-Timed}
use molerat.Tasklet.{World, tasklet_init, wait_list_init}
use molerat.Tasklet.Effects.{unmoved}
use molerat.Tasklet.Waiting.{set_tasklet}

timer_init-IsTimers :
    (t : ℕ) (p : PollCommon) (w : World) (ts : List ℕ)
    → has t ts ≡ false
    → IsTimers p ts
    → IsTimers (timer_init t p w).0 ts
unfolding timer_init
timer_init-IsTimers t p w ts fresh h = record {
  ring =
      IsRing-frame (next_of p) (next_of (timer_init t p w).0) (prev_of p)
        (prev_of (timer_init t p w).0) p.timers ts h.ring
        (λ k m. elim (Bool-cases (k == t)) [
          | inl e ↦ let e' : k ≡ t = ground arith in absurd (cc)
          | inr n ↦ ground arith
        ])
        (λ k m. ground arith);
  outside = λ k m. let o = h.outside k m in ground arith;
  unfired = λ k m. let u = h.unfired k m in ground arith;
}

-- The tasklet is queued, and calls the handler when it is run.
pub record IsCalled (here t handler : ℕ) (w : World) : Type 0 where
  pub calls : (w.tasklet t).handler ≡ handler
  pub runq : (w.tasklet t).runq ≡ some here
  pub queued : has t (w.run_queue here).queued ≡ true

module _ (here t handler : ℕ) (w : World) where
  later-IsCalled :
      (w.tasklet t).runq ≡ none → IsCalled here t handler (tasklet_later here t handler w)
  unfolding tasklet_later tasklet_set_handler tasklet_run tasklet_run_round run_queue_enqueue
  later-IsCalled e = record {
    calls = ground arith;
    runq = ground arith;
    queued = ground (arith, has-append t (w.run_queue here).queued (t ∷ []));
  }

  later_runq :
      (u : ℕ) → u ≢ t → ((tasklet_later here t handler w).tasklet u).runq ≡ (w.tasklet u).runq
  unfolding tasklet_later tasklet_set_handler tasklet_run tasklet_run_round run_queue_enqueue
  later_runq u other = ground arith

  later_other :
      (u handler' : ℕ)
      → u ≢ t
      → (w.tasklet t).runq ≡ none
      → IsCalled here u handler' w
      → IsCalled here u handler' (tasklet_later here t handler w)
  unfolding tasklet_later tasklet_set_handler tasklet_run tasklet_run_round run_queue_enqueue
  later_other u handler' other e c =
      let calls = c.calls in
      let runq = c.runq in
      let queued = c.queued in
      record {
        calls = ground arith;
        runq = ground arith;
        queued = ground (arith, has-append u (w.run_queue here).queued (t ∷ []));
      }

abbrev enrolled : (here : ℕ) → Exchange → World → World
enrolled here x w = tasklet_later here x.timeout_tasklet timeout_handler (
    tasklet_later here x.tasklet read_prebody_handler
      (set_tasklet x.timeout_tasklet (tasklet_init (w.tasklet x.timeout_tasklet)) w))

enrolled-IsCalled :
    (here : ℕ) (x : Exchange) (w : World)
    → x.timeout_tasklet ≢ x.tasklet
    → (w.tasklet x.tasklet).runq ≡ none
    → IsCalled here x.tasklet read_prebody_handler (enrolled here x w)
      × IsCalled here x.timeout_tasklet timeout_handler (enrolled here x w)
unfolding tasklet_init
enrolled-IsCalled here x w other e =
    let u = x.timeout_tasklet in
    let w₁ = set_tasklet u (tasklet_init (w.tasklet u)) w in
    let w₂ = tasklet_later here x.tasklet read_prebody_handler w₁ in
    let e₁ : (w₁.tasklet x.tasklet).runq ≡ none = ground arith in
    let idle : (w₁.tasklet u).runq ≡ none = ground arith in
    let idle' : (w₂.tasklet u).runq ≡ none =
      later_runq here x.tasklet read_prebody_handler w₁ u other ∙ idle in
    (
      later_other here u timeout_handler w₂ x.tasklet read_prebody_handler (λ q. other (sym q))
          idle' (later-IsCalled here x.tasklet read_prebody_handler w₁ e₁),
      later-IsCalled here u timeout_handler w₂ idle',
    )

enrolled_wait_list :
    (here : ℕ) (x : Exchange) (w : World) (v : ℕ) → (enrolled here x w).wait_list v ≡ w.wait_list v
unfolding tasklet_later tasklet_set_handler
enrolled_wait_list here x w v = grind (arith, unmoved)

enrolled_wait :
    (here : ℕ) (x : Exchange) (w : World)
    → x.timeout_tasklet ≢ x.tasklet
    → ((enrolled here x w).tasklet x.timeout_tasklet).wait ≡ none
unfolding tasklet_later tasklet_set_handler tasklet_init
enrolled_wait here x w other = grind (arith, unmoved)

enrolled-Alone :
    (here waiting : ℕ) (x : Exchange) (p : PollCommon) (w : World) (q : Serving)
    → x.timeout_tasklet ≢ x.tasklet
    → (q.timers.timer x.timeout).waiting ≡ waiting
    → w.wait_list waiting ≡ wait_list_init 0
    → q.world ≡ enrolled here x w
    → Alone x q
unfolding wait_list_init
enrolled-Alone here waiting x p w q other e fresh same =
    rw (e, same)
      (
        other,
        rw (enrolled_wait_list here x w waiting, fresh) refl,
        inl (enrolled_wait here x w other),
      )

-- What `connection_create` leaves: the new connection in the table with its timer set and its two tasklets
-- about to be run, and the others as they were.
pub record Created (here : ℕ) (x : Exchange) (s q : Serving) : Type 0 where
  pub ring : List ℕ
  pub holds : Holds reading x ring q
  pub others : (d : ℕ) → Has q.connections d ↔ (Has s.connections d ⊎ (d ≡ x.conn))
  pub reads : IsCalled here x.tasklet read_prebody_handler q.world
  pub times_out : IsCalled here x.timeout_tasklet timeout_handler q.world

-- For new memory, and a table of less than 2 ^ 62 places, `connection_create` comes back and leaves the
-- connection in the table with its timer set. The tasklet that reads a request and the one that waits for
-- the timer are queued with their handlers. The other connections stay.
pub connection_create-Created :
    (junk : ℕ → ℕ) (here now : ℕ) (x : Exchange) (ts : List ℕ) (s : Serving)
    → x.timeout_tasklet ≢ x.tasklet
    → IsTimers s.timers ts
    → has x.timeout ts ≡ false
    → IsTable s.connections
    → ¬ Has s.connections x.conn
    → s.connections.server.connections_size < 2 ^ 62
    → (q : Serving) × (connection_create junk here now x s ≡ ok q) × Created here x s q
unfolding connection_create enroll timer_init tasklet_init
connection_create-Created junk here now x ts s other timers fresh table new room =
    let world = set_tasklet x.tasklet (tasklet_init (s.world.tasklet x.tasklet)) s.world in
    let begun = timer_init x.timeout s.timers world in
    let s' : Serving = record s { timers = begun.0; world = begun.1 } in
    let (q, ran, t) =
      update_timeout-Timed now x ts s'
        (timer_init-IsTimers x.timeout s.timers world ts fresh timers) in
    let idle : (begun.1.tasklet x.tasklet).runq ≡ none = ground arith in
    let (reads, times_out) = enrolled-IsCalled here x begun.1 other idle in
    let (table', members) = add_connection-IsTable junk x.conn s.connections table room new in
    (
      enroll junk here x (record s' { timers = q }),
      rw ran refl,
      record {
        ring = t.ring;
        holds = (
          record {
            timers = t.timers;
            table = table';
            listed = (members x.conn).1 (inr refl);
            alone =
                enrolled-Alone here (s.timers.timer x.timeout).waiting x q begun.1
                  (enroll junk here x (record s' { timers = q })) other (t.waiting ∙ ground arith)
                  (ground arith) refl;
          },
          inl t.member,
        );
        others = members;
        reads = reads;
        times_out = times_out;
      },
    )
