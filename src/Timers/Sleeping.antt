-- ===== src/Timers/Sleeping.antt =====
-- src/poll_common.c: the poll thread and the threads that set and cancel timers, in any order.
use molerat.Base.{
  ℕ, ◌≡◌, refl, sym, ap, ◌∙◌, subst, Bool, true, false, Option, none, List, [], ◌∷◌, ◌++◌,
  if◌then◌else◌, Result, ok, ◌>>=◌, has, remove, length, ◌≤◌, ◌<◌, ltb, ltb→lt, Bool-cases, inl,
  inr, aborted,
}
use molerat.Tasklet.{World}
use molerat.Timers.{
  Timer, PollCommon, poll_common_init, timer_set, timer_cancel, earliest_latest, dispatch_timers,
  poll_thread_prepare, poll_thread_serve,
}
use molerat.Timers.Ring.{IsTimers, timer_cancel-IsTimers, timer_cancel-thread_woken}
use molerat.Timers.Setting.{timer_set-IsTimers, timer_set_aborts}
use molerat.Timers.Firing.{survivors, dispatch_timers-Dispatched}
use molerat.Timers.Dispatch.{expired_of}
use molerat.Timers.Waking.{Least, no_timers, at_timer, earliest_latest-Least}

-- The shared state, and the timeout that the poll thread last computed; `none` is no timeout.
pub record PollThread : Type 0 where
  pub common : PollCommon
  pub world : World
  pub timeout : Option ℕ

-- What a thread does while it holds `p->mutex`. The poll thread has fuel for the timers.
pub data Move (ts : List ℕ) (s : PollThread) : PollThread → Type 0 where
  prepare :
      (fuel : ℕ)
      → length ts ≤ fuel
      → (timeout : Option ℕ) (p : PollCommon) → poll_thread_prepare fuel s.common ≡ ok (timeout, p)
      → Move ts s (record s { common = p; timeout = timeout })
  serve :
      (fuel here now : ℕ)
      → length ts ≤ fuel
      → (dispatched : World) (p : PollCommon) (w : World)
      → poll_thread_serve fuel here now s.common dispatched ≡ ok (p, w)
      → Move ts s (record s { common = p; world = w })
  set :
      (t earliest latest : ℕ) (p : PollCommon)
      → timer_set t earliest latest s.common ≡ ok p
      → Move ts s (record s { common = p })
  cancel : (t : ℕ) → Move ts s (record s { common = timer_cancel t s.common })

-- A thread that nobody has woken sleeps until the least latest time of the timers.
pub record Sleeps (ts : List ℕ) (s : PollThread) : Type 0 where
  pub timers : IsTimers s.common ts
  pub timeout : s.common.thread_woken ≡ false → Least s.common ts s.timeout

ok_same : {A : Type 0} {x y : A} {r : Result A} → r ≡ ok x → r ≡ ok y → x ≡ y
ok_same e d = cc

not_woken : {P : Type 0} {b : Bool} → b ≡ true → b ≡ false → P
not_woken e d = cc

not_aborted : {A P : Type 0} {x : A} {r : Result A} → r ≡ aborted → r ≡ ok x → P
not_aborted e d = cc

set_in_order :
    (t earliest latest : ℕ) (p q : PollCommon)
    → timer_set t earliest latest p ≡ ok q
    → earliest < latest
set_in_order t earliest latest p q e = elim (Bool-cases (ltb earliest latest)) [
  | inl h ↦ ltb→lt earliest latest h
  | inr h ↦ not_aborted (timer_set_aborts t earliest latest p h) e
]

-- Whether the thread is woken does not matter to the ring.
IsTimers-woken :
    (b : Bool) (p : PollCommon) (ts : List ℕ)
    → IsTimers p ts
    → IsTimers (record p { thread_woken = b }) ts
IsTimers-woken b p ts v = record { ring = v.ring; outside = v.outside; unfired = v.unfired }

Least-woken :
    (b : Bool) (p : PollCommon) (ts : List ℕ) {o : Option ℕ}
    → Least p ts o
    → Least (record p { thread_woken = b }) ts o
Least-woken b p ts (no_timers e) = no_timers e
Least-woken b p ts (at_timer k m h) = at_timer k m h

prepared :
    (fuel : ℕ) (p : PollCommon) (o : Option ℕ)
    → earliest_latest fuel p ≡ ok o
    → poll_thread_prepare fuel p ≡ ok (o, record p { thread_woken = false })
unfolding poll_thread_prepare
prepared fuel p o e =
    ap (λ (r : Result (Option ℕ)). r >>= λ x. ok (x, record p { thread_woken = false })) e

-- Each of these, by whatever thread, keeps the ring, and keeps a thread that is not woken from
-- sleeping past the least latest time of the timers that are set.
pub Move-Sleeps :
    (ts : List ℕ) (s u : PollThread) → Sleeps ts s → Move ts s u → (us : List ℕ) × Sleeps us u
unfolding poll_thread_serve dispatch_timers
Move-Sleeps ts s _ v (prepare fuel enough timeout p e) =
    let (o, found, l) = earliest_latest-Least fuel ts s.common v.timers enough in
    let same : (o, record s.common { thread_woken = false }) ≡ (timeout, p) =
      ok_same (prepared fuel s.common o found) e in
    (
      ts,
      subst (λ (x : Option ℕ × PollCommon). Sleeps ts (record s { common = x.1; timeout = x.0 }))
          same
          (record {
            timers = IsTimers-woken false s.common ts v.timers;
            timeout = λ _. Least-woken false s.common ts l;
          }),
    )
Move-Sleeps ts s _ v (serve fuel here now enough dispatched p w e) =
    let (r, e', d) =
      dispatch_timers-Dispatched fuel here now ts (record s.common { thread_woken = true })
        dispatched (IsTimers-woken true s.common ts v.timers) enough in
    let same : r ≡ (p, w) = ok_same e' e in
    (
      survivors (expired_of now s.common) ts,
      subst
          (λ (x : PollCommon × World).
            Sleeps (survivors (expired_of now s.common) ts)
              (record s { common = x.0; world = x.1 }))
          same (record { timers = d.timers; timeout = not_woken d.thread_woken }),
    )
Move-Sleeps ts s _ v (set t earliest latest p e) =
    let (q, e', timers, _, _, woken, _, _) =
      timer_set-IsTimers t earliest latest s.common ts v.timers
        (set_in_order t earliest latest s.common p e) in
    let same : q ≡ p = ok_same e' e in
    (
      if has t ts then ts else ts ++ t ∷ [],
      record {
        timers = subst (λ x. IsTimers x (if has t ts then ts else ts ++ t ∷ [])) same timers;
        timeout = not_woken (ap (λ x. x.thread_woken) (sym same) ∙ woken);
      },
    )
Move-Sleeps ts s _ v (cancel t) = (
  remove t ts,
  record {
    timers = (timer_cancel-IsTimers t s.common ts v.timers).0;
    timeout = not_woken (timer_cancel-thread_woken t s.common);
  },
)

pub poll_common_init-Sleeps :
    (timer : ℕ → Timer) (world : World) (timeout : Option ℕ)
    → ((k : ℕ) → (timer k).next ≡ none)
    → Sleeps [] (record { common = poll_common_init timer; world = world; timeout = timeout })
unfolding poll_common_init
poll_common_init-Sleeps timer world timeout h = record {
  timers = record { ring = refl; outside = λ k m. h k; unfired = λ k m. cc };
  timeout = λ e. cc;
}
