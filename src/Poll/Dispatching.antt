-- ===== src/Poll/Dispatching.antt =====
-- src/poll_poll.c: proofs about `poll_dispatch`.
use molerat.Base.{
  ℕ, zero, suc, ◌+◌, ◌≤◌, ◌<◌, ◌≡◌, refl, ◌∙◌, arith, inl, inr, Bool, true, Bool-cases, Option,
  Option-cases, some, List, [], ◌∷◌, ltb, if◌then◌else◌, ok, Result, ◌>>=◌,
}
use molerat.Epoll.{Events}
use molerat.Poll.{
  PollEvents, any_event, any_poll_event, without, events_from_system, Poll, Call, set_watched_fd,
  remove_pollfd, DispatchResult, turn_at, dispatch_loop, poll_dispatch,
}
use molerat.Poll.Holding.{IsPoll}
use molerat.Poll.Turning.{remove_pollfd-moved, kept-IsPoll, removed-IsPoll}
use molerat.Poll.Calling.{Dispatched, skip-Dispatched, kept-Dispatched, removed-Dispatched}

-- The loop with the call for the descriptor at its slot.
abbrev called : ℕ → Events → Result (Poll × List Call) → Result (Poll × List Call)
called w got m = m >>= (λ d. ok (d.0, (w, got) ∷ d.1))

-- The state in which the slot of the descriptor is looked at again.
abbrev narrowed : ℕ → Events → Poll → Poll
narrowed w got p =
    set_watched_fd w (record (p.watched_fd w) { interest = without (p.watched_fd w).interest got })
      p

turn_at_call :
    {in_use busy : Bool} {fd : Option ℕ} {dispatched : DispatchResult} {n : ℕ}
    (ended skipped : DispatchResult)
    → in_use ≡ true
    → busy ≡ true
    → fd ≡ some n
    → turn_at in_use busy fd ended skipped dispatched ≡ dispatched
turn_at_call ended skipped a b c = rw (a, b, c) refl

dispatch_loop_call :
    (fuel i n : ℕ) (revents : ℕ → PollEvents) (p : Poll)
    → ltb i p.used ≡ true
    → any_poll_event (revents (p.watched_fds i)) ≡ true
    → (p.watched_fd (p.watched_fds i)).fd ≡ some n
    → dispatch_loop (suc fuel) i revents p ≡ (
        let w = p.watched_fds i in
        let got = events_from_system (revents w) in
        called w got (
          if any_event (without (p.watched_fd w).interest got)
          then dispatch_loop fuel (i + 1) revents (narrowed w got p)
          else dispatch_loop fuel i revents (remove_pollfd i (narrowed w got p))))
unfolding dispatch_loop
dispatch_loop_call fuel i n revents p lt busy live = turn_at_call _ _ lt busy live

dispatch_loop-Dispatched :
    (fuel i : ℕ) (revents : ℕ → PollEvents) (p : Poll)
    → 0 < i
    → i ≤ p.used
    → p.used < i + fuel
    → IsPoll p
    → (r : Poll × List Call) × (dispatch_loop fuel i revents p ≡ ok r) × Dispatched i revents p r
unfolding dispatch_loop
dispatch_loop-Dispatched zero i revents p pos le enough h = absurd (omega arith)
dispatch_loop-Dispatched (suc fuel) i revents p pos le enough h = elim (Bool-cases (ltb i p.used)) [
  | inr out ↦ (
    (p, []),
    rw (dispatch_loop, out) refl,
    record {
      is_poll = h;
      given = tt;
      once = tt;
      all = λ j n le' lt live busy. absurd (ground arith);
      only = λ w e. absurd (cc);
    },
  )
  | inl lt ↦
      let lt' : i < p.used = ground arith in
      elim (Bool-cases (any_poll_event (revents (p.watched_fds i)))) [
        | inr quiet ↦
            let (r, ran, d) =
              dispatch_loop-Dispatched fuel (i + 1) revents p (omega arith) (omega arith)
                (omega arith) h in
            (
              r,
              rw (dispatch_loop, lt, quiet) ran,
              skip-Dispatched i revents p r (λ n e busy. absurd (cc)) d,
            )
        | inl busy ↦ elim (Option-cases (p.watched_fd (p.watched_fds i)).fd) [
          | inl gone ↦
              let (r, ran, d) =
                dispatch_loop-Dispatched fuel (i + 1) revents p (omega arith) (omega arith)
                  (omega arith) h in
              (
                r,
                rw (dispatch_loop, lt, busy, gone) ran,
                skip-Dispatched i revents p r (λ n e b. absurd (cc)) d,
              )
          | inr (n, live) ↦
              let w = p.watched_fds i in
              let got = events_from_system (revents w) in
              let left = without (p.watched_fd w).interest got in
              let p' = narrowed w got p in
              let step = dispatch_loop_call fuel i n revents p lt busy live in
              elim (Bool-cases (any_event left)) [
                | inl some_left ↦
                    let (r, ran, d) =
                      dispatch_loop-Dispatched fuel (i + 1) revents p' (omega arith) (omega arith)
                        (omega arith) (kept-IsPoll i n got p pos lt' live some_left h) in
                    (
                      (r.0, (w, got) ∷ r.1),
                      step ∙ rw (some_left, ran) refl,
                      kept-Dispatched i n left revents p r pos lt' live busy h d,
                    )
                | inr none_left ↦
                    let (us, u, ws, same) = remove_pollfd-moved i p' in
                    let (r, ran, d) =
                      dispatch_loop-Dispatched fuel i revents (remove_pollfd i p') pos (omega arith)
                        (omega arith) (removed-IsPoll i n got p pos lt' live none_left h) in
                    (
                      (r.0, (w, got) ∷ r.1),
                      step ∙ rw (none_left, ran) refl,
                      removed-Dispatched i n revents p (remove_pollfd i p') r pos lt' live busy h u
                          ws (λ v. same v ∙ ground arith) d,
                    )
              ]
        ]
      ]
]

-- For states whose slots fit their descriptors, `poll_dispatch` comes back, and calls the handler of
-- each descriptor that has a slot, is not destroyed and has events, once and with these events; it calls
-- no other, and the slots fit again.
pub poll_dispatch-Dispatched :
    (revents : ℕ → PollEvents) (p : Poll)
    → IsPoll p
    → (r : Poll × List Call) × (poll_dispatch true revents p ≡ ok r) × Dispatched 1 revents p r
unfolding poll_dispatch
poll_dispatch-Dispatched revents p h =
    dispatch_loop-Dispatched p.used 1 revents p (omega arith) h.0.slots.first (omega arith) h
