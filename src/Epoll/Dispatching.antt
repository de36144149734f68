-- ===== src/Epoll/Dispatching.antt =====
-- src/poll_epoll.c: proofs about the memory of watched descriptors and the calls of their handlers.
use molerat.Base.{
  ℕ, ◌≡◌, refl, ap, ◌∙◌, arith, inl, inr, Bool, true, false, Option, Option-cases, none, some, List,
  [], ◌∷◌, length, has, if◌then◌else◌, update, ok,
}
use molerat.Epoll.{
  Events, SystemEvents, events_from_system, WatchedFd, Poll, watched_fd_create, new_watched_fd,
  set_interest_of, watched_fd_set_interest, let_go, free_all, free_gone_watched_fds, poll_prepare,
  poll_dispatch,
}

abbrev absent : Option ℕ → Bool
absent none = true
absent (some n) = false

-- A descriptor is on the list `gone` from its destruction until it is freed.
pub record IsPoll (p : Poll) : Type 0 where
  pub destroyed : (w : ℕ) → p.allocated w ≡ true → has w p.gone ≡ absent (p.watched_fd w).fd
  pub allocated : (w : ℕ) → has w p.gone ≡ true → p.allocated w ≡ true
  pub count : p.gone_count ≡ length p.gone

-- What threads do while the poll thread waits and dispatches. They create, use and destroy descriptors,
-- and do not use one that they destroyed.
pub data Move : Poll → Poll → Type 0 where
  creates : (w fd : ℕ) {p : Poll} → p.allocated w ≡ false → Move p (watched_fd_create w fd p)
  sets :
      (answer : Bool) (w : ℕ) (events : Events) {p : Poll}
      → p.allocated w ≡ true
      → Move p (set_interest_of answer w events p).0
  destroys :
      (w fd : ℕ) {p : Poll}
      → p.allocated w ≡ true
      → (p.watched_fd w).fd ≡ some fd
      → Move p (let_go w p)

pub data Moves : Poll → Poll → Type 0 where
  none_more : {p : Poll} → Moves p p
  moves : {p q r : Poll} → Move p q → Moves q r → Moves p r

set_interest-fd :
    (answer : Bool) (events : Events) (w : WatchedFd)
    → (watched_fd_set_interest answer events w).0.fd ≡ w.fd
unfolding watched_fd_set_interest
set_interest-fd answer events w = ground arith

Move-IsPoll : {p q : Poll} → Move p q → IsPoll p → IsPoll q
unfolding watched_fd_create new_watched_fd set_interest_of let_go
Move-IsPoll (creates w fd {p} fresh) h = record {
  destroyed = λ v e. let d = h.destroyed v in let a = h.allocated v in ground arith;
  allocated = λ v e. let a = h.allocated v in ground arith;
  count = h.count;
}
Move-IsPoll (sets answer w events {p} old) h = record {
  destroyed = λ v e.
      let d = h.destroyed v in ground (arith, set_interest-fd answer events (p.watched_fd w));
  allocated = h.allocated;
  count = h.count;
}
Move-IsPoll (destroys w fd {p} old live) h = record {
  destroyed = λ v e. let d = h.destroyed v in ground arith;
  allocated = λ v e. let a = h.allocated v in ground arith;
  count = omega (arith, h.count);
}

free_all-allocated :
    (ws : List ℕ) (allocated : ℕ → Bool) (w : ℕ)
    → free_all ws allocated w ≡ (if has w ws then false else allocated w)
unfolding free_all
free_all-allocated [] allocated w = refl
free_all-allocated (v ∷ ws) allocated w =
    free_all-allocated ws (update allocated v false) w ∙ ground arith

pub poll_prepare-IsPoll : (p : Poll) → IsPoll p → IsPoll (poll_prepare p)
unfolding poll_prepare free_gone_watched_fds
poll_prepare-IsPoll p h = record {
  destroyed =
      λ w e. let d = h.destroyed w in ground (arith, free_all-allocated p.gone p.allocated w);
  allocated = λ w e. absurd (cc);
  count = refl;
}

Moves-IsPoll : {p q : Poll} → Moves p q → IsPoll p → IsPoll q
Moves-IsPoll none_more h = h
Moves-IsPoll (moves m ms) h = Moves-IsPoll ms (Move-IsPoll m h)

Move-allocated : {p q : Poll} → Move p q → (w : ℕ) → p.allocated w ≡ true → q.allocated w ≡ true
unfolding watched_fd_create set_interest_of let_go
Move-allocated (creates v fd {p} fresh) w e = ground arith
Move-allocated (sets answer v events {p} old) w e = e
Move-allocated (destroys v fd {p} old live) w e = e

Moves-allocated : {p q : Poll} → Moves p q → (w : ℕ) → p.allocated w ≡ true → q.allocated w ≡ true
Moves-allocated none_more w e = e
Moves-allocated (moves m ms) w e = Moves-allocated ms w (Move-allocated m w e)

-- The state when the loop comes to an event, after what the threads did since the one before.
abbrev pub Course : Poll → List ((ℕ × SystemEvents) × Poll) → Type 0
Course p [] = Unit {0}
Course p ((e, q) ∷ ee) = Moves p q × Course q ee

-- All the descriptors of some events.
abbrev pub AllOf : (ℕ → Type 0) → List ((ℕ × SystemEvents) × Poll) → Type 0
AllOf P [] = Unit {0}
AllOf P (((w, e), q) ∷ ee) = P w × AllOf P ee

-- The events but those of descriptors that were destroyed before their turn.
abbrev pub events_alive : List ((ℕ × SystemEvents) × Poll) → List (ℕ × Events)
events_alive [] = []
events_alive (((w, e), q) ∷ ee) =
    if has w q.gone then events_alive ee else (w, events_from_system e) ∷ events_alive ee

AllOf-Moves :
    {p q : Poll}
    → Moves p q
    → (ee : List ((ℕ × SystemEvents) × Poll)) → AllOf (λ w. p.allocated w ≡ true) ee
    → AllOf (λ w. q.allocated w ≡ true) ee
AllOf-Moves ms [] all = tt
AllOf-Moves ms (((w, e), r) ∷ ee) (old, all) = (Moves-allocated ms w old, AllOf-Moves ms ee all)

-- Whatever other threads create, use and destroy between the return of epoll_wait and the dispatch of
-- each event, no freed descriptor is read, and the handlers of the descriptors with events are called in
-- order, each with its events, but for those that were destroyed before their turn.
pub poll_dispatch-events_alive :
    {p : Poll} (ee : List ((ℕ × SystemEvents) × Poll))
    → IsPoll p
    → AllOf (λ w. p.allocated w ≡ true) ee
    → Course p ee
    → poll_dispatch ee ≡ ok (events_alive ee)
unfolding poll_dispatch
poll_dispatch-events_alive [] h all course = refl
poll_dispatch-events_alive (((w, e), q) ∷ ee) h (old, all) (ms, course) =
    let h' = Moves-IsPoll ms h in
    let old' = Moves-allocated ms w old in
    let rest = poll_dispatch-events_alive ee h' (AllOf-Moves ms ee all) course in
    elim (Option-cases (q.watched_fd w).fd) [
      | inl gone ↦
          let e' : has w q.gone ≡ true = h'.destroyed w old' ∙ ap absent gone in
          rw (old', rest, gone, e') refl
      | inr (fd, live) ↦
          let e' : has w q.gone ≡ false = h'.destroyed w old' ∙ ap absent live in
          rw (old', rest, live, e') refl
    ]
