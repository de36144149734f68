-- ===== src/Poll/Watching.antt =====
-- src/poll_poll.c: proofs about the interest in descriptors and what poll is asked for.
use molerat.Base.{
  ℕ, ◌-◌, ◌<◌, ◌≡◌, refl, ap, arith, inl, inr, Bool, true, false, ◌||◌, Bool-cases, Option-cases,
  none, some, List, [], ◌∷◌, ◌==◌, update, has, Distinct, ok,
}
use molerat.Poll.{
  any_event, events_to_system, Poll, add_pollfd, move_last, remove_pollfd, sync, sync_all,
  poll_prepare,
}
use molerat.Poll.Slots.{has_slot, add_pollfd-SlotsOf, remove-Slots}
use molerat.Poll.Holding.{covers, Holds, IsPoll, Holds-frame, covers_self}

-- A descriptor that has no slot and that nobody is interested in needs no syncing.
skip-Holds :
    (w : ℕ) (ws : ℕ → Bool) (p : Poll)
    → Holds (λ v. v == w || ws v) p
    → has_slot (p.watched_fd w).slot ≡ false
    → any_event (p.watched_fd w).interest ≡ false
    → Holds ws p
skip-Holds w ws p h free idle = record {
  slots = h.slots;
  fits = h.fits;
  pending_allocated = λ v e. let a = h.pending_allocated v in ground arith;
  gone_pending = λ v a g. let b = h.gone_pending v a g in let c = h.gone_slot v a g in ground arith;
  gone_slot = h.gone_slot;
  gone_interest = h.gone_interest;
  wanted = λ v a e. let b = h.wanted v a in ground arith;
  covered = λ v i a e s. let b = h.covered v i a in ground arith;
  same_fd = h.same_fd;
}

add-Holds :
    (w : ℕ) (ws : ℕ → Bool) (p : Poll)
    → Holds (λ v. v == w || ws v) p
    → (p.watched_fd w).slot ≡ none
    → any_event (p.watched_fd w).interest ≡ true
    → Holds ws (add_pollfd w p)
unfolding add_pollfd
add-Holds w ws p h free busy =
    let old = h.pending_allocated w (ground arith) in
    record {
      slots = add_pollfd-SlotsOf w p old free h.slots;
      fits = let f = h.fits in let o = h.slots.first in ground arith;
      pending_allocated = λ v e. let a = h.pending_allocated v in ground arith;
      gone_pending = λ v a g. let b = h.gone_pending v a in let c = h.gone_slot v a in ground arith;
      gone_slot = λ v a g. let b = h.gone_slot v a in ground arith;
      gone_interest = λ v a g. let b = h.gone_interest v a in ground arith;
      wanted = λ v a e. let b = h.wanted v a in ground arith;
      covered = λ v i a e s.
          let b = h.covered v i a in
          let c = h.slots.slot_used v i a in
          let k = covers_self (p.watched_fd w).interest in ground arith;
      same_fd = λ v i n a s f.
          let b = h.same_fd v i n a in let c = h.slots.slot_used v i a in ground arith;
    }

refresh-Holds :
    (w s : ℕ) (ws : ℕ → Bool) (p : Poll)
    → Holds (λ v. v == w || ws v) p
    → (p.watched_fd w).slot ≡ some s
    → any_event (p.watched_fd w).interest ≡ true
    → Holds ws (record p {
      pollfds =
          update p.pollfds s
            (record (p.pollfds s) { events = events_to_system (p.watched_fd w).interest });
    })
refresh-Holds w s ws p h taken busy =
    let old = h.pending_allocated w (ground arith) in
    record {
      slots = h.slots;
      fits = h.fits;
      pending_allocated = λ v e. let a = h.pending_allocated v in ground arith;
      gone_pending =
          λ v a g. let b = h.gone_pending v a g in let c = h.gone_interest v a g in ground arith;
      gone_slot = h.gone_slot;
      gone_interest = h.gone_interest;
      wanted = λ v a e. let b = h.wanted v a in ground arith;
      covered = λ v i a e t.
          let b = h.covered v i a in
          let c = h.slots.slot_taken v i a t in
          let d = h.slots.slot_taken w s old taken in
          let k = covers_self (p.watched_fd w).interest in ground arith;
      same_fd = λ v i n a t f. let b = h.same_fd v i n a t f in ground arith;
    }

-- `remove_pollfd` at a descriptor, in which there is no interest where it is not freed.
pub remove-Holds :
    (w s : ℕ) (ws : ℕ → Bool) (p : Poll)
    → Holds (λ v. v == w || ws v) p
    → p.allocated w ≡ true
    → (p.watched_fd w).slot ≡ some s
    → any_event (p.watched_fd w).interest ≡ false
    → ((p.watched_fd w).fd ≡ none → ws w ≡ false)
    → Holds ws (remove_pollfd s p)
unfolding remove_pollfd move_last
remove-Holds w s ws p h old taken idle once =
    let pos = h.slots.slot_pos w s old taken in
    let lt = h.slots.slot_used w s old taken in
    let here = h.slots.slot_taken w s old taken in
    let last = p.watched_fds (p.used - 1) in
    let last_slot = h.slots.taken_slot (p.used - 1) (omega arith) (omega arith) in
    let last_allocated = h.slots.taken_allocated (p.used - 1) (omega arith) (omega arith) in
    elim (Option-cases (p.watched_fd w).fd) [
      | inl e ↦
          let f : (p.watched_fd (p.watched_fds s)).fd ≡ none = ground arith in
          rw (remove_pollfd, f)
            (record {
              slots =
                  remove-Slots s p (update p.allocated (p.watched_fds s) false)
                    (λ v. ((move_last s p).watched_fd v).slot) pos lt (λ v a. ground arith)
                    (λ v n. ground arith) (λ v n. refl) (λ a. absurd (ground arith)) h.slots;
              fits = omega (arith, h.fits);
              pending_allocated =
                  λ v q. let a = h.pending_allocated v in let o = once e in ground arith;
              gone_pending = λ v a g. let b = h.gone_pending v in ground arith;
              gone_slot = λ v a g. let b = h.gone_slot v in ground arith;
              gone_interest = λ v a g. let b = h.gone_interest v in ground arith;
              wanted = λ v a q. let b = h.wanted v in let b' = h.wanted last in ground arith;
              covered = λ v i a q t.
                  let b = h.covered v i in
                  let b' = h.covered last (p.used - 1) in
                  let c = h.slots.slot_taken v i in ground arith;
              same_fd = λ v i n a t g.
                  let b = h.same_fd v i n in
                  let b' = h.same_fd last (p.used - 1) n in
                  let c = h.slots.slot_taken v i in ground arith;
            })
      | inr (n, e) ↦
          let f : (p.watched_fd (p.watched_fds s)).fd ≡ some n = ground arith in
          rw (remove_pollfd, f)
            (record {
              slots =
                  remove-Slots s p p.allocated _ pos lt (λ v a. a) (λ v n. refl)
                    (λ v n. ground arith) (λ a. ground arith) h.slots;
              fits = omega (arith, h.fits);
              pending_allocated = λ v q. let a = h.pending_allocated v in ground arith;
              gone_pending = λ v a g. let b = h.gone_pending v in ground arith;
              gone_slot = λ v a g. let b = h.gone_slot v in ground arith;
              gone_interest = λ v a g. let b = h.gone_interest v in ground arith;
              wanted = λ v a q. let b = h.wanted v in let b' = h.wanted last in ground arith;
              covered = λ v i a q t.
                  let b = h.covered v i in
                  let b' = h.covered last (p.used - 1) in
                  let c = h.slots.slot_taken v i in ground arith;
              same_fd = λ v i n' a t g.
                  let b = h.same_fd v i n' in
                  let b' = h.same_fd last (p.used - 1) n' in
                  let c = h.slots.slot_taken v i in ground arith;
            })
    ]

-- The loop of `poll_prepare` at a descriptor.
sync-Holds :
    (w : ℕ) (ws : ℕ → Bool) (p : Poll)
    → Holds (λ v. v == w || ws v) p
    → ws w ≡ false
    → Holds ws (sync w p)
unfolding sync
sync-Holds w ws p h once =
    let old = h.pending_allocated w (ground arith) in
    elim (Option-cases (p.watched_fd w).slot) [
      | inl free ↦ elim (Bool-cases (any_event (p.watched_fd w).interest)) [
        | inl busy ↦ rw (sync, free, busy) (add-Holds w ws p h free busy)
        | inr idle ↦ rw (sync, free, idle) (skip-Holds w ws p h (ap has_slot free) idle)
      ]
      | inr (s, taken) ↦ elim (Bool-cases (any_event (p.watched_fd w).interest)) [
        | inl busy ↦ rw (sync, taken, busy) (refresh-Holds w s ws p h taken busy)
        | inr idle ↦ rw (sync, taken, idle) (remove-Holds w s ws p h old taken idle (λ g. once))
      ]
    ]

sync_all-Holds :
    (ws : List ℕ) (p : Poll)
    → Distinct ws
    → Holds (λ v. has v ws) p
    → (q : Poll) × (sync_all ws p ≡ ok q) × Holds (λ v. false) q
unfolding sync_all
sync_all-Holds [] p d h = (p, refl, h)
sync_all-Holds (w ∷ ws) p d h =
    let old = h.pending_allocated w (ground arith) in
    let (q, ran, h') = sync_all-Holds ws (sync w p) d.1 (sync-Holds w (λ v. has v ws) p h d.0) in
    (q, rw old ran, h')

-- Every descriptor in which there is interest is given to poll, for all events of interest, and nothing
-- else is but the pipe; no destroyed descriptor is left.
pub record Watches (p : Poll) : Type 0 where
  pub alive : (w : ℕ) → p.allocated w ≡ true → (p.watched_fd w).fd ≡ none → ⊥
  pub entry :
      (w n : ℕ)
      → p.allocated w ≡ true
      → (p.watched_fd w).fd ≡ some n
      → any_event (p.watched_fd w).interest ≡ true
      → (i : ℕ) × (0 < i)
        × (i < p.used)
        × (p.watched_fds i ≡ w)
        × ((p.pollfds i).fd ≡ some n)
        × (covers (p.pollfds i).events (p.watched_fd w).interest ≡ true)
  pub interested :
      (i : ℕ)
      → 0 < i
      → i < p.used
      → (p.allocated (p.watched_fds i) ≡ true)
        × (any_event (p.watched_fd (p.watched_fds i)).interest ≡ true)

Holds-Watches : (p : Poll) → Holds (λ v. false) p → Watches p
Holds-Watches p h = record {
  alive = λ w a g. absurd (cc (h.gone_pending w a g));
  entry = λ w n a g busy. elim (Option-cases (p.watched_fd w).slot) [
    | inl e ↦ let b = h.wanted w a refl in absurd (ground arith)
    | inr (i, e) ↦ (
      i,
      h.slots.slot_pos w i a e,
      h.slots.slot_used w i a e,
      h.slots.slot_taken w i a e,
      h.same_fd w i n a e g,
      h.covered w i a refl e,
    )
  ];
  interested = λ i pos lt.
      let a = h.slots.taken_allocated i pos lt in
      let b = h.wanted (p.watched_fds i) a refl in
      let c = h.slots.taken_slot i pos lt in (a, ground arith);
}

pub poll_prepare-IsPoll :
    (p : Poll) → IsPoll p → (q : Poll) × (poll_prepare p ≡ ok q) × IsPoll q × Watches q
unfolding poll_prepare
poll_prepare-IsPoll p (h, d) =
    let (q, ran, h') = sync_all-Holds p.updates p d h in
    let empty = Holds-frame (λ v. false) q [] q.common h' in
    (
      record q { updates = [] },
      rw (poll_prepare, ran) refl,
      (empty, tt),
      Holds-Watches (record q { updates = [] }) empty,
    )
