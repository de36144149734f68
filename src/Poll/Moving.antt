-- ===== src/Poll/Moving.antt =====
-- src/poll_poll.c: proofs about what the poll thread and other threads do in turn.
use molerat.Base.{
  ℕ, ◌≡◌, refl, sym, ap, subst, ◌∙◌, arith, inl, inr, Bool, true, false, ◌||◌, Bool-cases,
  Option-cases, none, some, List, [], ◌∷◌, ◌++◌, ◌==◌, has, has-append, append-Distinct, has-remove,
  remove-Distinct, Distinct, ok,
}
use molerat.Timers.{PollCommon, poll_common_wake}
use molerat.Epoll.{Events, no_events, union}
use molerat.Poll.{
  PollEvents, Poll, Call, poll_create, set_watched_fd, watched_fd_create, updated,
  watched_fd_destroy, watched_fd_set_interest, poll_prepare, poll_dispatch,
}
use molerat.Poll.Slots.{has_slot, create-SlotsOf, free-SlotsOf}
use molerat.Poll.Dispatching.{poll_dispatch-Dispatched}
use molerat.Poll.Watching.{Watches, poll_prepare-IsPoll}
use molerat.Poll.Holding.{set-Holds, Holds, Holds-frame, IsPoll}

Holds-cong : (p : Poll) {ws ws' : ℕ → Bool} → ((v : ℕ) → ws v ≡ ws' v) → Holds ws p → Holds ws' p
Holds-cong p e h = record {
  slots = h.slots;
  fits = h.fits;
  pending_allocated = λ v q. h.pending_allocated v (e v ∙ q);
  gone_pending = λ v a g. sym (e v) ∙ h.gone_pending v a g;
  gone_slot = h.gone_slot;
  gone_interest = h.gone_interest;
  wanted = λ v a q. h.wanted v a (e v ∙ q);
  covered = λ v i a q. h.covered v i a (e v ∙ q);
  same_fd = h.same_fd;
}

updated-IsPoll :
    (w : ℕ) (p : Poll)
    → Holds (λ v. v == w || has v p.updates) p
    → Distinct p.updates
    → IsPoll (updated w p)
unfolding updated
updated-IsPoll w p h d = elim (Bool-cases (has w p.updates)) [
  | inl on ↦ rw (updated, on) (Holds-cong p (λ v. ground arith) h, d)
  | inr off ↦
      rw (updated, off)
        (
          Holds-frame (λ v. has v (p.updates ++ w ∷ [])) p (p.updates ++ w ∷ [])
              (poll_common_wake p.common)
              (Holds-cong p (λ v. ground (arith, has-append v p.updates (w ∷ []))) h),
          append-Distinct w p.updates d off,
        )
]

create-IsPoll :
    (w fd : ℕ) (p : Poll) → p.allocated w ≡ false → IsPoll p → IsPoll (watched_fd_create w fd p)
unfolding watched_fd_create
create-IsPoll w fd p fresh (h, d) = (
  record {
    slots = create-SlotsOf w fd p fresh h.slots;
    fits = h.fits;
    pending_allocated = λ v e. let a = h.pending_allocated v e in ground arith;
    gone_pending = λ v a g. let b = h.gone_pending v in ground arith;
    gone_slot = λ v a g. let b = h.gone_slot v in ground arith;
    gone_interest = λ v a g. let b = h.gone_interest v in ground arith;
    wanted = λ v a e. let b = h.wanted v in ground arith;
    covered = λ v i a e t. let b = h.covered v i in ground arith;
    same_fd = λ v i n a t f. let b = h.same_fd v i n in ground arith;
  },
  d,
)

set_interest-IsPoll :
    (w n : ℕ) (events : Events) (p : Poll)
    → p.allocated w ≡ true
    → (p.watched_fd w).fd ≡ some n
    → IsPoll p
    → IsPoll (watched_fd_set_interest w events p)
unfolding watched_fd_set_interest
set_interest-IsPoll w n events p old live (h, d) =
    let r = record (p.watched_fd w) { interest = union (p.watched_fd w).interest events } in
    updated-IsPoll w (set_watched_fd w r p)
      (set-Holds w (λ v. has v p.updates) r p h old refl (λ m e. e) (λ e. absurd (cc))
        (λ e. absurd (cc)))
      d

destroy-IsPoll :
    (w n : ℕ) (p : Poll)
    → p.allocated w ≡ true
    → (p.watched_fd w).fd ≡ some n
    → IsPoll p
    → IsPoll (watched_fd_destroy w p)
unfolding watched_fd_destroy
destroy-IsPoll w n p old live (h, d) = elim (Option-cases (p.watched_fd w).slot) [
  | inr (s, taken) ↦
      rw (watched_fd_destroy, taken)
        (let r = record (p.watched_fd w) { fd = none; interest = no_events } in
          updated-IsPoll w (set_watched_fd w r p)
            (set-Holds w (λ v. has v p.updates) r p h old refl (λ m e. absurd (cc))
              (λ e. ap has_slot taken) (λ e. refl))
            d)
  | inl free ↦
      rw (watched_fd_destroy, free)
        (
          record {
            slots = free-SlotsOf w p free h.slots;
            fits = h.fits;
            pending_allocated = λ v e.
                let a = h.pending_allocated v in let k = has-remove v w p.updates d in ground arith;
            gone_pending = λ v a g.
                let b = h.gone_pending v in let k = has-remove v w p.updates d in ground arith;
            gone_slot = λ v a g. let b = h.gone_slot v in ground arith;
            gone_interest = λ v a g. let b = h.gone_interest v in ground arith;
            wanted =
                λ v a e. let b = h.wanted v in let k = has-remove v w p.updates d in ground arith;
            covered = λ v i a e t.
                let b = h.covered v i in let k = has-remove v w p.updates d in ground arith;
            same_fd = λ v i m a t f. let b = h.same_fd v i m in ground arith;
          },
          remove-Distinct w p.updates d,
        )
]

-- The steps of the poll thread and of the other threads, which do not use a descriptor that they
-- destroyed. While poll waits, others go on, so that `poll_dispatch` may come at any time after it;
-- where poll timed out it changes nothing.
pub data Step : Poll → Poll → Type 0 where
  creates : (w fd : ℕ) {p : Poll} → p.allocated w ≡ false → Step p (watched_fd_create w fd p)
  sets :
      (w n : ℕ) (events : Events) {p : Poll}
      → p.allocated w ≡ true
      → (p.watched_fd w).fd ≡ some n
      → Step p (watched_fd_set_interest w events p)
  destroys :
      (w n : ℕ) {p : Poll}
      → p.allocated w ≡ true
      → (p.watched_fd w).fd ≡ some n
      → Step p (watched_fd_destroy w p)
  prepares : {p q : Poll} → poll_prepare p ≡ ok q → Step p q
  dispatches :
      (revents : ℕ → PollEvents) {p q : Poll} (calls : List Call)
      → poll_dispatch true revents p ≡ ok (q, calls)
      → Step p q

-- The states that are reached from `poll_create`, with nothing allocated.
pub data Reach : Poll → Type 0 where
  created :
      (common : PollCommon) (pipe : ℕ) (p : Poll)
      → ((w : ℕ) → p.allocated w ≡ false)
      → Reach (poll_create common pipe p)
  steps : {p q : Poll} → Reach p → Step p q → Reach q

pub ok_value : {A : Type 0} {a b : A} → ok a ≡ ok b → a ≡ b
ok_value e = cc

create-empty :
    (common : PollCommon) (pipe : ℕ) (p : Poll)
    → ((w : ℕ) → p.allocated w ≡ false)
    → IsPoll (poll_create common pipe p)
unfolding poll_create
create-empty common pipe p e = (
  record {
    slots = record {
      first = omega arith;
      taken_allocated = λ i pos lt. absurd (omega arith);
      taken_slot = λ i pos lt. absurd (omega arith);
      slot_pos = λ v i a t. let b = e v in absurd (cc);
      slot_used = λ v i a t. let b = e v in absurd (cc);
      slot_taken = λ v i a t. let b = e v in absurd (cc);
    };
    fits = omega arith;
    pending_allocated = λ v a. absurd (cc);
    gone_pending = λ v a g. let b = e v in absurd (cc);
    gone_slot = λ v a g. let b = e v in absurd (cc);
    gone_interest = λ v a g. let b = e v in absurd (cc);
    wanted = λ v a g. let b = e v in absurd (cc);
    covered = λ v i a g t. let b = e v in absurd (cc);
    same_fd = λ v i n a t f. let b = e v in absurd (cc);
  },
  tt,
)

Step-IsPoll : {p q : Poll} → Step p q → IsPoll p → IsPoll q
Step-IsPoll (creates w fd {p} fresh) h = create-IsPoll w fd p fresh h
Step-IsPoll (sets w n events {p} old live) h = set_interest-IsPoll w n events p old live h
Step-IsPoll (destroys w n {p} old live) h = destroy-IsPoll w n p old live h
Step-IsPoll (prepares {p} {q} ran) h =
    let (q', ran', h', w) = poll_prepare-IsPoll p h in
    let e : q' ≡ q = ok_value (sym ran' ∙ ran) in subst IsPoll e h'
Step-IsPoll (dispatches revents {p} {q} calls ran) h =
    let (r, ran', d) = poll_dispatch-Dispatched revents p h in
    let e : r ≡ (q, calls) = ok_value (sym ran' ∙ ran) in subst (λ r. IsPoll r.0) e d.is_poll

pub Reach-IsPoll : {p : Poll} → Reach p → IsPoll p
Reach-IsPoll (created common pipe p e) = create-empty common pipe p e
Reach-IsPoll (steps r s) = Step-IsPoll s (Reach-IsPoll r)

-- Whatever the poll thread and other threads do in turn, `poll_prepare` comes back without a read of a
-- freed descriptor, and then poll is given every descriptor in which there is interest, by its number and
-- for all events of interest, and but for the pipe nothing else; all destroyed descriptors are freed.
pub poll_prepare-Watches : {p : Poll} → Reach p → (q : Poll) × (poll_prepare p ≡ ok q) × Watches q
poll_prepare-Watches {p} r =
    let (q, ran, h, w) = poll_prepare-IsPoll p (Reach-IsPoll r) in (q, ran, w)
