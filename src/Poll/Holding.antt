-- ===== src/Poll/Holding.antt =====
-- src/poll_poll.c: the relation of the slots to the interest in descriptors.
use molerat.Base.{
  ℕ, ◌≤◌, ◌≡◌, arith, Bool, true, false, not, ◌&&◌, ◌||◌, none, some, List, ◌==◌, has, Distinct,
}
use molerat.Timers.{PollCommon}
use molerat.Epoll.{Events}
use molerat.Poll.{PollEvents, any_event, events_to_system, WatchedFd, Poll, set_watched_fd}
use molerat.Poll.Slots.{has_slot, SlotsOf}

-- poll is asked for all events of interest.
abbrev pub covers : PollEvents → Events → Bool
covers e interest =
    (not interest.ev_in || e.pollin)
    && ((not interest.ev_out || e.pollout) && (not interest.ev_err || e.pollerr))

-- The states between the operations, where `pending` is what is still to be synced. Any other descriptor
-- has a slot just where there is interest in it, with all events of interest; and a destroyed one is still
-- to be synced.
pub record Holds (pending : ℕ → Bool) (p : Poll) : Type 0 where
  pub slots : SlotsOf p
  pub fits : p.used ≤ p.size
  pub pending_allocated : (w : ℕ) → pending w ≡ true → p.allocated w ≡ true
  pub gone_pending : (w : ℕ) → p.allocated w ≡ true → (p.watched_fd w).fd ≡ none → pending w ≡ true
  pub gone_slot :
      (w : ℕ)
      → p.allocated w ≡ true
      → (p.watched_fd w).fd ≡ none
      → has_slot (p.watched_fd w).slot ≡ true
  pub gone_interest :
      (w : ℕ)
      → p.allocated w ≡ true
      → (p.watched_fd w).fd ≡ none
      → any_event (p.watched_fd w).interest ≡ false
  pub wanted :
      (w : ℕ)
      → p.allocated w ≡ true
      → pending w ≡ false
      → has_slot (p.watched_fd w).slot ≡ any_event (p.watched_fd w).interest
  pub covered :
      (w i : ℕ)
      → p.allocated w ≡ true
      → pending w ≡ false
      → (p.watched_fd w).slot ≡ some i
      → covers (p.pollfds i).events (p.watched_fd w).interest ≡ true
  pub same_fd :
      (w i n : ℕ)
      → p.allocated w ≡ true
      → (p.watched_fd w).slot ≡ some i
      → (p.watched_fd w).fd ≡ some n
      → (p.pollfds i).fd ≡ some n

abbrev pub IsPoll : Poll → Type 0
IsPoll p = Holds (λ v. has v p.updates) p × Distinct p.updates

-- `updates` and `common` do not matter.
pub Holds-frame :
    (pending : ℕ → Bool) (p : Poll) (ws : List ℕ) (c : PollCommon)
    → Holds pending p
    → Holds pending (record p { updates = ws; common = c })
Holds-frame pending p ws c h = record {
  slots = h.slots;
  fits = h.fits;
  pending_allocated = h.pending_allocated;
  gone_pending = h.gone_pending;
  gone_slot = h.gone_slot;
  gone_interest = h.gone_interest;
  wanted = h.wanted;
  covered = h.covered;
  same_fd = h.same_fd;
}

pub covers_self : (e : Events) → covers (events_to_system e) e ≡ true
unfolding events_to_system
covers_self e = ground arith

-- An allocated descriptor is changed, and is still to be synced.
pub set-Holds :
    (w : ℕ) (ws : ℕ → Bool) (r : WatchedFd) (p : Poll)
    → Holds ws p
    → p.allocated w ≡ true
    → r.slot ≡ (p.watched_fd w).slot
    → ((n : ℕ) → r.fd ≡ some n → (p.watched_fd w).fd ≡ some n)
    → (r.fd ≡ none → has_slot r.slot ≡ true)
    → (r.fd ≡ none → any_event r.interest ≡ false)
    → Holds (λ v. v == w || ws v) (set_watched_fd w r p)
set-Holds w ws r p h old same alive slotted quiet = record {
  slots = record {
    first = h.slots.first;
    taken_allocated = h.slots.taken_allocated;
    taken_slot = λ i pos lt. let a = h.slots.taken_slot i pos lt in ground arith;
    slot_pos = λ v i a e. let b = h.slots.slot_pos v i a in ground arith;
    slot_used = λ v i a e. let b = h.slots.slot_used v i a in ground arith;
    slot_taken = λ v i a e. let b = h.slots.slot_taken v i a in ground arith;
  };
  fits = h.fits;
  pending_allocated = λ v e. let a = h.pending_allocated v in ground arith;
  gone_pending = λ v a g. let b = h.gone_pending v a in ground arith;
  gone_slot = λ v a g. let b = h.gone_slot v a in ground arith;
  gone_interest = λ v a g. let b = h.gone_interest v a in ground arith;
  wanted = λ v a e. let b = h.wanted v a in ground arith;
  covered = λ v i a e t. let b = h.covered v i a in ground arith;
  same_fd = λ v i n a t f. let b = h.same_fd v i n a in let c = alive n in ground arith;
}
