-- ===== src/Poll/Slots.antt =====
-- src/poll_poll.c: proofs about the slots of watched descriptors.
use molerat.Base.{
  ℕ, ◌-◌, ◌<◌, ◌≡◌, refl, arith, inl, inr, Bool, true, false, Option, Option-cases, none, some,
  ◌==◌, update,
}
use molerat.Poll.{Poll, watched_fd_create, add_pollfd, move_last, remove_pollfd}

abbrev pub has_slot : Option ℕ → Bool
has_slot none = false
has_slot (some i) = true

-- The slots of a state, by the parts of the state that they depend on.
pub record Slots (used : ℕ) (allocated : ℕ → Bool) (slot : ℕ → Option ℕ) (watched_fds : ℕ → ℕ)
    : Type 0 where
  pub first : 0 < used
  pub taken_allocated : (i : ℕ) → 0 < i → i < used → allocated (watched_fds i) ≡ true
  pub taken_slot : (i : ℕ) → 0 < i → i < used → slot (watched_fds i) ≡ some i
  pub slot_pos : (w i : ℕ) → allocated w ≡ true → slot w ≡ some i → 0 < i
  pub slot_used : (w i : ℕ) → allocated w ≡ true → slot w ≡ some i → i < used
  pub slot_taken : (w i : ℕ) → allocated w ≡ true → slot w ≡ some i → watched_fds i ≡ w

abbrev pub SlotsOf : Poll → Type 0
SlotsOf p = Slots p.used p.allocated (λ w. (p.watched_fd w).slot) p.watched_fds

pub create-SlotsOf :
    (w fd : ℕ) (p : Poll) → p.allocated w ≡ false → SlotsOf p → SlotsOf (watched_fd_create w fd p)
unfolding watched_fd_create
create-SlotsOf w fd p fresh h = record {
  first = h.first;
  taken_allocated = λ i pos lt. let a = h.taken_allocated i pos lt in ground arith;
  taken_slot = λ i pos lt.
      let a = h.taken_allocated i pos lt in let b = h.taken_slot i pos lt in ground arith;
  slot_pos = λ v i a e. let b = h.slot_pos v i in ground arith;
  slot_used = λ v i a e. let b = h.slot_used v i in ground arith;
  slot_taken = λ v i a e. let b = h.slot_taken v i in ground arith;
}

pub add_pollfd-SlotsOf :
    (w : ℕ) (p : Poll)
    → p.allocated w ≡ true
    → (p.watched_fd w).slot ≡ none
    → SlotsOf p
    → SlotsOf (add_pollfd w p)
unfolding add_pollfd
add_pollfd-SlotsOf w p old free h = record {
  first = omega arith;
  taken_allocated = λ i pos lt. let a = h.taken_allocated i pos in ground arith;
  taken_slot = λ i pos lt. let a = h.taken_slot i pos in ground arith;
  slot_pos = λ v i a e. let b = h.slot_pos v i in let f = h.first in ground arith;
  slot_used = λ v i a e. let b = h.slot_used v i in ground arith;
  slot_taken = λ v i a e. let b = h.slot_taken v i in let c = h.slot_used v i in ground arith;
}

-- A descriptor that has no slot is freed.
pub free-SlotsOf :
    (w : ℕ) (p : Poll)
    → (p.watched_fd w).slot ≡ none
    → SlotsOf p
    → Slots p.used (update p.allocated w false) (λ w. (p.watched_fd w).slot) p.watched_fds
free-SlotsOf w p free h = record {
  first = h.first;
  taken_allocated = λ i pos lt.
      let a = h.taken_allocated i pos lt in let b = h.taken_slot i pos lt in ground arith;
  taken_slot = h.taken_slot;
  slot_pos = λ v i a e. let b = h.slot_pos v i in ground arith;
  slot_used = λ v i a e. let b = h.slot_used v i in ground arith;
  slot_taken = λ v i a e. let b = h.slot_taken v i in ground arith;
}

-- The slots after a removal, where the state that is left is the moved one or, at the removed
-- descriptor, one that has no slot or is not allocated.
pub remove-Slots :
    (s : ℕ) (p : Poll) (allocated : ℕ → Bool) (slot : ℕ → Option ℕ)
    → 0 < s
    → s < p.used
    → ((v : ℕ) → allocated v ≡ true → p.allocated v ≡ true)
    → ((v : ℕ) → v == p.watched_fds s ≡ false → allocated v ≡ p.allocated v)
    → ((v : ℕ) → v == p.watched_fds s ≡ false → slot v ≡ ((move_last s p).watched_fd v).slot)
    → (allocated (p.watched_fds s) ≡ true → slot (p.watched_fds s) ≡ none)
    → SlotsOf p
    → Slots (p.used - 1) allocated slot (move_last s p).watched_fds
unfolding move_last
remove-Slots s p allocated slot pos lt old same same_slot away h =
    let w = p.watched_fds s in
    let last = p.watched_fds (p.used - 1) in
    let ts = h.taken_slot s pos lt in
    let tl = h.taken_slot (p.used - 1) (omega arith) (omega arith) in
    record {
      first = omega arith;
      taken_allocated = λ i pos' lt'.
          let a = h.taken_allocated i pos' (omega arith) in
          let b = h.taken_slot i pos' (omega arith) in
          let c = h.taken_allocated (p.used - 1) (omega arith) (omega arith) in
          let k = same (p.watched_fds i) in let k' = same last in ground arith;
      taken_slot = λ i pos' lt'.
          let b = h.taken_slot i pos' (omega arith) in
          let k = same_slot (p.watched_fds i) in let k' = same_slot last in ground arith;
      slot_pos = λ v i a e. let b = h.slot_pos v i (old v a) in let k = same_slot v in ground arith;
      slot_used = λ v i a e.
          let b = h.slot_used v i (old v a) in
          let c = h.slot_taken v i (old v a) in let k = same_slot v in ground arith;
      slot_taken = λ v i a e.
          let b = h.slot_used v i (old v a) in
          let c = h.slot_taken v i (old v a) in let k = same_slot v in ground arith;
    }

pub remove_pollfd-SlotsOf :
    (s : ℕ) (p : Poll) → 0 < s → s < p.used → SlotsOf p → SlotsOf (remove_pollfd s p)
unfolding remove_pollfd move_last
remove_pollfd-SlotsOf s p pos lt h = elim (Option-cases (p.watched_fd (p.watched_fds s)).fd) [
  | inl e ↦
      rw (remove_pollfd, e)
        (remove-Slots s p (update p.allocated (p.watched_fds s) false)
          (λ v. ((move_last s p).watched_fd v).slot) pos lt (λ v a. ground arith)
          (λ v n. ground arith) (λ v n. refl) (λ a. absurd (ground arith)) h)
  | inr (fd, e) ↦
      rw (remove_pollfd, e)
        (remove-Slots s p p.allocated _ pos lt (λ v a. a) (λ v n. refl) (λ v n. ground arith)
          (λ a. ground arith) h)
]
