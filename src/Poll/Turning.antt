-- ===== src/Poll/Turning.antt =====
-- src/poll_poll.c: proofs about a turn of the loop of `poll_dispatch`.
use molerat.Base.{
  ℕ, ◌-◌, ◌<◌, ◌≡◌, refl, sym, subst, arith, inl, inr, Bool, true, false, Option-cases, some,
  update, has, Distinct,
}
use molerat.Epoll.{Events}
use molerat.Poll.{PollEvents, any_event, without, Poll, set_watched_fd, remove_pollfd, move_last}
use molerat.Poll.Watching.{remove-Holds}
use molerat.Poll.Holding.{covers, set-Holds, Holds, IsPoll}

covers-without : (e : PollEvents) (a b : Events) → covers e a ≡ true → covers e (without a b) ≡ true
covers-without e a b h = ground arith

-- What `remove_pollfd` does not depend on the descriptor in.
pub remove_pollfd-moved :
    (i : ℕ) (p : Poll)
    → ((remove_pollfd i p).updates ≡ p.updates)
      × ((remove_pollfd i p).used ≡ p.used - 1)
      × ((remove_pollfd i p).watched_fds ≡ update p.watched_fds i (p.watched_fds (p.used - 1)))
      × ((v : ℕ) → ((remove_pollfd i p).watched_fd v).fd ≡ (p.watched_fd v).fd)
unfolding remove_pollfd move_last
remove_pollfd-moved i p = elim (Option-cases (p.watched_fd (p.watched_fds i)).fd) [
  | inl e ↦ rw (remove_pollfd, e) (refl, refl, refl, λ v. ground arith)
  | inr (n, e) ↦ rw (remove_pollfd, e) (refl, refl, refl, λ v. ground arith)
]

-- One turn of the loop of `poll_dispatch` at a live descriptor.
pub kept-IsPoll :
    (i n : ℕ) (got : Events) (p : Poll)
    → 0 < i
    → i < p.used
    → (p.watched_fd (p.watched_fds i)).fd ≡ some n
    → any_event (without (p.watched_fd (p.watched_fds i)).interest got) ≡ true
    → IsPoll p
    → IsPoll (
        set_watched_fd
          (p.watched_fds i)
          (record (p.watched_fd (p.watched_fds i)) {
            interest = without (p.watched_fd (p.watched_fds i)).interest got;
          })
          p)
kept-IsPoll i n got p pos lt live busy (h, d) =
    let w = p.watched_fds i in
    let old = h.slots.taken_allocated i pos lt in
    let taken = h.slots.taken_slot i pos lt in
    (
      record {
        slots = record {
          first = h.slots.first;
          taken_allocated = h.slots.taken_allocated;
          taken_slot = λ j pos' lt'. let a = h.slots.taken_slot j pos' lt' in ground arith;
          slot_pos = λ v j a e. let b = h.slots.slot_pos v j a in ground arith;
          slot_used = λ v j a e. let b = h.slots.slot_used v j a in ground arith;
          slot_taken = λ v j a e. let b = h.slots.slot_taken v j a in ground arith;
        };
        fits = h.fits;
        pending_allocated = h.pending_allocated;
        gone_pending = λ v a g. let b = h.gone_pending v a in ground arith;
        gone_slot = λ v a g. let b = h.gone_slot v a in ground arith;
        gone_interest = λ v a g. let b = h.gone_interest v a in ground arith;
        wanted = λ v a e. let b = h.wanted v a in ground arith;
        covered = λ v j a e t.
            let b = h.covered v j a e in
            let k = covers-without (p.pollfds j).events (p.watched_fd w).interest got in
            ground arith;
        same_fd = λ v j m a t f. let b = h.same_fd v j m a in ground arith;
      },
      d,
    )

pub removed-IsPoll :
    (i n : ℕ) (got : Events) (p : Poll)
    → 0 < i
    → i < p.used
    → (p.watched_fd (p.watched_fds i)).fd ≡ some n
    → any_event (without (p.watched_fd (p.watched_fds i)).interest got) ≡ false
    → IsPoll p
    → IsPoll (
        remove_pollfd i (
          set_watched_fd
            (p.watched_fds i)
            (record (p.watched_fd (p.watched_fds i)) {
              interest = without (p.watched_fd (p.watched_fds i)).interest got;
            })
            p))
removed-IsPoll i n got p pos lt live idle (h, d) =
    let w = p.watched_fds i in
    let old = h.slots.taken_allocated i pos lt in
    let taken = h.slots.taken_slot i pos lt in
    let r = record (p.watched_fd w) { interest = without (p.watched_fd w).interest got } in
    let p' = set_watched_fd w r p in
    let pending : ℕ → Bool = λ v. has v p.updates in
    let changed =
      set-Holds w pending r p h old refl (λ m e. e) (λ e. absurd (cc)) (λ e. absurd (cc)) in
    let removed =
      remove-Holds w i pending p' changed old (ground arith) (ground arith)
        (λ e. absurd (ground arith)) in
    subst (λ us. Holds (λ v. has v us) (remove_pollfd i p') × Distinct us)
      (sym (remove_pollfd-moved i p').0) (removed, d)
