-- ===== src/Timers/Ring.antt =====
-- src/poll_common.c: `timer_set` and `timer_cancel` on the ring of timers.
use molerat.Base.{
  ℕ, ◌≡◌, ◌≢◌, refl, sym, ap, ◌∙◌, subst, arith, inl, inr, true, false, Option, none, some, List,
  ◌∷◌, ◌++◌, ◌==◌, if◌then◌else◌, is, Bool-cases, ==_refl, ℕ_discrete, update, has, remove,
  has-remove, has-split, IsRing, Bypassed, IsRing-Bypassed, IsRing-links, IsRing-frame,
  IsRing-Distinct, remove_absent, Option-cases,
}
use molerat.Timers.{
  Timer, PollCommon, poll_common_wake, unlink, take_out, timer_cancel_locked, timer_cancel,
}

some_same : {a b : ℕ} → some a ≡ some b → a ≡ b
some_same e = cc

abbrev pub next_of : PollCommon → ℕ → Option ℕ
next_of p k = (p.timer k).next

abbrev pub prev_of : PollCommon → ℕ → ℕ
prev_of p k = (p.timer k).prev

-- The timers `ts` are the ring, in its order. The others have no `next`, and none of the ring fired.
pub record IsTimers (p : PollCommon) (ts : List ℕ) : Type 0 where
  pub ring : IsRing (next_of p) (prev_of p) p.timers ts
  pub outside : (k : ℕ) → has k ts ≡ false → next_of p k ≡ none
  pub unfired : (k : ℕ) → has k ts ≡ true → (p.timer k).fired ≡ false

-- The fields of a timer but for its links.
pub record SameTimer (a b : Timer) : Type 0 where
  pub earliest : b.earliest ≡ a.earliest
  pub latest : b.latest ≡ a.latest
  pub waiting : b.waiting ≡ a.waiting

module _ (t n : ℕ) (p : PollCommon) (at_t : next_of p t ≡ some n) (several : n ≢ t)
    (back : prev_of p t ≢ t) where
  unlink-Bypassed :
      (n' : ℕ → Option ℕ)
      → ((k : ℕ) → k ≢ t → n' k ≡ next_of (unlink t n p) k)
      → Bypassed (next_of p) n' (prev_of p) (prev_of (unlink t n p)) t
  unfolding unlink
  unlink-Bypassed n' same = record {
    next_past = same (prev_of p t) back ∙ ground arith;
    next_other = λ k h₁ h₂. same k h₂ ∙ ground arith;
    prev_past = λ w e. ground arith;
    prev_other = λ k h. ground arith;
  }

  unlink_others :
      (k : ℕ)
      → SameTimer (p.timer k) ((unlink t n p).timer k)
        × (((unlink t n p).timer k).fired ≡ (p.timer k).fired)
  unfolding unlink
  unlink_others k = (
    record { earliest = ground arith; latest = ground arith; waiting = ground arith },
    ground arith,
  )

pub take_out_alone :
    (t : ℕ) (p : PollCommon) → next_of p t ≡ some t → take_out t p ≡ record p { timers = none }
unfolding take_out
take_out_alone t p e = rw (take_out, e, ==_refl t) refl

pub take_out_several :
    (t w : ℕ) (p : PollCommon)
    → next_of p t ≡ some w
    → w ≢ t
    → take_out t p ≡ record (unlink t w p) { timers = if is p.timers t then some w else p.timers }
unfolding take_out unlink
take_out_several t w p e ne = let h : w == t ≡ false = ground arith in rw (take_out, e, h) refl

take_out_nothing : (t : ℕ) (p : PollCommon) → next_of p t ≡ none → take_out t p ≡ p
unfolding take_out
take_out_nothing t p e = rw (take_out, e) refl

-- `take_out` of a timer of the ring, whatever becomes of its own `next`.
pub take_out-IsRing :
    (t : ℕ) (p : PollCommon) (xs ys : List ℕ)
    → IsRing (next_of p) (prev_of p) p.timers (xs ++ t ∷ ys)
    → (n' : ℕ → Option ℕ) → ((k : ℕ) → k ≢ t → n' k ≡ next_of (take_out t p) k)
    → IsRing n' (prev_of (take_out t p)) (take_out t p).timers (xs ++ ys)
take_out-IsRing t p xs ys r n' same =
    let (w, at_t, to_t, alone) = IsRing-links (next_of p) (prev_of p) p.timers xs t ys r in
    elim (ℕ_discrete w t) [
      | yes e ↦
          subst (λ zs. IsRing n' (prev_of (take_out t p)) (take_out t p).timers zs)
            (sym (alone.0 e)) (ap (λ q. q.timers) (take_out_alone t p (at_t ∙ ap some e)))
      | no ne ↦
          let e = take_out_several t w p at_t ne in
          let back : prev_of p t ≢ t =
            λ q. ne (some_same (sym at_t ∙ (ap (next_of p) (sym q) ∙ to_t))) in
          let b =
            unlink-Bypassed t w p at_t ne back n' (λ k h. same k h ∙ ap (λ q. next_of q k) e) in
          let r' =
            IsRing-Bypassed (next_of p) n' (prev_of p) (prev_of (unlink t w p)) p.timers xs t ys r b
              (λ q. ne (alone.1 q)) in
          subst (λ q. IsRing n' (prev_of q) q.timers (xs ++ ys)) (sym e)
            (subst
              (λ o.
                IsRing n' (prev_of (unlink t w p)) (if is p.timers t then o else p.timers)
                  (xs ++ ys))
              at_t r')
    ]

-- What an operation on `t` leaves as it was in the other timers.
pub record KeepsOthers (t : ℕ) (p p' : PollCommon) : Type 0 where
  pub same : (k : ℕ) → k ≢ t → SameTimer (p.timer k) (p'.timer k)
  pub fired : (k : ℕ) → k ≢ t → (p'.timer k).fired ≡ (p.timer k).fired

take_out-KeepsOthers : (t : ℕ) (p : PollCommon) → KeepsOthers t p (take_out t p)
unfolding take_out unlink
take_out-KeepsOthers t p = elim (Option-cases (next_of p t)) [
  | inl e ↦ record {
    same = λ k h. rw (take_out, e) (record { earliest = refl; latest = refl; waiting = refl });
    fired = λ k h. rw (take_out, e) refl;
  }
  | inr (n, e) ↦ record {
    same = λ k h. record { earliest = ground arith; latest = ground arith; waiting = ground arith };
    fired = λ k h. ground arith;
  }
]

pub wake_keeps :
    (p : PollCommon)
    → ((poll_common_wake p).timer ≡ p.timer)
      × ((poll_common_wake p).timers ≡ p.timers)
      × ((poll_common_wake p).thread_woken ≡ true)
unfolding poll_common_wake
wake_keeps p = (ground arith, ground arith, ground arith)

module _ (t : ℕ) (p : PollCommon) where
  canceled_timers : (timer_cancel t p).timers ≡ (take_out t p).timers
  unfolding timer_cancel timer_cancel_locked
  canceled_timers = (wake_keeps (take_out t p)).1

  canceled :
      (k : ℕ)
      → (timer_cancel t p).timer k
        ≡ update
            (take_out t p).timer
            t
            (record ((take_out t p).timer t) { next = none; fired = false })
            k
  unfolding timer_cancel timer_cancel_locked
  canceled k =
      ap (λ f. update f t (record (f t) { next = none; fired = false }) k)
        (wake_keeps (take_out t p)).0

  canceled_next : (k : ℕ) → k ≢ t → next_of (timer_cancel t p) k ≡ next_of (take_out t p) k
  canceled_next k h = ap (λ r. r.next) (canceled k) ∙ ground arith

  canceled_prev : (k : ℕ) → prev_of (timer_cancel t p) k ≡ prev_of (take_out t p) k
  canceled_prev k = ap (λ r. r.prev) (canceled k) ∙ ground arith

  canceled_self :
      (next_of (timer_cancel t p) t ≡ none) × (((timer_cancel t p).timer t).fired ≡ false)
  canceled_self =
      (ap (λ r. r.next) (canceled t) ∙ ground arith, ap (λ r. r.fired) (canceled t) ∙ ground arith)

  canceled-KeepsOthers : KeepsOthers t p (timer_cancel t p)
  canceled-KeepsOthers =
      let o = take_out-KeepsOthers t p in
      record {
        same = λ k h.
            let s = o.same k h in
            record {
              earliest = ap (λ r. r.earliest) (canceled k) ∙ ground arith;
              latest = ap (λ r. r.latest) (canceled k) ∙ ground arith;
              waiting = ap (λ r. r.waiting) (canceled k) ∙ ground arith;
            };
        fired = λ k h. ap (λ r. r.fired) (canceled k) ∙ (let f = o.fired k h in ground arith);
      }

  module _ (ts : List ℕ) (v : IsTimers p ts) where
    canceled-IsRing :
        IsRing
          (next_of (timer_cancel t p))
          (prev_of (timer_cancel t p))
          (timer_cancel t p).timers
          (remove t ts)
    canceled-IsRing = elim (Bool-cases (has t ts)) [
      | inl member ↦
          let (xs, ys, e, r) = has-split t ts member in
          let ring =
            take_out-IsRing t p xs ys (subst (IsRing (next_of p) (prev_of p) p.timers) e v.ring)
              (next_of (timer_cancel t p)) canceled_next in
          subst
            (IsRing (next_of (timer_cancel t p)) (prev_of (timer_cancel t p))
              (timer_cancel t p).timers)
            (sym r)
            (subst
              (λ h. IsRing (next_of (timer_cancel t p)) (prev_of (timer_cancel t p)) h (xs ++ ys))
              (sym canceled_timers)
              (IsRing-frame (next_of (timer_cancel t p)) (next_of (timer_cancel t p))
                (prev_of (take_out t p)) (prev_of (timer_cancel t p)) _ (xs ++ ys) ring
                (λ k m. refl) (λ k m. canceled_prev k)))
      | inr absent ↦
          let same = take_out_nothing t p (v.outside t absent) in
          rw (remove_absent t ts absent, canceled_timers, same)
            (IsRing-frame (next_of p) (next_of (timer_cancel t p)) (prev_of p)
              (prev_of (timer_cancel t p)) p.timers ts v.ring
              (λ k m. canceled_next k (λ e. ground arith) ∙ ap (λ q. next_of q k) same)
              (λ k m. canceled_prev k ∙ ap (λ q. prev_of q k) same))
    ]

    pub taken_out_next :
        (w k : ℕ)
        → next_of p t ≡ some w
        → next_of p (prev_of p t) ≡ some t
        → next_of p k ≡ none
        → k ≢ t
        → next_of (take_out t p) k ≡ none
    unfolding take_out unlink
    taken_out_next w k at_t to_t idle other = ground arith

    canceled_outside : (k : ℕ) → has k ts ≡ false → k ≢ t → next_of (timer_cancel t p) k ≡ none
    canceled_outside k out other = elim (Bool-cases (has t ts)) [
      | inl member ↦
          let (xs, ys, e, r) = has-split t ts member in
          let (w, at_t, to_t, alone) =
            IsRing-links (next_of p) (prev_of p) p.timers xs t ys
              (subst (IsRing (next_of p) (prev_of p) p.timers) e v.ring) in
          canceled_next k other ∙ taken_out_next w k at_t to_t (v.outside k out) other
      | inr absent ↦
          canceled_next k other
          ∙ (ap (λ q. next_of q k) (take_out_nothing t p (v.outside t absent)) ∙ v.outside k out)
    ]

    -- Cancelling a timer takes it out of the ring of the others, if it was there, and leaves it unfired.
    pub timer_cancel-IsTimers :
        IsTimers (timer_cancel t p) (remove t ts)
        × KeepsOthers t p (timer_cancel t p)
        × (((timer_cancel t p).timer t).fired ≡ false)
    timer_cancel-IsTimers =
        let d = IsRing-Distinct (next_of p) (prev_of p) p.timers ts v.ring in
        (
          record {
            ring = canceled-IsRing;
            outside = λ k h. elim (ℕ_discrete k t) [
              | yes e ↦ ap (next_of (timer_cancel t p)) e ∙ canceled_self.0
              | no ne ↦ canceled_outside k (ground (arith, has-remove k t ts d)) ne
            ];
            unfired = λ k h. elim (ℕ_discrete k t) [
              | yes e ↦ absurd (ground (arith, has-remove k t ts d))
              | no ne ↦
                  canceled-KeepsOthers.fired k ne
                  ∙ v.unfired k (ground (arith, has-remove k t ts d))
            ];
          },
          canceled-KeepsOthers,
          canceled_self.1,
        )

pub timer_cancel-thread_woken : (t : ℕ) (p : PollCommon) → (timer_cancel t p).thread_woken ≡ true
unfolding timer_cancel timer_cancel_locked
timer_cancel-thread_woken t p = (wake_keeps (take_out t p)).2
