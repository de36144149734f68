-- ===== src/Timers/Setting.antt =====
-- src/poll_common.c: `timer_set` on the ring of timers.
use molerat.Base.{
  Option-cases, Option, ◌+◌, ℕ, ◌<◌, ◌≡◌, ◌≢◌, refl, sym, ap, ◌∙◌, subst, arith, inl, inr, true,
  false, none, some, List, [], ◌∷◌, ◌++◌, if◌then◌else◌, Bool-cases, ℕ_discrete, lt→ltb, ltb, ok,
  aborted, assert, ◌>>◌, has, has-append, has-split, IsRing, Inserted, IsRing-Inserted,
  IsRing-links, IsRing-frame, Chain-last,
}
use molerat.Timers.{Timer, PollCommon, poll_common_wake, set_timer, put_in, timer_set}
use molerat.Timers.Ring.{next_of, prev_of, IsTimers, KeepsOthers, wake_keeps}

-- The timer itself, once it is set.
pub record HasTimes (earliest latest : ℕ) (r : Timer) : Type 0 where
  pub earliest_set : r.earliest ≡ earliest
  pub latest_set : r.latest ≡ latest
  pub unfired : r.fired ≡ false

-- The timer with its new times, and in the ring.
record PutIn (t : ℕ) (p q : PollCommon) (ts : List ℕ) : Type 0 where
  ring : IsRing (next_of q) (prev_of q) q.timers ts
  others : KeepsOthers t p q
  next_none : (k : ℕ) → k ≢ t → next_of p k ≡ none → next_of q k ≡ none
  earliest : (q.timer t).earliest ≡ (p.timer t).earliest
  latest : (q.timer t).latest ≡ (p.timer t).latest
  fired : (q.timer t).fired ≡ (p.timer t).fired
  waiting : (q.timer t).waiting ≡ (p.timer t).waiting

put_in_empty : (t : ℕ) (p : PollCommon) → p.timers ≡ none → PutIn t p (put_in t p) (t ∷ [])
unfolding put_in
put_in_empty t p e = record {
  ring = (rw e refl, (rw e (ground arith), rw e (ground arith)), (refl, tt));
  others = record {
    same = λ k h. record { earliest = ground arith; latest = ground arith; waiting = ground arith };
    fired = λ k h. ground arith;
  };
  next_none = λ k h i. ground arith;
  earliest = ground arith;
  latest = ground arith;
  fired = ground arith;
  waiting = ground arith;
}

module _ (t h : ℕ) (xs : List ℕ) (p : PollCommon)
    (ring : IsRing (next_of p) (prev_of p) p.timers (h ∷ xs)) (fresh : has t (h ∷ xs) ≡ false) where
  head : p.timers ≡ some h
  head = ring.0

  tail_member : (has (prev_of p h) (h ∷ xs) ≡ true) × (next_of p (prev_of p h) ≡ some h)
  tail_member = Chain-last (next_of p) (prev_of p) h xs h ring.1

  put_in-Inserted :
      Inserted (next_of p) (next_of (put_in t p)) (prev_of p) (prev_of (put_in t p)) t h
  unfolding put_in
  put_in-Inserted =
      let e = head in
      let m = tail_member in
      let h≠t : h ≢ t = λ q. ground arith in
      let tail≠t : prev_of p h ≢ t = λ q. ground arith in
      record {
        next_new = ground arith;
        next_before = ground arith;
        next_other = λ k a b. ground arith;
        prev_new = ground arith;
        prev_after = ground arith;
        prev_other = λ k a b. ground arith;
      }

  put_in-PutIn : PutIn t p (put_in t p) (h ∷ (xs ++ t ∷ []))
  unfolding put_in
  put_in-PutIn =
      let e = head in
      let m = tail_member in
      record {
        ring =
            subst (λ o. IsRing (next_of (put_in t p)) (prev_of (put_in t p)) o (h ∷ (xs ++ t ∷ [])))
              (ground arith)
              (IsRing-Inserted (next_of p) (next_of (put_in t p)) (prev_of p) (prev_of (put_in t p))
                h xs t (subst (λ o. IsRing (next_of p) (prev_of p) o (h ∷ xs)) head ring)
                put_in-Inserted fresh);
        others = record {
          same = λ k h. record {
            earliest = ground arith;
            latest = ground arith;
            waiting = ground arith;
          };
          fired = λ k h. ground arith;
        };
        next_none = λ k h i. ground arith;
        earliest = ground arith;
        latest = ground arith;
        fired = ground arith;
        waiting = ground arith;
      }

put_in_new :
    (t : ℕ) (p : PollCommon) (ts : List ℕ)
    → IsRing (next_of p) (prev_of p) p.timers ts
    → has t ts ≡ false
    → PutIn t p (put_in t p) (ts ++ t ∷ [])
put_in_new t p [] ring fresh = put_in_empty t p ring
put_in_new t p (h ∷ xs) ring fresh = put_in-PutIn t h xs p ring fresh

PutIn-already :
    (t : ℕ) (p : PollCommon) (ts : List ℕ)
    → IsRing (next_of p) (prev_of p) p.timers ts
    → PutIn t p p ts
PutIn-already t p ts ring = record {
  ring = ring;
  others = record {
    same = λ k h. record { earliest = refl; latest = refl; waiting = refl };
    fired = λ k h. refl;
  };
  next_none = λ k h i. i;
  earliest = refl;
  latest = refl;
  fired = refl;
  waiting = refl;
}

put_in_calls :
    (t : ℕ) (p : PollCommon)
    → ((put_in t p).thread_woken ≡ p.thread_woken) × ((put_in t p).wakes ≡ p.wakes)
unfolding put_in
put_in_calls t p = elim (Option-cases p.timers) [
  | inl e ↦ rw e (refl, refl)
  | inr (h, e) ↦ rw e (refl, refl)
]

placed_by :
    (t : ℕ) (p : PollCommon) (next : Option ℕ)
    → let q : PollCommon = elim next as (λ _. PollCommon) [ none ↦ put_in t p | some _ ↦ p ] in
      (q.thread_woken ≡ p.thread_woken) × (q.wakes ≡ p.wakes)
placed_by t p none = put_in_calls t p
placed_by t p (some n) = (refl, refl)

-- A call of `poll_wake` where the thread was not woken yet.
wake_calls :
    (p : PollCommon)
    → (poll_common_wake p).wakes ≡ (if p.thread_woken then p.wakes else p.wakes + 1)
unfolding poll_common_wake
wake_calls p = ground arith

abbrev timed : ℕ → ℕ → ℕ → PollCommon → PollCommon
timed t earliest latest p =
    set_timer t (record (p.timer t) { earliest = earliest; latest = latest; fired = false }) p

-- The timer is put in the ring where it has no `next`.
abbrev placed : ℕ → PollCommon → PollCommon
placed t p = elim (p.timer t).next as (λ _. PollCommon) [ none ↦ put_in t p | some _ ↦ p ]

timer_set_ok :
    (t earliest latest : ℕ) (p : PollCommon)
    → earliest < latest
    → timer_set t earliest latest p ≡ ok (poll_common_wake (placed t (timed t earliest latest p)))
unfolding timer_set
timer_set_ok t earliest latest p h =
    ap (λ b. assert b >> ok (poll_common_wake (placed t (timed t earliest latest p))))
      (lt→ltb earliest latest h)

module _ (t earliest latest : ℕ) (p : PollCommon) (ts : List ℕ) (v : IsTimers p ts) where
  timed-IsRing :
      IsRing (next_of (timed t earliest latest p)) (prev_of (timed t earliest latest p)) p.timers ts
  timed-IsRing =
      IsRing-frame (next_of p) _ (prev_of p) _ p.timers ts v.ring (λ k m. ground arith)
        (λ k m. ground arith)

  timed_next : next_of (timed t earliest latest p) t ≡ next_of p t
  timed_next = ground arith

  timed_other : (k : ℕ) → k ≢ t → (timed t earliest latest p).timer k ≡ p.timer k
  timed_other k h = ground arith

  -- The members once the timer is set.
  abbrev members : List ℕ
  members = if has t ts then ts else ts ++ t ∷ []

  not_member : (k : ℕ) → has k members ≡ false → (k ≢ t) × (has k ts ≡ false)
  not_member k m =
      ((λ e. ground (arith, has-append t ts (t ∷ []))), ground (arith, has-append k ts (t ∷ [])))

  member_other : (k : ℕ) → has k members ≡ true → k ≢ t → has k ts ≡ true
  member_other k m h = ground (arith, has-append k ts (t ∷ []))

  placed-PutIn :
      PutIn t
        (timed t earliest latest p)
        (placed t (timed t earliest latest p))
        (if has t ts then ts else ts ++ t ∷ [])
  placed-PutIn = elim (Bool-cases (has t ts)) [
    | inl member ↦
        let (xs, ys, e, _) = has-split t ts member in
        let (w, at_t, _, _) =
          IsRing-links (next_of p) (prev_of p) p.timers xs t ys
            (subst (IsRing (next_of p) (prev_of p) p.timers) e v.ring) in
        let same : placed t (timed t earliest latest p) ≡ timed t earliest latest p =
          ap
            (λ o. elim o as (λ _. PollCommon) [
              | none ↦ put_in t (timed t earliest latest p)
              | some _ ↦ timed t earliest latest p
            ])
            (timed_next ∙ at_t) in
        rw (member, same) (PutIn-already t (timed t earliest latest p) ts timed-IsRing)
    | inr absent ↦
        let same : placed t (timed t earliest latest p) ≡ put_in t (timed t earliest latest p) =
          ap
            (λ o. elim o as (λ _. PollCommon) [
              | none ↦ put_in t (timed t earliest latest p)
              | some _ ↦ timed t earliest latest p
            ])
            (timed_next ∙ v.outside t absent) in
        rw (absent, same) (put_in_new t (timed t earliest latest p) ts timed-IsRing absent)
  ]

  placed_calls :
      ((placed t (timed t earliest latest p)).thread_woken ≡ p.thread_woken)
      × ((placed t (timed t earliest latest p)).wakes ≡ p.wakes)
  placed_calls = placed_by t (timed t earliest latest p) ((timed t earliest latest p).timer t).next

  abbrev set_state : PollCommon
  set_state = poll_common_wake (placed t (timed t earliest latest p))

  -- Setting a timer puts it at the end of the ring, or leaves it in its place there, with its new
  -- times, unfired. It calls `poll_wake` where the poll thread was not woken yet, and notes that it is.
  -- The other timers are as before.
  pub timer_set-IsTimers :
      earliest < latest
      → (q : PollCommon) × (timer_set t earliest latest p ≡ ok q)
        × IsTimers q (if has t ts then ts else ts ++ t ∷ [])
        × KeepsOthers t p q
        × HasTimes earliest latest (q.timer t)
        × (q.thread_woken ≡ true)
        × (q.wakes ≡ (if p.thread_woken then p.wakes else p.wakes + 1))
        × ((q.timer t).waiting ≡ (p.timer t).waiting)
  timer_set-IsTimers h =
      let r = placed-PutIn in
      let (timer, timers, woken) = wake_keeps (placed t (timed t earliest latest p)) in
      (
        set_state,
        timer_set_ok t earliest latest p h,
        record {
          ring =
              subst (λ f. IsRing (λ k. (f k).next) (λ k. (f k).prev) set_state.timers members)
                (sym timer)
                (subst
                  (λ o.
                    IsRing (next_of (placed t (timed t earliest latest p)))
                      (prev_of (placed t (timed t earliest latest p))) o members)
                  (sym timers) r.ring);
          outside = λ k m.
              let (ne, out) = not_member k m in
              ap (λ f. (f k).next) timer
              ∙ r.next_none k ne (ap (λ x. x.next) (timed_other k ne) ∙ v.outside k out);
          unfired = λ k m. elim (ℕ_discrete k t) [
            | yes e ↦
                ap (λ f. (f k).fired) timer
                ∙ (ap (λ j. ((placed t (timed t earliest latest p)).timer j).fired) e
                    ∙ (r.fired ∙ ground arith))
            | no ne ↦
                ap (λ f. (f k).fired) timer
                ∙ (r.others.fired k ne
                    ∙ (ap (λ x. x.fired) (timed_other k ne) ∙ v.unfired k (member_other k m ne)))
          ];
        },
        record {
          same = λ k m.
              let o = r.others.same k m in
              let e = timed_other k m in
              record {
                earliest = ap (λ f. (f k).earliest) timer ∙ (o.earliest ∙ ap (λ x. x.earliest) e);
                latest = ap (λ f. (f k).latest) timer ∙ (o.latest ∙ ap (λ x. x.latest) e);
                waiting = ap (λ f. (f k).waiting) timer ∙ (o.waiting ∙ ap (λ x. x.waiting) e);
              };
          fired = λ k m.
              ap (λ f. (f k).fired) timer
              ∙ (r.others.fired k m ∙ ap (λ x. x.fired) (timed_other k m));
        },
        record {
          earliest_set = ap (λ f. (f t).earliest) timer ∙ (r.earliest ∙ ground arith);
          latest_set = ap (λ f. (f t).latest) timer ∙ (r.latest ∙ ground arith);
          unfired = ap (λ f. (f t).fired) timer ∙ (r.fired ∙ ground arith);
        },
        woken,
        wake_calls (placed t (timed t earliest latest p))
            ∙ (let c = placed_calls in rw (c.0, c.1) refl),
        ap (λ f. (f t).waiting) timer ∙ (r.waiting ∙ ground arith),
      )

pub timer_set_aborts :
    (t earliest latest : ℕ) (p : PollCommon)
    → ltb earliest latest ≡ false
    → timer_set t earliest latest p ≡ aborted
unfolding timer_set
timer_set_aborts t earliest latest p h =
    ap (λ b. assert b >> ok (poll_common_wake (placed t (timed t earliest latest p)))) h
