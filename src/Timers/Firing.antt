-- ===== src/Timers/Firing.antt =====
-- src/poll_common.c: `dispatch_timers` over the whole ring.
use molerat.Base.{
  ℕ, zero, suc, ◌≤◌, ◌≡◌, fun_ext, refl, sym, ap, ◌∙◌, subst, arith, inl, inr, Bool, true, false,
  ◌||◌, ◌&&◌, none, some, List, [], ◌∷◌, ◌++◌, leb, if◌then◌else◌, Bool-cases, Result, ok, has,
  length, append-nil, append_assoc, IsRing-links,
}
use molerat.Tasklet.{World}
use molerat.Tasklet.Waiting.{wait_list_broadcast}
use molerat.Timers.{
  Timer, PollCommon, Onward, next_timer, done, dispatch_round, dispatch_loop, dispatch_timers,
}
use molerat.Timers.Ring.{next_of, prev_of, IsTimers, SameTimer}
use molerat.Timers.Dispatch.{expired_of, onward, Fired, round_waits, round_fires}

-- The timers that are not expired, in their order.
abbrev pub survivors : (ℕ → Bool) → List ℕ → List ℕ
survivors expired [] = []
survivors expired (t ∷ ts) = if expired t then survivors expired ts else t ∷ survivors expired ts

-- The broadcasts to the wait lists of the expired timers, in their order.
abbrev pub broadcasts : ℕ → (ℕ → Bool) → (ℕ → ℕ) → List ℕ → World → World
broadcasts here expired waiting [] s = s
broadcasts here expired waiting (t ∷ ts) s =
    broadcasts here expired waiting ts
      (if expired t then wait_list_broadcast here (waiting t) s else s)

abbrev pub waiting_of : PollCommon → ℕ → ℕ
waiting_of p k = (p.timer k).waiting

-- The timers `seen` were looked at: the expired ones of them fired and left the ring, each wait list
-- was woken, and nothing else changed.
pub record Dispatched (here now : ℕ) (p : PollCommon) (s : World) (before seen : List ℕ)
    (r : PollCommon × World) : Type 0 where
  pub timers : IsTimers r.0 (before ++ survivors (expired_of now p) seen)
  pub same : (k : ℕ) → SameTimer (p.timer k) (r.0.timer k)
  pub fired :
      (k : ℕ) → (r.0.timer k).fired ≡ ((p.timer k).fired || (has k seen && expired_of now p k))
  pub thread_woken : r.0.thread_woken ≡ p.thread_woken
  pub world : r.1 ≡ broadcasts here (expired_of now p) (waiting_of p) seen s

loop_step :
    (fuel here now t w : ℕ) (p q : PollCommon) (s s' : World) (o : Onward)
    → next_of p t ≡ some w
    → dispatch_round here now t w p s ≡ ((q, s'), o)
    → dispatch_loop (suc fuel) here now t p s ≡ elim o as (λ _. Result (PollCommon × World)) [
      | done ↦ ok (q, s')
      | next_timer u ↦ dispatch_loop fuel here now u q s'
    ]
unfolding dispatch_loop
loop_step fuel here now t w p q s s' o at_t e =
    rw (dispatch_loop, at_t)
      (ap
        (λ (z : (PollCommon × World) × Onward). elim z.1 as (λ _. Result (PollCommon × World)) [
          | done ↦ ok z.0
          | next_timer u ↦ dispatch_loop fuel here now u z.0.0 z.0.1
        ])
        e)

expired_same :
    (now : ℕ) (p q : PollCommon)
    → ((k : ℕ) → SameTimer (p.timer k) (q.timer k))
    → expired_of now q ≡ expired_of now p
expired_same now p q h = fun_ext (λ k. ap (λ e. leb e now) (h k).earliest)

waiting_same :
    (p q : PollCommon) → ((k : ℕ) → SameTimer (p.timer k) (q.timer k)) → waiting_of q ≡ waiting_of p
waiting_same p q h = fun_ext (λ k. (h k).waiting)

SameTimer-trans : {a b c : Timer} → SameTimer a b → SameTimer b c → SameTimer a c
SameTimer-trans h g = record {
  earliest = g.earliest ∙ h.earliest;
  latest = g.latest ∙ h.latest;
  waiting = g.waiting ∙ h.waiting;
}

Dispatched-none :
    (here now : ℕ) (p : PollCommon) (s : World) (before : List ℕ)
    → IsTimers p before
    → Dispatched here now p s before [] (p, s)
Dispatched-none here now p s before v = record {
  timers = subst (IsTimers p) (sym (append-nil before)) v;
  same = λ k. record { earliest = refl; latest = refl; waiting = refl };
  fired = λ k. ground arith;
  thread_woken = refl;
  world = refl;
}

module _ (here now t : ℕ) (p : PollCommon) (s : World) (before seen : List ℕ)
    (r : PollCommon × World) where
  Dispatched-late :
      expired_of now p t ≡ false
      → Dispatched here now p s (before ++ t ∷ []) seen r
      → Dispatched here now p s before (t ∷ seen) r
  Dispatched-late late d = record {
    timers = rw late (
        subst (IsTimers r.0) (append_assoc before (t ∷ []) (survivors (expired_of now p) seen))
          d.timers);
    same = d.same;
    fired = λ k. d.fired k ∙ ground arith;
    thread_woken = d.thread_woken;
    world = rw late d.world;
  }

  Dispatched-due :
      (q : PollCommon) (ts : List ℕ)
      → expired_of now p t ≡ true
      → Fired t p q ts
      → Dispatched here now q (wait_list_broadcast here (p.timer t).waiting s) before seen r
      → Dispatched here now p s before (t ∷ seen) r
  Dispatched-due q ts due f d =
      let e = expired_same now p q f.same in
      let w = waiting_same p q f.same in
      record {
        timers = rw due (subst (λ x. IsTimers r.0 (before ++ survivors x seen)) e d.timers);
        same = λ k. SameTimer-trans (f.same k) (d.same k);
        fired = λ k.
            let fk = f.fired k in
            d.fired k ∙ (ap (λ x. (q.timer k).fired || (has k seen && x k)) e ∙ ground arith);
        thread_woken = d.thread_woken ∙ f.thread_woken;
        world = rw due (
            d.world
            ∙ (ap
                  (λ x.
                    broadcasts here x (waiting_of q) seen
                      (wait_list_broadcast here (p.timer t).waiting s))
                  e
                ∙ ap
                    (λ x.
                      broadcasts here (expired_of now p) x seen
                        (wait_list_broadcast here (p.timer t).waiting s))
                    w));
      }

-- What is left of the loop once it has come to `after`.
abbrev loop_from : (fuel here now : ℕ) → List ℕ → PollCommon → World → Result (PollCommon × World)
loop_from fuel here now after p s = elim (onward after) as (λ _. Result (PollCommon × World)) [
  | done ↦ ok (p, s)
  | next_timer u ↦ dispatch_loop fuel here now u p s
]

loop-Dispatched :
    (fuel here now : ℕ) (before after : List ℕ) (p : PollCommon) (s : World)
    → IsTimers p (before ++ after)
    → length after ≤ fuel
    → (r : PollCommon × World) × (loop_from fuel here now after p s ≡ ok r)
      × Dispatched here now p s before after r
loop-Dispatched fuel here now before [] p s v enough =
    ((p, s), refl, Dispatched-none here now p s before (subst (IsTimers p) (append-nil before) v))
loop-Dispatched zero here now before (t ∷ after) p s v enough = absurd (omega arith)
loop-Dispatched (suc fuel) here now before (t ∷ after) p s v enough =
    let (w, at_t, _, _) = IsRing-links (next_of p) (prev_of p) p.timers before t after v.ring in
    elim (Bool-cases (expired_of now p t)) [
      | inl due ↦
          let (q, e, f) = round_fires here now t p s before after v w at_t due in
          let s' = wait_list_broadcast here (p.timer t).waiting s in
          let (r, e', d) = loop-Dispatched fuel here now before after q s' f.timers (omega arith) in
          (
            r,
            loop_step fuel here now t w p q s s' (onward after) at_t e ∙ e',
            Dispatched-due here now t p s before after r q (before ++ after) due f d,
          )
      | inr late ↦
          let e = round_waits here now t p s before after v w at_t late in
          let (r, e', d) =
            loop-Dispatched fuel here now (before ++ t ∷ []) after p s
              (subst (IsTimers p) (sym (append_assoc before (t ∷ []) after)) v) (omega arith) in
          (
            r,
            loop_step fuel here now t w p p s s (onward after) at_t e ∙ e',
            Dispatched-late here now t p s before after r late d,
          )
    ]

starts :
    (fuel here now : ℕ) (ts : List ℕ) (p : PollCommon) (s : World)
    → IsTimers p ts
    → dispatch_timers fuel here now p s ≡ loop_from fuel here now ts p s
unfolding dispatch_timers
starts fuel here now [] p s v =
    ap
      (λ o. elim o as (λ _. Result (PollCommon × World)) [
        | none ↦ ok (p, s)
        | some u ↦ dispatch_loop fuel here now u p s
      ])
      v.ring
starts fuel here now (t ∷ ts) p s v =
    ap
      (λ o. elim o as (λ _. Result (PollCommon × World)) [
        | none ↦ ok (p, s)
        | some u ↦ dispatch_loop fuel here now u p s
      ])
      v.ring.0

-- With fuel for every timer of the ring `dispatch_timers` ends. The timers whose earliest time has
-- come, and only those, leave the ring and fire, their wait lists are woken in the order of the ring,
-- and the others keep their order.
pub dispatch_timers-Dispatched :
    (fuel here now : ℕ) (ts : List ℕ) (p : PollCommon) (s : World)
    → IsTimers p ts
    → length ts ≤ fuel
    → (r : PollCommon × World) × (dispatch_timers fuel here now p s ≡ ok r)
      × Dispatched here now p s [] ts r
dispatch_timers-Dispatched fuel here now ts p s v enough =
    let (r, e, d) = loop-Dispatched fuel here now [] ts p s v enough in
    (r, starts fuel here now ts p s v ∙ e, d)
