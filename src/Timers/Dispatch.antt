-- ===== src/Timers/Dispatch.antt =====
-- src/poll_common.c: a round of the loop of `dispatch_timers`.
use molerat.Base.{
  ℕ, ◌≡◌, ◌≢◌, refl, sym, ap, ◌∙◌, subst, arith, inl, inr, ◌↔◌, Bool, true, false, Option, none,
  some, List, [], ◌∷◌, ◌++◌, ◌==◌, leb, if◌then◌else◌, is, is_self, is→some, Bool-cases, ℕ_discrete,
  has, has-append, Distinct, IsRing, IsRing-links, IsRing-frame, IsRing-Distinct, IsRing-next,
  IsRing-not_head_after, Distinct-without, first_or,
}
use molerat.Tasklet.{World}
use molerat.Tasklet.Waiting.{wait_list_broadcast}
use molerat.Timers.{
  PollCommon, Onward, next_timer, done, go_on, fire, unlink, take_out, dispatch_round,
}
use molerat.Timers.Ring.{next_of, prev_of, IsTimers, SameTimer, take_out-IsRing, taken_out_next}

abbrev pub expired_of : ℕ → PollCommon → ℕ → Bool
expired_of now p k = leb (p.timer k).earliest now

-- Where the loop goes once it has seen all but `rest` of the ring.
abbrev pub onward : List ℕ → Onward
onward [] = done
onward (u ∷ rest) = next_timer u

-- The timer `t` is taken out of the ring and fired.
pub record Fired (t : ℕ) (p q : PollCommon) (ts : List ℕ) : Type 0 where
  pub timers : IsTimers q ts
  pub same : (k : ℕ) → SameTimer (p.timer k) (q.timer k)
  pub fired : (k : ℕ) → (q.timer k).fired ≡ (if k == t then true else (p.timer k).fired)
  pub thread_woken : q.thread_woken ≡ p.thread_woken

some_same : {a b : ℕ} → some a ≡ some b → a ≡ b
some_same e = cc

not_in_nil : (k : ℕ) (zs : List ℕ) → zs ≡ [] → has k zs ≡ true → ⊥
not_in_nil k zs e m = cc

onward_lem :
    (n : ℕ → Option ℕ) (p : ℕ → ℕ) (head : Option ℕ) (xs : List ℕ) (t : ℕ) (ys : List ℕ)
    → IsRing n p head (xs ++ t ∷ ys)
    → (w : ℕ) → some w ≡ first_or ys head
    → (if is head w then done else next_timer w) ≡ onward ys
onward_lem n p head xs t [] r w e = rw (← e, is_self w) refl
onward_lem n p head xs t (u ∷ ys) r w e =
    let same : w ≡ u = cc in rw (same, IsRing-not_head_after n p head xs t u ys r) refl

done_at_end : (xs ys : List ℕ) → xs ++ ys ≡ [] → done ≡ onward ys
done_at_end [] [] e = refl
done_at_end [] (u ∷ ys) e = cc
done_at_end (x ∷ xs) ys e = cc

head_onward :
    (head : Option ℕ) (t w : ℕ) (ys : List ℕ)
    → some w ≡ first_or ys head
    → is head t ≡ true
    → w ≢ t
    → next_timer w ≡ onward ys
head_onward head t w [] e first ne = absurd (ne (same_head head t w e first))
  where
    same_head : (head : Option ℕ) (t w : ℕ) → some w ≡ head → is head t ≡ true → w ≡ t
    same_head head t w e first = some_same (e ∙ is→some head t first)
head_onward head t w (u ∷ ys) e first ne = ap next_timer (some_same e)

module _ (here now t : ℕ) (p : PollCommon) (s : World) (xs ys : List ℕ)
    (v : IsTimers p (xs ++ t ∷ ys)) where
  follows : next_of p t ≡ first_or ys p.timers
  follows = IsRing-next (next_of p) (prev_of p) p.timers xs t ys v.ring

  abbrev links :
      (x : ℕ) × (next_of p t ≡ some x)
      × (next_of p (prev_of p t) ≡ some t)
      × ((x ≡ t) ↔ (xs ++ ys ≡ []))
  links = IsRing-links (next_of p) (prev_of p) p.timers xs t ys v.ring

  distinct : Distinct (xs ++ t ∷ ys)
  distinct = IsRing-Distinct (next_of p) (prev_of p) p.timers (xs ++ t ∷ ys) v.ring

  fired_several : ℕ → PollCommon
  fired_several w =
      let q = unlink t w (fire t p) in
      record q { timers = if is p.timers t then some w else p.timers }

  module _ (w : ℕ) (at_t : next_of p t ≡ some w) (several : w ≢ t) where
    several_next : (k : ℕ) → k ≢ t → next_of (fired_several w) k ≡ next_of (take_out t p) k
    unfolding fired_several unlink fire take_out
    several_next k h = ground arith

    several_prev : (k : ℕ) → prev_of (fired_several w) k ≡ prev_of (take_out t p) k
    unfolding fired_several unlink fire take_out
    several_prev k = ground arith

    several_timers : (fired_several w).timers ≡ (take_out t p).timers
    unfolding fired_several unlink fire take_out
    several_timers = ground arith

    several_same : (k : ℕ) → SameTimer (p.timer k) ((fired_several w).timer k)
    unfolding fired_several unlink fire
    several_same k = record {
      earliest = ground arith;
      latest = ground arith;
      waiting = ground arith;
    }

    several_fired :
        (k : ℕ) → ((fired_several w).timer k).fired ≡ (if k == t then true else (p.timer k).fired)
    unfolding fired_several unlink fire
    several_fired k = ground arith

    several_woken : (fired_several w).thread_woken ≡ p.thread_woken
    unfolding fired_several unlink fire
    several_woken = refl

    several-IsRing :
        IsRing
          (next_of (fired_several w))
          (prev_of (fired_several w))
          (fired_several w).timers
          (xs ++ ys)
    several-IsRing =
        subst (λ o. IsRing (next_of (fired_several w)) (prev_of (fired_several w)) o (xs ++ ys))
          (sym several_timers)
          (IsRing-frame (next_of (fired_several w)) (next_of (fired_several w))
            (prev_of (take_out t p)) (prev_of (fired_several w)) _ (xs ++ ys)
            (take_out-IsRing t p xs ys v.ring (next_of (fired_several w)) several_next)
            (λ k m. refl) (λ k m. several_prev k))

    to_t : next_of p (prev_of p t) ≡ some t
    to_t = (IsRing-links (next_of p) (prev_of p) p.timers xs t ys v.ring).2

    several_next_self : next_of (fired_several w) t ≡ none
    unfolding fired_several unlink fire
    several_next_self = let e = to_t in ground arith

    several-Fired : Fired t p (fired_several w) (xs ++ ys)
    several-Fired =
        let (_, out) = Distinct-without xs t ys distinct in
        record {
          timers = record {
            ring = several-IsRing;
            outside = λ k m. elim (ℕ_discrete k t) [
              | yes e ↦ ap (next_of (fired_several w)) e ∙ several_next_self
              | no ne ↦
                  several_next k ne
                  ∙ taken_out_next t p (xs ++ t ∷ ys) v w k at_t to_t
                      (v.outside k (ground (arith, has-append k xs ys, has-append k xs (t ∷ ys))))
                      ne
            ];
            unfired = λ k m. elim (ℕ_discrete k t) [
              | yes e ↦ absurd (ground arith)
              | no ne ↦
                  let f =
                    v.unfired k (ground (arith, has-append k xs ys, has-append k xs (t ∷ ys))) in
                  several_fired k ∙ ground arith
            ];
          };
          same = several_same;
          fired = several_fired;
          thread_woken = several_woken;
        }

  fired_alone : PollCommon
  fired_alone = record (fire t p) { timers = none }

  alone-Fired : xs ++ ys ≡ [] → Fired t p fired_alone (xs ++ ys)
  unfolding fired_alone fire
  alone-Fired none_left = record {
    timers = record {
      ring =
          subst (λ zs. IsRing (next_of fired_alone) (prev_of fired_alone) none zs) (sym none_left)
            refl;
      outside = λ k m. elim (ℕ_discrete k t) [
        | yes e ↦ ground arith
        | no ne ↦
            let i = v.outside k (ground (arith, has-append k xs ys, has-append k xs (t ∷ ys))) in
            ground arith
      ];
      unfired = λ k m. absurd (not_in_nil k (xs ++ ys) none_left m);
    };
    same = λ k. record { earliest = ground arith; latest = ground arith; waiting = ground arith };
    fired = λ k. ground arith;
    thread_woken = refl;
  }

  goes_on : (w : ℕ) → next_of p t ≡ some w → go_on w p ≡ onward ys
  goes_on w e = onward_lem (next_of p) (prev_of p) p.timers xs t ys v.ring w (sym e ∙ follows)

  -- An expired timer is fired, another is passed by; then the loop goes on to the next one, and ends
  -- after the last.
  module _ (w : ℕ) (at_t : next_of p t ≡ some w) where
    pub round_waits :
        expired_of now p t ≡ false → dispatch_round here now t w p s ≡ ((p, s), onward ys)
    unfolding dispatch_round
    round_waits late = rw (dispatch_round, late) (ap (λ o. ((p, s), o)) (goes_on w at_t))

    woken : World
    woken = wait_list_broadcast here (p.timer t).waiting s

    round_alone :
        expired_of now p t ≡ true
        → w ≡ t
        → dispatch_round here now t w p s ≡ ((fired_alone, woken), done)
    unfolding dispatch_round fired_alone woken
    round_alone due e = let h : w == t ≡ true = ground arith in rw (dispatch_round, due, h) refl

    round_head :
        expired_of now p t ≡ true
        → w ≢ t
        → is p.timers t ≡ true
        → dispatch_round here now t w p s ≡ ((fired_several w, woken), next_timer w)
    unfolding dispatch_round fired_several woken fire unlink
    round_head due ne first =
        let h : w == t ≡ false = ground arith in rw (dispatch_round, due, h, first) refl

    round_inside :
        expired_of now p t ≡ true
        → w ≢ t
        → is p.timers t ≡ false
        → dispatch_round here now t w p s ≡ ((fired_several w, woken), go_on w p)
    unfolding dispatch_round fired_several woken fire unlink
    round_inside due ne inside =
        let h : w == t ≡ false = ground arith in rw (dispatch_round, due, h, inside) refl

    pub round_fires :
        expired_of now p t ≡ true
        → (q : PollCommon) × (dispatch_round here now t w p s
            ≡ ((q, wait_list_broadcast here (p.timer t).waiting s), onward ys))
          × Fired t p q (xs ++ ys)
    unfolding woken
    round_fires due = elim (ℕ_discrete w t) [
      | yes e ↦
          let alone = links.3.0 (some_same (sym links.1 ∙ at_t) ∙ e) in
          (
            fired_alone,
            round_alone due e ∙ ap (λ o. ((fired_alone, woken), o)) (done_at_end xs ys alone),
            alone-Fired alone,
          )
      | no ne ↦ elim (Bool-cases (is p.timers t)) [
        | inl first ↦ (
          fired_several w,
          round_head due ne first
              ∙ ap (λ o. ((fired_several w, woken), o))
                  (head_onward p.timers t w ys (sym at_t ∙ follows) first ne),
          several-Fired w at_t ne,
        )
        | inr inside ↦ (
          fired_several w,
          round_inside due ne inside ∙ ap (λ o. ((fired_several w, woken), o)) (goes_on w at_t),
          several-Fired w at_t ne,
        )
      ]
    ]
