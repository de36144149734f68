-- ===== src/Timers/Waking.antt =====
-- src/poll_common.c: how long the poll thread sleeps.
use molerat.Base.{
  ℕ, zero, suc, ◌<◌, ◌≤◌, ◌≡◌, refl, sym, ap, ◌∙◌, subst, arith, ◌⊎◌, inl, inr, true, false, Option,
  none, some, List, [], ◌∷◌, ◌++◌, ltb, if◌then◌else◌, is, is_self, Bool-cases, Result, ok, ◌>>=◌,
  has, length, append_assoc, IsRing-next, IsRing-not_head_after,
}
use molerat.Timers.{PollCommon, earliest_latest_loop, earliest_latest}
use molerat.Timers.Ring.{next_of, prev_of, IsTimers}

abbrev pub latest_of : PollCommon → ℕ → ℕ
latest_of p k = (p.timer k).latest

-- The least of `l` and the latest times of the timers.
abbrev least : PollCommon → ℕ → List ℕ → ℕ
least p l [] = l
least p l (u ∷ us) = least p (if ltb (latest_of p u) l then latest_of p u else l) us

least_bounds :
    (p : PollCommon) (l : ℕ) (us : List ℕ)
    → (least p l us ≤ l) × ((k : ℕ) → has k us ≡ true → least p l us ≤ latest_of p k)
least_bounds p l [] = (omega arith, λ k m. cc)
least_bounds p l (u ∷ us) =
    let (below, each) = least_bounds p (if ltb (latest_of p u) l then latest_of p u else l) us in
    (ground arith, λ k m. let e = each k in ground arith)

least_reached :
    (p : PollCommon) (l : ℕ) (us : List ℕ)
    → (least p l us ≡ l) ⊎ ((k : ℕ) × (has k us ≡ true) × (least p l us ≡ latest_of p k))
least_reached p l [] = inl refl
least_reached p l (u ∷ us) =
    elim (least_reached p (if ltb (latest_of p u) l then latest_of p u else l) us) [
      | inl e ↦ elim (Bool-cases (ltb (latest_of p u) l)) [
        | inl lower ↦ inr (u, ground arith, e ∙ rw lower refl)
        | inr higher ↦ inl (e ∙ rw higher refl)
      ]
      | inr (k, m, e) ↦ inr (k, ground arith, e)
    ]

loop_last :
    (fuel t l u : ℕ) (p : PollCommon)
    → next_of p t ≡ some u
    → is p.timers u ≡ true
    → earliest_latest_loop (suc fuel) t l p ≡ ok l
unfolding earliest_latest_loop
loop_last fuel t l u p e h = rw (earliest_latest_loop, e, h) refl

loop_more :
    (fuel t l u : ℕ) (p : PollCommon)
    → next_of p t ≡ some u
    → is p.timers u ≡ false
    → earliest_latest_loop (suc fuel) t l p
      ≡ earliest_latest_loop fuel u (if ltb (latest_of p u) l then latest_of p u else l) p
unfolding earliest_latest_loop
loop_more fuel t l u p e h = rw (earliest_latest_loop, e, h) refl

is_head : (o : Option ℕ) (t : ℕ) → o ≡ some t → is o t ≡ true
is_head o t e = rw e (is_self t)

head_of :
    (p : PollCommon) (xs : List ℕ) (t : ℕ) (ys : List ℕ)
    → IsTimers p (xs ++ t ∷ ys)
    → (h : ℕ) × (p.timers ≡ some h)
head_of p [] t ys v = (t, v.ring.0)
head_of p (x ∷ xs) t ys v = (x, v.ring.0)

loop-least :
    (fuel : ℕ) (before : List ℕ) (t : ℕ) (after : List ℕ) (l : ℕ) (p : PollCommon)
    → IsTimers p (before ++ t ∷ after)
    → length after < fuel
    → earliest_latest_loop fuel t l p ≡ ok (least p l after)
loop-least zero before t after l p v enough = absurd (omega arith)
loop-least (suc fuel) before t [] l p v enough =
    let (h, e) = head_of p before t [] v in
    loop_last fuel t l h p (IsRing-next (next_of p) (prev_of p) p.timers before t [] v.ring ∙ e)
      (is_head p.timers h e)
loop-least (suc fuel) before t (u ∷ after) l p v enough =
    loop_more fuel t l u p
      (IsRing-next (next_of p) (prev_of p) p.timers before t (u ∷ after) v.ring)
      (IsRing-not_head_after (next_of p) (prev_of p) p.timers before t u after v.ring)
    ∙ loop-least fuel (before ++ t ∷ []) u after _ p
        (subst (IsTimers p) (sym (append_assoc before (t ∷ []) (u ∷ after))) v) (omega arith)

-- What `earliest_latest` comes to: -1 without timers, and else the least latest time.
pub data Least (p : PollCommon) (ts : List ℕ) : Option ℕ → Type 0 where
  no_timers : ts ≡ [] → Least p ts none
  at_timer :
      (k : ℕ)
      → has k ts ≡ true
      → ((j : ℕ) → has j ts ≡ true → latest_of p k ≤ latest_of p j)
      → Least p ts (some (latest_of p k))

abbrev from_head : ℕ → PollCommon → Option ℕ → Result (Option ℕ)
from_head fuel p none = ok none
from_head fuel p (some t) = earliest_latest_loop fuel t (latest_of p t) p >>= λ l. ok (some l)

starts :
    (fuel : ℕ) (p : PollCommon) (o : Option ℕ)
    → p.timers ≡ o
    → earliest_latest fuel p ≡ from_head fuel p o
unfolding earliest_latest
starts fuel p o e = same fuel p p.timers ∙ ap (from_head fuel p) e
  where
    same :
        (fuel : ℕ) (p : PollCommon) (o : Option ℕ)
        → elim o as (λ _. Result (Option ℕ)) [
          | none ↦ ok none
          | some t ↦ earliest_latest_loop fuel t (p.timer t).latest p >>= (λ l. ok (some l))
        ]
          ≡ from_head fuel p o
    same fuel p none = refl
    same fuel p (some t) = refl

-- With fuel for every timer of the ring `earliest_latest` gives the least latest time of the ring, and
-- -1 exactly where the ring is empty.
pub earliest_latest-Least :
    (fuel : ℕ) (ts : List ℕ) (p : PollCommon)
    → IsTimers p ts
    → length ts ≤ fuel
    → (o : Option ℕ) × (earliest_latest fuel p ≡ ok o) × Least p ts o
earliest_latest-Least fuel [] p v enough = (none, starts fuel p none v.ring, no_timers refl)
earliest_latest-Least fuel (t ∷ ts) p v enough =
    let l = least p (latest_of p t) ts in
    let e =
      starts fuel p (some t) v.ring.0
      ∙ ap (λ (r : Result ℕ). r >>= λ m. ok (some m))
          (loop-least fuel [] t ts (latest_of p t) p v (omega arith)) in
    let (below, each) = least_bounds p (latest_of p t) ts in
    elim (least_reached p (latest_of p t) ts) [
      | inl first ↦ (
        some (latest_of p t),
        e ∙ ap (λ x. ok (some x)) first,
        at_timer t (ground arith) (λ j m. let a = each j in ground arith),
      )
      | inr (k, m, at_k) ↦ (
        some (latest_of p k),
        e ∙ ap (λ x. ok (some x)) at_k,
        at_timer k (ground arith) (λ j n. let a = each j in ground arith),
      )
    ]
