-- ===== src/Base/Rings.antt =====
-- Doubly linked rings: from `head` the pointers `next` lead through the members and back, and the
-- pointers `prev` the other way. `next` is null where a node is in no ring.
use Prim.Native.Nat.{ℕ}
use mathlib.Core.Path.{◌≡◌, refl, sym, ap, subst, ◌∙◌}
use mathlib.Core.Logic.{◌≢◌, ◌↔◌, inl, inr}
use mathlib.Core.List.{List, [], ◌∷◌, ◌++◌, append-nil}
use mathlib.Core.Bool.{true, false}
use mathlib.Core.Option.{Option, none, some}
use native.Mathlib.Omega.{arith}
use molerat.Base.Tests.{◌==◌, if◌then◌else◌, is, Bool-cases, ==_iff}
use molerat.Base.Members.{has, has-append, Distinct, append-Distinct, remove}

cons_not_nil : {x : ℕ} {xs : List ℕ} → x ∷ xs ≡ [] → ⊥
cons_not_nil e = cc

false_not_true : false ≡ true → ⊥
false_not_true e = cc

-- The nodes `xs` stand between `a` and `z`, linked both ways.
abbrev pub Chain : (ℕ → Option ℕ) → (ℕ → ℕ) → ℕ → List ℕ → ℕ → Type 0
Chain n p a [] z = (n a ≡ some z) × (p z ≡ a)
Chain n p a (x ∷ xs) z = (n a ≡ some x) × (p x ≡ a) × Chain n p x xs z

abbrev pub IsRing : (ℕ → Option ℕ) → (ℕ → ℕ) → Option ℕ → List ℕ → Type 0
IsRing n p head [] = head ≡ none
IsRing n p head (t ∷ xs) = (head ≡ some t) × Chain n p t xs t × Distinct (t ∷ xs)

-- The links of a node lead to its neighbours.
pub Chain-last :
    (n : ℕ → Option ℕ) (p : ℕ → ℕ) (a : ℕ) (xs : List ℕ) (z : ℕ)
    → Chain n p a xs z
    → (has (p z) (a ∷ xs) ≡ true) × (n (p z) ≡ some z)
Chain-last n p a [] z c = ground arith
Chain-last n p a (x ∷ xs) z c = ground (arith, Chain-last n p x xs z c.2)

pub Chain-next :
    (n : ℕ → Option ℕ) (p : ℕ → ℕ) (a : ℕ) (xs : List ℕ) (z : ℕ)
    → Chain n p a xs z
    → (w : ℕ) × (n a ≡ some w) × (p w ≡ a) × (has w (xs ++ z ∷ []) ≡ true)
Chain-next n p a [] z c = (z, c.0, c.1, ground arith)
Chain-next n p a (x ∷ xs) z c = (x, c.0, c.1, ground arith)

pub Chain-frame :
    (n n' : ℕ → Option ℕ) (p p' : ℕ → ℕ) (a : ℕ) (xs : List ℕ) (z : ℕ)
    → Chain n p a xs z
    → ((k : ℕ) → has k (a ∷ xs) ≡ true → n' k ≡ n k)
    → ((k : ℕ) → has k (xs ++ z ∷ []) ≡ true → p' k ≡ p k)
    → Chain n' p' a xs z
Chain-frame n n' p p' a [] z c hn hp = (hn a (ground arith) ∙ c.0, hp z (ground arith) ∙ c.1)
Chain-frame n n' p p' a (x ∷ xs) z c hn hp = (
  hn a (ground arith) ∙ c.0,
  hp x (ground arith) ∙ c.1,
  Chain-frame n n' p p' x xs z c.2 (λ k h. hn k (ground arith)) (λ k h. hp k (ground arith)),
)

pub Chain-split :
    (n : ℕ → Option ℕ) (p : ℕ → ℕ) (a : ℕ) (xs : List ℕ) (y : ℕ) (ys : List ℕ) (z : ℕ)
    → Chain n p a (xs ++ y ∷ ys) z
    → Chain n p a xs y × Chain n p y ys z
Chain-split n p a [] y ys z c = ((c.0, c.1), c.2)
Chain-split n p a (x ∷ xs) y ys z c =
    let (first, second) = Chain-split n p x xs y ys z c.2 in ((c.0, c.1, first), second)

pub Chain-join :
    (n : ℕ → Option ℕ) (p : ℕ → ℕ) (a : ℕ) (xs : List ℕ) (y : ℕ) (ys : List ℕ) (z : ℕ)
    → Chain n p a xs y
    → Chain n p y ys z
    → Chain n p a (xs ++ y ∷ ys) z
Chain-join n p a [] y ys z c d = (c.0, c.1, d)
Chain-join n p a (x ∷ xs) y ys z c d = (c.0, c.1, Chain-join n p x xs y ys z c.2 d)

-- Links that differ from others as the two neighbours of `y` are linked past it.
pub record Bypassed (n n' : ℕ → Option ℕ) (p p' : ℕ → ℕ) (y : ℕ) : Type 0 where
  pub next_past : n' (p y) ≡ n y
  pub next_other : (k : ℕ) → k ≢ p y → k ≢ y → n' k ≡ n k
  pub prev_past : (w : ℕ) → n y ≡ some w → p' w ≡ p y
  pub prev_other : (k : ℕ) → n y ≢ some k → p' k ≡ p k

Distinct-tail_not : (a k : ℕ) (xs : List ℕ) → has a xs ≡ false → has k xs ≡ true → k ≢ a
Distinct-tail_not a k xs h m e = cc

pub Chain-Bypassed :
    (n n' : ℕ → Option ℕ) (p p' : ℕ → ℕ) (a : ℕ) (xs : List ℕ) (y : ℕ) (ys : List ℕ) (z : ℕ)
    → Bypassed n n' p p' y
    → Chain n p a xs y
    → Chain n p y ys z
    → Distinct (a ∷ (xs ++ y ∷ ys))
    → has z (xs ++ y ∷ ys) ≡ false
    → Chain n' p' a (xs ++ ys) z
Chain-Bypassed n n' p p' a [] y [] z b c d dis h =
    (ap n' (sym c.1) ∙ (b.next_past ∙ d.0), b.prev_past z d.0 ∙ c.1)
Chain-Bypassed n n' p p' a [] y (w ∷ ys) z b c d dis h = (
  ap n' (sym c.1) ∙ (b.next_past ∙ d.0),
  b.prev_past w d.0 ∙ c.1,
  Chain-frame n n' p p' w ys z d.2 (λ k m. b.next_other k (λ e. ground arith) (λ e. ground arith))
      (λ k m. b.prev_other k (λ e. ground (arith, has-append w ys (z ∷ [])))),
)
Chain-Bypassed n n' p p' a (x ∷ xs) y ys z b c d dis h = (
  b.next_other a (λ e. ground (arith, Chain-last n p x xs y c.2, has-append a xs (y ∷ ys)))
        (λ e. ground (arith, has-append a xs (y ∷ ys)))
      ∙ c.0,
  b.prev_other x (λ e.
        let (w, nw, _, m) = Chain-next n p y ys z d in
        ground (arith, has-append x xs (y ∷ ys), has-append x ys (z ∷ [])))
      ∙ c.1,
  Chain-Bypassed n n' p p' x xs y ys z b c.2 d dis.1 (ground arith),
)

-- Links that differ from others as `u` is put in front of `z`.
pub record Inserted (n n' : ℕ → Option ℕ) (p p' : ℕ → ℕ) (u z : ℕ) : Type 0 where
  pub next_new : n' u ≡ some z
  pub next_before : n' (p z) ≡ some u
  pub next_other : (k : ℕ) → k ≢ u → k ≢ p z → n' k ≡ n k
  pub prev_new : p' u ≡ p z
  pub prev_after : p' z ≡ u
  pub prev_other : (k : ℕ) → k ≢ u → k ≢ z → p' k ≡ p k

pub Chain-Inserted :
    (n n' : ℕ → Option ℕ) (p p' : ℕ → ℕ) (a : ℕ) (xs : List ℕ) (u z : ℕ)
    → Inserted n n' p p' u z
    → Chain n p a xs z
    → Distinct (a ∷ xs)
    → has u (a ∷ xs) ≡ false
    → has z xs ≡ false
    → Chain n' p' a (xs ++ u ∷ []) z
Chain-Inserted n n' p p' a [] u z i c d fresh h =
    (ap n' (sym c.1) ∙ i.next_before, i.prev_new ∙ c.1, (i.next_new, i.prev_after))
Chain-Inserted n n' p p' a (x ∷ xs) u z i c d fresh h = (
  i.next_other a (λ e. ground arith) (λ e. ground (arith, Chain-last n p x xs z c.2)) ∙ c.0,
  i.prev_other x (λ e. ground arith) (λ e. ground arith) ∙ c.1,
  Chain-Inserted n n' p p' x xs u z i c.2 d.1 (ground arith) (ground arith),
)

pub Distinct-without :
    (xs : List ℕ) (y : ℕ) (ys : List ℕ)
    → Distinct (xs ++ y ∷ ys)
    → Distinct (xs ++ ys) × (has y (xs ++ ys) ≡ false)
Distinct-without [] y ys d = (d.1, d.0)
Distinct-without (x ∷ xs) y ys d =
    ground (arith, Distinct-without xs y ys d.1, has-append x xs (y ∷ ys), has-append x xs ys)

-- A node is taken out of a ring of several; the head moves on where it was the head.
pub IsRing-Bypassed :
    (n n' : ℕ → Option ℕ) (p p' : ℕ → ℕ) (head : Option ℕ) (xs : List ℕ) (y : ℕ) (ys : List ℕ)
    → IsRing n p head (xs ++ y ∷ ys)
    → Bypassed n n' p p' y
    → xs ++ ys ≢ []
    → IsRing n' p' (if is head y then n y else head) (xs ++ ys)
IsRing-Bypassed n n' p p' head [] y [] r b some_left = absurd (some_left refl)
IsRing-Bypassed n n' p p' head [] y (x ∷ ys) (e, c, d) b some_left = (
  rw e (ground arith),
  subst (λ zs. Chain n' p' x zs x) (append-nil ys)
      (Chain-Bypassed n n' p p' x ys y [] x b c.2 (c.0, c.1) (append-Distinct y (x ∷ ys) d.1 d.0)
        (ground (arith, has-append x ys (y ∷ [])))),
  d.1,
)
IsRing-Bypassed n n' p p' head (t ∷ xs) y ys (e, c, d) b some_left =
    let (first, second) = Chain-split n p t xs y ys t c in
    (
      rw e (ground (arith, has-append t xs (y ∷ ys))),
      Chain-Bypassed n n' p p' t xs y ys t b first second d d.0,
      (Distinct-without (t ∷ xs) y ys d).0,
    )

-- A node is put at the end of a ring.
pub IsRing-Inserted :
    (n n' : ℕ → Option ℕ) (p p' : ℕ → ℕ) (t : ℕ) (xs : List ℕ) (u : ℕ)
    → IsRing n p (some t) (t ∷ xs)
    → Inserted n n' p p' u t
    → has u (t ∷ xs) ≡ false
    → IsRing n' p' (some t) (t ∷ (xs ++ u ∷ []))
IsRing-Inserted n n' p p' t xs u (e, c, d) i fresh =
    (refl, Chain-Inserted n n' p p' t xs u t i c d fresh d.0, append-Distinct u (t ∷ xs) d fresh)

-- The neighbours of a node: the next one is the node itself only where it is alone.
pub IsRing-links :
    (n : ℕ → Option ℕ) (p : ℕ → ℕ) (head : Option ℕ) (xs : List ℕ) (y : ℕ) (ys : List ℕ)
    → IsRing n p head (xs ++ y ∷ ys)
    → (w : ℕ) × (n y ≡ some w) × (n (p y) ≡ some y) × ((w ≡ y) ↔ (xs ++ ys ≡ []))
IsRing-links n p head [] y [] (e, c, d) = (y, c.0, ap n c.1 ∙ c.0, ((λ _. refl), (λ _. refl)))
IsRing-links n p head [] y (x ∷ ys) (e, c, d) = (
  x,
  c.0,
  (Chain-last n p x ys y c.2).1,
  ((λ q. absurd (ground arith)), (λ q. absurd (cons_not_nil q))),
)
IsRing-links n p head (t ∷ xs) y ys (e, c, d) =
    let (first, second) = Chain-split n p t xs y ys t c in
    let (w, nw, _, m) = Chain-next n p y ys t second in
    (
      w,
      nw,
      (Chain-last n p t xs y first).1,
      (
        (λ q. absurd (
            ground (
              arith,
              (Distinct-without xs y ys d.1).1,
              has-append y xs ys,
              has-append y ys (t ∷ []),
              has-append t xs (y ∷ ys),
            ))),
        (λ q. absurd (cons_not_nil q)),
      ),
    )

-- Where a member stands.
pub has-split :
    (y : ℕ) (ts : List ℕ)
    → has y ts ≡ true
    → (xs : List ℕ) × (ys : List ℕ) × (ts ≡ xs ++ y ∷ ys) × (remove y ts ≡ xs ++ ys)
has-split y [] h = absurd (false_not_true h)
has-split y (t ∷ ts) h = elim (Bool-cases (y == t)) [
  | inl same ↦ ([], ts, ap (λ k. k ∷ ts) (sym ((==_iff y t).0 same)), rw same refl)
  | inr other ↦
      let (xs, ys, e, r) = has-split y ts (ground arith) in
      (t ∷ xs, ys, ap (λ zs. t ∷ zs) e, rw other (ap (λ zs. t ∷ zs) r))
]

pub IsRing-frame :
    (n n' : ℕ → Option ℕ) (p p' : ℕ → ℕ) (head : Option ℕ) (ts : List ℕ)
    → IsRing n p head ts
    → ((k : ℕ) → has k ts ≡ true → n' k ≡ n k)
    → ((k : ℕ) → has k ts ≡ true → p' k ≡ p k)
    → IsRing n' p' head ts
IsRing-frame n n' p p' head [] r hn hp = r
IsRing-frame n n' p p' head (t ∷ ts) (e, c, d) hn hp = (
  e,
  Chain-frame n n' p p' t ts t c hn (λ k m. hp k (ground (arith, has-append k ts (t ∷ [])))),
  d,
)

pub IsRing-Distinct :
    (n : ℕ → Option ℕ) (p : ℕ → ℕ) (head : Option ℕ) (ts : List ℕ)
    → IsRing n p head ts
    → Distinct ts
IsRing-Distinct n p head [] r = tt
IsRing-Distinct n p head (t ∷ ts) r = r.2

pub remove_absent : (t : ℕ) (ts : List ℕ) → has t ts ≡ false → remove t ts ≡ ts
remove_absent t [] h = refl
remove_absent t (x ∷ ts) h = ground (arith, remove_absent t ts)

-- What follows the last of a list in a ring that goes on with `ys`, and then from its head.
abbrev pub first_or : List ℕ → Option ℕ → Option ℕ
first_or [] head = head
first_or (u ∷ ys) head = some u

pub IsRing-next :
    (n : ℕ → Option ℕ) (p : ℕ → ℕ) (head : Option ℕ) (xs : List ℕ) (y : ℕ) (ys : List ℕ)
    → IsRing n p head (xs ++ y ∷ ys)
    → n y ≡ first_or ys head
IsRing-next n p head [] y [] (e, c, d) = c.0 ∙ sym e
IsRing-next n p head [] y (u ∷ ys) (e, c, d) = c.0
IsRing-next n p head (t ∷ xs) y [] (e, c, d) = (Chain-split n p t xs y [] t c).1.0 ∙ sym e
IsRing-next n p head (t ∷ xs) y (u ∷ ys) (e, c, d) = (Chain-split n p t xs y (u ∷ ys) t c).1.0

-- A node behind another is not the head.
pub IsRing-not_head :
    (n : ℕ → Option ℕ) (p : ℕ → ℕ) (head : Option ℕ) (t : ℕ) (xs : List ℕ) (u : ℕ)
    → IsRing n p head (t ∷ xs)
    → has u xs ≡ true
    → is head u ≡ false
IsRing-not_head n p head t xs u (e, c, d) m = rw e (ground arith)

pub IsRing-not_head_after :
    (n : ℕ → Option ℕ) (p : ℕ → ℕ) (head : Option ℕ) (xs : List ℕ) (y u : ℕ) (ys : List ℕ)
    → IsRing n p head (xs ++ y ∷ u ∷ ys)
    → is head u ≡ false
IsRing-not_head_after n p head [] y u ys r = IsRing-not_head n p head y (u ∷ ys) u r (ground arith)
IsRing-not_head_after n p head (t ∷ xs) y u ys r =
    IsRing-not_head n p head t (xs ++ y ∷ u ∷ ys) u r (ground (arith, has-append u xs (y ∷ u ∷ ys)))
