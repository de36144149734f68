-- ===== src/Poll/Calling.antt =====
-- src/poll_poll.c: proofs about the calls that `poll_dispatch` makes.
use molerat.Base.{
  ℕ, ◌+◌, ◌-◌, ◌≤◌, ◌<◌, ◌≡◌, refl, sym, ap, subst, ◌∙◌, arith, inl, inr, true, not, Bool-cases,
  some, List, [], ◌∷◌, ◌==◌, ltb, map, update, has, Distinct,
}
use molerat.Epoll.{Events}
use molerat.Poll.{PollEvents, any_poll_event, events_from_system, Poll, Call, set_watched_fd}
use molerat.Poll.Holding.{IsPoll}

abbrev pub callees : List Call → List ℕ
callees calls = map (λ c. c.0) calls

-- Each call has all events that poll gave for the descriptor.
abbrev pub Given : (ℕ → PollEvents) → List Call → Type 0
Given revents [] = Unit {0}
Given revents ((w, got) ∷ calls) = (got ≡ events_from_system (revents w)) × Given revents calls

-- The dispatch of the slots from `i` on: of each descriptor that poll has events for, and that is not
-- destroyed, the handler is called once, with the events, and of no other.
pub record Dispatched (i : ℕ) (revents : ℕ → PollEvents) (p : Poll) (r : Poll × List Call)
    : Type 0 where
  pub is_poll : IsPoll r.0
  pub given : Given revents r.1
  pub once : Distinct (callees r.1)
  pub all :
      (j n : ℕ)
      → i ≤ j
      → j < p.used
      → (p.watched_fd (p.watched_fds j)).fd ≡ some n
      → any_poll_event (revents (p.watched_fds j)) ≡ true
      → has (p.watched_fds j) (callees r.1) ≡ true
  pub only :
      (w : ℕ)
      → has w (callees r.1) ≡ true
      → (any_poll_event (revents w) ≡ true)
        × ((n : ℕ) × ((p.watched_fd w).fd ≡ some n))
        × ((j : ℕ) × (i ≤ j) × (j < p.used) × (p.watched_fds j ≡ w))

pub skip-Dispatched :
    (i : ℕ) (revents : ℕ → PollEvents) (p : Poll) (r : Poll × List Call)
    → ((n : ℕ)
        → (p.watched_fd (p.watched_fds i)).fd ≡ some n
        → any_poll_event (revents (p.watched_fds i)) ≡ true
        → ⊥)
    → Dispatched (i + 1) revents p r
    → Dispatched i revents p r
skip-Dispatched i revents p r not d = record {
  is_poll = d.is_poll;
  given = d.given;
  once = d.once;
  all = λ j n le lt live busy. elim (Bool-cases (ltb i j)) [
    | inl later ↦ d.all j n (ground arith) lt live busy
    | inr here ↦
        let e : j ≡ i = ground arith in
        absurd (
          not n (ap (λ k. (p.watched_fd (p.watched_fds k)).fd) (sym e) ∙ live)
            (ap (λ k. any_poll_event (revents (p.watched_fds k))) (sym e) ∙ busy))
  ];
  only =
      λ w h. let (busy, live, (j, le, lt, e)) = d.only w h in (busy, live, (j, omega arith, lt, e));
}

-- The descriptor at `i` gets its call, and the others of `p` are those from `k` on in `q`.
call-Dispatched :
    (i k : ℕ) (revents : ℕ → PollEvents) (p q : Poll) (r : Poll × List Call) (n : ℕ)
    → i < p.used
    → (p.watched_fd (p.watched_fds i)).fd ≡ some n
    → any_poll_event (revents (p.watched_fds i)) ≡ true
    → ((v : ℕ) → (q.watched_fd v).fd ≡ (p.watched_fd v).fd)
    → ((j : ℕ)
        → i < j
        → j < p.used
        → (l : ℕ) × (k ≤ l) × (l < q.used) × (q.watched_fds l ≡ p.watched_fds j))
    → ((l : ℕ)
        → k ≤ l
        → l < q.used
        → (q.watched_fds l ≡ p.watched_fds i → ⊥)
          × ((j : ℕ) × (i ≤ j) × (j < p.used) × (p.watched_fds j ≡ q.watched_fds l)))
    → Dispatched k revents q r
    → Dispatched i revents p
        (r.0, (p.watched_fds i, events_from_system (revents (p.watched_fds i))) ∷ r.1)
call-Dispatched i k revents p q r n lt live busy same forth back d = record {
  is_poll = d.is_poll;
  given = (refl, d.given);
  once = (
    elim (Bool-cases (has (p.watched_fds i) (callees r.1))) [
      | inr e ↦ e
      | inl e ↦
          let (b, l', (l, le, lt', e')) = d.only (p.watched_fds i) e in
          absurd ((back l le lt').0 e')
    ],
    d.once,
  );
  all = λ j m le lt' live' busy'. elim (Bool-cases (ltb i j)) [
    | inr here ↦ let e : j ≡ i = ground arith in let e' = ap p.watched_fds e in ground arith
    | inl later ↦
        let (l, le', lt'', e) = forth j (ground arith) lt' in
        let a =
          d.all l m le' lt'' (same (q.watched_fds l) ∙ (ap (λ v. (p.watched_fd v).fd) e ∙ live'))
            (ap (λ v. any_poll_event (revents v)) e ∙ busy') in
        let a' = subst (λ v. has v (callees r.1) ≡ true) e a in ground arith
  ];
  only = λ w h. elim (Bool-cases (w == p.watched_fds i)) [
    | inl e ↦
        let e' : p.watched_fds i ≡ w = ground arith in
        subst
          (λ w.
            (any_poll_event (revents w) ≡ true)
            × ((n : ℕ) × ((p.watched_fd w).fd ≡ some n))
            × ((j : ℕ) × (i ≤ j) × (j < p.used) × (p.watched_fds j ≡ w)))
          e' (busy, (n, live), (i, omega arith, lt, refl))
    | inr e ↦
        let (busy', (m, live'), (l, le, lt', e')) = d.only w (ground arith) in
        let (b, (j, le', lt'', e'')) = back l le lt' in
        (busy', (m, sym (same w) ∙ live'), (j, le', lt'', e'' ∙ e'))
  ];
}

-- The slots of different indexes are of different descriptors.
slots_differ :
    (p : Poll) (i j : ℕ)
    → IsPoll p
    → 0 < i
    → i < j
    → j < p.used
    → p.watched_fds j ≡ p.watched_fds i
    → ⊥
slots_differ p i j (h, d) pos lt lt' e =
    let a = h.slots.taken_slot i pos (omega arith) in
    let b = h.slots.taken_slot j (omega arith) lt' in absurd (ground arith)

-- A call after which the descriptor keeps its slot.
pub kept-Dispatched :
    (i n : ℕ) (left : Events) (revents : ℕ → PollEvents) (p : Poll) (r : Poll × List Call)
    → 0 < i
    → i < p.used
    → (p.watched_fd (p.watched_fds i)).fd ≡ some n
    → any_poll_event (revents (p.watched_fds i)) ≡ true
    → IsPoll p
    → Dispatched
        (i + 1)
        revents
        (set_watched_fd
          (p.watched_fds i)
          (record (p.watched_fd (p.watched_fds i)) { interest = left })
          p)
        r
    → Dispatched i revents p
        (r.0, (p.watched_fds i, events_from_system (revents (p.watched_fds i))) ∷ r.1)
kept-Dispatched i n left revents p r pos lt live busy h d =
    call-Dispatched i (i + 1) revents p
      (set_watched_fd (p.watched_fds i)
        (record (p.watched_fd (p.watched_fds i)) { interest = left }) p)
      r n lt live busy (λ v. ground arith) (λ j lt' lt''. (j, omega arith, lt'', refl))
      (λ l le lt'. (slots_differ p i l h pos (omega arith) lt', (l, omega arith, lt', refl))) d

-- A call after which the descriptor loses its slot, to the last one.
pub removed-Dispatched :
    (i n : ℕ) (revents : ℕ → PollEvents) (p q : Poll) (r : Poll × List Call)
    → 0 < i
    → i < p.used
    → (p.watched_fd (p.watched_fds i)).fd ≡ some n
    → any_poll_event (revents (p.watched_fds i)) ≡ true
    → IsPoll p
    → q.used ≡ p.used - 1
    → q.watched_fds ≡ update p.watched_fds i (p.watched_fds (p.used - 1))
    → ((v : ℕ) → (q.watched_fd v).fd ≡ (p.watched_fd v).fd)
    → Dispatched i revents q r
    → Dispatched i revents p
        (r.0, (p.watched_fds i, events_from_system (revents (p.watched_fds i))) ∷ r.1)
removed-Dispatched i n revents p q r pos lt live busy h u ws same d =
    let at : (l : ℕ) → q.watched_fds l ≡ update p.watched_fds i (p.watched_fds (p.used - 1)) l =
      λ l. ap (λ f. f l) ws in
    call-Dispatched i i revents p q r n lt live busy same
      (λ j lt' lt''. elim (Bool-cases (j == p.used - 1)) [
        | inl e ↦
            let e' : j ≡ p.used - 1 = ground arith in
            (i, omega arith, omega arith, at i ∙ ground arith)
        | inr e ↦ (j, omega arith, ground arith, at j ∙ ground arith)
      ])
      (λ l le lt'. elim (Bool-cases (ltb i l)) [
        | inl e ↦
            let e' : i < l = ground arith in
            let same_w : q.watched_fds l ≡ p.watched_fds l = at l ∙ ground arith in
            (
              (λ k. slots_differ p i l h pos e' (omega arith) (sym same_w ∙ k)),
              (l, le, omega arith, sym same_w),
            )
        | inr e ↦
            let e' : l ≡ i = ground arith in
            let last : q.watched_fds l ≡ p.watched_fds (p.used - 1) = at l ∙ ground arith in
            (
              (λ k. slots_differ p i (p.used - 1) h pos (omega arith) (omega arith) (sym last ∙ k)),
              (p.used - 1, omega arith, omega arith, sym last),
            )
      ])
      d
