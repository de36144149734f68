-- ===== src/HttpReader/Draining.antt =====
-- src/http_reader.c: proofs about the loop of `http_reader_body` over the data in `prebody`.
use molerat.Base.{
  ℕ, zero, suc, ◌+◌, ◌-◌, ◌^◌, ◌≤◌, ◌<◌, ◌≡◌, refl, ap, ◌∙◌, arith, inl, inr, true, false, Bool,
  Bool-cases, List, length, if◌then◌else◌, slice, length-slice, ltb, ok, ◌==◌,
}
use molerat.Stream.{progress, stream_waiting, stream_end}
use molerat.HttpReader.Callbacks.{in_prebody}
use molerat.HttpReader.Parsing.{Errno, hpe_ok, hpe_paused, hpe_other, Outside, Reading, parse}
use molerat.HttpReader.Prebody.{size_sub, is_eom}
use molerat.HttpReader.Body.{Going, returns, to_done, to_read, body_prebody_loop}
use molerat.HttpReader.Filling.{
  IsBodyParser, Errno-cases, size_sub-minus, Filling, Parsed, parse-Parsed, at_eom-ok,
}

module _ {P : Type 0} (o : Outside P) (InBody : P → Type 0) (protocol : IsBodyParser o InBody)
    (buf buf_end : ℕ) (before : ℕ → ℕ) where
  -- What the loop over `prebody` hands on.
  unfoldable pub Gone : Reading P → Going → Type 0
  Gone s (returns result) = (n : ℕ) → result ≡ progress n → ⊥
  Gone s to_done = Unit
  Gone s (to_read len) = (len ≡ buf_end - s.0.body_end) × InBody s.0.parser

  abbrev pub Went : Reading P → Reading P × Going → Type 0
  Went s y = Filling buf buf_end before y.0 × (y.0.0.prebody ≡ s.0.prebody) × Gone y.0 y.1

  -- The bytes that the parser is given.
  abbrev given_to : ℕ → Reading P → List ℕ
  given_to len s =
      let left = size_sub s.0.prebody.end s.0.parsed in
      slice s.0.prebody.memory s.0.parsed (if ltb len left then len else left)

  abbrev step_of : ℕ → Reading P → (Reading P × ℕ) × Errno
  step_of len s = parse o (in_prebody (s.0.parsed)) (given_to len s) s

  abbrev stepped : ℕ → Reading P → Reading P
  stepped len s =
      let x = step_of len s in (record (x.0.0.0) { parsed = x.0.0.0.parsed + x.0.1 }, x.0.0.1)

  module _ (fuel len : ℕ) (s : Reading P) where
    loop_empty :
        size_sub s.0.prebody.end s.0.parsed == 0 ≡ true
        → body_prebody_loop o (suc fuel) buf buf_end len s ≡ ok (s, to_read len)
    unfolding body_prebody_loop
    loop_empty e = rw (body_prebody_loop, e) refl

    loop_full :
        size_sub s.0.prebody.end s.0.parsed == 0 ≡ false
        → (step_of len s).1 ≡ hpe_ok
        → size_sub buf_end (stepped len s).0.body_end == 0 ≡ true
        → body_prebody_loop o (suc fuel) buf buf_end len s ≡ ok (stepped len s, to_done)
    unfolding body_prebody_loop
    loop_full e d q = rw (body_prebody_loop, e, d, q) refl

    loop_on :
        size_sub s.0.prebody.end s.0.parsed == 0 ≡ false
        → (step_of len s).1 ≡ hpe_ok
        → size_sub buf_end (stepped len s).0.body_end == 0 ≡ false
        → body_prebody_loop o (suc fuel) buf buf_end len s
          ≡ body_prebody_loop o fuel buf buf_end
              (size_sub buf_end (stepped len s).0.body_end)
              (stepped len s)
    unfolding body_prebody_loop
    loop_on e d q = rw (body_prebody_loop, e, d, q) refl

    loop_paused :
        size_sub s.0.prebody.end s.0.parsed == 0 ≡ false
        → (step_of len s).1 ≡ hpe_paused
        → is_eom (stepped len s).0.state ≡ true
        → (y : Reading P × Going) × (body_prebody_loop o (suc fuel) buf buf_end len s ≡ ok y)
          × (y.0 ≡ (
            record ((stepped len s).0) { parser = o.unpause (stepped len s).0.parser },
            (stepped len s).1,
          ))
          × Gone y.0 y.1
    unfolding body_prebody_loop Gone
    loop_paused e d q =
        let s' = stepped len s in
        let b = s'.0.body_end == buf in
        let s'' : Reading P = (record (s'.0) { parser = o.unpause s'.0.parser }, s'.1) in
        (
          (s'', if b then returns stream_end else to_done),
          rw (body_prebody_loop, e, d, at_eom-ok o InBody protocol buf buf_end before s' q) refl,
          refl,
          either b s'',
        )
      where
        either : (b : Bool) (s'' : Reading P) → Gone s'' (if b then returns stream_end else to_done)
        either true s'' = λ n e. cc
        either false s'' = tt

    loop_failed :
        size_sub s.0.prebody.end s.0.parsed == 0 ≡ false
        → (step_of len s).1 ≡ hpe_other
        → body_prebody_loop o (suc fuel) buf buf_end len s
          ≡ ok (stepped len s, returns stream_waiting)
    unfolding body_prebody_loop
    loop_failed e d = rw (body_prebody_loop, e, d) refl

  length-given :
      (len : ℕ) (s : Reading P)
      → s.0.parsed ≤ s.0.prebody.end
      → s.0.prebody.end < 2 ^ 64
      → (length (given_to len s) ≤ len)
        × (length (given_to len s) ≤ s.0.prebody.end - s.0.parsed)
        × (0 < len → s.0.parsed < s.0.prebody.end → 0 < length (given_to len s))
  length-given len s le lt =
      let left = size_sub s.0.prebody.end s.0.parsed in
      let n = if ltb len left then len else left in
      let long = length-slice s.0.prebody.memory s.0.parsed n in
      let e : left ≡ s.0.prebody.end - s.0.parsed = omega arith in
      (ground (arith, long, e), ground (arith, long, e), λ h h'. ground (arith, long, e))

  -- What holds where the loop is entered.
  pub record Entered (len : ℕ) (s : Reading P) : Type 0 where
    pub inside : InBody s.0.parser
    pub filling : Filling buf buf_end before s
    pub room : len ≡ buf_end - s.0.body_end
    pub some_room : 0 < len
    pub small : buf_end < 2 ^ 64
    pub unparsed : s.0.parsed ≤ s.0.prebody.end
    pub fits : s.0.prebody.end < 2 ^ 64

  step-Parsed :
      (len : ℕ) (s : Reading P)
      → Entered len s
      → Parsed o InBody protocol buf buf_end before
          (length (given_to len s))
          s.0.prebody
          s
          (step_of len s)
  step-Parsed len s n =
      parse-Parsed o InBody protocol buf buf_end before (in_prebody (s.0.parsed)) (given_to len s) s
        n.inside n.filling
        (omega
          (arith, n.room, n.some_room, n.filling.upto, (length-given len s n.unparsed n.fits).0))

  stepped-Filling :
      (len : ℕ) (s : Reading P) → Entered len s → Filling buf buf_end before (stepped len s)
  stepped-Filling len s n =
      let f = (step-Parsed len s n).filling in
      record { from = f.from; upto = f.upto; frame = f.frame }

  -- The loop over `prebody` comes back.
  pub body_prebody_loop-Went :
      (fuel len : ℕ) (s : Reading P)
      → Entered len s
      → s.0.prebody.end - s.0.parsed < fuel
      → (y : Reading P × Going) × (body_prebody_loop o fuel buf buf_end len s ≡ ok y) × Went s y
  unfolding Gone
  body_prebody_loop-Went zero len s n h = absurd (omega arith)
  body_prebody_loop-Went (suc fuel) len s n h =
      let p = step-Parsed len s n in
      let f = stepped-Filling len s n in
      let s' = stepped len s in
      let (short, within, some) = length-given len s n.unparsed n.fits in
      elim (Bool-cases (size_sub s.0.prebody.end s.0.parsed == 0)) [
        | inl e ↦ ((s, to_read len), loop_empty fuel len s e, (n.filling, refl, (n.room, n.inside)))
        | inr e ↦ elim (Errno-cases (step_of len s).1) [
          | inl d ↦ elim (Bool-cases (size_sub buf_end s'.0.body_end == 0)) [
            | inl q ↦ ((s', to_done), loop_full fuel len s e d q, (f, p.same, tt))
            | inr q ↦
                let left : size_sub s.0.prebody.end s.0.parsed ≡ s.0.prebody.end - s.0.parsed =
                  size_sub-minus s.0.prebody.end s.0.parsed n.unparsed n.fits in
                let more : s.0.parsed < s.0.prebody.end = ground (arith, n.unparsed) in
                let end' : s'.0.prebody.end ≡ s.0.prebody.end = ap (λ g. g.end) p.same in
                let room' = size_sub-minus buf_end s'.0.body_end f.upto n.small in
                let all = (p.whole d).0 in
                let (y, ran, w) =
                  body_prebody_loop-Went fuel (size_sub buf_end s'.0.body_end) s'
                    (record {
                      inside = (p.whole d).1;
                      filling = f;
                      room = room';
                      some_room = ground arith;
                      small = n.small;
                      unparsed = omega (arith, p.parsed, all, within, end', n.unparsed);
                      fits = omega (arith, end', n.fits);
                    })
                    (omega (arith, p.parsed, all, end', some n.some_room more)) in
                (y, loop_on fuel len s e d q ∙ ran, (w.0, w.1 ∙ p.same, w.2))
          ]
          | inr (inl d) ↦
              let (y, ran, same, gone) = loop_paused fuel len s e d (p.complete d) in
              let f' : Filling buf buf_end before y.0 =
                rw same (record { from = f.from; upto = f.upto; frame = f.frame }) in
              (y, ran, (f', ap (λ z. z.0.prebody) same ∙ p.same, gone))
          | inr (inr d) ↦
              ((s', returns stream_waiting), loop_failed fuel len s e d, (f, p.same, λ i q. cc))
        ]
      ]
