-- ===== src/HttpReader/Rounds.antt =====
-- src/http_reader.c: proofs about the outer loop of `http_reader_prebody`.
use molerat.Base.{
  ℕ, zero, suc, ◌+◌, ◌-◌, ◌^◌, ◌≤◌, ◌<◌, ◌≡◌, refl, ◌∙◌, arith, ◌⊎◌, inl, inr, false, List, length,
  Result, ◌>>=◌, Option, none, some, write_at, ok, le→leb,
}
use molerat.Stream.{
  StreamResult, stream_waiting, stream_error, Source, stream_read, stalled_waiting, stalled_error,
  Stalled, length-stream_read, stream_read-Answered,
}
use molerat.Buffer.{GrowBuf, growbuf_space, growbuf_advance, growbuf_length}
use molerat.Buffer.Growth.{Grown, HasSize, growbuf_reserve-Grown, growbuf_reserve-limit}
use molerat.HttpReader.Parsing.{Outside, Reading}
use molerat.HttpReader.Prebody.{
  PrebodyResult, prebody_progress, prebody_error, PrebodyOutcome, size_sub, prebody_read,
  prebody_parse_loop, prebody_loop,
}
use molerat.HttpReader.Heading.{IsHeadParser}
use molerat.HttpReader.Returning.{Ready, Ended, Round, prebody_parse_loop-Round}

Stalled-cases : {r : StreamResult} → Stalled r → (r ≡ stream_waiting) ⊎ (r ≡ stream_error)
Stalled-cases stalled_waiting = inl refl
Stalled-cases stalled_error = inr refl

advance-ok :
    (g : GrowBuf) (k : ℕ)
    → g.end ≤ g.limit
    → k ≤ g.limit - g.end
    → growbuf_advance g k ≡ ok (record g { end = g.end + k })
unfolding growbuf_advance
advance-ok g k within room = rw (le→leb (g.end + k) g.limit (omega arith)) refl

module _ {P : Type 0} (o : Outside P) (InHead : P → Type 0) where
  -- The reader behind a read, with what the stream gave.
  abbrev given : GrowBuf → List ℕ → Reading P → Reading P
  given g bytes s =
      (record (s.0) { prebody = record g { memory = write_at g.memory g.end bytes } }, s.1)

  module _ (source : Source) (s : Reading P) (ready : Ready InHead (length source.bytes) s) where
    abbrev read_from : ℕ → (Source × List ℕ) × StreamResult
    read_from space = stream_read source space

    -- A read succeeds, with room for 100 bytes at least.
    prebody_read-ok :
        (g : GrowBuf) × (prebody_read o source s
          ≡ ok (
            ((read_from (g.limit - g.end)).0.0, given g (read_from (g.limit - g.end)).0.1 s),
            (read_from (g.limit - g.end)).1,
          ))
        × Grown s.0.prebody 100 g
        × (g.limit ≤ 2 ^ 32)
    unfolding prebody_read growbuf_space
    prebody_read-ok =
        let b = s.0.prebody in
        let size : HasSize b 100 = record {
          some_limit = ready.some_limit;
          within = ready.within;
          limit_lt = omega (arith, ready.limit_le);
          fits = omega (arith, ready.fits);
        } in
        let (g, e, grown) = growbuf_reserve-Grown b 100 size ready.thawed in
        let upto = growbuf_reserve-limit b 100 size ready.thawed g e in
        let thawed : g.frozen ≡ false = grown.frozen ∙ ready.thawed in
        (
          g,
          rw (prebody_read, e, thawed) refl,
          grown,
          elim upto [
            | inl same ↦ omega (arith, same, ready.limit_le)
            | inr less ↦ omega (arith, less, ready.fits)
          ],
        )

  given-Ready :
      (left : ℕ) (g : GrowBuf) (bytes : List ℕ) (s : Reading P)
      → Ready InHead left s
      → Grown s.0.prebody 100 g
      → g.limit ≤ 2 ^ 32
      → Ready InHead left (given g bytes s)
  given-Ready left g bytes s ready grown upto = record {
    inside = ready.inside;
    state = ready.state;
    thawed = grown.frozen ∙ ready.thawed;
    unparsed = omega (arith, grown.end, ready.unparsed);
    some_limit = omega (arith, grown.room);
    within = omega (arith, grown.room, grown.end);
    limit_le = upto;
    fits = omega (arith, grown.end, ready.fits);
  }

  Ready-less :
      (left left' : ℕ) (s : Reading P) → left' ≤ left → Ready InHead left s → Ready InHead left' s
  Ready-less left left' s le ready = record {
    inside = ready.inside;
    state = ready.state;
    thawed = ready.thawed;
    unparsed = ready.unparsed;
    some_limit = ready.some_limit;
    within = ready.within;
    limit_le = ready.limit_le;
    fits = omega (arith, ready.fits);
  }

  -- The reader with `k` more bytes in its buffer.
  abbrev advanced : ℕ → Reading P → Reading P
  advanced k s =
      let g = s.0.prebody in (record (s.0) { prebody = record g { end = g.end + k } }, s.1)

  advanced-Ready :
      (left left' k : ℕ) (s : Reading P)
      → Ready InHead left s
      → k ≤ s.0.prebody.limit - s.0.prebody.end
      → k + left' ≤ left
      → Ready InHead left' (advanced k s)
  advanced-Ready left left' k s ready room less = record {
    inside = ready.inside;
    state = ready.state;
    thawed = ready.thawed;
    unparsed = omega (arith, ready.unparsed);
    some_limit = ready.some_limit;
    within = omega (arith, ready.within, room);
    limit_le = ready.limit_le;
    fits = omega (arith, ready.fits, less);
  }

  -- The loop comes back, with what the result means.
  abbrev pub Comes : Result (PrebodyOutcome P) → Type 0
  Comes m = (x : PrebodyOutcome P) × (m ≡ ok x) × Ended InHead (length x.0.0.bytes) x.0.1 x.1

  -- The rest of a round, behind the inner loop.
  going_on-Comes :
      (fuel : ℕ) (w : PrebodyResult) (source : Source)
      (m : Result (Reading P × Option PrebodyResult)) (y : Reading P × Option PrebodyResult)
      → m ≡ ok y
      → Round InHead (length source.bytes) y
      → (Ready InHead (length source.bytes) y.0 → Comes (prebody_loop o fuel w source y.0))
      → Comes (
          m >>= (λ y. elim y.1 [
            | some result ↦ ok ((source, y.0), result)
            | none ↦ prebody_loop o fuel w source y.0
          ]))
  going_on-Comes fuel w source m y ran (inl (result, e, ended)) more =
      (((source, y.0), result), rw (ran, e) refl, ended)
  going_on-Comes fuel w source m y ran (inr (e, ready)) more =
      let (x, came, ended) = more ready in (x, rw (ran, e) came, ended)

  -- What `waiting_result` is.
  abbrev pub IsWaiting : PrebodyResult → Type 0
  IsWaiting w = (left : ℕ) (s : Reading P) → Ready InHead left s → Ended InHead left s w

  prebody_progress-IsWaiting : IsWaiting prebody_progress
  unfolding Ended
  prebody_progress-IsWaiting left s ready = ready

  module _ (protocol : IsHeadParser o InHead) where
    -- Each round uses up an answer of the stream.
    pub prebody_loop-Comes :
        (fuel : ℕ) (w : PrebodyResult) (source : Source) (s : Reading P)
        → IsWaiting w
        → Ready InHead (length source.bytes) s
        → length source.answers < fuel
        → Comes (prebody_loop o fuel w source s)
    unfolding prebody_loop growbuf_length Ended
    prebody_loop-Comes zero w source s waiting ready enough = absurd (omega arith)
    prebody_loop-Comes (suc fuel) w source s waiting ready enough =
        let (g, ran, grown, upto) = prebody_read-ok source s ready in
        let space = g.limit - g.end in
        let z = stream_read source space in
        let s' = given g z.0.1 s in
        let kept = given-Ready (length source.bytes) g z.0.1 s ready grown upto in
        let still =
          Ready-less (length source.bytes) (length z.0.0.bytes) s' (length-stream_read source space)
            kept in
        let on = prebody_loop-Comes fuel in
        elim (stream_read-Answered source space) [
          | inl stalled ↦ elim (Stalled-cases stalled) [
            | inl e ↦ (((z.0.0, s'), w), rw (prebody_loop, ran, e) refl, waiting _ s' still)
            | inr e ↦ (((z.0.0, s'), prebody_error), rw (prebody_loop, ran, e) refl, tt)
          ]
          | inr (fewer, inl (e, same)) ↦
              let (y, parsed, round) =
                prebody_parse_loop-Round o InHead protocol (length z.0.0.bytes) s' still fuel in
              rw (prebody_loop, ran, e)
                (going_on-Comes fuel w z.0.0
                  (prebody_parse_loop o (suc fuel) (size_sub g.end s.0.parsed) s') y parsed round
                  λ again. on w z.0.0 y.0 waiting again (omega (arith, fewer, enough)))
          | inr (fewer, inr (zero, e, room, same)) ↦
              rw (prebody_loop, ran, e) (on w z.0.0 s' waiting still (omega (arith, fewer, enough)))
          | inr (fewer, inr (suc k, e, room, same)) ↦
              let s'' = advanced (suc k) s' in
              let ready'' =
                advanced-Ready (length source.bytes) (length z.0.0.bytes) (suc k) s' kept room
                  (omega (arith, same)) in
              let (y, parsed, round) =
                prebody_parse_loop-Round o InHead protocol (length z.0.0.bytes) s'' ready'' fuel in
              rw (prebody_loop, ran, e, advance-ok s'.0.prebody (suc k) kept.within room)
                (going_on-Comes fuel prebody_progress z.0.0
                  (prebody_parse_loop o (suc fuel) (size_sub s''.0.prebody.end s.0.parsed) s'') y
                  parsed round
                  λ again.
                    on prebody_progress z.0.0 y.0 prebody_progress-IsWaiting again
                      (omega (arith, fewer, enough)))
        ]
