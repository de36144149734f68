-- ===== src/HttpReader/Bounds.antt =====
-- src/http_reader.c: proofs about where `http_reader_body` writes.
use molerat.Base.{
  Result, ℕ, zero, suc, ◌+◌, ◌-◌, ◌^◌, ◌≤◌, ◌<◌, ◌≡◌, refl, ap, sym, subst, ◌∙◌, arith, ◌⊎◌, inl,
  inr, true, false, Bool, Bool-cases, List, [], length, if◌then◌else◌, write_at, write_at-below, ok,
  ◌==◌,
}
use molerat.Stream.{
  StreamResult, moved, progress, stream_waiting, stream_error, stream_end, Source, stream_read,
}
use molerat.Stream.Filling.{
  Idle, idle_zero, idle_waiting, idle_error, idle_end, stream_read-ReadCases,
}
use molerat.Buffer.Growth.{HasSize}
use molerat.Buffer.Contents.{IsOpen}
use molerat.HttpReader.{HttpReader}
use molerat.HttpReader.Parsing.{Outside, Reading}
use molerat.HttpReader.Prebody.{is_body, is_eom}
use molerat.HttpReader.Body.{
  Going, returns, to_done, to_read, BodyOutcome, body_done, body_got, body_read, body_went,
  http_reader_body,
}
use molerat.HttpReader.Firing.{write_at-above}
use molerat.HttpReader.Filling.{IsBodyParser}
use molerat.HttpReader.Draining.{Gone, body_prebody_loop-Went}
use molerat.HttpReader.Finishing.{HasSize-less, Fills, body_loop-Filling}

-- Only the `len` bytes at `buf` were written to, and no more bytes are reported.
pub record Bounded {P : Type 0} (buf len : ℕ) (before : ℕ → ℕ) (r : BodyOutcome P) : Type 0 where
  pub count : (n : ℕ) → r.1 ≡ progress n → n ≤ len
  pub outside : (i : ℕ) → (i < buf) ⊎ (buf + len ≤ i) → r.0.1.1 i ≡ before i

module _ {P : Type 0} (o : Outside P) (InBody : P → Type 0) (protocol : IsBodyParser o InBody)
    (buf len : ℕ) (before : ℕ → ℕ) where
  body_done-Bounded :
      (source : Source) (s : Reading P)
      → Fills o InBody protocol buf len before s
      → Bounded buf len before (body_done o buf source s)
  unfolding body_done
  body_done-Bounded source s f = record {
    count = λ n e. let d = ap moved e in omega (arith, d, f.upto);
    outside = f.frame;
  }

  stopped-Bounded :
      (source : Source) (s : Reading P) (result : StreamResult)
      → Fills o InBody protocol buf len before s
      → ((n : ℕ) → result ≡ progress n → n ≤ len)
      → Bounded buf len before ((source, s), result)
  stopped-Bounded source s result f h = record { count = h; outside = f.frame }

  -- What a part of the function comes to, where it comes back.
  abbrev Comes : Result (BodyOutcome P) → Type 0
  Comes m = (r : BodyOutcome P) × (m ≡ ok r) × Bounded buf len before r

  body_got-Comes :
      (fuel buf_pos got : ℕ) (source : Source) (s : Reading P)
      → InBody s.0.parser
      → Fills o InBody protocol buf len before s
      → s.0.body_end + got ≤ buf + len
      → IsOpen s.0.prebody
      → HasSize s.0.prebody got
      → Comes (body_got o (suc fuel) buf buf_pos got source s)
  unfolding body_got
  body_got-Comes fuel buf_pos got source s inside f room open' size =
      let (z, ran, filling) =
        body_loop-Filling o InBody protocol buf len before fuel buf_pos got s inside f room open'
          size in
      (
        if z.1 then body_done o buf source z.0 else ((source, z.0), stream_error),
        rw (body_got, ran) refl,
        either z.1 z.0 filling,
      )
    where
      either :
          (b : Bool) (s' : Reading P)
          → Fills o InBody protocol buf len before s'
          → Bounded buf len before
              (if b then body_done o buf source s' else ((source, s'), stream_error))
      either true s' f' = body_done-Bounded source s' f'
      either false s' f' = stopped-Bounded source s' stream_error f' λ n e. cc

  module _ (fuel len' : ℕ) (source : Source) (s : Reading P) (inside : InBody s.0.parser)
      (f : Fills o InBody protocol buf len before s) (room : len' ≡ buf + len - s.0.body_end)
      (open' : IsOpen s.0.prebody) (size : HasSize s.0.prebody len) where
    abbrev got_of : (Source × List ℕ) × StreamResult
    got_of = stream_read source len'

    abbrev after_read : Reading P
    after_read = (s.0, write_at s.1 s.0.body_end got_of.0.1)

    after_read-Fills : length got_of.0.1 ≤ len' → Fills o InBody protocol buf len before after_read
    after_read-Fills short = record {
      from = f.from;
      upto = f.upto;
      frame = λ i out. elim out [
        | inl below ↦
            write_at-below s.1 s.0.body_end got_of.0.1 i (omega (arith, f.from))
            ∙ f.frame i (inl below)
        | inr above ↦
            write_at-above s.1 s.0.body_end got_of.0.1 i (omega (arith, f.upto))
            ∙ f.frame i (inr above)
      ];
    }

    by-Idle :
        {q : StreamResult}
        → Idle q
        → got_of.1 ≡ q
        → got_of.0.1 ≡ []
        → Comes (body_read o (suc fuel) buf len' source s)
    unfolding body_read
    by-Idle idle_zero e nothing =
        let f' = after_read-Fills (omega (arith, ap length nothing)) in
        (
          ((got_of.0.0, after_read), progress 0),
          rw (body_read, e) refl,
          stopped-Bounded got_of.0.0 after_read (progress 0) f' λ n d. omega (arith, ap moved d),
        )
    by-Idle idle_waiting e nothing =
        let f' = after_read-Fills (omega (arith, ap length nothing)) in
        (
          ((got_of.0.0, after_read), stream_waiting),
          rw (body_read, e) refl,
          stopped-Bounded got_of.0.0 after_read stream_waiting f' λ n d. cc,
        )
    by-Idle idle_error e nothing =
        let f' = after_read-Fills (omega (arith, ap length nothing)) in
        (
          ((got_of.0.0, after_read), stream_error),
          rw (body_read, e) refl,
          stopped-Bounded got_of.0.0 after_read stream_error f' λ n d. cc,
        )
    by-Idle idle_end e nothing =
        let f' = after_read-Fills (omega (arith, ap length nothing)) in
        let (r, ran, b) =
          body_got-Comes fuel s.0.body_end 0 got_of.0.0 after_read inside f' (omega (arith, f.upto))
            open' (HasSize-less s.0.prebody 0 len (omega arith) size) in
        (r, rw (body_read, e) ran, b)

    body_read-Comes : Comes (body_read o (suc fuel) buf len' source s)
    unfolding body_read
    body_read-Comes = elim (stream_read-ReadCases source len' source.bytes refl) [
      | inl (idle, nothing, _) ↦ by-Idle idle refl nothing
      | inr (n, e, short, long) ↦
          let f' = after_read-Fills (omega arith) in
          let (r, ran, b) =
            body_got-Comes fuel s.0.body_end (suc n) got_of.0.0 after_read inside f'
              (omega (arith, f.upto)) open'
              (HasSize-less s.0.prebody (suc n) len (omega (arith, f.from)) size) in
          (r, rw (body_read, e) ran, b)
    ]

  body_went-Comes :
      (fuel : ℕ) (source : Source) (y : Reading P × Going)
      → Fills o InBody protocol buf len before y.0
      → Gone o InBody protocol buf (buf + len) before y.0 y.1
      → IsOpen y.0.0.prebody
      → HasSize y.0.0.prebody len
      → Comes (body_went o (suc fuel) buf source y)
  unfolding body_went Gone
  body_went-Comes fuel source (s, returns result) f gone open' size =
      (((source, s), result), refl, stopped-Bounded source s result f λ n e. absurd (gone n e))
  body_went-Comes fuel source (s, to_done) f gone open' size =
      (body_done o buf source s, refl, body_done-Bounded source s f)
  body_went-Comes fuel source (s, to_read len') f gone open' size =
      body_read-Comes fuel len' source s gone.1 f gone.0 open' size

-- With a parser that keeps to what it is given in a body without trailers, and within the sizes that do
-- not overflow, `http_reader_body` comes back for a reader at a body or after it, with fuel for the data
-- in `prebody`: it reports no more than `len` bytes, and leaves all memory but those at `buf` alone.
pub http_reader_body-Bounded :
    {P : Type 0} (o : Outside P) (InBody : P → Type 0)
    → IsBodyParser o InBody
    → (fuel buf len : ℕ) (source : Source) (r : HttpReader P) (buffer : ℕ → ℕ) → InBody r.parser
    → (is_body r.state ≡ true) ⊎ (is_eom r.state ≡ true)
    → IsOpen r.prebody
    → HasSize r.prebody len
    → r.parsed ≤ r.prebody.end
    → r.prebody.end - r.parsed < fuel
    → buf + len < 2 ^ 64
    → (x : BodyOutcome P) × (http_reader_body o fuel buf len source (r, buffer) ≡ ok x)
      × Bounded buf len buffer x
unfolding http_reader_body
http_reader_body-Bounded o InBody protocol zero buf len source r buffer inside at open' size
      unparsed enough small =
    absurd (omega arith)
http_reader_body-Bounded {P = P} o InBody protocol (suc fuel) buf len source r buffer inside at
      open' size unparsed enough small =
    elim (Bool-cases (is_body r.state)) [
      | inl e ↦ elim (Bool-cases (len == 0)) [
        | inl d ↦ (
          ((source, (r, buffer)), progress 0),
          rw (http_reader_body, e, d) refl,
          record { count = λ n q. omega (arith, ap moved q); outside = λ i out. refl },
        )
        | inr d ↦
            let s : Reading P = (record r { body_end = buf }, buffer) in
            let (y, ran, went) =
              body_prebody_loop-Went o InBody protocol buf (buf + len) buffer (suc fuel) len s
                (record {
                  inside = inside;
                  filling = record {
                    from = omega arith;
                    upto = omega arith;
                    frame = λ i out. refl;
                  };
                  room = omega arith;
                  some_room = ground arith;
                  small = small;
                  unparsed = unparsed;
                  fits = omega (arith, size.within, size.limit_lt);
                })
                enough in
            let (x, ran', b) =
              body_went-Comes o InBody protocol buf len buffer fuel source y went.0 went.2
                (subst IsOpen (sym went.1) open') (subst (λ g. HasSize g len) (sym went.1) size) in
            (x, rw (http_reader_body, e, d, ran) ran', b)
      ]
      | inr e ↦ elim at [
        | inl e' ↦ absurd (cc)
        | inr e' ↦ (
          ((source, (r, buffer)), stream_end),
          rw (http_reader_body, e, e') refl,
          record { count = λ n q. absurd (cc); outside = λ i out. refl },
        )
      ]
    ]
