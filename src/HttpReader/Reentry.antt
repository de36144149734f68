-- ===== src/HttpReader/Reentry.antt =====
-- src/http_reader.c: `http_reader_prebody` comes back.
use molerat.Base.{ℕ, ◌<◌, ◌≡◌, refl, ap, sym, subst, ◌∙◌, arith, ◌⊎◌, inl, inr, length, ok}
use molerat.Stream.{Source}
use molerat.Buffer.Contents.{IsOpen, growbuf_shift-bounds}
use molerat.HttpReader.{prebody, eom, HttpReader}
use molerat.HttpReader.Parsing.{Outside}
use molerat.HttpReader.Prebody.{prebody_waiting, prebody_cleaned, http_reader_prebody}
use molerat.HttpReader.Heading.{IsHeadParser}
use molerat.HttpReader.Returning.{Ready, Ended}
use molerat.HttpReader.Rounds.{IsWaiting, Comes, prebody_loop-Comes}

-- The reader but for the state that it is in.
abbrev pub at_head : {P : Type 0} → HttpReader P → HttpReader P
at_head r = record r { state = prebody }

module _ {P : Type 0} (o : Outside P) (InHead : P → Type 0) where
  prebody_waiting-IsWaiting : IsWaiting o InHead prebody_waiting
  unfolding Ended
  prebody_waiting-IsWaiting left s ready = ready

  -- What is left of the message before is dropped.
  prebody_cleaned-Ready :
      (left : ℕ) (r : HttpReader P) (buffer : ℕ → ℕ)
      → Ready InHead left (at_head r, buffer)
      → (r' : HttpReader P) × (prebody_cleaned o r ≡ ok r') × Ready InHead left (r', buffer)
  unfolding prebody_cleaned
  prebody_cleaned-Ready left r buffer ready =
      let opened : IsOpen r.prebody = record { thawed = ready.thawed; within = ready.within } in
      let (g, e, limit, end, frozen) =
        growbuf_shift-bounds r.prebody r.parsed opened ready.unparsed in
      (
        record r { prebody = g; headers_used = 0; parsed = 0; state = prebody },
        rw (prebody_cleaned, e) refl,
        record {
          inside = ready.inside;
          state = refl;
          thawed = frozen ∙ ready.thawed;
          unparsed = omega arith;
          some_limit = omega (arith, limit, ready.some_limit);
          within = omega (arith, limit, end, ready.within);
          limit_le = omega (arith, limit, ready.limit_le);
          fits = omega (arith, end, ready.fits);
        },
      )

-- With a parser that keeps to what it is given in a head, while the buffer and the bytes to come have
-- offsets that an int holds, and with more fuel than the stream has answers, `http_reader_prebody` comes back for a reader before a message or
-- after one. Where it is done, the reader is at a body, with an open buffer that holds what was parsed;
-- where the message closed, it is before one; where it has to wait, it can go on at the next call.
pub http_reader_prebody-Comes :
    {P : Type 0} (o : Outside P) (InHead : P → Type 0)
    → IsHeadParser o InHead
    → (fuel : ℕ) (source : Source) (r : HttpReader P) (buffer : ℕ → ℕ)
    → (r.state ≡ prebody) ⊎ (r.state ≡ eom)
    → Ready InHead (length source.bytes) (at_head r, buffer)
    → length source.answers < fuel
    → Comes o InHead (http_reader_prebody o fuel source (r, buffer))
unfolding http_reader_prebody
http_reader_prebody-Comes {P = P} o InHead protocol fuel source r buffer (inl e) ready enough =
    let same : (at_head r, buffer) ≡ (r, buffer) =
      ap (λ st. (record r { state = st }, buffer)) (sym e) in
    rw (http_reader_prebody, e)
      (prebody_loop-Comes o InHead protocol fuel prebody_waiting source (r, buffer)
        (prebody_waiting-IsWaiting o InHead) (subst (Ready InHead (length source.bytes)) same ready)
        enough)
http_reader_prebody-Comes {P = P} o InHead protocol fuel source r buffer (inr e) ready enough =
    let (r', ran, ready') = prebody_cleaned-Ready o InHead (length source.bytes) r buffer ready in
    rw (http_reader_prebody, e, ran)
      (prebody_loop-Comes o InHead protocol fuel prebody_waiting source (r', buffer)
        (prebody_waiting-IsWaiting o InHead) ready' enough)
