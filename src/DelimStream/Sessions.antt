-- ===== src/DelimStream/Sessions.antt =====
-- src/delim_stream.c: a whole stream, from its first write to its close and its last read.
use molerat.Base.{
  ℕ, suc, ◌<◌, ◌≡◌, refl, ap, sym, ◌∙◌, subst, arith, ◌⊎◌, inl, inr, ◌≢◌, List, [], ◌++◌, length,
  take, append_assoc, Result, ok, aborted,
}
use molerat.Stream.{Answer, Sink, Source, moved, Stalled, stream_ok, stream_end}
use molerat.DelimStream.{
  chunk_intro_1, payload, DelimWriteStream, Written, delim_write_next, delim_write_stream_write,
  delim_write_stream_close,
}
use molerat.DelimStream.Reader.{DelimReadStream, Given, delim_read_next, delim_read_stream_read}
use molerat.DelimStream.Wire.{Chunks, payload_of, Fits, wire}
use molerat.DelimStream.Sending.{Sending, at_start, at_intro, at_payload}
use molerat.DelimStream.Writing.{delim_write-Sends, delim_write_next-Sending}
use molerat.DelimStream.Closing.{Closing, not_begun, delim_write_close-Closes}
use molerat.DelimStream.Expecting.{Expects}
use molerat.DelimStream.Reading.{delim_read-Reads, delim_read_next-Expects}

-- The writes to a new stream over a stream below with these answers; the last list is what they took.
pub data Session (junk : ℕ) (answers : List Answer)
    : DelimWriteStream → Sink → List ℕ → Type 0 where
  opened :
      Session junk answers (delim_write_next junk) (record { written = []; answers = answers }) []
  wrote :
      {s : DelimWriteStream} {sink : Sink} {p : List ℕ}
      → Session junk answers s sink p
      → (buf : List ℕ) → 0 < length buf
      → (w : Written) → delim_write_stream_write s sink buf ≡ ok w
      → Session junk answers w.0.0 w.0.1 (p ++ take (moved w.1) buf)

-- A close, with fuel for every answer of the stream below.
abbrev pub close_now : DelimWriteStream → Sink → Result Written
close_now s sink = delim_write_stream_close (suc (length sink.answers)) s sink

-- Calls of close until one reports success; the last sink is the stream below after it.
pub data Closed : DelimWriteStream → Sink → Sink → Type 0 where
  at_once :
      {s : DelimWriteStream} {sink : Sink}
      → (w : Written) → close_now s sink ≡ ok w
      → w.1 ≡ stream_ok
      → Closed s sink w.0.1
  later :
      {s : DelimWriteStream} {sink final : Sink}
      → (w : Written) → close_now s sink ≡ ok w
      → w.1 ≢ stream_ok
      → Closed w.0.0 w.0.1 final
      → Closed s sink final

-- The reads of a new stream from these bytes; the last list is what they gave.
pub data Receives (junk : ℕ) (bytes : List ℕ) (answers : List Answer)
    : DelimReadStream → Source → List ℕ → Type 0 where
  began :
      Receives junk bytes answers
        (delim_read_next junk)
        (record { bytes = bytes; answers = answers })
        []
  read :
      {s : DelimReadStream} {src : Source} {got : List ℕ}
      → Receives junk bytes answers s src got
      → (len : ℕ) → (g : Given) → delim_read_stream_read s src len ≡ ok g
      → Receives junk bytes answers g.0.0.0 g.0.0.1 (got ++ g.0.1)

ok_same : {A : Type 0} {x y : A} {r : Result A} → r ≡ ok x → r ≡ ok y → x ≡ y
ok_same e d = cc

not_both : {A : Type 0} {x : A} {r : Result A} → r ≡ aborted → r ≡ ok x → ⊥
not_both e d = cc

Session-Sending :
    {junk : ℕ} {answers : List Answer} {s : DelimWriteStream} {sink : Sink} {p : List ℕ}
    → Session junk answers s sink p
    → Sending s sink.written p
Session-Sending {junk} opened = delim_write_next-Sending junk
Session-Sending (wrote {s} {sink} {p} h buf some_bytes w e) =
    let (w', e', sends) =
      delim_write-Sends s sink buf sink.written p (Session-Sending h) some_bytes in
    let same : w' ≡ w = ok_same e' e in
    subst (λ x. Sending x.0.0 x.0.1.written (p ++ take (moved x.1) buf)) same
      (rw sends.wrote sends.sending)

Stalled-not_ok : Stalled stream_ok → ⊥
Stalled-not_ok h = elim h [ ]

Closed-wire :
    {s : DelimWriteStream} {sink final : Sink} (cs : Chunks)
    → Closed s sink final
    → Closing s sink.written cs
    → final.written ≡ wire cs
Closed-wire cs (at_once {s} {sink} w e success) h =
    let (w', e', closes) =
      delim_write_close-Closes (suc (length sink.answers)) s sink sink.written cs h (omega arith) in
    let same : w' ≡ w = ok_same e' e in
    subst (λ x. x.1 ≡ stream_ok → x.0.1.written ≡ wire cs) same
      (λ r. elim closes.outcome [
        | inl done ↦ closes.wrote ∙ done.1
        | inr stalled ↦ absurd (Stalled-not_ok (subst Stalled r stalled.0))
      ])
      success
Closed-wire cs (later {s} {sink} {final} w e failed rest) h =
    let (w', e', closes) =
      delim_write_close-Closes (suc (length sink.answers)) s sink sink.written cs h (omega arith) in
    let same : w' ≡ w = ok_same e' e in
    Closed-wire cs rest (
      subst (λ x. x.1 ≢ stream_ok → Closing x.0.0 x.0.1.written cs) same
        (λ r. elim closes.outcome [
          | inl done ↦ absurd (r done.0)
          | inr stalled ↦ rw closes.wrote stalled.1
        ])
        failed)

Closed-first :
    {s : DelimWriteStream} {sink final : Sink}
    → Closed s sink final
    → (w : Written) × (close_now s sink ≡ ok w)
Closed-first (at_once w e _) = (w, e)
Closed-first (later w e _ _) = (w, e)

close_aborts :
    (s : DelimWriteStream) (sink : Sink)
    → (s.state ≡ chunk_intro_1) ⊎ (s.state ≡ payload)
    → close_now s sink ≡ aborted
unfolding delim_write_stream_close
close_aborts s sink (inl st) = rw (delim_write_stream_close, st) refl
close_aborts s sink (inr st) = rw (delim_write_stream_close, st) refl

-- A stream that was closed was between chunks.
Closed-Closing :
    {s : DelimWriteStream} {sink final : Sink} {p : List ℕ}
    → Closed s sink final
    → Sending s sink.written p
    → (cs : Chunks) × Fits cs × Closing s sink.written cs × (p ≡ payload_of cs)
Closed-Closing c (at_start st cs f sent_is p_is) = (cs, f, not_begun st sent_is, p_is)
Closed-Closing {s} {sink} c (at_intro st cs f _ _ _ _) =
    let (w, e) = Closed-first c in absurd (not_both (close_aborts s sink (inl st)) e)
Closed-Closing {s} {sink} c (at_payload st cs part f _ _ _ _) =
    let (w, e) = Closed-first c in absurd (not_both (close_aborts s sink (inr st)) e)

Receives-Expects :
    {junk : ℕ} {bytes : List ℕ} {answers : List Answer} {s : DelimReadStream} {src : Source}
    {got : List ℕ} (cs : Chunks)
    → Fits cs
    → bytes ≡ wire cs
    → Receives junk bytes answers s src got
    → (rest : List ℕ) × (payload_of cs ≡ got ++ rest) × Expects s src.bytes rest
Receives-Expects {junk} cs f e began = (
  payload_of cs,
  refl,
  subst (λ b. Expects (delim_read_next junk) b (payload_of cs)) (sym e)
      (delim_read_next-Expects junk cs f),
)
Receives-Expects cs f e (read {s} {src} {got} h len g d) =
    let (rest, split, expects) = Receives-Expects cs f e h in
    let (g', d', reads) = delim_read-Reads s src len rest expects in
    let same : g' ≡ g = ok_same d' d in
    subst
      (λ x.
        (rest' : List ℕ) × (payload_of cs ≡ (got ++ x.0.1) ++ rest')
        × Expects x.0.0.0 x.0.0.1.bytes rest')
      same
      (
        reads.rest,
        split ∙ (ap (λ xs. got ++ xs) reads.split ∙ sym (append_assoc got g'.0.1 reads.rest)),
        reads.expects,
      )

-- Once a stream was written in any number of calls and its close reported success, a reader of what
-- was sent gets the bytes that the writes took, in order, whatever either stream below answers; and
-- where a read reports the end, all of them were read.
pub Closed-Receives :
    {junk junk' : ℕ} {to from : List Answer} {s : DelimWriteStream} {sink final : Sink} {p : List ℕ}
    {r : DelimReadStream} {src : Source} {got : List ℕ}
    → Session junk to s sink p
    → Closed s sink final
    → Receives junk' final.written from r src got
    → (len : ℕ)
    → (g : Given) × (delim_read_stream_read r src len ≡ ok g)
      × ((rest : List ℕ) × (p ≡ (got ++ g.0.1) ++ rest) × (g.1 ≡ stream_end → rest ≡ []))
Closed-Receives {r} {src} {got} writes closed reads len =
    let (cs, f, closing, p_is) = Closed-Closing closed (Session-Sending writes) in
    let (rest, split, expects) = Receives-Expects cs f (Closed-wire cs closed closing) reads in
    let (g, e, next) = delim_read-Reads r src len rest expects in
    (
      g,
      e,
      (
        next.rest,
        p_is ∙ (split ∙ (ap (λ xs. got ++ xs) next.split ∙ sym (append_assoc got g.0.1 next.rest))),
        (λ n. (next.finished n).0),
      ),
    )
