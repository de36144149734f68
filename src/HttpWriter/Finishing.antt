-- ===== src/HttpWriter/Finishing.antt =====
-- src/http_writer.c: proofs about what is sent.
use molerat.Base.{
  ℕ, zero, suc, ◌≤◌, ◌<◌, ◌≡◌, refl, ap, ap₂, sym, subst, true, ◌∙◌, arith, ◌⊎◌, inl, inr, Option,
  none, some, List, [], ◌∷◌, ◌++◌, length, take, append-nil, ok,
}
use molerat.Stream.{
  StreamResult, progress, stream_ok, stream_waiting, stream_error, stream_end, moved, moved-Stalled,
  Sink, stream_write, Stalled, stalled_waiting, stalled_error, stream_write-WriteOutcome,
}
use molerat.Stream.Buffers.{Drained, stream_write_bytes}
use molerat.Stream.Sending.{Passed, stream_write_bytes-Passed}
use molerat.Buffer.{growbuf_to_bytes}
use molerat.Buffer.Growth.{HasSize}
use molerat.Buffer.Contents.{IsOpen, contents, contents-append}
use molerat.HttpWriter.{
  WriterState, init, headers, prebody, body, HttpWriter, crlf, finish_loop, finish_in_prebody,
  finish_prebody, finish_in, after_prebody, after_loop, http_writer_write,
}

-- What the loop leaves.
record Finished (sink : Sink) (out : List ℕ) (r : (Sink × List ℕ) × Option StreamResult)
    : Type 0 where
  whole : r.0.0.written ++ r.0.1 ≡ sink.written ++ out
  ends : ((r.1 ≡ none) × (r.0.1 ≡ [])) ⊎ ((q : StreamResult) × (r.1 ≡ some q) × Stalled q)

length_zero : (xs : List ℕ) → length xs ≡ 0 → xs ≡ []
length_zero [] e = refl
length_zero (x ∷ xs) e = absurd (omega arith)

abbrev Finishes : ℕ → Sink → List ℕ → Type 0
Finishes fuel sink out =
    (y : (Sink × List ℕ) × Option StreamResult) × (finish_loop fuel sink out ≡ ok y)
    × Finished sink out y

-- A round, whatever the write comes to, where the rounds to come do.
by_result :
    (fuel : ℕ) (sink : Sink) (out : List ℕ) (r : Drained)
    → ((sink' : Sink) (out' : List ℕ) → length sink'.answers < fuel → Finishes fuel sink' out')
    → length sink.answers < suc fuel
    → stream_write_bytes sink out ≡ ok r
    → Passed sink out r
    → (q : StreamResult) → r.1 ≡ q
    → Finishes (suc fuel) sink out
unfolding finish_loop
by_result fuel sink out r again lt e p (progress n) d =
    let (y, ran, f) = again r.0.0 r.0.1 (omega (arith, p.spent n d)) in
    (y, rw (finish_loop, e, d) ran, record { whole = f.whole ∙ p.whole; ends = f.ends })
by_result fuel sink out r again lt e p stream_ok d = absurd (p.not_ok d)
by_result fuel sink out r again lt e p stream_end d =
    let nothing = length_zero r.0.1 (omega (arith, p.count, ap length (p.at_end.0 d))) in
    (
      (r.0, none),
      rw (finish_loop, e, d) refl,
      record { whole = p.whole; ends = inl (refl, nothing) },
    )
by_result fuel sink out r again lt e p stream_waiting d = (
  (r.0, some stream_waiting),
  rw (finish_loop, e, d) refl,
  record { whole = p.whole; ends = inr (stream_waiting, refl, stalled_waiting) },
)
by_result fuel sink out r again lt e p stream_error d = (
  (r.0, some stream_error),
  rw (finish_loop, e, d) refl,
  record { whole = p.whole; ends = inr (stream_error, refl, stalled_error) },
)

-- The loop comes back, with fuel for the answers of the stream below.
finish_loop-Finished :
    (fuel : ℕ) (sink : Sink) (out : List ℕ) → length sink.answers < fuel → Finishes fuel sink out
finish_loop-Finished zero sink out lt = absurd (omega arith)
finish_loop-Finished (suc fuel) sink out lt =
    let (r, e, p) = stream_write_bytes-Passed sink out in
    by_result fuel sink out r (λ sink' out' lt'. finish_loop-Finished fuel sink' out' lt') lt e p
      r.1 refl

-- What is still to be sent before the body.
unfoldable pub pending : HttpWriter → List ℕ
pending w = elim w.state [
  | init ↦ []
  | headers ↦ contents w.prebody ++ crlf
  | prebody ↦ w.prebody_out
  | body ↦ []
]

abbrev Outcome : Type 0
Outcome = (HttpWriter × Sink) × StreamResult

-- What `finish_prebody` leaves.
record Kept (sink : Sink) (before : List ℕ) (r : Outcome) : Type 0 where
  whole : r.0.1.written ++ pending r.0.0 ≡ sink.written ++ before
  ends : ((r.1 ≡ progress 0) × (pending r.0.0 ≡ [])) ⊎ Stalled r.1
  begun : (r.0.0.state ≡ prebody) ⊎ (r.0.0.state ≡ body)

abbrev Keeps : HttpWriter → Sink → List ℕ → ℕ → Type 0
Keeps w sink before fuel =
    (r : Outcome) × (finish_in_prebody fuel w sink ≡ ok r) × Kept sink before r

in_prebody-Keeps :
    (fuel : ℕ) (w : HttpWriter) (sink : Sink)
    → w.state ≡ prebody
    → length sink.answers < fuel
    → Keeps w sink w.prebody_out fuel
unfolding finish_in_prebody after_loop pending
in_prebody-Keeps fuel w sink s lt =
    let (r, ran, f) = finish_loop-Finished fuel sink w.prebody_out lt in
    (
      after_loop w r.0 r.1,
      rw (finish_in_prebody, ran) refl,
      elim f.ends [
        | inl (e, nothing) ↦
            subst (λ q. Kept sink w.prebody_out (after_loop w r.0 q)) (sym e)
              (record {
                whole = ap (λ xs. r.0.0.written ++ xs) (sym nothing) ∙ f.whole;
                ends = inl (refl, refl);
                begun = inr refl;
              })
        | inr (q, e, stalled) ↦
            subst (λ q'. Kept sink w.prebody_out (after_loop w r.0 q')) (sym e)
              (record { whole = rw s f.whole; ends = inr stalled; begun = inl s })
      ],
    )

-- A writer whose request or response was begun; while its head grows there is room for the last line,
-- and from the first write on the buffer of the head is frozen.
pub record IsReady (w : HttpWriter) : Type 0 where
  pub begun : w.state ≡ init → ⊥
  pub open' : w.state ≡ headers → IsOpen w.prebody
  pub size : w.state ≡ headers → HasSize w.prebody 2

sending-IsReady : (w : HttpWriter) → (w.state ≡ prebody) ⊎ (w.state ≡ body) → IsReady w
sending-IsReady w (inl e) = record {
  begun = λ d. cc;
  open' = λ d. absurd (cc);
  size = λ d. absurd (cc);
}
sending-IsReady w (inr e) = record {
  begun = λ d. cc;
  open' = λ d. absurd (cc);
  size = λ d. absurd (cc);
}

finish_prebody-Kept :
    (fuel : ℕ) (w : HttpWriter) (sink : Sink) (state : WriterState)
    → w.state ≡ state
    → IsReady w
    → length sink.answers < fuel
    → (r : Outcome) × (finish_prebody fuel w sink ≡ ok r) × Kept sink (pending w) r
unfolding finish_prebody finish_in pending growbuf_to_bytes
finish_prebody-Kept fuel w sink init e ready lt = absurd (ready.begun e)
finish_prebody-Kept fuel w sink headers e ready lt =
    let (g, appended, whole, opened) =
      contents-append w.prebody crlf (ready.open' e) (ready.size e) in
    let w' : HttpWriter = record {
      state = prebody;
      prebody = record g { frozen = true };
      prebody_out = contents g;
    } in
    let (r, ran, k) = in_prebody-Keeps fuel w' sink refl lt in
    let same : contents w.prebody ++ crlf ≡ pending w = rw e refl in
    (
      r,
      ap (λ s. finish_in s fuel w sink) e ∙ rw appended ran,
      subst (λ xs. Kept sink xs r) (whole ∙ same) k,
    )
finish_prebody-Kept fuel w sink prebody e ready lt =
    let (r, ran, k) = in_prebody-Keeps fuel w sink e lt in
    let same : w.prebody_out ≡ pending w = rw e refl in
    (r, ap (λ s. finish_in s fuel w sink) e ∙ ran, subst (λ xs. Kept sink xs r) same k)
finish_prebody-Kept fuel w sink body e ready lt = (
  ((w, sink), progress 0),
  ap (λ s. finish_in s fuel w sink) e,
  record { whole = refl; ends = inl (refl, rw e refl); begun = inr e },
)

abbrev Sent : HttpWriter × Sink → List ℕ → Outcome → Type 0
Sent (w, sink) buf r =
    (r.0.1.written ++ pending r.0.0 ≡ (sink.written ++ pending w) ++ take (moved r.1) buf)
    × (moved r.1 ≤ length buf)
    × (0 < moved r.1 → pending r.0.0 ≡ [])

nothing_moved :
    (w : HttpWriter) (sink sink' : Sink) (buf : List ℕ) (res : StreamResult)
    → sink'.written ≡ sink.written
    → moved res ≡ 0
    → Sent (w, sink) buf ((w, sink'), res)
nothing_moved w sink sink' buf res same e = (
  ap (λ xs. xs ++ pending w) same
      ∙ (sym (append-nil (sink.written ++ pending w))
          ∙ ap (λ n. (sink.written ++ pending w) ++ take n buf) (sym e)),
  omega arith,
  λ lt. absurd (omega arith),
)

after_prebody-Sent :
    (w : HttpWriter) (sink : Sink) (res : StreamResult) (buf : List ℕ)
    → ((res ≡ progress 0) × (pending w ≡ [])) ⊎ Stalled res
    → Sent (w, sink) buf (after_prebody (w, sink) buf res)
unfolding after_prebody
after_prebody-Sent w sink res buf (inr stalled_waiting) =
    nothing_moved w sink sink buf stream_waiting refl refl
after_prebody-Sent w sink res buf (inr stalled_error) =
    nothing_moved w sink sink buf stream_error refl refl
after_prebody-Sent w sink res buf (inl (e, nothing)) =
    let x = stream_write sink buf in
    subst (λ q. Sent (w, sink) buf (after_prebody (w, sink) buf q)) (sym e)
      (elim (stream_write-WriteOutcome sink buf) [
        | inl (stalled, same) ↦ nothing_moved w sink x.0 buf x.1 same (moved-Stalled stalled).0
        | inr (k, d, within, after) ↦ (
          ap₂ ◌++◌ after nothing
              ∙ (append-nil (sink.written ++ take k buf)
                  ∙ ap₂ (λ xs n. xs ++ take n buf)
                      (sym (append-nil sink.written) ∙ ap (λ xs. sink.written ++ xs) (sym nothing))
                      (sym (ap moved d))),
          omega (arith, ap moved d),
          λ lt. nothing,
        )
      ])

after_prebody_writer :
    (x : HttpWriter × Sink) (buf : List ℕ) (res : StreamResult)
    → (after_prebody x buf res).0.0 ≡ x.0
unfolding after_prebody
after_prebody_writer x buf (progress n) = refl
after_prebody_writer x buf stream_ok = refl
after_prebody_writer x buf stream_waiting = refl
after_prebody_writer x buf stream_error = refl
after_prebody_writer x buf stream_end = refl

-- A writer whose request or response was begun, with a head that fits while the head is not yet sent: with fuel for the answers of the
-- stream below `http_writer_write` comes back. What was sent and what is still to be sent of the head
-- are then what they were, followed by the bytes of the buffer that it says it wrote, and it says so only
-- once nothing of the head is left. The writer is then ready for the next write.
pub http_writer_write-Sends :
    (fuel : ℕ) (w : HttpWriter) (sink : Sink) (buf : List ℕ)
    → IsReady w
    → length sink.answers < fuel
    → (r : (HttpWriter × Sink) × StreamResult) × (http_writer_write fuel w sink buf ≡ ok r)
      × (r.0.1.written ++ pending r.0.0 ≡ (sink.written ++ pending w) ++ take (moved r.1) buf)
      × (moved r.1 ≤ length buf)
      × (0 < moved r.1 → pending r.0.0 ≡ [])
      × IsReady r.0.0
unfolding http_writer_write after_prebody
http_writer_write-Sends fuel w sink buf ready lt =
    let (r, ran, k) = finish_prebody-Kept fuel w sink w.state refl ready lt in
    let (sent, within, done) = after_prebody-Sent r.0.0 r.0.1 r.1 buf k.ends in
    (
      after_prebody r.0 buf r.1,
      rw (http_writer_write, ran) refl,
      sent ∙ ap (λ xs. xs ++ take (moved (after_prebody r.0 buf r.1).1) buf) k.whole,
      within,
      done,
      subst IsReady (sym (after_prebody_writer r.0 buf r.1)) (sending-IsReady r.0.0 k.begun),
    )
