-- ===== src/Echo/Echoing.antt =====
-- src/echo_server.c: proofs about `echoer_echo`.
use molerat.Base.{
  ℕ, zero, suc, ◌+◌, ◌≤◌, ◌<◌, ◌≡◌, ◌≢◌, refl, ap, sym, ◌∙◌, arith, ◌⊎◌, inl, inr, Bool-cases,
  Option, subst, Option-cases, none, some, List, [], ◌∷◌, ◌++◌, append_assoc, append-nil,
  take-append-drop, drop-all, length-drop, zero-add, length, take, drop, ◌==◌, ok,
}
use molerat.Stream.{
  StreamResult, progress, stream_ok, stream_waiting, stream_error, stream_end, Answer, moves, waits,
  fails, next_answer, moved, read_result, Source, stream_read, Sink, stream_write, Stalled,
  stalled_waiting, stalled_error, stream_write-WriteOutcome, answers-stream_write,
}
use molerat.Echo.{
  EchoHandler, echoer_echo_handler, echoer_close_handler, Echoer, Ending, no_case, after_read,
  fill_buf, after_write, send_buf, echoer_close, echoer_echo,
}

-- What was received and is still to be sent.
abbrev pub pending : Echoer → List ℕ
pending e = drop e.pos e.buf

-- All bytes of a connection: sent back, to be sent back, and still to come.
abbrev pub all_bytes : Echoer → List ℕ
all_bytes e = e.sink.written ++ (pending e ++ e.source.bytes)

-- The buffer is not overrun.
abbrev pub IsEchoer : Echoer → Type 0
IsEchoer e = e.pos ≤ length e.buf

-- What an echoer comes to that begins with the read handler. No byte is lost, added or moved; where the
-- end of the received bytes was seen, all are sent back, and the socket's results are those the code
-- knows.
pub record Echoes (e : Echoer) (r : Echoer × Option Ending) : Type 0 where
  pub in_buf : IsEchoer r.0
  pub same_bytes : all_bytes r.0 ≡ all_bytes e
  pub all_sent : r.0.handler ≡ echoer_close_handler → r.0.sink.written ≡ all_bytes e
  pub known : r.1 ≢ some no_case
  pub goes_on : r.1 ≡ none → r.0.handler ≡ echoer_echo_handler

not_both : {h : EchoHandler} → h ≡ echoer_echo_handler → h ≡ echoer_close_handler → ⊥
not_both e e' = cc

-- The end of a source is reported only behind its last byte.
read_end :
    (a : Answer) (bytes : List ℕ) (len : ℕ) → read_result a bytes len ≡ stream_end → bytes ≡ []
read_end (moves n) [] len e = refl
read_end (moves n) (x ∷ xs) len e = absurd (cc)
read_end waits bytes len e = absurd (cc)
read_end fails bytes len e = absurd (cc)

echoer_close-fst : (answer : StreamResult) (e : Echoer) → (echoer_close answer e).0 ≡ e
unfolding echoer_close
echoer_close-fst answer e = ground arith

echoer_close-known :
    (answer : StreamResult) (e : Echoer) → some (echoer_close answer e).1 ≢ some no_case
unfolding echoer_close
echoer_close-known answer e = ground arith

-- The cases of the read, where all that was received is sent.
after_read-Echoes :
    (answer r : StreamResult) (src : Source) (e : Echoer)
    → e.handler ≡ echoer_echo_handler
    → e.pos ≡ length e.buf
    → src.bytes ≡ drop (moved r) e.source.bytes
    → (r ≡ stream_end → e.source.bytes ≡ [])
    → Echoes e (after_read answer r (take (moved r) e.source.bytes) (record e { source = src }))
unfolding after_read
after_read-Echoes answer stream_waiting src e h done rest end = record {
  in_buf = omega arith;
  same_bytes = rw rest refl;
  all_sent = λ c. absurd (not_both h c);
  known = λ c. cc;
  goes_on = λ c. h;
}
after_read-Echoes answer stream_error src e h done rest end = record {
  in_buf = omega arith;
  same_bytes = rw rest refl;
  all_sent = λ c. absurd (not_both h c);
  known = λ c. cc;
  goes_on = λ c. h;
}
after_read-Echoes answer stream_ok src e h done rest end = record {
  in_buf = omega arith;
  same_bytes = rw (rest, drop-all e.buf e.pos (omega arith)) refl;
  all_sent = λ c. absurd (not_both h c);
  known = λ c. cc;
  goes_on = λ c. h;
}
after_read-Echoes answer (progress n) src e h done rest end = record {
  in_buf = omega arith;
  same_bytes =
      rw (rest, drop-all e.buf e.pos (omega arith), take-append-drop n e.source.bytes) refl;
  all_sent = λ c. absurd (not_both h c);
  known = λ c. cc;
  goes_on = λ c. h;
}
after_read-Echoes answer stream_end src e h done rest end =
    let gone = drop-all e.buf e.pos (omega arith) in
    let none_left = end refl in
    rw (echoer_close-fst answer (record e { handler = echoer_close_handler; source = src }))
      (record {
        in_buf = omega arith;
        same_bytes = rw rest refl;
        all_sent = λ c. rw (gone, none_left) (sym (append-nil e.sink.written));
        known =
            echoer_close-known answer (record e { handler = echoer_close_handler; source = src });
        goes_on = λ c. cc;
      })

fill_buf-Echoes :
    (answer : StreamResult) (e : Echoer)
    → e.handler ≡ echoer_echo_handler
    → IsEchoer e
    → Echoes e (fill_buf answer e)
unfolding fill_buf stream_read
fill_buf-Echoes answer e h ok_buf = elim (Bool-cases (e.pos == length e.buf)) [
  | inl all ↦
      rw (fill_buf, all)
        (after_read-Echoes answer (read_result (next_answer e.source.answers) e.source.bytes 20)
          (stream_read e.source 20).0.0 e h (ground arith) refl
          (read_end (next_answer e.source.answers) e.source.bytes 20))
  | inr some_left ↦
      rw (fill_buf, some_left)
        (record {
          in_buf = ok_buf;
          same_bytes = refl;
          all_sent = λ c. absurd (not_both h c);
          known = λ c. cc;
          goes_on = λ c. h;
        })
]

drop-add : (m n : ℕ) (xs : List ℕ) → drop (m + n) xs ≡ drop n (drop m xs)
drop-add zero n xs = rw zero-add refl
drop-add (suc m) zero [] = let h : suc m + zero ≡ suc m = omega arith in rw h refl
drop-add (suc m) (suc n) [] = let h : suc m + suc n ≡ suc (suc (m + n)) = omega arith in rw h refl
drop-add (suc m) n (x ∷ xs) =
    let h : suc m + n ≡ suc (m + n) = omega arith in rw h (drop-add m n xs)

-- The cases of a write, for the results that there are.
after_write-Echoes :
    (r : StreamResult) (sink : Sink) (e : Echoer)
    → e.handler ≡ echoer_echo_handler
    → IsEchoer e
    → (Stalled r × (sink.written ≡ e.sink.written))
      ⊎ ((k : ℕ) × (r ≡ progress k)
          × (k ≤ length (pending e))
          × (sink.written ≡ e.sink.written ++ take k (pending e)))
    → Echoes e (after_write r (record e { sink = sink }))
unfolding after_write
after_write-Echoes r sink e h in_buf (inl (stalled_waiting, same)) = record {
  in_buf = in_buf;
  same_bytes = rw same refl;
  all_sent = λ c. absurd (not_both h c);
  known = λ c. cc;
  goes_on = λ c. h;
}
after_write-Echoes r sink e h in_buf (inl (stalled_error, same)) = record {
  in_buf = in_buf;
  same_bytes = rw same refl;
  all_sent = λ c. absurd (not_both h c);
  known = λ c. cc;
  goes_on = λ c. h;
}
after_write-Echoes r sink e h in_buf (inr (k, p, le, more)) = rw p (record {
  in_buf = omega (arith, le, length-drop e.pos e.buf);
  same_bytes =
      rw (more, drop-add e.pos k e.buf)
        (append_assoc e.sink.written (take k (pending e)) (drop k (pending e) ++ e.source.bytes)
          ∙ ap (λ l. e.sink.written ++ l)
              (sym (append_assoc (take k (pending e)) (drop k (pending e)) e.source.bytes)
                ∙ ap (λ l. l ++ e.source.bytes) (take-append-drop k (pending e))));
  all_sent = λ c. absurd (not_both h c);
  known = λ c. cc;
  goes_on = λ c. h;
})

send_buf-Echoes :
    (e : Echoer) → e.handler ≡ echoer_echo_handler → IsEchoer e → Echoes e (send_buf e)
unfolding send_buf
send_buf-Echoes e h in_buf =
    let r = stream_write e.sink (pending e) in
    after_write-Echoes r.1 r.0 e h in_buf (stream_write-WriteOutcome e.sink (pending e))

Stalled-ends : {r : StreamResult} (e : Echoer) → Stalled r → (after_write r e).1 ≡ none → ⊥
unfolding after_write
Stalled-ends e stalled_waiting n = cc
Stalled-ends e stalled_error n = cc

after_write-sink : (r : StreamResult) (e : Echoer) → (after_write r e).0.sink ≡ e.sink
unfolding after_write
after_write-sink r e = ground arith

-- A turn that goes on has used up an answer of the sink.
send_buf-answers :
    (e : Echoer)
    → (send_buf e).1 ≡ none
    → suc (length (send_buf e).0.sink.answers) ≡ length e.sink.answers
unfolding send_buf
send_buf-answers e n = elim (stream_write-WriteOutcome e.sink (pending e)) [
  | inl s ↦ absurd (Stalled-ends (record e { sink = (stream_write e.sink (pending e)).0 }) s.0 n)
  | inr (k, p, le, m) ↦
      let r = stream_write e.sink (pending e) in
      rw (after_write-sink r.1 (record e { sink = r.0 }))
        (answers-stream_write e.sink (pending e) k p)
]

fill_buf-sink : (answer : StreamResult) (e : Echoer) → (fill_buf answer e).0.sink ≡ e.sink
unfolding fill_buf after_read echoer_close
fill_buf-sink answer e = ground arith

-- One turn after another.
Echoes-trans :
    {e f : Echoer} {r : Echoer × Option Ending}
    → all_bytes f ≡ all_bytes e
    → Echoes f r
    → Echoes e r
Echoes-trans s t = record {
  in_buf = t.in_buf;
  same_bytes = t.same_bytes ∙ s;
  all_sent = λ c. t.all_sent c ∙ s;
  known = t.known;
  goes_on = t.goes_on;
}

-- With fuel for the answers of the socket's writes `echoer_echo` comes back, whatever the socket answers:
-- what is sent back, what is still to be sent and what is still to come are together the bytes as
-- they were, in order; once the end of the stream was seen all is sent back; and no result of the
-- socket has no case in the code.
pub echoer_echo-Echoes :
    (fuel : ℕ) (answer : StreamResult) (e : Echoer)
    → e.handler ≡ echoer_echo_handler
    → IsEchoer e
    → length e.sink.answers < fuel
    → (r : Echoer × Ending) × (echoer_echo fuel answer e ≡ ok r) × Echoes e (r.0, some r.1)
unfolding echoer_echo
echoer_echo-Echoes zero answer e h in_buf enough = absurd (omega arith)
echoer_echo-Echoes (suc fuel) answer e h in_buf enough =
    let r = fill_buf answer e in
    let f = fill_buf-Echoes answer e h in_buf in
    elim (Option-cases r.1) [
      | inr (ending, p) ↦
          ((r.0, ending), rw (echoer_echo, p) refl, subst (λ o. Echoes e (r.0, o)) p f)
      | inl n ↦
          let h' = f.goes_on n in
          let g = send_buf-Echoes r.0 h' f.in_buf in
          elim (Option-cases (send_buf r.0).1) [
            | inr (ending, p) ↦ (
              ((send_buf r.0).0, ending),
              rw (echoer_echo, n, p) refl,
              Echoes-trans f.same_bytes (subst (λ o. Echoes r.0 ((send_buf r.0).0, o)) p g),
            )
            | inl m ↦
                let used = send_buf-answers r.0 m in
                let same = ap (λ s. length s.answers) (fill_buf-sink answer e) in
                let (q, ran, k) =
                  echoer_echo-Echoes fuel answer (send_buf r.0).0 (g.goes_on m) g.in_buf
                    (omega arith) in
                (q, rw (echoer_echo, n, m) ran, Echoes-trans (g.same_bytes ∙ f.same_bytes) k)
          ]
    ]
