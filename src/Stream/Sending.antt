-- ===== src/Stream/Sending.antt =====
-- src/stream.c: proofs about `stream_write_bytes`.
use molerat.Base.{
  ℕ, zero, suc, ◌+◌, ◌≤◌, ◌≡◌, ◌↔◌, refl, ap, ◌∙◌, arith, inl, inr, true, false, List, [], ◌∷◌,
  ◌++◌, length, take, drop, take-append-drop, length-drop, append-nil, append_assoc, leb, le→leb,
  ◌==◌, ok,
}
use molerat.Stream.{
  answers-stream_write, StreamResult, progress, stream_ok, stream_end, Sink, stream_write, moved,
  moved-Stalled, Stalled, stalled_waiting, stalled_error, stream_write-WriteOutcome,
}
use molerat.Buffer.{bytes_length, bytes_advance}
use molerat.Stream.Buffers.{Drained, drained, stream_write_bytes}

-- What was sent and what is left make up what there was, and the end is that there was nothing.
pub record Passed (s : Sink) (b : List ℕ) (r : Drained) : Type 0 where
  pub whole : r.0.0.written ++ r.0.1 ≡ s.written ++ b
  pub count : moved r.1 + length r.0.1 ≡ length b
  pub at_end : (r.1 ≡ stream_end) ↔ (b ≡ [])
  pub spent : (k : ℕ) → r.1 ≡ progress k → suc (length r.0.0.answers) ≡ length s.answers
  pub not_ok : r.1 ≡ stream_ok → ⊥

Stalled-not_ok : {res : StreamResult} → Stalled res → res ≡ stream_ok → ⊥
Stalled-not_ok stalled_waiting e = cc
Stalled-not_ok stalled_error e = cc

not_empty : {x : ℕ} {xs : List ℕ} → x ∷ xs ≡ [] → ⊥
not_empty e = cc

goes_on : {k : ℕ} → progress k ≡ stream_end → ⊥
goes_on e = cc

drained_some :
    (b : List ℕ) (s : Sink) (n : ℕ)
    → suc n ≤ length b
    → drained b s (progress (suc n)) ≡ ok ((s, drop (suc n) b), progress (suc n))
unfolding drained bytes_advance bytes_length
drained_some b s n le =
    let fits : leb (suc n) (length b) ≡ true = le→leb _ _ le in rw (drained, fits) refl

drained-Stalled :
    (b : List ℕ) (s : Sink) {r : StreamResult} → Stalled r → drained b s r ≡ ok ((s, b), r)
unfolding drained
drained-Stalled b s stalled_waiting = refl
drained-Stalled b s stalled_error = refl

drained_nothing : (b : List ℕ) (s : Sink) → drained b s (progress 0) ≡ ok ((s, b), progress 0)
unfolding drained
drained_nothing b s = refl

write_bytes_some :
    (s : Sink) (x : ℕ) (xs : List ℕ)
    → stream_write_bytes s (x ∷ xs)
      ≡ drained (x ∷ xs) (stream_write s (x ∷ xs)).0 (stream_write s (x ∷ xs)).1
unfolding stream_write_bytes bytes_length
write_bytes_some s x xs =
    let some_bytes : suc (length xs) == 0 ≡ false = ground arith in
    rw (stream_write_bytes, some_bytes) refl

-- `stream_write_bytes` never aborts: whatever the stream below answers, the bytes that are left are
-- those that were not sent, as many as it says, it reports the end exactly where there were none, and
-- a call that makes progress takes an answer of the stream below.
pub stream_write_bytes-Passed :
    (s : Sink) (b : List ℕ) → (r : Drained) × (stream_write_bytes s b ≡ ok r) × Passed s b r
unfolding stream_write_bytes bytes_length
stream_write_bytes-Passed s [] = (
  ((s, []), stream_end),
  refl,
  record {
    whole = refl;
    count = refl;
    at_end = ((λ e. refl), (λ e. refl));
    spent = λ k e. absurd (cc);
    not_ok = λ e. cc;
  },
)
stream_write_bytes-Passed s (x ∷ xs) =
    let sink = (stream_write s (x ∷ xs)).0 in
    let res = (stream_write s (x ∷ xs)).1 in
    elim (stream_write-WriteOutcome s (x ∷ xs)) [
      | inl (stalled, same) ↦ (
        ((sink, x ∷ xs), res),
        write_bytes_some s x xs ∙ drained-Stalled (x ∷ xs) sink stalled,
        record {
          whole = ap (λ ys. ys ++ x ∷ xs) same;
          count = omega (arith, (moved-Stalled stalled).0);
          at_end = ((λ e. absurd ((moved-Stalled stalled).1 e)), (λ e. absurd (not_empty e)));
          spent = answers-stream_write s (x ∷ xs);
          not_ok = Stalled-not_ok stalled;
        },
      )
      | inr (zero, e, within, after) ↦ (
        ((sink, x ∷ xs), progress 0),
        write_bytes_some s x xs ∙ (ap (drained (x ∷ xs) sink) e ∙ drained_nothing (x ∷ xs) sink),
        record {
          whole = ap (λ ys. ys ++ x ∷ xs) (after ∙ append-nil s.written);
          count = omega arith;
          at_end = ((λ e. absurd (goes_on e)), (λ e. absurd (not_empty e)));
          spent = λ k d. answers-stream_write s (x ∷ xs) 0 e;
          not_ok = λ d. cc;
        },
      )
      | inr (suc n, e, within, after) ↦ (
        ((sink, drop (suc n) (x ∷ xs)), progress (suc n)),
        write_bytes_some s x xs
            ∙ (ap (drained (x ∷ xs) sink) e ∙ drained_some (x ∷ xs) sink n within),
        record {
          whole =
              ap (λ ys. ys ++ drop (suc n) (x ∷ xs)) after
              ∙ (append_assoc s.written (take (suc n) (x ∷ xs)) (drop (suc n) (x ∷ xs))
                  ∙ ap (λ ys. s.written ++ ys) (take-append-drop (suc n) (x ∷ xs)));
          count = omega (arith, length-drop (suc n) (x ∷ xs));
          at_end = ((λ e. absurd (goes_on e)), (λ e. absurd (not_empty e)));
          spent = λ k d. answers-stream_write s (x ∷ xs) (suc n) e;
          not_ok = λ d. cc;
        },
      )
    ]
