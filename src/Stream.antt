-- ===== src/Stream.antt =====
-- include/molerat/stream.h: what the operations of a stream return, and the streams below a delimited
-- one as their users see them: each call takes or gives some bytes, has to wait, or fails.
pub mod Buffers
pub mod Sending
pub mod Filling
mod Tests
use molerat.Base.{
  suc, ◌+◌, length-drop, ◌≡◌, ◌≤◌, ◌<◌, ◌⊎◌, inl, inr, refl, arith, append-nil, ℕ, List, [], ◌∷◌,
  ◌++◌, length, take, drop, min,
}

-- `ssize_t` as `stream_read` and `stream_write` return it, and `enum stream_result`.
pub data StreamResult : Type 0 where
  progress : ℕ → StreamResult
  stream_ok stream_waiting stream_error stream_end : StreamResult

-- How a stream answers a call, the number being how many bytes it would take or give.
pub data Answer : Type 0 where
  moves : ℕ → Answer
  waits fails : Answer

abbrev pub next_answer : List Answer → Answer
next_answer [] = waits
next_answer (a ∷ rest) = a

abbrev pub later_answers : List Answer → List Answer
later_answers [] = []
later_answers (a ∷ rest) = rest

abbrev pub moved : StreamResult → ℕ
moved (progress n) = n
moved _ = 0

-- A stream that is written to: the bytes that it has taken, and its answers to come.
pub record Sink : Type 0 where
  pub written : List ℕ
  pub answers : List Answer

abbrev pub write_result : Answer → List ℕ → StreamResult
write_result (moves n) buf = progress (min n (length buf))
write_result waits buf = stream_waiting
write_result fails buf = stream_error

unfoldable pub stream_write : Sink → List ℕ → Sink × StreamResult
stream_write s buf =
    let r = write_result (next_answer s.answers) buf in
    (record s { written = s.written ++ take (moved r) buf; answers = later_answers s.answers }, r)

-- A stream that is read from: the bytes that it still gives, and its answers to come.
pub record Source : Type 0 where
  pub bytes : List ℕ
  pub answers : List Answer

abbrev pub read_result : Answer → List ℕ → ℕ → StreamResult
read_result (moves n) [] len = stream_end
read_result (moves n) (x ∷ xs) len = progress (min (min n len) (length (x ∷ xs)))
read_result waits bytes len = stream_waiting
read_result fails bytes len = stream_error

-- The bytes that were read, and what the call returned.
unfoldable pub stream_read : Source → ℕ → (Source × List ℕ) × StreamResult
stream_read s len =
    let r = read_result (next_answer s.answers) s.bytes len in
    (
      (
        record s { bytes = drop (moved r) s.bytes; answers = later_answers s.answers },
        take (moved r) s.bytes,
      ),
      r,
    )

-- A call that moves nothing.
pub data Stalled : StreamResult → Type 0 where
  stalled_waiting : Stalled stream_waiting
  stalled_error : Stalled stream_error

pub moved-Stalled : {r : StreamResult} → Stalled r → (moved r ≡ 0) × ¬ (r ≡ stream_end)
moved-Stalled stalled_waiting = (refl, λ e. cc)
moved-Stalled stalled_error = (refl, λ e. cc)

-- What a read comes to where there are bytes left.
abbrev pub ReadOutcome : Source → ℕ → (Source × List ℕ) × StreamResult → Type 0
ReadOutcome s len r =
    (Stalled r.1 × (r.0.1 ≡ []) × (r.0.0.bytes ≡ s.bytes))
    ⊎ ((k : ℕ) × (r.1 ≡ progress k)
        × (k ≤ len)
        × (k ≤ length s.bytes)
        × (r.0.1 ≡ take k s.bytes)
        × (r.0.0.bytes ≡ drop k s.bytes))

read_by :
    (s : Source) (len : ℕ) (a : Answer) (bytes : List ℕ)
    → next_answer s.answers ≡ a
    → s.bytes ≡ bytes
    → 0 < length bytes
    → ReadOutcome s len (stream_read s len)
unfolding stream_read
read_by s len a [] e d h = elim h [ ]
read_by s len (moves n) (x ∷ xs) e d h = inr (
  min (min n len) (length (x ∷ xs)),
  rw (e, d) refl,
  omega arith,
  rw d (omega arith),
  rw (e, d) refl,
  rw (e, d) refl,
)
read_by s len waits (x ∷ xs) e d h = inl (rw e stalled_waiting, rw e refl, rw e refl)
read_by s len fails (x ∷ xs) e d h = inl (rw e stalled_error, rw e refl, rw e refl)

pub stream_read-ReadOutcome :
    (s : Source) (len : ℕ) → 0 < length s.bytes → ReadOutcome s len (stream_read s len)
stream_read-ReadOutcome s len h = read_by s len (next_answer s.answers) s.bytes refl refl h

-- A read that uses up an answer: the bytes have ended, or some of them were given.
abbrev pub Answered : Source → ℕ → (Source × List ℕ) × StreamResult → Type 0
Answered s len r =
    (suc (length r.0.0.answers) ≡ length s.answers)
    × (((r.1 ≡ stream_end) × (length r.0.0.bytes ≡ length s.bytes))
        ⊎ ((k : ℕ) × (r.1 ≡ progress k) × (k ≤ len) × (k + length r.0.0.bytes ≡ length s.bytes)))

stream_read_by :
    (s : Source) (len : ℕ) (answers : List Answer) (bytes : List ℕ)
    → s.answers ≡ answers
    → s.bytes ≡ bytes
    → Stalled (stream_read s len).1 ⊎ Answered s len (stream_read s len)
unfolding stream_read
stream_read_by s len [] bytes e d = inl (rw e stalled_waiting)
stream_read_by s len (waits ∷ rest) bytes e d = inl (rw e stalled_waiting)
stream_read_by s len (fails ∷ rest) bytes e d = inl (rw e stalled_error)
stream_read_by s len (moves n ∷ rest) [] e d = inr (rw e refl, inl (rw (e, d) refl, rw (e, d) refl))
stream_read_by s len (moves n ∷ rest) (x ∷ xs) e d = inr (
  rw e refl,
  inr (
    min (min n len) (length (x ∷ xs)),
    rw (e, d) refl,
    omega arith,
    rw (e, d) (omega (arith, length-drop (min (min n len) (length (x ∷ xs))) (x ∷ xs))),
  ),
)

pub stream_read-Answered :
    (s : Source) (len : ℕ) → Stalled (stream_read s len).1 ⊎ Answered s len (stream_read s len)
stream_read-Answered s len = stream_read_by s len s.answers s.bytes refl refl

pub length-stream_read :
    (s : Source) (len : ℕ) → length (stream_read s len).0.0.bytes ≤ length s.bytes
unfolding stream_read
length-stream_read s len = omega (arith, length-drop (moved (stream_read s len).1) s.bytes)

-- What a write comes to.
abbrev pub WriteOutcome : Sink → List ℕ → Sink × StreamResult → Type 0
WriteOutcome s buf r =
    (Stalled r.1 × (r.0.written ≡ s.written))
    ⊎ ((k : ℕ) × (r.1 ≡ progress k) × (k ≤ length buf) × (r.0.written ≡ s.written ++ take k buf))

write_by :
    (s : Sink) (buf : List ℕ) (a : Answer)
    → next_answer s.answers ≡ a
    → WriteOutcome s buf (stream_write s buf)
unfolding stream_write
write_by s buf (moves n) e = inr (min n (length buf), rw e refl, omega arith, rw e refl)
write_by s buf waits e = inl (rw e stalled_waiting, rw e (append-nil s.written))
write_by s buf fails e = inl (rw e stalled_error, rw e (append-nil s.written))

pub stream_write-WriteOutcome : (s : Sink) (buf : List ℕ) → WriteOutcome s buf (stream_write s buf)
stream_write-WriteOutcome s buf = write_by s buf (next_answer s.answers) refl

written_after :
    (s : Sink) (buf : List ℕ) (answers : List Answer)
    → s.answers ≡ answers
    → (k : ℕ) → write_result (next_answer answers) buf ≡ progress k
    → suc (length (later_answers answers)) ≡ length answers
written_after s buf [] e k h = absurd (cc)
written_after s buf (a ∷ rest) e k h = omega arith

-- Each write that makes progress uses up an answer.
pub answers-stream_write :
    (s : Sink) (buf : List ℕ) (k : ℕ)
    → (stream_write s buf).1 ≡ progress k
    → suc (length (stream_write s buf).0.answers) ≡ length s.answers
unfolding stream_write
answers-stream_write s buf k e = written_after s buf s.answers refl k e
