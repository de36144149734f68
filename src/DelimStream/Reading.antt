-- ===== src/DelimStream/Reading.antt =====
-- src/delim_stream.c: proofs about `delim_read_stream_read`.
use molerat.Base.{
  ◌≢◌, ℕ, zero, suc, ◌+◌, ◌≤◌, ◌<◌, ◌≡◌, refl, ap, sym, ◌∙◌, arith, ◌⊎◌, inl, inr, false, List, [],
  ◌∷◌, ◌++◌, length, take, drop, min, ok,
}
use molerat.Stream.{
  moved-Stalled, StreamResult, progress, stream_end, Source, stream_read, moved, Stalled,
  stalled_waiting, stalled_error, stream_read-ReadOutcome,
}
use molerat.DelimStream.{start, chunk_intro_1, payload}
use molerat.DelimStream.Reader.{
  DelimReadStream, Given, read_in, delim_read_next, read_payload, read_in_payload, have_chunk_left,
  after_size_read, delim_read_stream_read, paid_out,
}
use molerat.DelimStream.Wire.{Chunks, payload_of, Fits, wire}
use molerat.DelimStream.Expecting.{
  Expects, at_start, at_size, at_payload, at_end, Reads, progress_goes_on, paid_out-Stalled,
  read_in_payload-Reads, have_chunk_left-Reads,
}

after_one :
    (base : ℕ) (s : DelimReadStream) (len : ℕ) (src : Source) (got : List ℕ) (n : ℕ)
    → base + suc n ≡ 1
    → after_size_read base s len src got (progress (suc n)) ≡ (
      ((record s { state = chunk_intro_1; size_bytes = s.size_bytes ++ got }, src), []),
      progress 0,
    )
unfolding after_size_read
after_one base s len src got n e = rw e

after_two :
    (base : ℕ) (s : DelimReadStream) (len : ℕ) (src : Source) (got : List ℕ) (n : ℕ)
    → base + suc n ≡ 2
    → after_size_read base s len src got (progress (suc n))
      ≡ have_chunk_left (record s { state = payload; size_bytes = s.size_bytes ++ got }) src len
unfolding after_size_read
after_two base s len src got n e = rw e

first_byte : (xs : List ℕ) → 0 < length xs → (b : ℕ) × (take 1 xs ≡ b ∷ []) × (b ∷ drop 1 xs ≡ xs)
first_byte [] h = elim h [ ]
first_byte (x ∷ xs) h = (x, refl, refl)

length-wire : (cs : Chunks) → 2 ≤ length (wire cs)
length-wire [] = omega arith
length-wire (c ∷ cs) = omega arith

-- Where nothing moved the reader still expects what it did.
module _ (base : ℕ) (s : DelimReadStream) (src : Source) (p : List ℕ) (len want : ℕ)
    (before : Expects s src.bytes p) (some_bytes : 0 < length src.bytes) where
  idle-Reads :
      (src' : Source) (got : List ℕ)
      → src'.bytes ≡ src.bytes
      → (r : StreamResult) → Stalled r ⊎ (r ≡ progress 0)
      → Reads p (after_size_read base s len src' got r)
  unfolding after_size_read
  idle-Reads src' got same _ (inl stalled_waiting) = record {
    rest = p;
    split = refl;
    expects = rw same before;
    count = refl;
    finished = λ e. cc;
  }
  idle-Reads src' got same _ (inl stalled_error) = record {
    rest = p;
    split = refl;
    expects = rw same before;
    count = refl;
    finished = λ e. cc;
  }
  idle-Reads src' got same r (inr e) =
      rw e record {
        rest = p;
        split = refl;
        expects = rw same before;
        count = refl;
        finished = λ e. cc;
      }

  -- A read of part of a chunk's size, given what becomes of each number of bytes.
  size_read-Reads :
      ((src' : Source) (k : ℕ)
        → suc k ≤ want
        → suc k ≤ length src.bytes
        → src'.bytes ≡ drop (suc k) src.bytes
        → Reads p (after_size_read base s len src' (take (suc k) src.bytes) (progress (suc k))))
      → let r = stream_read src want in Reads p (after_size_read base s len r.0.0 r.0.1 r.1)
  size_read-Reads next = elim (stream_read-ReadOutcome src want some_bytes) [
    | inl (stalled, nothing, same) ↦
        idle-Reads (stream_read src want).0.0 (stream_read src want).0.1 same
          (stream_read src want).1 (inl stalled)
    | inr (zero, e, short, within, got, after) ↦
        idle-Reads (stream_read src want).0.0 (stream_read src want).0.1 after
          (stream_read src want).1 (inr e)
    | inr (suc k, e, short, within, got, after) ↦
        rw (e, got) (next (stream_read src want).0.0 k short within after)
  ]

module _ (s : DelimReadStream) (src : Source) (cs : Chunks) (last : s.last_chunk ≡ false)
    (f : Fits cs) (len : ℕ) where
  start-Reads :
      s.state ≡ start
      → src.bytes ≡ wire cs
      → let r = stream_read src 2 in
        Reads (payload_of cs) (after_size_read 0 (record s { size_bytes = [] }) len r.0.0 r.0.1 r.1)
  start-Reads st bytes =
      size_read-Reads 0 (record s { size_bytes = [] }) src (payload_of cs) len 2
        (at_start st last cs f bytes refl) (rw bytes (omega (arith, length-wire cs))) next
    where
      next :
          (src' : Source) (k : ℕ)
          → suc k ≤ 2
          → suc k ≤ length src.bytes
          → src'.bytes ≡ drop (suc k) src.bytes
          → Reads (payload_of cs) (
              after_size_read 0
                (record s { size_bytes = [] })
                len
                src'
                (take (suc k) src.bytes)
                (progress (suc k)))
      next src' zero short within after =
          let (b, front, whole) = first_byte src.bytes within in
          rw (after_one 0 (record s { size_bytes = [] }) len src' (take 1 src.bytes) 0 refl)
            record {
              rest = payload_of cs;
              split = refl;
              expects = at_size refl last b cs f front (ap (◌∷◌ b) after ∙ (whole ∙ bytes)) refl;
              count = refl;
              finished = λ e. cc;
            }
      next src' (suc zero) short within after =
          rw (after_two 0 (record s { size_bytes = [] }) len src' (take 2 src.bytes) 1 refl) (
            have_chunk_left-Reads (record s { state = payload; size_bytes = take 2 src.bytes }) src'
              cs len refl last f (ap (take 2) bytes) (after ∙ ap (drop 2) bytes))
      next src' (suc (suc k)) short within after = absurd (omega arith)

  size-Reads :
      (b : ℕ)
      → s.state ≡ chunk_intro_1
      → s.size_bytes ≡ b ∷ []
      → b ∷ src.bytes ≡ wire cs
      → let r = stream_read src 1 in Reads (payload_of cs) (after_size_read 1 s len r.0.0 r.0.1 r.1)
  size-Reads b st had front =
      size_read-Reads 1 s src (payload_of cs) len 1 (at_size st last b cs f had front refl)
        (omega (arith, ap length front, length-wire cs)) next
    where
      next :
          (src' : Source) (k : ℕ)
          → suc k ≤ 1
          → suc k ≤ length src.bytes
          → src'.bytes ≡ drop (suc k) src.bytes
          → Reads
              (payload_of cs)
              (after_size_read 1 s len src' (take (suc k) src.bytes) (progress (suc k)))
      next src' zero short within after = rw (after_two 1 s len src' (take 1 src.bytes) 0 refl) (
          have_chunk_left-Reads
            (record s { state = payload; size_bytes = s.size_bytes ++ take 1 src.bytes }) src' cs
            len refl last f (ap (λ xs. xs ++ take 1 src.bytes) had ∙ ap (take 2) front)
            (after ∙ ap (drop 2) front))
      next src' (suc k) short within after = absurd (omega arith)

-- Whatever the stream below answers, a read of a stream that is sent in fitting chunks does not
-- abort and gives its caller the next bytes of the payload, as many as it says; it reports the end
-- only when the whole payload was given.
pub delim_read-Reads :
    (s : DelimReadStream) (src : Source) (len : ℕ) (p : List ℕ)
    → Expects s src.bytes p
    → (g : Given) × (delim_read_stream_read s src len ≡ ok g) × Reads p g
unfolding delim_read_stream_read
delim_read-Reads s src len p (at_start st last cs f bytes e) =
    let r = stream_read src 2 in
    (
      after_size_read 0 (record s { size_bytes = [] }) len r.0.0 r.0.1 r.1,
      ap (λ x. read_in x s src len) st,
      rw e (start-Reads s src cs last f len st bytes),
    )
delim_read-Reads s src len p (at_size st last b cs f had front e) =
    let r = stream_read src 1 in
    (
      after_size_read 1 s len r.0.0 r.0.1 r.1,
      ap (λ x. read_in x s src len) st,
      rw e (size-Reads s src cs last f len b st had front),
    )
delim_read-Reads s src len p (at_payload st last part cs f left h small bytes e) = (
  read_in_payload s src len,
  ap (λ x. read_in x s src len) st,
  rw e (read_in_payload-Reads s src part cs st last f left h small bytes len),
)
delim_read-Reads s src len p (at_end st e) = (
  (((s, src), []), stream_end),
  ap (λ x. read_in x s src len) st,
  record {
    rest = [];
    split = e;
    expects = at_end st refl;
    count = refl;
    finished = λ _. (refl, st);
  },
)

-- A new reader above the bytes of a whole stream expects its payload.
pub delim_read_next-Expects :
    (junk : ℕ) (cs : Chunks) → Fits cs → Expects (delim_read_next junk) (wire cs) (payload_of cs)
unfolding delim_read_next
delim_read_next-Expects junk cs f = at_start refl refl cs f refl refl

paid_out_nothing : (s : DelimReadStream) (r : StreamResult) → moved r ≡ 0 → paid_out s r ≡ s
paid_out_nothing s (progress zero) e = refl
paid_out_nothing s (progress (suc n)) e = absurd (omega arith)
paid_out_nothing s _ e = refl

-- After a chunk of length zero a read moves nothing, and neither ends nor leaves the state.
pub empty_chunk_stalls :
    (s : DelimReadStream) (src : Source) (len : ℕ)
    → s.state ≡ payload
    → s.chunk_left ≡ 0
    → 0 < length src.bytes
    → (g : Given) × (delim_read_stream_read s src len ≡ ok g)
      × (g.0.1 ≡ [])
      × (g.0.0.0 ≡ s)
      × (g.0.0.1.bytes ≡ src.bytes)
      × (g.1 ≢ stream_end)
unfolding delim_read_stream_read read_in_payload read_payload
empty_chunk_stalls s src len st left more =
    let w = min len s.chunk_left in
    let none : w ≡ 0 = omega arith in
    let done : delim_read_stream_read s src len ≡ ok (read_in_payload s src len) =
      ap (λ x. read_in x s src len) st in
    elim (stream_read-ReadOutcome src w more) [
      | inl (stalled, nothing, same) ↦ (
        read_in_payload s src len,
        done,
        nothing,
        paid_out-Stalled s stalled,
        same,
        (moved-Stalled stalled).1,
      )
      | inr (zero, e, short, within, got, after) ↦ (
        read_in_payload s src len,
        done,
        got,
        paid_out_nothing s _ (ap moved e),
        after,
        λ n. progress_goes_on (sym e ∙ n),
      )
      | inr (suc k, e, short, within, got, after) ↦ absurd (omega arith)
    ]
