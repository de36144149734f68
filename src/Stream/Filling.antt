-- ===== src/Stream/Filling.antt =====
-- src/stream.c: proofs about `stream_read_growbuf`.
use molerat.Base.{
  ℕ, zero, suc, ◌+◌, ◌-◌, ◌≤◌, ◌≡◌, refl, sym, ap, ◌∙◌, arith, ◌⊎◌, inl, inr, true, false, List, [],
  ◌∷◌, ◌++◌, length, take-append-drop, length-take, write_at, slice-write_at_end,
  slice-write_at_below, append_assoc, leb, le→leb, ◌==◌, ok, ◌>>◌, assert, not, ℕ_discrete,
}
use molerat.Stream.{
  Answer, moves, waits, fails, next_answer, stream_read-ReadOutcome, StreamResult, progress,
  stream_waiting, stream_error, stream_end, Source, stream_read, moved, moved-Stalled, Stalled,
  stalled_waiting, stalled_error,
}
use molerat.Buffer.{GrowBuf, growbuf_space, growbuf_advance}
use molerat.Buffer.Growth.{HasSize, Grown, growbuf_grow-Grown}
use molerat.Buffer.Contents.{contents, IsOpen}
use molerat.Stream.Buffers.{Filled, with_space, filled, fill, stream_read_growbuf}

goes_on : {k : ℕ} → progress k ≡ stream_end → ⊥
goes_on e = cc

-- What was read and what is still to be read make up what there was.
pub record Taken (s : Source) (gb : GrowBuf) (r : Filled) : Type 0 where
  pub whole : contents r.0.1 ++ r.0.0.bytes ≡ contents gb ++ s.bytes
  pub open' : IsOpen r.0.1
  pub count : r.0.1.end ≡ gb.end + moved r.1
  pub at_end : r.1 ≡ stream_end → s.bytes ≡ []

space_of : (gb : GrowBuf) → gb.frozen ≡ false → growbuf_space gb ≡ ok (gb.limit - gb.end)
unfolding growbuf_space
space_of gb thawed = ap (λ b. assert (not b) >> ok (gb.limit - gb.end)) thawed

with_space-Grown :
    (gb : GrowBuf)
    → IsOpen gb
    → HasSize gb 1
    → (gb' : GrowBuf) × (with_space gb ≡ ok (gb', gb'.limit - gb'.end)) × Grown gb 1 gb'
unfolding with_space
with_space-Grown gb o h = elim (ℕ_discrete (gb.limit - gb.end) 0) [
  | yes full ↦
      let (gb', e, grown) = growbuf_grow-Grown gb 1 h in
      let none_left : gb.limit - gb.end == 0 ≡ true = ground arith in
      (
        gb',
        rw (with_space, space_of gb o.thawed, none_left, e, space_of gb' (grown.frozen ∙ o.thawed))
            refl,
        grown,
      )
  | no room ↦
      let some_left : gb.limit - gb.end == 0 ≡ false = ground arith in
      (
        gb,
        rw (with_space, space_of gb o.thawed, some_left) refl,
        record { memory = refl; end = refl; frozen = refl; room = omega arith },
      )
]

-- What a read gives, whatever the answer.
module _ (s : Source) (len : ℕ) where
  read_whole : (stream_read s len).0.1 ++ (stream_read s len).0.0.bytes ≡ s.bytes
  unfolding stream_read
  read_whole = take-append-drop _ s.bytes

-- A read that moves nothing.
pub data Idle : StreamResult → Type 0 where
  idle_zero : Idle (progress 0)
  idle_waiting : Idle stream_waiting
  idle_error : Idle stream_error
  idle_end : Idle stream_end

moved-Idle : {r : StreamResult} → Idle r → moved r ≡ 0
moved-Idle idle_zero = refl
moved-Idle idle_waiting = refl
moved-Idle idle_error = refl
moved-Idle idle_end = refl

filled-Idle :
    (gb : GrowBuf) (s : Source) {r : StreamResult} → Idle r → filled gb s r ≡ ok ((s, gb), r)
unfolding filled
filled-Idle gb s idle_zero = refl
filled-Idle gb s idle_waiting = refl
filled-Idle gb s idle_error = refl
filled-Idle gb s idle_end = refl

Stalled-Idle : {r : StreamResult} → Stalled r → Idle r
Stalled-Idle stalled_waiting = idle_waiting
Stalled-Idle stalled_error = idle_error

-- The two things that a read may come to.
abbrev pub ReadCases : Source → ℕ → (Source × List ℕ) × StreamResult → Type 0
ReadCases s len r =
    (Idle r.1 × (r.0.1 ≡ []) × (r.1 ≡ stream_end → s.bytes ≡ []))
    ⊎ ((n : ℕ) × (r.1 ≡ progress (suc n)) × (suc n ≤ len) × (length r.0.1 ≡ suc n))

read_at_end :
    (s : Source) (len : ℕ) (a : Answer)
    → next_answer s.answers ≡ a
    → s.bytes ≡ []
    → Idle (stream_read s len).1 × ((stream_read s len).0.1 ≡ [])
unfolding stream_read
read_at_end s len (moves n) e d = (rw (e, d) idle_end, rw (e, d) refl)
read_at_end s len waits e d = (rw e idle_waiting, rw e refl)
read_at_end s len fails e d = (rw e idle_error, rw e refl)

pub stream_read-ReadCases :
    (s : Source) (len : ℕ) (bytes : List ℕ) → s.bytes ≡ bytes → ReadCases s len (stream_read s len)
stream_read-ReadCases s len [] e =
    let idle = read_at_end s len (next_answer s.answers) refl e in inl (idle.0, idle.1, λ _. e)
stream_read-ReadCases s len (x ∷ xs) e = elim (stream_read-ReadOutcome s len (rw e (omega arith))) [
  | inl (stalled, nothing, same) ↦
      inl (Stalled-Idle stalled, nothing, λ d. absurd ((moved-Stalled stalled).1 d))
  | inr (zero, d, short, within, got, after) ↦
      inl (rw d idle_zero, got, λ q. absurd (goes_on (sym d ∙ q)))
  | inr (suc n, d, short, within, got, after) ↦
      inr (n, d, short, ap length got ∙ (length-take (suc n) s.bytes ∙ omega arith))
]

filled_some :
    (gb : GrowBuf) (s : Source) (n : ℕ)
    → gb.end + suc n ≤ gb.limit
    → filled gb s (progress (suc n))
      ≡ ok ((s, record gb { end = gb.end + suc n }), progress (suc n))
unfolding filled growbuf_advance
filled_some gb s n le =
    let fits : leb (gb.end + suc n) gb.limit ≡ true = le→leb _ _ le in rw (filled, fits) refl

-- The read itself, into a buffer with room.
fill-Taken :
    (s : Source) (gb : GrowBuf)
    → IsOpen gb
    → (r : Filled) × (fill s gb (gb.limit - gb.end) ≡ ok r) × Taken s gb r
unfolding fill
fill-Taken s gb o =
    let space = gb.limit - gb.end in
    let r = stream_read s space in
    let gb' = record gb { memory = write_at gb.memory gb.end r.0.1 } in
    elim (stream_read-ReadCases s space s.bytes refl) [
      | inl (idle, nothing, at_end) ↦ (
        ((r.0.0, gb'), r.1),
        filled-Idle gb' r.0.0 idle,
        record {
          whole =
              ap (λ xs. xs ++ r.0.0.bytes) (slice-write_at_below gb.memory gb.end r.0.1)
              ∙ ap (λ xs. contents gb ++ xs)
                  (ap (λ xs. xs ++ r.0.0.bytes) (sym nothing) ∙ read_whole s space);
          open' = record { thawed = o.thawed; within = o.within };
          count = omega (arith, moved-Idle idle);
          at_end = at_end;
        },
      )
      | inr (n, e, short, long) ↦ (
        ((r.0.0, record gb' { end = gb.end + suc n }), progress (suc n)),
        ap (filled gb' r.0.0) e ∙ filled_some gb' r.0.0 n (omega (arith, o.within)),
        record {
          whole =
              ap (λ xs. xs ++ r.0.0.bytes)
                (slice-write_at_end gb.memory gb.end (gb.end + suc n) r.0.1 (omega arith))
              ∙ (append_assoc (contents gb) r.0.1 r.0.0.bytes
                  ∙ ap (λ xs. contents gb ++ xs) (read_whole s space));
          open' = record { thawed = o.thawed; within = omega (arith, o.within) };
          count = refl;
          at_end = λ q. absurd (goes_on q);
        },
      )
    ]

-- Within the sizes that do not overflow `stream_read_growbuf` does not abort: the bytes that it puts
-- into the buffer are the next of the stream below, as many as it says, and it reports the end only
-- where there are no more.
pub stream_read_growbuf-Taken :
    (s : Source) (gb : GrowBuf)
    → IsOpen gb
    → HasSize gb 1
    → (r : Filled) × (stream_read_growbuf s gb ≡ ok r) × Taken s gb r
unfolding stream_read_growbuf
stream_read_growbuf-Taken s gb o h =
    let (gb', e, grown) = with_space-Grown gb o h in
    let (r, e', taken) = fill-Taken s gb' (record {
      thawed = grown.frozen ∙ o.thawed;
      within = omega (arith, grown.room, grown.end);
    }) in
    let same : contents gb' ≡ contents gb = rw (grown.memory, grown.end) refl in
    (
      r,
      rw (stream_read_growbuf, e) e',
      record {
        whole = taken.whole ∙ ap (λ xs. xs ++ s.bytes) same;
        open' = taken.open';
        count = taken.count ∙ ap (λ n. n + moved r.1) grown.end;
        at_end = taken.at_end;
      },
    )
