-- ===== src/DelimStream/Writing.antt =====
-- src/delim_stream.c: proofs about `delim_write_stream_write`.
use molerat.Base.{
  ℕ, zero, suc, ◌+◌, ◌≤◌, ◌<◌, ◌≡◌, refl, sym, ◌∙◌, subst, arith, inl, inr, List, [], ◌++◌, length,
  take, drop, length-take, append-nil, append_assoc, ok,
}
use molerat.Stream.{progress, Sink, stream_write, moved-Stalled, stream_write-WriteOutcome}
use molerat.DelimStream.{
  start, chunk_intro_1, payload, DelimWriteStream, Written, chunk_size_to_net, max_chunk_size,
  delim_write_next, write_payload, write_in_payload, after_intro, write_in_start, write_in_intro,
  delim_write_stream_write,
}
use molerat.DelimStream.Wire.{Chunks, payload_of, Fits, frames}
use molerat.DelimStream.Sending.{
  Sending, at_start, at_intro, at_payload, Sends, Sends-after, Sends-nothing, after_intro-Stalled,
  write_payload-Sends,
}

-- The first write of a chunk's payload.
new_chunk-Sends :
    (s : DelimWriteStream) (cs : Chunks)
    → Fits cs
    → s.state ≡ payload
    → 0 < s.chunk_left
    → s.chunk_left ≤ max_chunk_size
    → (sink : Sink) (buf : List ℕ) (m : ℕ) → length (take m buf) ≤ s.chunk_left
    → Sends sink buf
        (frames cs ++ chunk_size_to_net s.chunk_left)
        (payload_of cs)
        (write_payload s sink (take m buf))
new_chunk-Sends s cs f st some_left small sink buf m le =
    let none_yet : length {A = ℕ} [] + s.chunk_left ≡ s.chunk_left = omega arith in
    subst
      (λ n.
        Sends sink buf (frames cs ++ chunk_size_to_net n) (payload_of cs)
          (write_payload s sink (take m buf)))
      none_yet
      (subst
        (λ xs.
          Sends sink buf (frames cs ++ chunk_size_to_net (length {A = ℕ} [] + s.chunk_left)) xs
            (write_payload s sink (take m buf)))
        (append-nil (payload_of cs))
        (write_payload-Sends s cs [] f st some_left (omega arith) sink buf m le))

module _ (s : DelimWriteStream) (sink : Sink) (cs : Chunks) (buf : List ℕ) (f : Fits cs)
    (some_bytes : 0 < length buf) where
  write_in_start-Sends :
      s.state ≡ start → Sends sink buf (frames cs) (payload_of cs) (write_in_start s sink buf)
  unfolding write_in_start after_intro
  write_in_start-Sends st =
      let part = take max_chunk_size buf in
      let s' = record s { chunk_left = length part } in
      let intro = chunk_size_to_net (length part) in
      let long = length-take max_chunk_size buf in
      elim (stream_write-WriteOutcome sink intro) [
        | inl (stalled, same) ↦
            rw (after_intro-Stalled 0 s' part write_payload (stream_write sink intro).0 stalled)
              (Sends-nothing s' _ same (moved-Stalled stalled).0 (at_start st cs f refl refl))
        | inr (zero, e, within, after) ↦
            rw e (
              Sends-nothing s' _ (after ∙ append-nil sink.written) refl
                (at_start st cs f refl refl))
        | inr (suc zero, e, within, after) ↦ rw e (
            Sends-after {sink' = (stream_write sink intro).0} (take 1 intro) after (
              Sends-nothing (record s' { state = chunk_intro_1 }) (progress 0) refl refl
                (at_intro refl cs f (omega arith) (omega arith) refl refl)))
        | inr (suc (suc zero), e, within, after) ↦ rw e (
            Sends-after intro after (
              new_chunk-Sends (record s' { state = payload }) cs f refl (omega arith) (omega arith)
                (stream_write sink intro).0 buf max_chunk_size (omega arith)))
        | inr (suc (suc (suc k)), e, within, after) ↦ absurd (omega arith)
      ]

  write_in_intro-Sends :
      s.state ≡ chunk_intro_1
      → 0 < s.chunk_left
      → s.chunk_left ≤ max_chunk_size
      → Sends sink buf
          (frames cs ++ take 1 (chunk_size_to_net s.chunk_left))
          (payload_of cs)
          (write_in_intro s sink buf)
  unfolding write_in_intro write_in_payload after_intro
  write_in_intro-Sends st some_left small =
      let intro = chunk_size_to_net s.chunk_left in
      elim (stream_write-WriteOutcome sink (drop 1 intro)) [
        | inl (stalled, same) ↦
            rw
              (after_intro-Stalled 1 s buf write_in_payload (stream_write sink (drop 1 intro)).0
                stalled)
              (Sends-nothing s _ same (moved-Stalled stalled).0
                (at_intro st cs f some_left small refl refl))
        | inr (zero, e, within, after) ↦ rw e (
            Sends-nothing s _ (after ∙ append-nil sink.written) refl
              (at_intro st cs f some_left small refl refl))
        | inr (suc zero, e, within, after) ↦ rw e (
            Sends-after (drop 1 intro) after (
              subst
                (λ xs. Sends (stream_write sink (drop 1 intro)).0 buf xs (payload_of cs) (
                  write_payload (record s { state = payload }) (stream_write sink (drop 1 intro)).0
                    (take s.chunk_left buf)))
                (sym (append_assoc (frames cs) (take 1 intro) (drop 1 intro)))
                (new_chunk-Sends (record s { state = payload }) cs f refl some_left small
                  (stream_write sink (drop 1 intro)).0 buf s.chunk_left
                  (omega (arith, length-take s.chunk_left buf)))))
        | inr (suc (suc k), e, within, after) ↦ absurd (omega arith)
      ]

  write_in_payload-Sends :
      (part : List ℕ)
      → s.state ≡ payload
      → 0 < s.chunk_left
      → length part + s.chunk_left ≤ max_chunk_size
      → Sends sink buf
          (frames cs ++ (chunk_size_to_net (length part + s.chunk_left) ++ part))
          (payload_of cs ++ part)
          (write_in_payload s sink buf)
  unfolding write_in_payload
  write_in_payload-Sends part st some_left small =
      write_payload-Sends s cs part f st some_left small sink buf s.chunk_left
        (omega (arith, length-take s.chunk_left buf))

-- Whatever the stream below answers, a write of some bytes to a stream that is not being closed does
-- not abort. What it sends keeps the stream below at whole chunks and a part of one, and the bytes
-- that it says it took are the next of the payload.
pub delim_write-Sends :
    (s : DelimWriteStream) (sink : Sink) (buf sent p : List ℕ)
    → Sending s sent p
    → 0 < length buf
    → (w : Written) × (delim_write_stream_write s sink buf ≡ ok w) × Sends sink buf sent p w
unfolding delim_write_stream_write
delim_write-Sends s sink buf sent p (at_start st cs f sent_is p_is) some_bytes = (
  write_in_start s sink buf,
  rw st refl,
  rw (sent_is, p_is) (write_in_start-Sends s sink cs buf f some_bytes st),
)
delim_write-Sends s sink buf sent p (at_intro st cs f some_left small sent_is p_is) some_bytes = (
  write_in_intro s sink buf,
  rw st refl,
  rw (sent_is, p_is) (write_in_intro-Sends s sink cs buf f some_bytes st some_left small),
)
delim_write-Sends s sink buf sent p (at_payload st cs part f some_left small sent_is p_is)
      some_bytes =
    (
      write_in_payload s sink buf,
      rw st refl,
      rw (sent_is, p_is)
          (write_in_payload-Sends s sink cs buf f some_bytes part st some_left small),
    )

pub delim_write_next-Sending : (junk : ℕ) → Sending (delim_write_next junk) [] []
unfolding delim_write_next
delim_write_next-Sending junk = at_start refl [] tt refl refl
