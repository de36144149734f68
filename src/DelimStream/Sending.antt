-- ===== src/DelimStream/Sending.antt =====
-- src/delim_stream.c: what a writer has sent, and its writes of a chunk's payload.
use molerat.Base.{
  ℕ, ◌+◌, ◌-◌, ◌≤◌, ◌<◌, ◌≡◌, refl, ap, sym, ◌∙◌, subst, arith, inl, inr, List, [], ◌∷◌, ◌++◌,
  length, length-append, take, length-take, take-take, append-nil, append_assoc, dec_le,
}
use molerat.Stream.{
  StreamResult, progress, Sink, moved, Stalled, stalled_waiting, stalled_error, moved-Stalled,
  stream_write-WriteOutcome,
}
use molerat.DelimStream.{
  start, chunk_intro_1, payload, DelimWriteStream, Written, paid, chunk_size_to_net, max_chunk_size,
  write_payload, after_intro,
}
use molerat.DelimStream.Wire.{
  Chunks, payload_of, Fits, frames, frames-append, payload_of-append, append-Fits,
}

-- A writer that has put the bytes `sent` on the stream below for the payload `p`.
pub data Sending (s : DelimWriteStream) (sent p : List ℕ) : Type 0 where
  at_start :
      s.state ≡ start
      → (cs : Chunks) → Fits cs
      → sent ≡ frames cs
      → p ≡ payload_of cs
      → Sending s sent p
  at_intro :
      s.state ≡ chunk_intro_1
      → (cs : Chunks) → Fits cs
      → 0 < s.chunk_left
      → s.chunk_left ≤ max_chunk_size
      → sent ≡ frames cs ++ take 1 (chunk_size_to_net s.chunk_left)
      → p ≡ payload_of cs
      → Sending s sent p
  at_payload :
      s.state ≡ payload
      → (cs : Chunks) (part : List ℕ) → Fits cs
      → 0 < s.chunk_left
      → length part + s.chunk_left ≤ max_chunk_size
      → sent ≡ frames cs ++ (chunk_size_to_net (length part + s.chunk_left) ++ part)
      → p ≡ payload_of cs ++ part
      → Sending s sent p

-- A write that sends more bytes and takes as much of `buf` as it says.
pub record Sends (sink : Sink) (buf sent p : List ℕ) (w : Written) : Type 0 where
  pub more : List ℕ
  pub wrote : w.0.1.written ≡ sink.written ++ more
  pub sending : Sending w.0.0 (sent ++ more) (p ++ take (moved w.1) buf)
  pub count : moved w.1 ≤ length buf

-- A write below that went before.
pub Sends-after :
    {sink sink' : Sink} {buf sent p : List ℕ} {w : Written} (first : List ℕ)
    → sink'.written ≡ sink.written ++ first
    → Sends sink' buf (sent ++ first) p w
    → Sends sink buf sent p w
Sends-after {sink} {sink'} {buf} {sent} {p} {w} first e h = record {
  more = first ++ h.more;
  wrote = h.wrote ∙ (ap (λ xs. xs ++ h.more) e ∙ append_assoc sink.written first h.more);
  sending =
      subst (λ xs. Sending w.0.0 xs (p ++ take (moved w.1) buf)) (append_assoc sent first h.more)
        h.sending;
  count = h.count;
}

-- Nothing sent and nothing taken.
pub Sends-nothing :
    {sink sink' : Sink} {buf sent p : List ℕ} (s : DelimWriteStream) (r : StreamResult)
    → sink'.written ≡ sink.written
    → moved r ≡ 0
    → Sending s sent p
    → Sends sink buf sent p ((s, sink'), r)
Sends-nothing {sink} {sink'} {buf} {sent} {p} s r same none_moved h = record {
  more = [];
  wrote = same ∙ sym (append-nil sink.written);
  sending = rw (none_moved, append-nil sent, append-nil p) h;
  count = omega arith;
}

pub paid-Stalled : (s : DelimWriteStream) {r : StreamResult} → Stalled r → paid s r ≡ s
paid-Stalled s stalled_waiting = refl
paid-Stalled s stalled_error = refl

pub after_intro-Stalled :
    (base : ℕ) (s : DelimWriteStream) (buf : List ℕ)
    (then_write : DelimWriteStream → Sink → List ℕ → Written) (sink : Sink) {r : StreamResult}
    → Stalled r
    → after_intro base s buf then_write sink r ≡ ((s, sink), r)
unfolding after_intro
after_intro-Stalled base s buf then_write sink stalled_waiting = refl
after_intro-Stalled base s buf then_write sink stalled_error = refl

module _ (s : DelimWriteStream) (cs : Chunks) (part : List ℕ) (f : Fits cs) (st : s.state ≡ payload)
    (some_left : 0 < s.chunk_left) (small : length part + s.chunk_left ≤ max_chunk_size) where
  -- A chunk's payload, of which `got` is sent now.
  paid-Sending :
      (got : List ℕ)
      → length got ≤ s.chunk_left
      → Sending
          (paid s (progress (length got)))
          ((frames cs ++ (chunk_size_to_net (length part + s.chunk_left) ++ part)) ++ got)
          ((payload_of cs ++ part) ++ got)
  paid-Sending got le =
      let long = length-append part got in
      elim (dec_le s.chunk_left (length got)) [
        | yes all ↦
            let size : length (part ++ got) ≡ length part + s.chunk_left = omega arith in
            let whole : frames (cs ++ (part ++ got) ∷ [])
                ≡ frames cs ++ (chunk_size_to_net (length part + s.chunk_left) ++ (part ++ got)) =
              frames-append cs ((part ++ got) ∷ [])
              ∙ ap (λ n. frames cs ++ (chunk_size_to_net n ++ ((part ++ got) ++ []))) size
              ∙ ap (λ xs. frames cs ++ (chunk_size_to_net (length part + s.chunk_left) ++ xs))
                  (append-nil (part ++ got)) in
            at_start (ground arith) (cs ++ (part ++ got) ∷ [])
              (append-Fits cs (part ++ got) f (omega arith) (omega arith))
              (append_assoc (frames cs) _ got ∙ sym whole)
              (append_assoc (payload_of cs) part got
                ∙ (ap (λ xs. payload_of cs ++ xs) (sym (append-nil (part ++ got)))
                    ∙ sym (payload_of-append cs ((part ++ got) ∷ []))))
        | no some ↦
            let left : (paid s (progress (length got))).chunk_left ≡ s.chunk_left - length got =
              ground arith in
            let size : length (part ++ got) + (s.chunk_left - length got)
                ≡ length part + s.chunk_left =
              omega arith in
            at_payload (ground arith) cs (part ++ got) f (omega arith) (omega arith)
              (append_assoc (frames cs) _ got
                ∙ ap (λ n. frames cs ++ (chunk_size_to_net n ++ (part ++ got)))
                    (sym (ap (λ n. length (part ++ got) + n) left ∙ size)))
              (append_assoc (payload_of cs) part got)
      ]

  pub write_payload-Sends :
      (sink : Sink) (buf : List ℕ) (m : ℕ)
      → length (take m buf) ≤ s.chunk_left
      → Sends sink buf
          (frames cs ++ (chunk_size_to_net (length part + s.chunk_left) ++ part))
          (payload_of cs ++ part)
          (write_payload s sink (take m buf))
  unfolding write_payload
  write_payload-Sends sink buf m le = elim (stream_write-WriteOutcome sink (take m buf)) [
    | inl (stalled, same) ↦ rw (paid-Stalled s stalled) (
        Sends-nothing s _ same (moved-Stalled stalled).0
          (at_payload st cs part f some_left small refl refl))
    | inr (k, e, within, after) ↦
        let got = take k (take m buf) in
        let sent = frames cs ++ (chunk_size_to_net (length part + s.chunk_left) ++ part) in
        let one_take : got ≡ take k buf = take-take k m buf (omega (arith, length-take m buf)) in
        let long : length got ≡ k = length-take k (take m buf) ∙ omega arith in
        let paid_got = paid-Sending got (omega arith) in
        rw e record {
          more = got;
          wrote = after;
          sending =
              subst
                (λ xs. Sending (paid s (progress k)) (sent ++ got) ((payload_of cs ++ part) ++ xs))
                one_take
                (subst
                  (λ n.
                    Sending (paid s (progress n)) (sent ++ got) ((payload_of cs ++ part) ++ got))
                  long paid_got);
          count = omega (arith, length-take m buf);
        }
  ]
