-- ===== src/DelimStream/Expecting.antt =====
-- src/delim_stream.c: what a reader still expects, and its reads of a chunk's payload.
use molerat.Base.{
  leb, lt→leb, drop-all, drop-append_left, take-append_left, ℕ, zero, suc, ◌+◌, ◌-◌, ◌≤◌, ◌<◌, ◌≡◌,
  refl, ap, sym, ◌∙◌, arith, inl, inr, true, false, List, [], ◌∷◌, ◌++◌, length, length-append,
  take, drop, length-take, length-drop, take-append-drop, min, append_assoc, ◌==◌, if◌then◌else◌,
  dec_le,
}
use molerat.Stream.{
  StreamResult, progress, stream_end, Source, moved, Stalled, stalled_waiting, stalled_error,
  stream_read-ReadOutcome, moved-Stalled,
}
use molerat.DelimStream.{
  start, chunk_intro_1, payload, end, chunk_size_to_net, max_chunk_size, chunk_size_end_bit,
}
use molerat.DelimStream.Reader.{
  DelimReadStream, Given, read_payload, read_in_payload, have_chunk_left, paid_out,
  chunk_size_from_net,
}
use molerat.DelimStream.Wire.{Chunks, payload_of, Fits, wire, from_net-to_net}

-- A reader above `bytes` that is still to give its caller `p`.
pub data Expects (r : DelimReadStream) (bytes p : List ℕ) : Type 0 where
  at_start :
      r.state ≡ start
      → r.last_chunk ≡ false
      → (cs : Chunks) → Fits cs
      → bytes ≡ wire cs
      → p ≡ payload_of cs
      → Expects r bytes p
  at_size :
      r.state ≡ chunk_intro_1
      → r.last_chunk ≡ false
      → (b : ℕ) (cs : Chunks) → Fits cs
      → r.size_bytes ≡ b ∷ []
      → b ∷ bytes ≡ wire cs
      → p ≡ payload_of cs
      → Expects r bytes p
  at_payload :
      r.state ≡ payload
      → r.last_chunk ≡ false
      → (part : List ℕ) (cs : Chunks) → Fits cs
      → r.chunk_left ≡ length part
      → 0 < length part
      → length part ≤ max_chunk_size
      → bytes ≡ part ++ wire cs
      → p ≡ part ++ payload_of cs
      → Expects r bytes p
  at_end : r.state ≡ end → p ≡ [] → Expects r bytes p

-- A read that gives its caller the next bytes of `p`, as many as it says.
pub record Reads (p : List ℕ) (g : Given) : Type 0 where
  pub rest : List ℕ
  pub split : p ≡ g.0.1 ++ rest
  pub expects : Expects g.0.0.0 g.0.0.1.bytes rest
  pub count : moved g.1 ≡ length g.0.1
  pub finished : g.1 ≡ stream_end → (rest ≡ []) × (g.0.0.0.state ≡ end)

pub progress_goes_on : {k : ℕ} → progress k ≡ stream_end → ⊥
progress_goes_on e = cc

pub paid_out-Stalled : (s : DelimReadStream) {r : StreamResult} → Stalled r → paid_out s r ≡ s
paid_out-Stalled s stalled_waiting = refl
paid_out-Stalled s stalled_error = refl

-- The payload of a chunk, of which `k` bytes are read.
paid_out-Expects :
    (s : DelimReadStream) (k : ℕ) (part : List ℕ) (cs : Chunks)
    → s.state ≡ payload
    → s.last_chunk ≡ false
    → Fits cs
    → s.chunk_left ≡ length part
    → 0 < length part
    → length part ≤ max_chunk_size
    → k ≤ length part
    → Expects (paid_out s (progress k)) (drop k part ++ wire cs) (drop k part ++ payload_of cs)
paid_out-Expects s zero part cs st last f left some_left small le =
    at_payload st last part cs f left some_left small refl refl
paid_out-Expects s (suc n) part cs st last f left some_left small le =
    elim (dec_le (length part) (suc n)) [
      | yes all ↦
          at_start (ground arith) (ground arith) cs f
            (ap (λ xs. xs ++ wire cs) (drop-all part (suc n) all))
            (ap (λ xs. xs ++ payload_of cs) (drop-all part (suc n) all))
      | no some ↦
          let rest = length-drop (suc n) part in
          at_payload (ground arith) (ground arith) (drop (suc n) part) cs f (ground arith)
            (omega arith) (omega arith) refl refl
    ]

module _ (s : DelimReadStream) (src : Source) (part : List ℕ) (cs : Chunks) (st : s.state ≡ payload)
    (last : s.last_chunk ≡ false) (f : Fits cs) (left : s.chunk_left ≡ length part)
    (some_left : 0 < length part) (small : length part ≤ max_chunk_size)
    (bytes : src.bytes ≡ part ++ wire cs) where
  read_payload-Reads :
      (len : ℕ) → len ≤ length part → Reads (part ++ payload_of cs) (read_payload s src len)
  unfolding read_payload
  read_payload-Reads len le =
      let long : length src.bytes ≡ length part + length (wire cs) =
        ap length bytes ∙ length-append part (wire cs) in
      elim (stream_read-ReadOutcome src len (omega arith)) [
        | inl (stalled, nothing, same) ↦ record {
          rest = part ++ payload_of cs;
          split = rw nothing;
          expects =
              rw (paid_out-Stalled s stalled)
                (at_payload st last part cs f left some_left small (same ∙ bytes) refl);
          count = rw nothing (moved-Stalled stalled).0;
          finished = λ e. absurd ((moved-Stalled stalled).1 e);
        }
        | inr (k, e, short, within, got, after) ↦ record {
          rest = drop k part ++ payload_of cs;
          split =
              rw (got, bytes, take-append_left k part (wire cs) (omega arith))
                (ap (λ xs. xs ++ payload_of cs) (sym (take-append-drop k part))
                  ∙ append_assoc (take k part) (drop k part) (payload_of cs));
          expects =
              rw (e, after, bytes, drop-append_left k part (wire cs) (omega arith))
                (paid_out-Expects s k part cs st last f left some_left small (omega arith));
          count = rw (e, got) (omega (arith, length-take k src.bytes));
          finished = λ n. absurd (progress_goes_on (sym e ∙ n));
        }
      ]

  pub read_in_payload-Reads : (len : ℕ) → Reads (part ++ payload_of cs) (read_in_payload s src len)
  unfolding read_in_payload
  read_in_payload-Reads len = read_payload-Reads (min len s.chunk_left) (omega arith)

have_end :
    (s : DelimReadStream) (src : Source) (len : ℕ)
    → s.size_bytes ≡ 0 ∷ 128 ∷ []
    → have_chunk_left s src len
      ≡ (((record s { chunk_left = 0; state = end; current = false }, src), []), stream_end)
unfolding have_chunk_left
have_end s src len e = ground arith

have_next :
    (s : DelimReadStream) (src : Source) (len n : ℕ)
    → s.size_bytes ≡ chunk_size_to_net n
    → n ≤ max_chunk_size
    → have_chunk_left s src len ≡ read_in_payload (record s { chunk_left = n }) src len
unfolding have_chunk_left
have_next s src len n e small =
    let h : chunk_size_from_net s.size_bytes ≡ n =
      ap chunk_size_from_net e ∙ from_net-to_net n (omega arith) in
    let no_end_bit : leb chunk_size_end_bit n ≡ false = lt→leb _ _ (omega arith) in
    ap
      (λ m.
        if leb chunk_size_end_bit m
        then (if m - chunk_size_end_bit == 0
            then (
              ((record s { chunk_left = 0; state = end; current = false }, src), []),
              stream_end,
            )
            else read_in_payload
                (record s { chunk_left = m - chunk_size_end_bit; last_chunk = true }) src len)
        else read_in_payload (record s { chunk_left = m }) src len)
      h
    ∙ rw no_end_bit

-- The chunk's size is known: it is the front of what is expected.
pub have_chunk_left-Reads :
    (s : DelimReadStream) (src : Source) (cs : Chunks) (len : ℕ)
    → s.state ≡ payload
    → s.last_chunk ≡ false
    → Fits cs
    → s.size_bytes ≡ take 2 (wire cs)
    → src.bytes ≡ drop 2 (wire cs)
    → Reads (payload_of cs) (have_chunk_left s src len)
have_chunk_left-Reads s src [] len st last f size rest = rw (have_end s src len size) record {
  rest = [];
  split = refl;
  expects = at_end refl refl;
  count = refl;
  finished = λ _. (refl, refl);
}
have_chunk_left-Reads s src (c ∷ cs) len st last f size rest =
    rw (have_next s src len (length c) size f.1) (
      read_in_payload-Reads (record s { chunk_left = length c }) src c cs st last f.2 refl f.0 f.1
        rest len)
