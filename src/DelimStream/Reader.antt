-- ===== src/DelimStream/Reader.antt =====
-- src/delim_stream.c: `struct delim_read_stream` and `delim_read_stream_read`.
use molerat.Base.{
  ℕ, zero, suc, ◌+◌, ◌-◌, ◌*◌, ◌%◌, ◌^◌, Bool, true, false, List, [], ◌∷◌, ◌++◌, min, ltb, leb,
  ◌==◌, if◌then◌else◌, Result, ok, aborted,
}
use molerat.Stream.{StreamResult, progress, stream_ok, stream_end, Source, stream_read}
use molerat.DelimStream.{
  DelimState, start, chunk_intro_1, payload, end, state_of, chunk_size_end_bit,
}

-- The union `chunk_left` is the bytes of `n` that were read, and the number `h`.
pub record DelimReadStream : Type 0 where
  pub state : DelimState
  pub size_bytes : List ℕ
  pub chunk_left : ℕ
  pub last_chunk : Bool
  pub current : Bool  -- whether `delim_read->current` is this stream

-- `delim_read_next`; `chunk_left` is not set.
unfoldable pub delim_read_next : ℕ → DelimReadStream
delim_read_next junk = record {
  state = start;
  size_bytes = [];
  chunk_left = junk;
  last_chunk = false;
  current = true;
}

-- `uint16_from_le`
abbrev pub chunk_size_from_net : List ℕ → ℕ
chunk_size_from_net [] = 0
chunk_size_from_net (b ∷ []) = b
chunk_size_from_net (b ∷ c ∷ rest) = b + 256 * c

-- The stream afterwards, what is left below, the bytes given to the caller, and the result.
abbrev pub Given : Type 0
Given = ((DelimReadStream × Source) × List ℕ) × StreamResult

-- What `read_payload` does to the stream once the read below returned.
abbrev pub paid_out : DelimReadStream → StreamResult → DelimReadStream
paid_out s (progress zero) = s
paid_out s (progress (suc n)) =
    let left = (s.chunk_left + 2 ^ 16 - suc n) % 2 ^ 16 in
    if left == 0
    then (if s.last_chunk
        then record s { chunk_left = left; state = end; current = false }
        else record s { chunk_left = left; state = start })
    else record s { chunk_left = left }
paid_out s _ = s

unfoldable pub read_payload : DelimReadStream → Source → ℕ → Given
read_payload s src len = let r = stream_read src len in (((paid_out s r.1, r.0.0), r.0.1), r.1)

-- The case `DELIM_STATE_PAYLOAD` of `delim_read_stream_read`.
unfoldable pub read_in_payload : DelimReadStream → Source → ℕ → Given
unfolding read_payload
read_in_payload s src len = read_payload s src (min len s.chunk_left)

-- From the label `have_chunk_left` on.
unfoldable pub have_chunk_left : DelimReadStream → Source → ℕ → Given
have_chunk_left s src len =
    let h = chunk_size_from_net s.size_bytes in
    if leb chunk_size_end_bit h
    then (if h - chunk_size_end_bit == 0
        then (((record s { chunk_left = 0; state = end; current = false }, src), []), stream_end)
        else read_in_payload (record s { chunk_left = h - chunk_size_end_bit; last_chunk = true })
            src len)
    else read_in_payload (record s { chunk_left = h }) src len

-- After the read of a chunk's size, or of the rest of it, from the state numbered `base`.
unfoldable pub after_size_read : ℕ → DelimReadStream → ℕ → Source → List ℕ → StreamResult → Given
after_size_read base s len src got (progress zero) = (((s, src), []), progress 0)
after_size_read base s len src got (progress (suc n)) =
    let s' = record s { state = state_of (base + suc n); size_bytes = s.size_bytes ++ got } in
    if ltb (base + suc n) 2 then (((s', src), []), progress 0) else have_chunk_left s' src len
after_size_read base s len src got res = (((s, src), []), res)

-- The `switch` of `delim_read_stream_read`, at each state.
unfoldable pub read_in : DelimState → DelimReadStream → Source → ℕ → Result Given
read_in start s src len =
    let r = stream_read src 2 in
    ok (after_size_read 0 (record s { size_bytes = [] }) len r.0.0 r.0.1 r.1)
read_in payload s src len = ok (read_in_payload s src len)
read_in chunk_intro_1 s src len =
    let r = stream_read src 1 in ok (after_size_read 1 s len r.0.0 r.0.1 r.1)
read_in end s src len = ok (((s, src), []), stream_end)
read_in _ s src len = aborted

unfoldable pub delim_read_stream_read : DelimReadStream → Source → ℕ → Result Given
unfolding read_in
delim_read_stream_read s src len = read_in s.state s src len

-- `delim_read_stream_close`
unfoldable pub delim_read_stream_close : DelimReadStream → Result StreamResult
delim_read_stream_close s = elim s.state [ end ↦ ok stream_ok | _ ↦ aborted ]
