-- ===== src/DelimStream.antt =====
-- src/delim_stream.c: streams of bytes sent over another stream in chunks, each after its size.
pub mod Reader
pub mod Wire
pub mod Sending
pub mod Writing
pub mod Closing
pub mod Expecting
pub mod Reading
pub mod Sessions
mod Tests
mod Examples
use molerat.Base.{
  ℕ, zero, suc, ◌+◌, ◌-◌, ◌*◌, ◌/◌, ◌%◌, ◌^◌, Bool, true, false, List, [], ◌∷◌, ◌++◌, length, take,
  drop, min, ltb, leb, ◌==◌, if◌then◌else◌, Result, ok, aborted, out_of_fuel,
}
use molerat.Stream.{
  StreamResult, progress, stream_ok, stream_waiting, stream_error, stream_end, Sink, Source,
  stream_write, stream_read,
}

pub data DelimState : Type 0 where
  start chunk_intro_1 payload final_chunk_intro_0 final_chunk_intro_1 end : DelimState

-- The states as numbers, with which the code computes.
abbrev pub state_number : DelimState → ℕ
state_number start = 0
state_number chunk_intro_1 = 1
state_number payload = 2
state_number final_chunk_intro_0 = 3
state_number final_chunk_intro_1 = 4
state_number end = 5

abbrev pub state_of : ℕ → DelimState
state_of zero = start
state_of (suc zero) = chunk_intro_1
state_of (suc (suc zero)) = payload
state_of (suc (suc (suc zero))) = final_chunk_intro_0
state_of (suc (suc (suc (suc zero)))) = final_chunk_intro_1
state_of (suc (suc (suc (suc (suc n))))) = end

abbrev pub max_chunk_size : ℕ
max_chunk_size = 0x7fff

abbrev pub chunk_size_end_bit : ℕ
chunk_size_end_bit = 0x8000

-- `uint16_to_le`, as the two bytes of its result.
abbrev pub chunk_size_to_net : ℕ → List ℕ
chunk_size_to_net n = n % 256 ∷ n / 256 % 256 ∷ []

-- `struct delim_write_stream`; `current` says whether `delim_write->current` is this stream.
pub record DelimWriteStream : Type 0 where
  pub state : DelimState
  pub chunk_left : ℕ
  pub current : Bool

-- `delim_write_next`; `chunk_left` is not set.
unfoldable pub delim_write_next : ℕ → DelimWriteStream
delim_write_next junk = record { state = start; chunk_left = junk; current = true }

abbrev pub Written : Type 0
Written = (DelimWriteStream × Sink) × StreamResult

-- What `write_payload` does to the stream once the write below returned.
abbrev pub paid : DelimWriteStream → StreamResult → DelimWriteStream
paid s (progress n) =
    let left = (s.chunk_left + 2 ^ 16 - n) % 2 ^ 16 in
    if left == 0
    then record s { chunk_left = left; state = start }
    else record s { chunk_left = left }
paid s _ = s

unfoldable pub write_payload : DelimWriteStream → Sink → List ℕ → Written
write_payload s sink buf = let (sink', res) = stream_write sink buf in ((paid s res, sink'), res)

-- The case `DELIM_STATE_PAYLOAD` of `delim_write_stream_write`.
unfoldable pub write_in_payload : DelimWriteStream → Sink → List ℕ → Written
unfolding write_payload
write_in_payload s sink buf = write_payload s sink (take s.chunk_left buf)

-- `delim_write_stream_write` after the write of a chunk's size, or of the rest of it, from the state
-- numbered `base`: nothing more where it made no progress or the size is not complete.
unfoldable pub after_intro :
    ℕ
    → DelimWriteStream
    → List ℕ
    → (DelimWriteStream → Sink → List ℕ → Written)
    → Sink
    → StreamResult
    → Written
after_intro base s buf then_write sink (progress zero) = ((s, sink), progress 0)
after_intro base s buf then_write sink (progress (suc n)) =
    let s' = record s { state = state_of (base + suc n) } in
    if ltb (base + suc n) 2 then ((s', sink), progress 0) else then_write s' sink buf
after_intro base s buf then_write sink res = ((s, sink), res)

-- The case `DELIM_STATE_START`.
unfoldable pub write_in_start : DelimWriteStream → Sink → List ℕ → Written
unfolding after_intro write_payload
write_in_start s sink buf =
    let part = take max_chunk_size buf in
    let s' = record s { chunk_left = length part } in
    let (sink', res) = stream_write sink (chunk_size_to_net (length part)) in
    after_intro 0 s' part write_payload sink' res

-- The case `DELIM_STATE_CHUNK_INTRO_1`.
unfoldable pub write_in_intro : DelimWriteStream → Sink → List ℕ → Written
unfolding after_intro write_in_payload
write_in_intro s sink buf =
    let (sink', res) = stream_write sink (drop 1 (chunk_size_to_net s.chunk_left)) in
    after_intro 1 s buf write_in_payload sink' res

unfoldable pub delim_write_stream_write : DelimWriteStream → Sink → List ℕ → Result Written
unfolding write_in_start write_in_intro write_in_payload
delim_write_stream_write s sink buf = elim s.state [
  | start ↦ ok (write_in_start s sink buf)
  | chunk_intro_1 ↦ ok (write_in_intro s sink buf)
  | payload ↦ ok (write_in_payload s sink buf)
  | _ ↦ aborted
]

-- The loop of `delim_write_stream_close`, over what is left of the last chunk's size.
unfoldable pub close_loop : ℕ → DelimWriteStream → Sink → Result Written
close_loop zero s sink = out_of_fuel
close_loop (suc fuel) s sink =
    let pos = state_number s.state - 3 in
    let r = stream_write sink (drop pos (chunk_size_to_net chunk_size_end_bit)) in
    elim r.1 [
      | progress n ↦
          let s' = record s { state = state_of (state_number s.state + n) } in
          let rest = close_loop fuel s' r.0 in
          if ltb (state_number s.state + n) 5
          then rest
          else ok ((record s' { current = false }, r.0), stream_ok)
      | res ↦ ok ((s, r.0), res)
    ]

-- The case `DELIM_STATE_START` of `delim_write_stream_close`.
unfoldable pub close_in_start : ℕ → DelimWriteStream → Sink → Result Written
unfolding close_loop
close_in_start fuel s sink =
    let s' = record s { state = final_chunk_intro_0 } in
    let r = stream_write sink (chunk_size_to_net chunk_size_end_bit) in
    elim r.1 [
      | progress n ↦
          let s'' = record s' { state = state_of (3 + n) } in
          if ltb n 2
          then close_loop fuel s'' r.0
          else ok ((record s'' { current = false }, r.0), stream_ok)
      | res ↦ ok ((s', r.0), res)
    ]

unfoldable pub delim_write_stream_close : ℕ → DelimWriteStream → Sink → Result Written
unfolding close_loop close_in_start
delim_write_stream_close fuel s sink = elim s.state [
  | start ↦ close_in_start fuel s sink
  | final_chunk_intro_0 ↦ close_loop fuel s sink
  | final_chunk_intro_1 ↦ close_loop fuel s sink
  | _ ↦ aborted
]
