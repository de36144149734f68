-- ===== src/DelimStream/Examples.antt =====
-- The theorems about writing, closing and whole streams at concrete streams.
use molerat.Base.{ℕ, ◌≡◌, refl, arith, true, false, List, [], ◌∷◌, ◌++◌, ok}
use molerat.Stream.{
  Answer, Sink, stream_ok, stream_end, stream_write, stream_read, moves, waits, progress,
}
use molerat.DelimStream.{
  start, payload, end, DelimWriteStream, Written, delim_write_next, delim_write_stream_write,
  delim_write_stream_close, write_in_start, after_intro, write_payload, close_in_start, close_loop,
}
use molerat.DelimStream.Reader.{
  Given, delim_read_next, delim_read_stream_read, after_size_read, have_chunk_left, read_in_payload,
}
use molerat.DelimStream.Wire.{Chunks, frames}
use molerat.DelimStream.Sending.{Sends}
use molerat.DelimStream.Writing.{delim_write-Sends, delim_write_next-Sending}
use molerat.DelimStream.Closing.{Closes, not_begun, delim_write_close-Closes}
use molerat.DelimStream.Sessions.{
  Session, opened, wrote, Closed, at_once, Receives, began, read, Closed-Receives,
}

-- A stream below that takes a chunk's size, waits, and takes two bytes.
abbrev slow_below : Sink
slow_below = record { written = []; answers = moves 2 ∷ waits ∷ moves 2 ∷ [] }

delim_write-Sends_example :
    (w : Written) × (delim_write_stream_write (delim_write_next 7) slow_below (5 ∷ 6 ∷ 7 ∷ [])
      ≡ ok w)
    × Sends slow_below (5 ∷ 6 ∷ 7 ∷ []) [] [] w
delim_write-Sends_example =
    delim_write-Sends (delim_write_next 7) slow_below (5 ∷ 6 ∷ 7 ∷ []) [] []
      (delim_write_next-Sending 7) (omega arith)

abbrev one_chunk : Chunks
one_chunk = (5 ∷ 6 ∷ []) ∷ []

-- A stream below that has one chunk and takes the last size in two parts.
abbrev chunk_below : Sink
chunk_below = record { written = 2 ∷ 0 ∷ 5 ∷ 6 ∷ []; answers = moves 1 ∷ moves 0 ∷ moves 1 ∷ [] }

abbrev between : DelimWriteStream
between = record { state = start; chunk_left = 0; current = true }

delim_write_close-Closes_example :
    (w : Written) × (delim_write_stream_close 4 between chunk_below ≡ ok w)
    × Closes chunk_below (frames one_chunk) one_chunk w
delim_write_close-Closes_example =
    delim_write_close-Closes 4 between chunk_below (frames one_chunk) one_chunk
      (not_begun refl refl) (omega arith)

-- A stream of one write, one close and two reads.
abbrev to_answers : List Answer
to_answers = moves 2 ∷ moves 2 ∷ moves 2 ∷ []

abbrev after_write : Written
after_write =
    ((between, record { written = 2 ∷ 0 ∷ 5 ∷ 6 ∷ []; answers = moves 2 ∷ [] }), progress 2)

abbrev after_close : Written
after_close = (
  (
    record { state = end; chunk_left = 0; current = false },
    record { written = 2 ∷ 0 ∷ 5 ∷ 6 ∷ 0 ∷ 128 ∷ []; answers = [] },
  ),
  stream_ok,
)

one_write : Session 7 to_answers after_write.0.0 after_write.0.1 (5 ∷ 6 ∷ [])
unfolding delim_write_stream_write delim_write_next write_in_start after_intro write_payload
    stream_write
one_write = wrote opened (5 ∷ 6 ∷ []) (omega arith) after_write refl

one_close : Closed after_write.0.0 after_write.0.1 after_close.0.1
unfolding delim_write_stream_close close_in_start close_loop stream_write
one_close = at_once after_close refl refl

abbrev from_answers : List Answer
from_answers = moves 2 ∷ moves 1 ∷ moves 9 ∷ []

abbrev after_read : Given
after_read = (
  (
    (
      record {
        state = payload;
        size_bytes = 2 ∷ 0 ∷ [];
        chunk_left = 1;
        last_chunk = false;
        current = true;
      },
      record { bytes = 6 ∷ 0 ∷ 128 ∷ []; answers = moves 9 ∷ [] },
    ),
    5 ∷ [],
  ),
  progress 1,
)

one_read :
    Receives 8 after_close.0.1.written from_answers after_read.0.0.0 after_read.0.0.1 (5 ∷ [])
unfolding delim_read_stream_read delim_read_next after_size_read have_chunk_left read_in_payload
    stream_read
one_read = read began 10 after_read refl

Closed-Receives_example :
    (g : Given) × (delim_read_stream_read after_read.0.0.0 after_read.0.0.1 10 ≡ ok g)
    × ((rest : List ℕ) × (◌≡◌ {A = List ℕ} (5 ∷ 6 ∷ []) (((5 ∷ []) ++ g.0.1) ++ rest))
        × (g.1 ≡ stream_end → rest ≡ []))
Closed-Receives_example = Closed-Receives one_write one_close one_read 10
