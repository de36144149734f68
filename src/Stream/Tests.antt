-- ===== src/Stream/Tests.antt =====
-- The theorems about reading into buffers and writing from byte ranges, at concrete streams.
use molerat.Base.{◌≡◌, refl, arith, false, [], ◌∷◌, ok}
use molerat.Stream.{Sink, Source, moves}
use molerat.Stream.Buffers.{Filled, Drained, stream_read_growbuf, stream_write_bytes}
use molerat.Stream.Sending.{Passed, stream_write_bytes-Passed}
use molerat.Stream.Filling.{Taken, stream_read_growbuf-Taken}
use molerat.Buffer.{GrowBuf}

abbrev two_taken : Sink
two_taken = record { written = 9 ∷ []; answers = moves 2 ∷ [] }

stream_write_bytes-Passed_example :
    (r : Drained) × (stream_write_bytes two_taken (1 ∷ 2 ∷ 3 ∷ []) ≡ ok r)
    × Passed two_taken (1 ∷ 2 ∷ 3 ∷ []) r
stream_write_bytes-Passed_example = stream_write_bytes-Passed two_taken (1 ∷ 2 ∷ 3 ∷ [])

-- A buffer that is full.
abbrev full_buffer : GrowBuf
full_buffer = record { memory = λ i. i; limit = 4; end = 4; frozen = false }

abbrev three_below : Source
three_below = record { bytes = 7 ∷ 8 ∷ 9 ∷ []; answers = moves 2 ∷ [] }

stream_read_growbuf-Taken_example :
    (r : Filled) × (stream_read_growbuf three_below full_buffer ≡ ok r)
    × Taken three_below full_buffer r
stream_read_growbuf-Taken_example =
    stream_read_growbuf-Taken three_below full_buffer
      (record { thawed = refl; within = omega arith })
      (record {
        some_limit = omega arith;
        within = omega arith;
        limit_lt = omega arith;
        fits = omega arith;
      })
