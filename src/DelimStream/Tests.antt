-- ===== src/DelimStream/Tests.antt =====
-- Runs of the delimited streams, and their theorems at concrete streams.
use molerat.Base.{◌≢◌, ◌≡◌, refl, arith, true, false, [], ◌∷◌, ok}
use molerat.Stream.{Source, stream_read, stream_end, moves, progress}
use molerat.DelimStream.{payload}
use molerat.DelimStream.Reader.{
  DelimReadStream, Given, delim_read_next, delim_read_stream_read, after_size_read, have_chunk_left,
  read_in_payload,
}
use molerat.DelimStream.Wire.{Chunks, Fits, wire}
use molerat.DelimStream.Expecting.{Reads}
use molerat.DelimStream.Reading.{delim_read-Reads, delim_read_next-Expects, empty_chunk_stalls}

abbrev two_chunks : Chunks
two_chunks = (1 ∷ 2 ∷ 3 ∷ []) ∷ (4 ∷ []) ∷ []

two_chunks-Fits : Fits two_chunks
two_chunks-Fits = (omega arith, omega arith, (omega arith, omega arith, tt))

-- The stream below gives the size in one piece, then two bytes of the payload.
abbrev two_below : Source
two_below = record { bytes = wire two_chunks; answers = moves 2 ∷ moves 2 ∷ [] }

first_read :
    delim_read_stream_read (delim_read_next 7) two_below 10
    ≡ ok (
      (
        (
          record {
            state = payload;
            size_bytes = 3 ∷ 0 ∷ [];
            chunk_left = 1;
            last_chunk = false;
            current = true;
          },
          record { bytes = 3 ∷ 1 ∷ 0 ∷ 4 ∷ 0 ∷ 128 ∷ []; answers = [] },
        ),
        1 ∷ 2 ∷ [],
      ),
      progress 2,
    )
unfolding delim_read_stream_read delim_read_next after_size_read stream_read have_chunk_left
    read_in_payload
first_read = refl

delim_read-Reads_example :
    (g : Given) × (delim_read_stream_read (delim_read_next 7) two_below 10 ≡ ok g)
    × Reads (1 ∷ 2 ∷ 3 ∷ 4 ∷ []) g
delim_read-Reads_example =
    delim_read-Reads (delim_read_next 7) two_below 10 (1 ∷ 2 ∷ 3 ∷ 4 ∷ [])
      (delim_read_next-Expects 7 two_chunks two_chunks-Fits)

-- A reader that has read the size of an empty chunk.
abbrev emptied : DelimReadStream
emptied = record {
  state = payload;
  size_bytes = 0 ∷ 0 ∷ [];
  chunk_left = 0;
  last_chunk = false;
  current = true;
}

abbrev end_below : Source
end_below = record { bytes = 0 ∷ 128 ∷ []; answers = moves 2 ∷ [] }

empty_chunk_stalls_example :
    (g : Given) × (delim_read_stream_read emptied end_below 10 ≡ ok g)
    × (g.0.1 ≡ [])
    × (g.0.0.0 ≡ emptied)
    × (g.0.0.1.bytes ≡ 0 ∷ 128 ∷ [])
    × (g.1 ≢ stream_end)
empty_chunk_stalls_example = empty_chunk_stalls emptied end_below 10 refl refl (omega arith)
