-- ===== src/Stream/Buffers.antt =====
-- src/stream.c: reading into a growing buffer, and writing from a range of bytes.
use molerat.Base.{ℕ, suc, List, ◌==◌, if◌then◌else◌, write_at, Result, ok, ◌>>=◌}
use molerat.Stream.{StreamResult, progress, stream_end, Sink, Source, stream_read, stream_write}
use molerat.Buffer.{
  GrowBuf, growbuf_space, growbuf_grow, growbuf_advance, bytes_length, bytes_advance,
}

-- The buffer and its space, once a full one was grown.
unfoldable pub with_space : GrowBuf → Result (GrowBuf × ℕ)
unfolding growbuf_grow growbuf_space
with_space gb = growbuf_space gb >>= (λ space.
    if space == 0
    then growbuf_grow gb 1 >>= (λ gb'. growbuf_space gb' >>= (λ space'. ok (gb', space')))
    else ok (gb, space))

-- The stream below, the buffer, and the result.
abbrev pub Filled : Type 0
Filled = (Source × GrowBuf) × StreamResult

-- From the test of the result on.
unfoldable pub filled : GrowBuf → Source → StreamResult → Result Filled
unfolding growbuf_advance
filled gb s (progress (suc n)) = do
  gb' ← growbuf_advance gb (suc n)
  ok ((s, gb'), progress (suc n))
filled gb s res = ok ((s, gb), res)

-- From the `stream_read` into the buffer's space on.
unfoldable pub fill : Source → GrowBuf → ℕ → Result Filled
unfolding filled
fill s gb space =
    let r = stream_read s space in
    filled (record gb { memory = write_at gb.memory gb.end r.0.1 }) r.0.0 r.1

unfoldable pub stream_read_growbuf : Source → GrowBuf → Result Filled
unfolding with_space fill
stream_read_growbuf s gb = do p ← with_space gb; fill s p.0 p.1

-- The stream below, what is left of the bytes, and the result.
abbrev pub Drained : Type 0
Drained = (Sink × List ℕ) × StreamResult

unfoldable pub drained : List ℕ → Sink → StreamResult → Result Drained
unfolding bytes_advance
drained b s (progress (suc n)) = do b' ← bytes_advance b (suc n); ok ((s, b'), progress (suc n))
drained b s res = ok ((s, b), res)

unfoldable pub stream_write_bytes : Sink → List ℕ → Result Drained
unfolding bytes_length drained
stream_write_bytes s b =
    let r = stream_write s b in
    if bytes_length b == 0 then ok ((s, b), stream_end) else drained b r.0 r.1
