-- ===== src/HttpWriter.antt =====
-- src/http_writer.c, include/molerat/http_writer.h: the writer of a request or a response.
pub mod Finishing
mod Tests
use molerat.Base.{
  ℕ, zero, suc, Bool, true, false, Option, none, some, List, [], ◌∷◌, ◌++◌, Result, ok, aborted,
  out_of_fuel, ◌>>=◌, ◌>>◌, assert,
}
use molerat.Stream.{
  StreamResult, progress, stream_ok, stream_waiting, stream_error, stream_end, Sink, stream_write,
}
use molerat.Stream.Buffers.{stream_write_bytes}
use molerat.Buffer.{
  GrowBuf, growbuf_init, growbuf_reset, growbuf_append, growbuf_vprintf, growbuf_to_bytes,
}

-- `HTTP_WRITER_INIT` and so on.
pub data WriterState : Type 0 where
  init headers prebody body : WriterState

-- `struct http_writer` but for the stream.
pub record HttpWriter : Type 0 where
  pub state : WriterState
  pub prebody : GrowBuf
  pub prebody_out : List ℕ

abbrev pub is_init : WriterState → Bool
is_init init = true
is_init _ = false

abbrev pub is_headers : WriterState → Bool
is_headers headers = true
is_headers _ = false

unfoldable pub http_writer_init : HttpWriter → (junk : ℕ → ℕ) → HttpWriter
http_writer_init w junk = record w { state = init; prebody = growbuf_init junk 1000 }

-- `line` is what the format comes to.
unfoldable pub http_writer_request : HttpWriter → (line : List ℕ) → Result HttpWriter
http_writer_request w line = do
  assert (is_init w.state)
  g ← growbuf_vprintf (growbuf_reset w.prebody) line
  ok (record w { prebody = g; state = headers })

-- `status` is the message of `http_status_lookup`; `die` ends the program.
unfoldable pub http_writer_response : HttpWriter → (status : Option (List ℕ)) → Result HttpWriter
http_writer_response w none = aborted
http_writer_response w (some message) = do
  assert (is_init w.state)
  g ← growbuf_append (growbuf_reset w.prebody) message
  ok (record w { prebody = g; state = headers })

-- `": "` and `"\r\n"`
abbrev pub colon : List ℕ
colon = 58 ∷ 32 ∷ []

abbrev pub crlf : List ℕ
crlf = 13 ∷ 10 ∷ []

unfoldable pub http_writer_header : HttpWriter → (name val : List ℕ) → Result HttpWriter
http_writer_header w name val = do
  assert (is_headers w.state)
  g₁ ← growbuf_append w.prebody name
  g₂ ← growbuf_append g₁ colon
  g₃ ← growbuf_append g₂ val
  g₄ ← growbuf_append g₃ crlf
  ok (record w { prebody = g₄ })

unfoldable pub http_writer_headerf : HttpWriter → (name val : List ℕ) → Result HttpWriter
http_writer_headerf w name val = do
  assert (is_headers w.state)
  g₁ ← growbuf_append w.prebody name
  g₂ ← growbuf_append g₁ colon
  g₃ ← growbuf_vprintf g₂ val
  g₄ ← growbuf_append g₃ crlf
  ok (record w { prebody = g₄ })

-- The loop of `finish_prebody`; without a result it was left by `break`.
unfoldable pub finish_loop :
    (fuel : ℕ) → Sink → List ℕ → Result ((Sink × List ℕ) × Option StreamResult)
finish_loop zero sink out = out_of_fuel
finish_loop (suc fuel) sink out = stream_write_bytes sink out >>= (λ r. elim r.1 [
  | progress n ↦ finish_loop fuel r.0.0 r.0.1
  | stream_ok ↦ finish_loop fuel r.0.0 r.0.1
  | stream_end ↦ ok (r.0, none)
  | stream_waiting ↦ ok (r.0, some stream_waiting)
  | stream_error ↦ ok (r.0, some stream_error)
])

-- Behind the loop.
unfoldable pub after_loop :
    HttpWriter → Sink × List ℕ → Option StreamResult → (HttpWriter × Sink) × StreamResult
after_loop w (sink, out) (some result) = ((record w { prebody_out = out }, sink), result)
after_loop w (sink, out) none = ((record w { prebody_out = out; state = body }, sink), progress 0)

-- From `case HTTP_WRITER_PREBODY` on.
unfoldable pub finish_in_prebody :
    (fuel : ℕ) → HttpWriter → Sink → Result ((HttpWriter × Sink) × StreamResult)
unfolding finish_loop after_loop
finish_in_prebody fuel w sink = do
  r ← finish_loop fuel sink w.prebody_out
  ok (after_loop w r.0 r.1)

-- The `switch` of `finish_prebody`, at each state.
unfoldable pub finish_in :
    WriterState → (fuel : ℕ) → HttpWriter → Sink → Result ((HttpWriter × Sink) × StreamResult)
unfolding finish_in_prebody growbuf_to_bytes
finish_in headers fuel w sink = growbuf_append w.prebody crlf >>= (λ g.
    let b = growbuf_to_bytes g in
    finish_in_prebody fuel (record w { prebody = b.0; prebody_out = b.1; state = prebody }) sink)
finish_in prebody fuel w sink = finish_in_prebody fuel w sink
finish_in body fuel w sink = ok ((w, sink), progress 0)
finish_in init fuel w sink = aborted

unfoldable pub finish_prebody :
    (fuel : ℕ) → HttpWriter → Sink → Result ((HttpWriter × Sink) × StreamResult)
unfolding finish_in
finish_prebody fuel w sink = finish_in w.state fuel w sink

-- From the test of `res` on.
unfoldable pub after_prebody :
    HttpWriter × Sink → List ℕ → StreamResult → (HttpWriter × Sink) × StreamResult
after_prebody (w, sink) buf (progress n) = let x = stream_write sink buf in ((w, x.0), x.1)
after_prebody (w, sink) buf stream_ok = let x = stream_write sink buf in ((w, x.0), x.1)
after_prebody r buf res = (r, res)

unfoldable pub http_writer_write :
    (fuel : ℕ) → HttpWriter → Sink → List ℕ → Result ((HttpWriter × Sink) × StreamResult)
unfolding finish_prebody after_prebody
http_writer_write fuel w sink buf = do
  r ← finish_prebody fuel w sink
  ok (after_prebody r.0 buf r.1)

-- `enum http_writer_end_result`
pub data EndResult : Type 0 where
  end_waiting end_error end_done : EndResult

unfoldable pub http_writer_end :
    (fuel : ℕ) → HttpWriter → Sink → Result ((HttpWriter × Sink) × EndResult)
unfolding finish_prebody
http_writer_end fuel w sink = finish_prebody fuel w sink >>= (λ r. elim r.1 [
  | stream_waiting ↦ ok (r.0, end_waiting)
  | stream_error ↦ ok (r.0, end_error)
  | progress zero ↦ ok ((record (r.0.0) { state = init }, r.0.1), end_done)
  | stream_ok ↦ ok ((record (r.0.0) { state = init }, r.0.1), end_done)
  | progress (suc n) ↦ aborted
  | stream_end ↦ aborted
])
