-- ===== src/HttpReader/Body.antt =====
-- src/http_reader.c: `http_reader_body`, with offsets into the memory of the caller's buffer.
use molerat.Base.{
  ℕ, zero, suc, ◌+◌, ◌-◌, Bool, true, false, slice, write_at, ltb, ◌==◌, if◌then◌else◌, Result, ok,
  out_of_fuel, ◌>>=◌, ◌>>◌, assert,
}
use molerat.Stream.{
  StreamResult, progress, stream_ok, stream_waiting, stream_error, stream_end, Source, stream_read,
}
use molerat.Buffer.{growbuf_length, growbuf_append}
use molerat.HttpReader.Callbacks.{in_prebody, in_buffer}
use molerat.HttpReader.Parsing.{hpe_ok, hpe_paused, hpe_other, Outside, Reading, parse}
use molerat.HttpReader.Prebody.{size_sub, is_body, is_eom}

-- Where the loop over the data in `prebody` goes: to `return`, to `done`, or, with `len`, to the read.
pub data Going : Type 0 where
  returns : StreamResult → Going
  to_done : Going
  to_read : (len : ℕ) → Going

-- The stream, the reader with the buffer, and the result.
abbrev pub BodyOutcome : Type 0 → Type 0
BodyOutcome P = (Source × Reading P) × StreamResult

module _ {P : Type 0} (o : Outside P) where
  -- `assert(r->state == HTTP_READER_EOM)` and `http_parser_pause(&r->parser, 0)`.
  unfoldable pub at_eom : Reading P → Result (Reading P)
  at_eom (r, buffer) = do
    assert (is_eom r.state)
    ok (record r { parser = o.unpause r.parser }, buffer)

  -- The loop over the data in `prebody`.
  unfoldable pub body_prebody_loop :
      (fuel buf buf_end len : ℕ) → Reading P → Result (Reading P × Going)
  unfolding parse at_eom growbuf_length
  body_prebody_loop zero buf buf_end len s = out_of_fuel
  body_prebody_loop (suc fuel) buf buf_end len s =
      let parsed = s.0.parsed in
      let prebody_left = size_sub (growbuf_length s.0.prebody) parsed in
      let given = if ltb len prebody_left then len else prebody_left in
      let x = parse o (in_prebody parsed) (slice s.0.prebody.memory parsed given) s in
      let r = x.0.0.0 in
      let buffer = x.0.0.1 in
      let r' = record r { parsed = r.parsed + x.0.1 } in
      let len' = size_sub buf_end r.body_end in
      elim (prebody_left == 0) [
        | true ↦ ok (s, to_read len)
        | false ↦ elim x.1 [
          | hpe_ok ↦ elim (len' == 0) [
            | true ↦ ok ((r', buffer), to_done)
            | false ↦ body_prebody_loop fuel buf buf_end len' (r', buffer)
          ]
          | hpe_paused ↦
              at_eom (r', buffer)
              >>= (λ s'. ok (s', if r.body_end == buf then returns stream_end else to_done))
          -- `return -1`, which is `STREAM_WAITING`
          | hpe_other ↦ ok ((r', buffer), returns stream_waiting)
        ]
      ]

  -- The last loop, with `got` bytes at `buf_pos`. `true` for `done`.
  unfoldable pub body_loop : (fuel buf_pos got : ℕ) → Reading P → Result (Reading P × Bool)
  unfolding parse at_eom growbuf_append
  body_loop zero buf_pos got s = out_of_fuel
  body_loop (suc fuel) buf_pos got s =
      let x = parse o (in_buffer buf_pos) (slice s.1 buf_pos got) s in
      let consumed = x.0.1 in
      let buf_pos' = buf_pos + consumed in
      let got' = size_sub got consumed in
      elim x.1 [
        | hpe_ok ↦ elim (got' == 0) [
          | true ↦ ok (x.0.0, true)
          | false ↦ body_loop fuel buf_pos' got' x.0.0
        ]
        | hpe_paused ↦ at_eom x.0.0 >>= (λ s'.
            growbuf_append s'.0.prebody (slice s'.1 buf_pos' got')
            >>= (λ g. ok ((record (s'.0) { prebody = g }, s'.1), true)))
        | hpe_other ↦ ok (x.0.0, false)
      ]

  -- `r->body_end - buf`
  unfoldable pub body_done : (buf : ℕ) → Source → Reading P → BodyOutcome P
  body_done buf source s = ((source, s), progress (s.0.body_end - buf))

  -- `got` bytes were read to `buf_pos`.
  unfoldable pub body_got : (fuel buf buf_pos got : ℕ) → Source → Reading P → Result (BodyOutcome P)
  unfolding body_loop body_done
  body_got fuel buf buf_pos got source s =
      body_loop fuel buf_pos got s
      >>= (λ x. ok (if x.1 then body_done buf source (x.0) else ((source, x.0), stream_error)))

  -- From `stream_read` on.
  unfoldable pub body_read : (fuel buf len : ℕ) → Source → Reading P → Result (BodyOutcome P)
  unfolding body_got
  body_read fuel buf len source s =
      let buf_pos = s.0.body_end in
      let x = stream_read source len in
      let s' : Reading P = (s.0, write_at s.1 buf_pos x.0.1) in
      elim x.1 [
        | stream_waiting ↦ ok ((x.0.0, s'), stream_waiting)
        | stream_error ↦ ok ((x.0.0, s'), stream_error)
        | stream_end ↦ body_got fuel buf buf_pos 0 x.0.0 s'
        | stream_ok ↦ ok ((x.0.0, s'), progress 0)
        | progress zero ↦ ok ((x.0.0, s'), progress 0)
        | progress (suc n) ↦ body_got fuel buf buf_pos (suc n) x.0.0 s'
      ]

  unfoldable pub body_went : (fuel buf : ℕ) → Source → Reading P × Going → Result (BodyOutcome P)
  unfolding body_read body_done
  body_went fuel buf source (s, returns result) = ok ((source, s), result)
  body_went fuel buf source (s, to_done) = ok (body_done buf source s)
  body_went fuel buf source (s, to_read len) = body_read fuel buf len source s

  -- The stores of `body_end` and of what the loops do, where there is a body and room for it.
  unfoldable pub http_reader_body : (fuel buf len : ℕ) → Source → Reading P → Result (BodyOutcome P)
  unfolding body_prebody_loop body_went
  http_reader_body fuel buf len source (r, buffer) = elim (is_body r.state) [
    | false ↦ do assert (is_eom r.state); ok ((source, (r, buffer)), stream_end)
    | true ↦ elim (len == 0) [
      | true ↦ ok ((source, (r, buffer)), progress 0)
      | false ↦
          body_prebody_loop fuel buf (buf + len) len (record r { body_end = buf }, buffer)
          >>= body_went fuel buf source
    ]
  ]
