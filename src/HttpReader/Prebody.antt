-- ===== src/HttpReader/Prebody.antt =====
-- src/http_reader.c: `http_reader_prebody`.
use molerat.Base.{
  ℕ, List, zero, suc, ◌+◌, ◌-◌, ◌%◌, ◌^◌, Bool, true, false, Option, none, some, slice, write_at,
  ◌==◌, Result, ok, aborted, out_of_fuel, ◌>>=◌, ◌>>◌, assert,
}
use molerat.Stream.{
  StreamResult, progress, stream_ok, stream_waiting, stream_error, stream_end, Source, stream_read,
}
use molerat.Buffer.{growbuf_length, growbuf_space, growbuf_shift, growbuf_reserve, growbuf_advance}
use molerat.HttpReader.{ReaderState, prebody, body, eom, end, HttpReader}
use molerat.HttpReader.Callbacks.{in_prebody}
use molerat.HttpReader.Compare.{compare_headers}
use molerat.HttpReader.Parsing.{hpe_ok, hpe_paused, hpe_other, Outside, Reading, parse}

-- A difference of type `size_t`.
abbrev pub size_sub : ℕ → ℕ → ℕ
size_sub a b = (a + 2 ^ 64 - b) % 2 ^ 64

-- `enum http_reader_prebody_result`
pub data PrebodyResult : Type 0 where
  prebody_closed prebody_done prebody_waiting prebody_progress prebody_error : PrebodyResult

abbrev pub is_body : ReaderState → Bool
is_body body = true
is_body _ = false

abbrev pub is_eom : ReaderState → Bool
is_eom eom = true
is_eom _ = false

-- The stream, the reader, and the result.
abbrev pub PrebodyOutcome : Type 0 → Type 0
PrebodyOutcome P = (Source × Reading P) × PrebodyResult

module _ {P : Type 0} (o : Outside P) where
  -- The case of `HPE_PAUSED`.
  unfoldable pub prebody_paused : Reading P → Result (Reading P)
  unfolding compare_headers
  prebody_paused (r, buffer) = do
    assert (is_body r.state)
    ok (
      record r {
        parser = o.unpause r.parser;
        headers = o.sort (compare_headers r.prebody) r.headers r.headers_used;
      },
      buffer,
    )

  -- The inner loop; without a result the outer one goes on.
  unfoldable pub prebody_parse_loop :
      (fuel unparsed : ℕ) → Reading P → Result (Reading P × Option PrebodyResult)
  unfolding parse prebody_paused
  prebody_parse_loop zero unparsed s = out_of_fuel
  prebody_parse_loop (suc fuel) unparsed s =
      let x = parse o (in_prebody (s.0.parsed)) (slice s.0.prebody.memory s.0.parsed unparsed) s in
      let consumed = x.0.1 in
      let r = x.0.0.0 in
      let r' = record r { parsed = r.parsed + consumed } in
      let buffer = x.0.0.1 in
      let unparsed' = size_sub unparsed consumed in
      elim x.1 [
        | hpe_ok ↦ elim (consumed == 0) [
          | true ↦ ok ((record r' { state = prebody }, buffer), some prebody_closed)
          | false ↦ elim (unparsed' == 0) [
            | true ↦ ok ((r', buffer), none)
            | false ↦ prebody_parse_loop fuel unparsed' (r', buffer)
          ]
        ]
        | hpe_paused ↦ prebody_paused (r', buffer) >>= (λ s'. ok (s', some prebody_done))
        | hpe_other ↦ ok ((r', buffer), some prebody_error)
      ]

  -- What `stream_read` leaves in the buffer.
  abbrev received :
      (Source × List ℕ) × StreamResult → Reading P → (Source × Reading P) × StreamResult
  received x (r, buffer) =
      let g = r.prebody in
      let g' = record g { memory = write_at g.memory g.end x.0.1 } in
      ((x.0.0, (record r { prebody = g' }, buffer)), x.1)

  -- `growbuf_reserve` and `stream_read`, whose bytes lie behind those of the buffer.
  unfoldable pub prebody_read : Source → Reading P → Result ((Source × Reading P) × StreamResult)
  unfolding growbuf_space growbuf_reserve
  prebody_read source (r, buffer) = do
    g ← growbuf_reserve r.prebody 100
    space ← growbuf_space g
    ok (received (stream_read source space) (record r { prebody = g }, buffer))

  -- The outer loop, with `waiting_result`.
  unfoldable pub prebody_loop :
      (fuel : ℕ) → PrebodyResult → Source → Reading P → Result (PrebodyOutcome P)
  unfolding prebody_read prebody_parse_loop growbuf_length growbuf_advance
  prebody_loop zero waiting_result source s = out_of_fuel
  prebody_loop (suc fuel) waiting_result source s = prebody_read source s >>= (λ x.
      let source' = x.0.0 in
      let s' = x.0.1 in
      elim x.1 [
        | stream_waiting ↦ ok ((source', s'), waiting_result)
        | stream_error ↦ ok ((source', s'), prebody_error)
        | stream_end ↦
            prebody_parse_loop (suc fuel) (size_sub (growbuf_length s'.0.prebody) s'.0.parsed) s'
            >>= (λ y. elim y.1 [
              | some result ↦ ok ((source', y.0), result)
              | none ↦ prebody_loop fuel waiting_result source' (y.0)
            ])
        | stream_ok ↦ prebody_loop fuel waiting_result source' s'
        | progress zero ↦ prebody_loop fuel waiting_result source' s'
        | progress (suc n) ↦ growbuf_advance s'.0.prebody (suc n) >>= (λ g.
            prebody_parse_loop (suc fuel) (size_sub (growbuf_length g) s'.0.parsed)
              (record (s'.0) { prebody = g }, s'.1)
            >>= (λ y. elim y.1 [
              | some result ↦ ok ((source', y.0), result)
              | none ↦ prebody_loop fuel prebody_progress source' (y.0)
            ]))
      ])

  -- `HTTP_READER_EOM`: the data of the request before is dropped.
  unfoldable pub prebody_cleaned : HttpReader P → Result (HttpReader P)
  unfolding growbuf_shift
  prebody_cleaned r = do
    g ← growbuf_shift r.prebody r.parsed
    ok (record r { prebody = g; headers_used = 0; parsed = 0; state = prebody })

  unfoldable pub http_reader_prebody : (fuel : ℕ) → Source → Reading P → Result (PrebodyOutcome P)
  unfolding prebody_loop prebody_cleaned
  http_reader_prebody fuel source (r, buffer) = elim r.state [
    | prebody ↦ prebody_loop fuel prebody_waiting source (r, buffer)
    | eom ↦ prebody_cleaned r >>= (λ r'. prebody_loop fuel prebody_waiting source (r', buffer))
    | end ↦ ok ((source, (r, buffer)), prebody_closed)
    | body ↦ aborted
  ]
