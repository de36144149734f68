-- ===== src/HttpReader/Callbacks.antt =====
-- src/http_reader.c: the callbacks, from `on_url` to `on_body`.
use molerat.Base.{
  ℕ, ◌+◌, ◌-◌, ◌*◌, ◌%◌, ◌^◌, Bool, true, false, List, ltb, ◌==◌, if◌then◌else◌, update, slice,
  write_at,
}
use molerat.HttpReader.{body, eom, HeaderInternal, fresh, cont, HttpReader}

-- Where the data of a call of the parser lies: at an offset into `prebody`, or into the caller's buffer.
pub data Place : Type 0 where
  in_prebody in_buffer : ℕ → Place

-- The pointer `at`, as an offset into `prebody`.
-- `stray` is `growbuf_offset_of` at a pointer that is not into `prebody`.
unfoldable pub offset_of : (stray : ℕ → ℕ) → Place → ℕ → ℕ
offset_of stray (in_prebody base) at = base + at
offset_of stray (in_buffer base) at = stray (base + at)

-- What an `int` holds of an offset, by its bits; from 2 ^ 31 on the `int` is negative.
unfoldable pub int_of : ℕ → ℕ
int_of n = n % 2 ^ 32

-- The bytes that `at` points to.
unfoldable pub bytes_at : {P : Type 0} → (buffer : ℕ → ℕ) → HttpReader P → Place → ℕ → ℕ → List ℕ
bytes_at buffer r (in_prebody base) at len = slice r.prebody.memory (base + at) len
bytes_at buffer r (in_buffer base) at len = slice buffer (base + at) len

-- `end != at`
unfoldable pub apart : Place → ℕ → ℕ → Bool
apart (in_prebody base) at end = if end == base + at then false else true
apart (in_buffer base) at end = true

-- `if (end != at) memmove(end, at, len)`
unfoldable pub move_to :
    {P : Type 0} → (buffer : ℕ → ℕ) → ℕ → Place → ℕ → ℕ → HttpReader P → HttpReader P
unfolding bytes_at apart
move_to buffer end place at len r =
    if apart place at end
    then record r {
      prebody = record (r.prebody) {
        memory = write_at r.prebody.memory end (bytes_at buffer r place at len);
      };
    }
    else r

unfoldable pub on_url : {P : Type 0} → (stray : ℕ → ℕ) → Place → ℕ → ℕ → HttpReader P → HttpReader P
unfolding offset_of int_of
on_url stray place at len r = record r {
  url = int_of (offset_of stray place at);
  url_end = int_of (offset_of stray place at + len);
  settings = record (r.settings) { on_url = cont };
}

unfoldable pub on_url_cont :
    {P : Type 0} → (buffer : ℕ → ℕ) → Place → ℕ → ℕ → HttpReader P → HttpReader P
unfolding move_to int_of
on_url_cont buffer place at len r =
    let r' = move_to buffer r.url_end place at len r in
    record r' { url_end = int_of (r.url_end + len) }

-- The array grows to twice its size; `junk` is what the new part holds.
unfoldable pub grown_headers :
    {P : Type 0} → (junk : ℕ → HeaderInternal) → HttpReader P → HttpReader P
grown_headers junk r =
    if ltb r.headers_size (r.headers_used + 1)
    then record r {
      headers = λ i. if ltb i r.headers_size then r.headers i else junk i;
      headers_size = r.headers_size * 2;
    }
    else r

unfoldable pub on_header_field :
    {P : Type 0}
    → (stray : ℕ → ℕ) (junk : ℕ → HeaderInternal) → Place
    → ℕ
    → ℕ
    → HttpReader P
    → HttpReader P
unfolding offset_of int_of grown_headers
on_header_field stray junk place at len r =
    let r' = grown_headers junk r in
    record r' {
      headers = update r'.headers r.headers_used (record (r'.headers r.headers_used) {
        name = int_of (offset_of stray place at);
        name_end = int_of (offset_of stray place at + len);
      });
      headers_used = r.headers_used + 1;
      settings = record (r.settings) { on_header_field = cont; on_header_value = fresh };
    }

unfoldable pub on_header_field_cont :
    {P : Type 0} → (buffer : ℕ → ℕ) → Place → ℕ → ℕ → HttpReader P → HttpReader P
unfolding move_to int_of
on_header_field_cont buffer place at len r =
    let header = r.headers (r.headers_used - 1) in
    let r' = move_to buffer header.name_end place at len r in
    record r' {
      headers =
          update r'.headers (r.headers_used - 1)
            (record header { name_end = int_of (header.name_end + len) });
    }

unfoldable pub on_header_value :
    {P : Type 0} → (stray : ℕ → ℕ) → Place → ℕ → ℕ → HttpReader P → HttpReader P
unfolding offset_of int_of
on_header_value stray place at len r = record r {
  headers = update r.headers (r.headers_used - 1) (record (r.headers (r.headers_used - 1)) {
    value = int_of (offset_of stray place at);
    value_end = int_of (offset_of stray place at + len);
  });
  settings = record (r.settings) { on_header_field = fresh; on_header_value = cont };
}

unfoldable pub on_header_value_cont :
    {P : Type 0} → (buffer : ℕ → ℕ) → Place → ℕ → ℕ → HttpReader P → HttpReader P
unfolding move_to int_of
on_header_value_cont buffer place at len r =
    let header = r.headers (r.headers_used - 1) in
    let r' = move_to buffer header.value_end place at len r in
    record r' {
      headers =
          update r'.headers (r.headers_used - 1)
            (record header { value_end = int_of (header.value_end + len) });
    }

-- The pause of the parser is part of what `http_parser_execute` comes to.
unfoldable pub on_headers_complete : {P : Type 0} → HttpReader P → HttpReader P
on_headers_complete r = record r {
  state = body;
  settings = record (r.settings) { on_url = fresh; on_header_value = fresh };
}

unfoldable pub on_message_complete : {P : Type 0} → HttpReader P → HttpReader P
on_message_complete r = record r { state = eom }

-- `on_body`, with the caller's buffer.
unfoldable pub on_body :
    {P : Type 0} → Place → ℕ → ℕ → HttpReader P → (ℕ → ℕ) → HttpReader P × (ℕ → ℕ)
unfolding bytes_at
on_body place at len r buffer = (
  record r { body_end = r.body_end + len },
  write_at buffer r.body_end (bytes_at buffer r place at len),
)
