-- ===== src/HttpReader/Parsing.antt =====
-- src/http_reader.c: what a call of `http_parser_execute` does to the reader.
use molerat.Base.{ℕ, List, [], ◌∷◌, Result}
use molerat.Buffer.{Sign}
use molerat.HttpReader.{HeaderInternal, fresh, cont, HttpReader}
use molerat.HttpReader.Callbacks.{
  Place, on_url, on_url_cont, on_header_field, on_header_field_cont, on_header_value,
  on_header_value_cont, on_headers_complete, on_message_complete, on_body,
}

-- A call of a callback, with the offset of `at` from the start of the data that was parsed, and `len`.
pub data Event : Type 0 where
  url field value body_data : (at len : ℕ) → Event
  headers_complete message_complete : Event

-- `HPE_OK`, `HPE_PAUSED`, and any other.
pub data Errno : Type 0 where
  hpe_ok hpe_paused hpe_other : Errno

-- What a call of `http_parser_execute` comes to, with callbacks that return 0 and pause the parser in
-- `on_headers_complete` and `on_message_complete`. A callback that moves bytes moves them to lower
-- offsets, which the parser has read.
pub record Execution (P : Type 0) : Type 0 where
  pub events : List Event
  pub consumed : ℕ
  pub parser : P
  pub errno : Errno

-- What the reader uses that is not of this repository: http-parser, the sort of `xsort`, and what fresh
-- memory and the difference of pointers into two objects hold.
pub record Outside (P : Type 0) : Type 0 where
  pub execute : P → List ℕ → Execution P
  pub unpause : P → P
  pub sort :
      (HeaderInternal → HeaderInternal → Result Sign)
      → (ℕ → HeaderInternal)
      → ℕ
      → ℕ
      → HeaderInternal
  pub junk : ℕ → ℕ
  pub junk_headers : ℕ → HeaderInternal
  pub stray : ℕ → ℕ

-- The reader, and the memory that `body_end` points into.
abbrev pub Reading : Type 0 → Type 0
Reading P = HttpReader P × (ℕ → ℕ)

module _ {P : Type 0} (o : Outside P) where
  -- The callback that `settings` holds.
  unfoldable pub call_back : Place → Event → Reading P → Reading P
  unfolding on_url on_url_cont on_header_field on_header_field_cont on_header_value
      on_header_value_cont on_headers_complete on_message_complete on_body
  call_back place (url at len) (r, buffer) = elim r.settings.on_url [
    | fresh ↦ (on_url o.stray place at len r, buffer)
    | cont ↦ (on_url_cont buffer place at len r, buffer)
  ]
  call_back place (field at len) (r, buffer) = elim r.settings.on_header_field [
    | fresh ↦ (on_header_field o.stray o.junk_headers place at len r, buffer)
    | cont ↦ (on_header_field_cont buffer place at len r, buffer)
  ]
  call_back place (value at len) (r, buffer) = elim r.settings.on_header_value [
    | fresh ↦ (on_header_value o.stray place at len r, buffer)
    | cont ↦ (on_header_value_cont buffer place at len r, buffer)
  ]
  call_back place (body_data at len) (r, buffer) = on_body place at len r buffer
  call_back place headers_complete (r, buffer) = (on_headers_complete r, buffer)
  call_back place message_complete (r, buffer) = (on_message_complete r, buffer)

  unfoldable pub call_all : Place → List Event → Reading P → Reading P
  unfolding call_back
  call_all place [] s = s
  call_all place (e ∷ es) s = call_all place es (call_back place e s)

  -- What a call leaves, with `consumed` and `HTTP_PARSER_ERRNO`.
  unfoldable pub parse : Place → List ℕ → Reading P → (Reading P × ℕ) × Errno
  unfolding call_all
  parse place bytes s =
      let x = o.execute s.0.parser bytes in
      let s' = call_all place x.events s in
      (((record (s'.0) { parser = x.parser }, s'.1), x.consumed), x.errno)
