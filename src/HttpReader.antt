-- ===== src/HttpReader.antt =====
-- src/http_reader.c, include/molerat/http_reader.h: the callbacks that the parser of http-parser calls,
-- and what the reader keeps of a message. The offsets of the url, the
-- names and the values are ints, held by their bits; other ints do not overflow.
pub mod Callbacks
pub mod Compare
pub mod Parsing
pub mod Prebody
pub mod Body
pub mod Firing
pub mod Filling
pub mod Draining
pub mod Finishing
pub mod Bounds
pub mod Iterating
pub mod Pieces
pub mod Holding
pub mod Headers
pub mod Fragments
pub mod Heading
pub mod Returning
pub mod Rounds
pub mod Reentry
mod Tests
mod HeadTests
use molerat.Base.{ℕ, ◌+◌, ◌-◌, Bool, Option, List}
use molerat.Buffer.{GrowBuf, growbuf_init}

-- `HTTP_READER_PREBODY` and so on.
pub data ReaderState : Type 0 where
  prebody body eom end : ReaderState

-- `struct http_header_internal`, offsets into the memory of `prebody`.
pub record HeaderInternal : Type 0 where
  pub name : ℕ
  pub name_end : ℕ
  pub value : ℕ
  pub value_end : ℕ

-- Which of the two functions `on_url` and `on_url_cont`, and so on, is set.
pub data Callback : Type 0 where
  fresh cont : Callback

-- `struct http_parser_settings`
pub record Settings : Type 0 where
  pub on_url : Callback
  pub on_header_field : Callback
  pub on_header_value : Callback

-- `struct http_reader` but for the stream. `body_end` is an offset into the caller's buffer, and `P` the
-- parser's state.
pub record HttpReader (P : Type 0) : Type 0 where
  pub state : ReaderState
  pub parsed : ℕ
  pub url : ℕ
  pub url_end : ℕ
  pub body_end : ℕ
  pub prebody : GrowBuf
  pub headers : ℕ → HeaderInternal
  pub headers_used : ℕ
  pub headers_size : ℕ
  pub settings : Settings
  pub parser : P

-- `http_reader_init`, over whatever the memory held; the parser is the one of `http_parser_init`.
unfoldable pub http_reader_init :
    {P : Type 0}
    → HttpReader P
    → (junk : ℕ → ℕ) → (junk_headers : ℕ → HeaderInternal) → P
    → HttpReader P
http_reader_init r junk junk_headers parser = record r {
  state = prebody;
  parsed = 0;
  prebody = growbuf_init junk 1000;
  headers = junk_headers;
  headers_used = 0;
  headers_size = 20;
  settings = record { on_url = fresh; on_header_field = fresh; on_header_value = fresh };
  parser = parser;
}
