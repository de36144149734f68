-- ===== src/Echo.antt =====
-- src/echo_server.c: `struct echoer`, which sends what it receives. The socket is the two streams of
-- Stream and what `socket_close` answers.
pub mod Echoing
mod Tests
use molerat.Base.{
  ℕ, zero, suc, ◌+◌, Bool, true, false, Option, none, some, List, [], length, drop, ◌==◌,
  if◌then◌else◌, Result, ok, aborted, out_of_fuel,
}
use molerat.Stream.{
  StreamResult, progress, stream_ok, stream_waiting, stream_error, stream_end, moved, Source,
  stream_read, Sink, stream_write,
}

pub data EchoHandler : Type 0 where
  echoer_echo_handler echoer_close_handler : EchoHandler

-- `struct echoer`: `buf` has the `len` bytes that were read last.
pub record Echoer : Type 0 where
  pub handler : EchoHandler
  pub buf : List ℕ
  pub pos : ℕ
  pub source : Source
  pub sink : Sink

-- How a handler ends: the tasklet is on a wait list of the socket, or the echoer is destroyed; or a
-- result of the socket that the code has no case for.
pub data Ending : Type 0 where
  waiting destroyed no_case : Ending

-- `echoer_create` up to `tasklet_later`.
unfoldable pub echoer_create : Source → Sink → Echoer
echoer_create source sink = record {
  handler = echoer_echo_handler;
  buf = [];
  pos = 0;
  source = source;
  sink = sink;
}

unfoldable pub echoer_close : (answer : StreamResult) → Echoer → Echoer × Ending
echoer_close stream_waiting e = (e, waiting)
echoer_close _ e = (e, destroyed)

-- The cases of the read, with the bytes that came; `none` is on to the write.
unfoldable pub after_read :
    (answer : StreamResult) → StreamResult → List ℕ → Echoer → Echoer × Option Ending
unfolding echoer_close
after_read answer stream_waiting bytes e = (e, some waiting)
after_read answer stream_end bytes e =
    let r = echoer_close answer (record e { handler = echoer_close_handler }) in (r.0, some r.1)
after_read answer stream_error bytes e = (e, some destroyed)
after_read answer stream_ok bytes e = (record e { buf = []; pos = 0 }, none)
after_read answer (progress n) bytes e = (record e { buf = bytes; pos = 0 }, none)

unfoldable pub fill_buf : (answer : StreamResult) → Echoer → Echoer × Option Ending
unfolding after_read
fill_buf answer e =
    let r = stream_read e.source 20 in
    if e.pos == length e.buf
    then after_read answer r.1 r.0.1 (record e { source = r.0.0 })
    else (e, none)

-- The cases of the write; `none` is on with the loop.
unfoldable pub after_write : StreamResult → Echoer → Echoer × Option Ending
after_write stream_waiting e = (e, some waiting)
after_write stream_error e = (e, some destroyed)
after_write stream_end e = (e, some no_case)
after_write stream_ok e = (e, none)
after_write (progress n) e = (record e { pos = e.pos + n }, none)

unfoldable pub send_buf : Echoer → Echoer × Option Ending
unfolding after_write
send_buf e =
    let r = stream_write e.sink (drop e.pos e.buf) in after_write r.1 (record e { sink = r.0 })

-- `echoer_echo`, with what a `socket_close` would answer.
unfoldable pub echoer_echo : (fuel : ℕ) (answer : StreamResult) → Echoer → Result (Echoer × Ending)
unfolding fill_buf send_buf
echoer_echo zero answer e = out_of_fuel
echoer_echo (suc fuel) answer e =
    let r = fill_buf answer e in
    let w = send_buf r.0 in
    let rest = echoer_echo fuel answer w.0 in
    elim r.1 [
      | some ending ↦ ok (r.0, ending)
      | none ↦ elim w.1 [ some ending ↦ ok (w.0, ending) | none ↦ rest ]
    ]
