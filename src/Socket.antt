-- ===== src/Socket.antt =====
-- src/socket.c: connected sockets, `struct simple_socket`, over the wait lists of Tasklet and the watched
-- descriptors of Epoll. What the system calls answer are arguments, and `here` is what
-- `thread_run_queue` gives the calling thread.
pub mod Server
pub mod Scanning
pub mod Accepting
pub mod Connector
pub mod Connecting
mod Tests
use molerat.Base.{
  ℕ, zero, suc, ◌+◌, ◌-◌, Bool, true, false, not, ◌&&◌, ◌||◌, Option, none, some, List, [], ◌∷◌,
  length, ◌==◌, if◌then◌else◌, update, take, Result, ok, aborted, ◌>>=◌, ◌>>◌, assert,
}
use molerat.Stream.{StreamResult, progress, stream_ok, stream_waiting, stream_error, stream_end}
use molerat.Tasklet.{World, wait_list_init}
use molerat.Tasklet.Waiting.{set_wait_list, wait_list_broadcast, wait_list_wait}
use molerat.Epoll.{Events, only_in, only_out, WatchedFd, new_watched_fd, watched_fd_set_interest}

-- What `read` and `write` answer: the bytes moved, an `errno` that `would_block` knows, or another.
pub data Answer : Type 0 where
  moved_bytes : ℕ → Answer
  blocks : Answer
  fails : Answer

-- `struct simple_socket`; `reading` and `writing` are the numbers of the wait lists, and `closes` counts
-- the calls of watched_fd_destroy and close.
pub record SimpleSocket : Type 0 where
  pub reading : ℕ
  pub writing : ℕ
  pub watched_fd : WatchedFd
  pub fd : Option ℕ
  pub closes : ℕ

-- The socket and the world, the result, and whether the `struct error` was set.
pub record Outcome : Type 0 where
  pub socket : SimpleSocket
  pub world : World
  pub result : StreamResult
  pub error : Bool

-- `simple_socket_init` for a descriptor, over whatever the memory held.
unfoldable pub simple_socket_init : Option ℕ → SimpleSocket → World → SimpleSocket × World
unfolding new_watched_fd
simple_socket_init fd s world = (
  record s {
    fd = fd;
    watched_fd = elim fd as (λ _. WatchedFd) [ none ↦ s.watched_fd | some n ↦ new_watched_fd n ];
  },
  set_wait_list s.writing (wait_list_init 0) (set_wait_list s.reading (wait_list_init 0) world),
)

unfoldable pub simple_socket_handle_events : (here : ℕ) → Events → SimpleSocket → World → World
simple_socket_handle_events here events s world =
    let world' =
      if events.ev_in || events.ev_err then wait_list_broadcast here s.reading world else world in
    if events.ev_out || events.ev_err then wait_list_broadcast here s.writing world' else world'

-- `simple_socket_close_locked`, where `closed` is whether `close` succeeds and `e` whether there is a
-- `struct error`.
unfoldable pub simple_socket_close_locked :
    (closed e : Bool) → SimpleSocket → SimpleSocket × StreamResult
simple_socket_close_locked closed e s = elim s.fd [
  | none ↦ (s, stream_ok)
  | some _ ↦
      let s' = record s { closes = s.closes + 1 } in
      if not closed && e then (s', stream_error) else (record s' { fd = none }, stream_ok)
]

unfoldable pub simple_socket_wake_all : (here : ℕ) → SimpleSocket → World → World
simple_socket_wake_all here s world =
    wait_list_broadcast here s.writing (wait_list_broadcast here s.reading world)

-- `simple_socket_set_fd`, without the handler.
unfoldable pub simple_socket_set_fd :
    (here fd : ℕ) → WatchedFd → SimpleSocket → World → Result (SimpleSocket × World)
unfolding simple_socket_wake_all
simple_socket_set_fd here fd w s world = elim s.fd [
  | some _ ↦ aborted
  | none ↦
      let s' = record s { fd = some fd; watched_fd = w } in
      ok (s', simple_socket_wake_all here s' world)
]

-- The case where `would_block()` holds, for a wait list and its events; `told` is the answer to
-- watched_fd_set_interest.
unfoldable pub block_on : (here w t : ℕ) → Events → (told : Bool) → SimpleSocket → World → Outcome
unfolding watched_fd_set_interest
block_on here w t events told s world =
    let r = watched_fd_set_interest told events s.watched_fd in
    record {
      socket = record s { watched_fd = r.0 };
      world = wait_list_wait here w t world;
      result = if r.1 then stream_waiting else stream_error;
      error = not r.1;
    }

unfoldable pub simple_socket_read :
    (here t len : ℕ) → Answer → (told : Bool) → SimpleSocket → World → Outcome
unfolding block_on
simple_socket_read here t len answer told s world =
    let failed : Outcome = record {
      socket = s;
      world = world;
      result = stream_error;
      error = true;
    } in
    elim s.fd as (λ _. Outcome) [
      | none ↦ failed
      | some _ ↦ elim answer as (λ _. Outcome) [
        | moved_bytes (suc n) ↦ record {
          socket = s;
          world = world;
          result = progress (suc n);
          error = false;
        }
        | moved_bytes zero ↦ record {
          socket = s;
          world = world;
          result = if len == 0 then progress 0 else stream_end;
          error = false;
        }
        | blocks ↦ block_on here s.reading t only_in told s world
        | fails ↦ failed
      ]
    ]

unfoldable pub simple_socket_write :
    (here t len : ℕ) → Answer → (told : Bool) → SimpleSocket → World → Outcome
unfolding block_on
simple_socket_write here t len answer told s world =
    let failed : Outcome = record {
      socket = s;
      world = world;
      result = stream_error;
      error = true;
    } in
    elim s.fd as (λ _. Outcome) [
      | none ↦ failed
      | some _ ↦ elim answer as (λ _. Outcome) [
        | moved_bytes n ↦ record { socket = s; world = world; result = progress n; error = false }
        | blocks ↦ block_on here s.writing t only_out told s world
        | fails ↦ failed
      ]
    ]

-- `simple_socket_partial_close`, where `shut` is whether `shutdown` succeeds: the result, and whether the
-- `struct error` was set.
unfoldable pub simple_socket_partial_close : (shut : Bool) → Bool × Bool
simple_socket_partial_close shut = (shut, not shut)
