-- ===== src/Socket/Connector.antt =====
-- src/socket.c: `struct connector`, which tries addresses until one connects, and `struct client_socket`.
use molerat.Base.{
  ℕ, zero, suc, ◌+◌, Bool, true, false, not, ◌||◌, Option, none, some, List, [], ◌∷◌, if◌then◌else◌,
  Result, ok, aborted, out_of_fuel, ◌>>=◌, ◌>>◌, assert,
}
use molerat.Stream.{StreamResult, stream_ok, stream_waiting, stream_error}
use molerat.Tasklet.{World, wait_list_init}
use molerat.Tasklet.Waiting.{set_wait_list, wait_list_up, wait_list_down, wait_list_wait}
use molerat.Epoll.{
  Events, only_out, same_events, WatchedFd, new_watched_fd, watched_fd_set_interest,
}
use molerat.Socket.{
  SimpleSocket, Answer, Outcome, simple_socket_close_locked, simple_socket_wake_all,
  simple_socket_set_fd, simple_socket_init, simple_socket_read, simple_socket_write,
}

-- What the system makes of an address: no socket can be made; or there is one on a descriptor, and
-- `connect` succeeds, or fails with an `errno` that `would_block` knows, after which
-- watched_fd_set_interest has the given answer, or fails with another.
pub data Attempt : Type 0 where
  no_socket : Attempt
  connects : (fd : ℕ) → Attempt
  pends : (fd : ℕ) → (told : Bool) → Attempt
  refuses : (fd : ℕ) → Attempt

-- `struct connector`, with each address as what the system makes of it, which it is asked once.
-- `connecting` and `tasklet` are numbers, `error` is whether `err` is set, and `opened` and `closed` count
-- the descriptors, and `destroyed` the watched descriptors that were destroyed.
pub record Connector : Type 0 where
  pub tasklet : ℕ
  pub connecting : ℕ
  pub watched_fd : WatchedFd
  pub fd : Option ℕ
  pub connected : Bool
  pub next_addrinfo : List Attempt
  pub error : Bool
  pub opened : ℕ
  pub closed : ℕ
  pub destroyed : ℕ

-- The descriptors that `connector_close` has to close.
abbrev pub held : Option ℕ → ℕ
held none = 0
held (some fd) = 1

unfoldable pub connector_close : Connector → Connector
connector_close c = record c {
  fd = none;
  closed = c.closed + held c.fd;
  destroyed = c.destroyed + held c.fd;
}

-- A socket on a descriptor, and its watched descriptor.
unfoldable pub with_socket : ℕ → Connector → Connector
unfolding new_watched_fd
with_socket fd c = record c { fd = some fd; watched_fd = new_watched_fd fd; opened = c.opened + 1 }

-- `start_connecting` behind the loop.
unfoldable pub give_up : (here : ℕ) → SimpleSocket → Connector → World → Result (Connector × World)
unfolding simple_socket_wake_all
give_up here s c world = do assert c.error; ok (c, simple_socket_wake_all here s world)

-- The loop of `start_connecting`, from an address on.
unfoldable pub try_addresses :
    (here : ℕ) → SimpleSocket → List Attempt → Connector → World → Result (Connector × World)
unfolding connector_close with_socket give_up watched_fd_set_interest
try_addresses here s [] c world = give_up here s c world
try_addresses here s (no_socket ∷ rest) c world =
    try_addresses here s rest (record (connector_close c) { next_addrinfo = rest; error = true })
      world
try_addresses here s (connects fd ∷ rest) c world =
    let c' = with_socket fd (record (connector_close c) { next_addrinfo = rest; error = false }) in
    ok (c', wait_list_up here c'.connecting 1 world)
try_addresses here s (pends fd told ∷ rest) c world =
    let c' = with_socket fd (record (connector_close c) { next_addrinfo = rest; error = false }) in
    let r = watched_fd_set_interest told only_out c'.watched_fd in
    let c'' = record c' { watched_fd = r.0 } in
    if r.1 then ok (c'', world) else give_up here s (record c'' { error = true }) world
try_addresses here s (refuses fd ∷ rest) c world =
    let c' = with_socket fd (record (connector_close c) { next_addrinfo = rest; error = true }) in
    try_addresses here s rest c' world

unfoldable pub start_connecting :
    (here : ℕ) → SimpleSocket → Connector → World → Result (Connector × World)
unfolding try_addresses
start_connecting here s c world = try_addresses here s c.next_addrinfo c world

unfoldable pub connector_handle_events : (here : ℕ) → Events → Connector → World → Connector × World
connector_handle_events here events c world =
    if events.ev_out || events.ev_err
    then (
      record c { connected = same_events events only_out },
      wait_list_up here c.connecting 1 world,
    )
    else (c, world)

unfoldable pub connector_ok : Connector → Bool
connector_ok c = elim c.next_addrinfo [ _ ∷ _ ↦ true | [] ↦ not c.error ]

-- `struct client_socket`
pub record ClientSocket : Type 0 where
  pub base : SimpleSocket
  pub connector : Option Connector

-- The `else` branch of `finish_connecting`: whether SO_ERROR tells of an error, and the answer to
-- watched_fd_set_interest.
unfoldable pub not_connected :
    (here : ℕ) (so_error told : Bool)
    → SimpleSocket
    → Connector
    → World
    → Result (Connector × World)
unfolding start_connecting watched_fd_set_interest simple_socket_wake_all
not_connected here so_error told s c world =
    let r = watched_fd_set_interest told only_out c.watched_fd in
    let c' = record c { watched_fd = r.0 } in
    if so_error
    then start_connecting here s (record c { error = true }) world
    else if r.1
    then ok (c', world)
    else ok (record c' { error = true }, simple_socket_wake_all here s world)

-- The loop of `finish_connecting`, with the answers of the system in each round. The connector is
-- destroyed where the socket takes over its descriptor.
unfoldable pub finish_connecting :
    (fuel here : ℕ) (answers : List (Bool × Bool))
    → SimpleSocket
    → Connector
    → World
    → Result (ClientSocket × World)
unfolding not_connected simple_socket_set_fd
finish_connecting zero here answers s c world = out_of_fuel
finish_connecting (suc fuel) here answers s c world =
    let d = wait_list_down here c.connecting 1 c.tasklet world in
    let answer = elim answers as (λ _. Bool × Bool) [ [] ↦ (false, true) | a ∷ _ ↦ a ] in
    let later = elim answers as (λ _. List (Bool × Bool)) [ [] ↦ [] | _ ∷ rest ↦ rest ] in
    elim d.1 [
      | none ↦ aborted
      | some false ↦ ok (record { base = s; connector = some c }, d.0)
      | some true ↦ elim c.connected [
        | true ↦ elim c.fd [
          | none ↦ aborted
          | some fd ↦
              simple_socket_set_fd here fd c.watched_fd s d.0
              >>= (λ r. ok (record { base = r.0; connector = none }, r.1))
        ]
        | false ↦
            not_connected here answer.0 answer.1 s c d.0
            >>= (λ r. finish_connecting fuel here later s r.0 r.1)
      ]
    ]

-- `client_socket_create` up to `tasklet_later`, over whatever the memory held.
unfoldable pub client_socket_create :
    (here : ℕ) → List Attempt → SimpleSocket → Connector → World → Result (ClientSocket × World)
unfolding start_connecting simple_socket_init
client_socket_create here addrinfos s c world = do
  let c' = record c {
    fd = none;
    connected = false;
    next_addrinfo = addrinfos;
    error = false;
    opened = 0;
    closed = 0;
    destroyed = 0;
  }
  let s' = simple_socket_init none s (set_wait_list c.connecting (wait_list_init 0) world)
  r ← start_connecting here s'.0 c' s'.1
  ok (record { base = s'.0; connector = some r.0 }, r.1)

-- A read or a write while the connector is there; `w` is the wait list.
unfoldable pub connecting_result : (here w t : ℕ) → Connector → SimpleSocket → World → Outcome
unfolding connector_ok
connecting_result here w t c s world =
    if connector_ok c
    then record {
      socket = s;
      world = wait_list_wait here w t world;
      result = stream_waiting;
      error = false;
    }
    else record { socket = s; world = world; result = stream_error; error = true }

unfoldable pub client_socket_read :
    (here t len : ℕ) → Answer → (told : Bool) → ClientSocket → World → Outcome
unfolding simple_socket_read connecting_result
client_socket_read here t len answer told s world = elim s.connector as (λ _. Outcome) [
  | none ↦ simple_socket_read here t len answer told s.base world
  | some c ↦ connecting_result here s.base.reading t c s.base world
]

unfoldable pub client_socket_write :
    (here t len : ℕ) → Answer → (told : Bool) → ClientSocket → World → Outcome
unfolding simple_socket_write connecting_result
client_socket_write here t len answer told s world = elim s.connector as (λ _. Outcome) [
  | none ↦ simple_socket_write here t len answer told s.base world
  | some c ↦ connecting_result here s.base.writing t c s.base world
]

-- `client_socket_close`, with the connector that is destroyed.
unfoldable pub client_socket_close :
    (closed : Bool) → ClientSocket → (ClientSocket × Option Connector) × StreamResult
unfolding simple_socket_close_locked connector_close
client_socket_close closed s = elim s.connector [
  | none ↦
      let r = simple_socket_close_locked closed true s.base in
      ((record s { base = r.0 }, none), r.1)
  | some c ↦ ((record s { connector = none }, some (connector_close c)), stream_ok)
]
