-- ===== src/Socket/Server.antt =====
-- src/socket.c: listening sockets, `struct simple_server_socket`.
use molerat.Base.{
  ℕ, zero, suc, Bool, true, false, Option, none, some, List, [], ◌∷◌, map, if◌then◌else◌, Result,
  ok, aborted, out_of_fuel,
}
use molerat.Tasklet.{World}
use molerat.Tasklet.Waiting.{wait_list_up, wait_list_down}
use molerat.Epoll.{only_in, WatchedFd, new_watched_fd, watched_fd_set_interest}

-- What `accept` answers: a descriptor, and whether `fcntl` then succeeds; an `errno` that `would_block`
-- knows; or another.
pub data AcceptAnswer : Type 0 where
  accepted : (fd : ℕ) → (nonblocking : Bool) → AcceptAnswer
  accept_blocks : AcceptAnswer
  accept_fails : AcceptAnswer

-- `struct server_fd`
pub record ServerFd : Type 0 where
  pub watched_fd : WatchedFd
  pub fd : ℕ
  pub ready : Bool

-- The entry of `simple_server_socket_create` for a descriptor.
unfoldable pub new_server_fd : ℕ → ServerFd
unfolding new_watched_fd
new_server_fd fd = record { watched_fd = new_watched_fd fd; fd = fd; ready = false }

unfoldable pub simple_server_socket_create : List ℕ → List ServerFd
unfolding new_server_fd
simple_server_socket_create fds = map new_server_fd fds

-- `sfd->ready = TRUE` for the descriptor with an index.
unfoldable pub set_ready : ℕ → List ServerFd → List ServerFd
set_ready i [] = []
set_ready zero (f ∷ fs) = record f { ready = true } ∷ fs
set_ready (suc i) (f ∷ fs) = f ∷ set_ready i fs

-- `accept_handle_events` for the descriptors with some indexes; `w` is the wait list `accepting`.
unfoldable pub accept_handle_events :
    (here w : ℕ) (indexes : List ℕ) → List ServerFd → World → List ServerFd × World
unfolding set_ready
accept_handle_events here w [] fs s = (fs, s)
accept_handle_events here w (i ∷ is) fs s =
    accept_handle_events here w is (set_ready i fs) (wait_list_up here w 1 s)

-- How the loop over the descriptors is left.
pub data Scanned : Type 0 where
  got : (fd : ℕ) → Scanned
  scan_failed : Scanned
  none_ready : Scanned

abbrev pub next_accept : List AcceptAnswer → AcceptAnswer
next_accept [] = accept_blocks
next_accept (a ∷ rest) = a

abbrev pub later_accepts : List AcceptAnswer → List AcceptAnswer
later_accepts [] = []
later_accepts (a ∷ rest) = rest

-- What the loop has done and what is left: the descriptors, the answers to come, and how it was left.
abbrev pub Scan : Type 0
Scan = (List ServerFd × List AcceptAnswer) × Scanned

-- The loop at a descriptor that is `ready` or not, with what `accept` answers then. `skipped` is what the
-- loop makes of the others after a `continue`, and `blocked` what it makes of them after an `accept`.
abbrev pub scan_at :
    (ready : Bool)
    → AcceptAnswer
    → ServerFd
    → List ServerFd
    → List AcceptAnswer
    → (skipped blocked : Scan) → Scan
scan_at false a f fs later skipped blocked = ((f ∷ skipped.0.0, skipped.0.1), skipped.1)
scan_at true (accepted fd nonblocking) f fs later skipped blocked =
    ((f ∷ fs, later), if nonblocking then got fd else scan_failed)
scan_at true accept_blocks f fs later skipped blocked =
    ((record f { ready = false } ∷ blocked.0.0, blocked.0.1), blocked.1)
scan_at true accept_fails f fs later skipped blocked =
    ((record f { ready = false } ∷ fs, later), scan_failed)

-- The loop over the descriptors. The answers of `accept` come in order.
unfoldable pub scan : List AcceptAnswer → List ServerFd → Scan
scan answers [] = (([], answers), none_ready)
scan answers (f ∷ fs) =
    let later = later_accepts answers in
    let skipped = scan answers fs in
    let blocked = scan later fs in scan_at f.ready (next_accept answers) f fs later skipped blocked

abbrev pub next_told : List Bool → Bool
next_told [] = true
next_told (b ∷ rest) = b

abbrev pub later_told : List Bool → List Bool
later_told [] = []
later_told (b ∷ rest) = rest

-- The loop that registers interest, with the answers to watched_fd_set_interest; a missing answer is
-- success. Whether it comes to the end.
unfoldable pub arm_all : List Bool → List ServerFd → List ServerFd × Bool
unfolding watched_fd_set_interest
arm_all told [] = ([], true)
arm_all told (f ∷ fs) =
    let r = watched_fd_set_interest (next_told told) only_in f.watched_fd in
    let f' = record f { watched_fd = r.0 } in
    let rest = arm_all (later_told told) fs in
    if r.1 then (f' ∷ rest.0, rest.1) else (f' ∷ fs, false)

-- What the accept comes to: a socket on a descriptor, or none, with the `struct error` set or with the
-- tasklet waiting.
pub data Accepted : Type 0 where
  new_socket : (fd : ℕ) → Accepted
  failed : Accepted
  waiting : Accepted

-- What happens in a round of the accept: the answers to watched_fd_set_interest, and the descriptors for
-- which the poll thread runs its handlers between the accepts and the look at the wait list. Events at other
-- points of the round, and a handler that is held up between its two statements, are not modelled.
pub record Round : Type 0 where
  pub told : List Bool
  pub events : List ℕ

abbrev pub this_round : List Round → Round
this_round [] = record { told = []; events = [] }
this_round (r ∷ rs) = r

abbrev pub later_rounds : List Round → List Round
later_rounds [] = []
later_rounds (r ∷ rs) = rs

-- `simple_server_socket_accept`
unfoldable pub simple_server_socket_accept :
    (fuel here w t : ℕ)
    → List Round
    → List AcceptAnswer
    → List ServerFd
    → World
    → Result ((List ServerFd × World) × Accepted)
unfolding scan arm_all accept_handle_events
simple_server_socket_accept zero here w t rounds answers fs s = out_of_fuel
simple_server_socket_accept (suc fuel) here w t rounds answers fs s =
    let x = scan answers fs in
    let armed = arm_all (this_round rounds).told x.0.0 in
    let e = accept_handle_events here w (this_round rounds).events armed.0 s in
    let d = wait_list_down here w 1 t e.1 in
    elim x.1 [
      | got fd ↦ ok ((x.0.0, s), new_socket fd)
      | scan_failed ↦ ok ((x.0.0, s), failed)
      | none_ready ↦ elim armed.1 [
        | false ↦ ok ((armed.0, s), failed)
        | true ↦ elim d.1 [
          | some true ↦
              simple_server_socket_accept fuel here w t (later_rounds rounds) x.0.1 e.0 d.0
          | some false ↦ ok ((e.0, d.0), waiting)
          | none ↦ aborted
        ]
      ]
    ]

-- `simple_server_socket_close_locked` with the descriptors and `n_fds`: `fds` is null after it, and where
-- it is null already, with some `n_fds`, it would be read through.
unfoldable pub simple_server_socket_close_locked :
    (n_fds : ℕ) → Option (List ServerFd) → Result (Option (List ServerFd))
simple_server_socket_close_locked n_fds (some fs) = ok none
simple_server_socket_close_locked zero none = ok none
simple_server_socket_close_locked (suc n) none = aborted
