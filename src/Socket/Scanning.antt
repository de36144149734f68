-- ===== src/Socket/Scanning.antt =====
-- src/socket.c: proofs about the loops of `simple_server_socket_accept`.
use molerat.Base.{
  ℕ, zero, suc, ◌+◌, ◌≡◌, refl, ap, arith, inl, inr, Bool, true, false, ◌||◌, Bool-cases, List, [],
  ◌∷◌, length,
}
use molerat.Tasklet.{World}
use molerat.Tasklet.Waiting.{wait_list_up}
use molerat.Tasklet.Effects.{wait_list_up-up_count}
use molerat.Epoll.{only_in, WatchedFd, events_to_system, watched_fd_set_interest}
use molerat.Socket.Server.{
  AcceptAnswer, accepted, accept_blocks, accept_fails, next_accept, later_accepts, ServerFd,
  set_ready, accept_handle_events, got, none_ready, scan, arm_all, Scan, scan_at, next_told,
  later_told,
}

-- What epoll was told is the interest.
pub record IsSynced (w : WatchedFd) : Type 0 where
  pub synced : w.added ≡ true → w.told ≡ events_to_system w.interest

-- epoll watches for connections.
pub record IsArmed (w : WatchedFd) : Type 0 where
  pub told : w.told.epollin ≡ true

set_interest-IsSynced :
    (answer : Bool) (w : WatchedFd)
    → IsSynced w
    → IsSynced (watched_fd_set_interest answer only_in w).0
unfolding watched_fd_set_interest events_to_system
set_interest-IsSynced answer w h = record { synced = λ e. let s = h.synced in ground arith }

set_interest-IsArmed :
    (answer : Bool) (w : WatchedFd)
    → IsSynced w
    → (watched_fd_set_interest answer only_in w).1 ≡ true
    → IsArmed (watched_fd_set_interest answer only_in w).0
unfolding watched_fd_set_interest events_to_system
set_interest-IsArmed answer w h e = record { told = let s = h.synced in ground arith }

abbrev pub AllFds : (ServerFd → Type 0) → List ServerFd → Type 0
AllFds P [] = Unit {0}
AllFds P (f ∷ fs) = P f × AllFds P fs

abbrev pub any_ready : List ServerFd → Bool
any_ready [] = false
any_ready (f ∷ fs) = f.ready || any_ready fs

-- What the loop over the descriptors leaves.
pub record Scans (r : Scan) : Type 0 where
  pub synced : AllFds (λ f. IsSynced f.watched_fd) r.0.0
  pub none_left : r.1 ≡ none_ready → any_ready r.0.0 ≡ false
  pub more : (fd : ℕ) → r.1 ≡ got fd → any_ready r.0.0 ≡ true

scan_at-Scans :
    (ready : Bool) (a : AcceptAnswer) (f : ServerFd) (fs : List ServerFd)
    (later : List AcceptAnswer) (skipped blocked : Scan)
    → f.ready ≡ ready
    → IsSynced f.watched_fd
    → AllFds (λ f. IsSynced f.watched_fd) fs
    → Scans skipped
    → Scans blocked
    → Scans (scan_at ready a f fs later skipped blocked)
scan_at-Scans false a f fs later skipped blocked e s h r b = record {
  synced = (s, r.synced);
  none_left = λ q. let p = r.none_left q in ground arith;
  more = λ fd q. let p = r.more fd q in ground arith;
}
scan_at-Scans true (accepted fd true) f fs later skipped blocked e s h r b = record {
  synced = (s, h);
  none_left = λ q. cc;
  more = λ fd' q. ground arith;
}
scan_at-Scans true (accepted fd false) f fs later skipped blocked e s h r b = record {
  synced = (s, h);
  none_left = λ q. cc;
  more = λ fd' q. cc;
}
scan_at-Scans true accept_blocks f fs later skipped blocked e s h r b = record {
  synced = (s, b.synced);
  none_left = b.none_left;
  more = b.more;
}
scan_at-Scans true accept_fails f fs later skipped blocked e s h r b = record {
  synced = (s, h);
  none_left = λ q. cc;
  more = λ fd' q. cc;
}

pub scan-Scans :
    (answers : List AcceptAnswer) (fs : List ServerFd)
    → AllFds (λ f. IsSynced f.watched_fd) fs
    → Scans (scan answers fs)
unfolding scan
scan-Scans answers [] h = record { synced = tt; none_left = λ e. refl; more = λ fd e. cc }
scan-Scans answers (f ∷ fs) (s, h) =
    scan_at-Scans f.ready (next_accept answers) f fs (later_accepts answers) (scan answers fs)
      (scan (later_accepts answers) fs) refl s h (scan-Scans answers fs h)
      (scan-Scans (later_accepts answers) fs h)

-- What the loop that registers interest leaves.
pub record Arms (fs : List ServerFd) (r : List ServerFd × Bool) : Type 0 where
  pub synced : AllFds (λ f. IsSynced f.watched_fd) r.0
  pub armed : r.1 ≡ true → AllFds (λ f. IsArmed f.watched_fd) r.0
  pub ready : any_ready r.0 ≡ any_ready fs

pub arm_all-Arms :
    (told : List Bool) (fs : List ServerFd)
    → AllFds (λ f. IsSynced f.watched_fd) fs
    → Arms fs (arm_all told fs)
unfolding arm_all
arm_all-Arms told [] h = record { synced = tt; armed = λ e. tt; ready = refl }
arm_all-Arms told (f ∷ fs) (s, h) =
    let b = next_told told in
    let later = later_told told in
    let r = watched_fd_set_interest b only_in f.watched_fd in
    let rest = arm_all-Arms later fs h in
    elim (Bool-cases r.1) [
      | inl e ↦ rw e (record {
        synced = (set_interest-IsSynced b f.watched_fd s, rest.synced);
        armed = λ q. (set_interest-IsArmed b f.watched_fd s e, rest.armed q);
        ready = ap (λ k. f.ready || k) rest.ready;
      })
      | inr e ↦ rw e (record {
        synced = (set_interest-IsSynced b f.watched_fd s, h);
        armed = λ q. absurd (cc);
        ready = refl;
      })
    ]

set_ready-AllFds :
    (P : WatchedFd → Type 0) (i : ℕ) (fs : List ServerFd)
    → AllFds (λ f. P f.watched_fd) fs
    → AllFds (λ f. P f.watched_fd) (set_ready i fs)
unfolding set_ready
set_ready-AllFds P i [] h = tt
set_ready-AllFds P zero (f ∷ fs) h = h
set_ready-AllFds P (suc i) (f ∷ fs) h = (h.0, set_ready-AllFds P i fs h.1)

pub events-AllFds :
    (P : WatchedFd → Type 0) (here w : ℕ) (is : List ℕ) (fs : List ServerFd) (s : World)
    → AllFds (λ f. P f.watched_fd) fs
    → AllFds (λ f. P f.watched_fd) (accept_handle_events here w is fs s).0
unfolding accept_handle_events
events-AllFds P here w [] fs s h = h
events-AllFds P here w (i ∷ is) fs s h =
    events-AllFds P here w is (set_ready i fs) (wait_list_up here w 1 s) (set_ready-AllFds P i fs h)

-- Each event is an up.
pub events-up_count :
    (here w : ℕ) (is : List ℕ) (fs : List ServerFd) (s : World)
    → ((accept_handle_events here w is fs s).1.wait_list w).up_count
      ≡ (s.wait_list w).up_count + length is
unfolding accept_handle_events
events-up_count here w [] fs s = omega arith
events-up_count here w (i ∷ is) fs s = omega (
  arith,
  events-up_count here w is (set_ready i fs) (wait_list_up here w 1 s),
  wait_list_up-up_count here w s 1,
)

pub events_none :
    (here w : ℕ) (is : List ℕ) (fs : List ServerFd) (s : World)
    → length is ≡ 0
    → (accept_handle_events here w is fs s).0 ≡ fs
unfolding accept_handle_events
events_none here w [] fs s e = refl
events_none here w (i ∷ is) fs s e = absurd (omega arith)
