-- ===== src/Socket/Accepting.antt =====
-- src/socket.c: proofs about `simple_server_socket_accept`.
use molerat.Base.{
  ℕ, zero, suc, ◌+◌, ◌<◌, ◌≡◌, refl, ap, sym, subst, ◌∙◌, arith, ◌⊎◌, inl, inr, Bool, true, false,
  Bool-cases, Option, some, List, [], ◌∷◌, length, Result, ok,
}
use molerat.Tasklet.{World}
use molerat.Tasklet.Waiting.{wait_list_down}
use molerat.Tasklet.Effects.{wait_list_down-TakesUps}
use molerat.Socket.Server.{
  AcceptAnswer, ServerFd, accept_handle_events, Scanned, got, scan_failed, none_ready, scan,
  arm_all, Accepted, new_socket, failed, waiting, Round, this_round, Scan, later_rounds,
  simple_server_socket_accept,
}
use molerat.Socket.Scanning.{
  IsSynced, IsArmed, AllFds, any_ready, scan-Scans, arm_all-Arms, events-AllFds, events-up_count,
  events_none,
}

-- What an accept comes to: a connection, with its descriptor still ready for more; a failure; or the
-- tasklet on the wait list, all events seen, no descriptor ready, and epoll watching all of them.
abbrev pub AcceptedAs : (w t : ℕ) → List ServerFd × World → Accepted → Type 0
AcceptedAs w t r (new_socket fd) = any_ready r.0 ≡ true
AcceptedAs w t r failed = Unit {0}
AcceptedAs w t r waiting =
    (any_ready r.0 ≡ false)
    × AllFds (λ f. IsArmed f.watched_fd) r.0
    × ((r.1.wait_list w).up_count ≡ 0)
    × ((r.1.tasklet t).wait ≡ some w)
    × ((r.1.tasklet t).waited ≡ true)

-- The ups to come.
abbrev pub ups_of : List Round → ℕ
ups_of [] = 0
ups_of (r ∷ rs) = length r.events + ups_of rs

ups_this :
    (rounds : List Round)
    → length (this_round rounds).events + ups_of (later_rounds rounds) ≡ ups_of rounds
ups_this [] = omega arith
ups_this (r ∷ rs) = refl

abbrev Accepts : (w t : ℕ) → Result ((List ServerFd × World) × Accepted) → Type 0
Accepts w t m = (r : (List ServerFd × World) × Accepted) × (m ≡ ok r) × AcceptedAs w t r.0 r.1

module _ (fuel here w t : ℕ) (rounds : List Round) (answers : List AcceptAnswer)
    (fs : List ServerFd) (s : World) where
  abbrev scanned : Scan
  scanned = scan answers fs

  abbrev armed : List ServerFd × Bool
  armed = arm_all (this_round rounds).told scanned.0.0

  abbrev after_events : List ServerFd × World
  after_events = accept_handle_events here w (this_round rounds).events armed.0 s

  abbrev downed : World × Option Bool
  downed = wait_list_down here w 1 t after_events.1

  -- A round in which no descriptor was ready.
  none_ready-Accepts :
      scanned.1 ≡ none_ready
      → AllFds (λ f. IsSynced f.watched_fd) fs
      → (s.wait_list w).up_count + ups_of rounds < suc fuel
      → ((s' : World)
          → (s'.wait_list w).up_count + ups_of (later_rounds rounds) < fuel
          → Accepts w t (
              simple_server_socket_accept fuel here w t
                (later_rounds rounds)
                scanned.0.1
                after_events.0
                s'))
      → Accepts w t (simple_server_socket_accept (suc fuel) here w t rounds answers fs s)
  unfolding simple_server_socket_accept
  none_ready-Accepts e h enough again =
      let x = scan-Scans answers fs h in
      let a = arm_all-Arms (this_round rounds).told scanned.0.0 x.synced in
      let ups = events-up_count here w (this_round rounds).events armed.0 s in
      elim (Bool-cases armed.1) [
        | inr q ↦ (((armed.0, s), failed), rw (simple_server_socket_accept, e, q) refl, tt)
        | inl q ↦ elim (wait_list_down-TakesUps here w after_events.1 1 t) [
          | inl (d, taken) ↦
              let (r, ran, as') = again downed.0 (omega (arith, taken, ups, ups_this rounds)) in
              (r, rw (simple_server_socket_accept, e, q, d) ran, as')
          | inr (d, kept, few, on, waited) ↦
              let still =
                events_none here w (this_round rounds).events armed.0 s (omega (arith, ups, few)) in
              (
                ((after_events.0, downed.0), waiting),
                rw (simple_server_socket_accept, e, q, d) refl,
                (
                  ap any_ready still ∙ (a.ready ∙ x.none_left e),
                  subst (AllFds (λ f. IsArmed f.watched_fd)) (sym still) (a.armed q),
                  omega (arith, kept, few),
                  on,
                  waited,
                ),
              )
        ]
      ]

  got-Accepts :
      (fd : ℕ)
      → scanned.1 ≡ got fd
      → AllFds (λ f. IsSynced f.watched_fd) fs
      → Accepts w t (simple_server_socket_accept (suc fuel) here w t rounds answers fs s)
  unfolding simple_server_socket_accept
  got-Accepts fd e h = (
    ((scanned.0.0, s), new_socket fd),
    rw (simple_server_socket_accept, e) refl,
    (scan-Scans answers fs h).more fd e,
  )

  failed-Accepts :
      scanned.1 ≡ scan_failed
      → Accepts w t (simple_server_socket_accept (suc fuel) here w t rounds answers fs s)
  unfolding simple_server_socket_accept
  failed-Accepts e = (((scanned.0.0, s), failed), rw (simple_server_socket_accept, e) refl, tt)

Scanned-cases : (x : Scanned) → ((fd : ℕ) × (x ≡ got fd)) ⊎ ((x ≡ scan_failed) ⊎ (x ≡ none_ready))
Scanned-cases (got fd) = inl (fd, refl)
Scanned-cases scan_failed = inr (inl refl)
Scanned-cases none_ready = inr (inr refl)

-- With fuel for the ups there are and those of the events to come, `simple_server_socket_accept` comes
-- back, whatever the system answers, where the events of each round come between its accepts and the look
-- at the wait list, each with its up. With a new connection its descriptor is still ready. Without one, and
-- without an error, the tasklet waits, no up and no ready descriptor is left, and epoll watches all
-- descriptors.
simple_server_socket_accept-AcceptedAs :
    (fuel here w t : ℕ) (rounds : List Round) (answers : List AcceptAnswer) (fs : List ServerFd)
    (s : World)
    → AllFds (λ f. IsSynced f.watched_fd) fs
    → (s.wait_list w).up_count + ups_of rounds < fuel
    → (r : (List ServerFd × World) × Accepted) × (simple_server_socket_accept fuel here w t rounds
          answers fs s
        ≡ ok r)
      × AcceptedAs w t r.0 r.1
simple_server_socket_accept-AcceptedAs zero here w t rounds answers fs s h enough =
    absurd (omega arith)
simple_server_socket_accept-AcceptedAs (suc fuel) here w t rounds answers fs s h enough =
    elim (Scanned-cases (scan answers fs).1) [
      | inl (fd, e) ↦ got-Accepts fuel here w t rounds answers fs s fd e h
      | inr (inl e) ↦ failed-Accepts fuel here w t rounds answers fs s e
      | inr (inr e) ↦
          let x = scan answers fs in
          let armed' = arm_all (this_round rounds).told x.0.0 in
          let synced =
            (arm_all-Arms (this_round rounds).told x.0.0 (scan-Scans answers fs h).synced).synced in
          none_ready-Accepts fuel here w t rounds answers fs s e h enough λ s' enough'.
            simple_server_socket_accept-AcceptedAs fuel here w t (later_rounds rounds) x.0.1
              (accept_handle_events here w (this_round rounds).events armed'.0 s).0 s'
              (events-AllFds IsSynced here w (this_round rounds).events armed'.0 s synced) enough'
    ]
