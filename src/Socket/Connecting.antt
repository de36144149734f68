-- ===== src/Socket/Connecting.antt =====
-- src/socket.c: proofs about `start_connecting`.
use molerat.Base.{
  ℕ, ◌+◌, ◌≡◌, refl, ap, subst, arith, true, false, some, List, [], ◌∷◌, ◌++◌, Result, ok,
}
use molerat.Tasklet.{World}
use molerat.Tasklet.Waiting.{wait_list_up}
use molerat.Tasklet.Effects.{wait_list_up-up_count}
use molerat.Epoll.{only_out, new_watched_fd, events_to_system, watched_fd_set_interest}
use molerat.Socket.{SimpleSocket, simple_socket_wake_all}
use molerat.Socket.Connector.{
  Attempt, no_socket, connects, pends, refuses, Connector, held, connector_close, with_socket,
  give_up, try_addresses, start_connecting,
}

-- Each descriptor that was opened was closed, but for the connector's own.
abbrev pub IsTight : Connector → Type 0
IsTight c = c.opened ≡ c.closed + held c.fd

-- An address that comes to nothing.
abbrev pub Fails : Attempt → Type 0
Fails no_socket = Unit {0}
Fails (refuses fd) = Unit {0}
Fails _ = ⊥

abbrev pub AllFail : List Attempt → Type 0
AllFail [] = Unit {0}
AllFail (a ∷ as') = Fails a × AllFail as'

-- The connector is on an address, with the end of the attempt still to come or already noted: epoll watches
-- the descriptor, or the tasklet's wait list has an up.
abbrev pub Trying : Attempt → Connector → World → Connector → World → Type 0
Trying (connects fd) c world c' world' =
    (c'.fd ≡ some fd)
    × ((world'.wait_list c.connecting).up_count ≡ (world.wait_list c.connecting).up_count + 1)
Trying (pends fd told) c world c' world' =
    (told ≡ true) × (c'.fd ≡ some fd) × (c'.watched_fd.told.epollout ≡ true) × (world' ≡ world)
Trying _ c world c' world' = ⊥

-- What `start_connecting` comes to with the addresses `addrs`: it is on the first that does not fail at
-- once; or all failed, or epoll could not be told, and then the error is set and all readers and writers
-- are woken.
pub data Started (here : ℕ) (s : SimpleSocket) (addrs : List Attempt) (c : Connector)
    (world : World) (c' : Connector) (world' : World) : Type 0 where
  on_address :
      (failed : List Attempt) (a : Attempt) (rest : List Attempt)
      → addrs ≡ failed ++ a ∷ rest
      → AllFail failed
      → Trying a c world c' world'
      → c'.error ≡ false
      → c'.next_addrinfo ≡ rest
      → Started here s addrs c world c' world'
  exhausted :
      AllFail addrs
      → c'.error ≡ true
      → c'.next_addrinfo ≡ []
      → world' ≡ simple_socket_wake_all here s world
      → Started here s addrs c world c' world'
  untold :
      (failed : List Attempt) (fd : ℕ) (rest : List Attempt)
      → addrs ≡ failed ++ pends fd false ∷ rest
      → AllFail failed
      → c'.error ≡ true
      → c'.next_addrinfo ≡ rest
      → world' ≡ simple_socket_wake_all here s world
      → Started here s addrs c world c' world'

-- One address more that failed.
Started-later :
    {here : ℕ} {s : SimpleSocket} {addrs : List Attempt} {c d : Connector} {world : World}
    {c' : Connector} {world' : World} (a : Attempt)
    → Fails a
    → d.connecting ≡ c.connecting
    → Started here s addrs d world c' world'
    → Started here s (a ∷ addrs) c world c' world'
Started-later {c = c} {d = d} {world = world} {c' = c'} {world' = world'} a f same
      (on_address failed b rest e all t ok' next) =
    on_address (a ∷ failed) b rest (ap (λ as'. a ∷ as') e) (f, all) (retry b t) ok' next
  where
    retry : (b : Attempt) → Trying b d world c' world' → Trying b c world c' world'
    retry no_socket t' = t'
    retry (connects fd) t' = (
      t'.0,
      subst (λ k. (world'.wait_list k).up_count ≡ (world.wait_list k).up_count + 1) same t'.1,
    )
    retry (pends fd told) t' = t'
    retry (refuses fd) t' = t'
Started-later a f same (exhausted all e next woken) = exhausted (f, all) e next woken
Started-later a f same (untold failed fd rest e all e' next woken) =
    untold (a ∷ failed) fd rest (ap (λ as'. a ∷ as') e) (f, all) e' next woken

abbrev Starts :
    (here : ℕ)
    → SimpleSocket
    → List Attempt
    → Connector
    → World
    → Result (Connector × World)
    → Type 0
Starts here s addrs c world m =
    (r : Connector × World) × (m ≡ ok r) × IsTight r.0 × Started here s addrs c world r.0 r.1

try_addresses-Starts :
    (here : ℕ) (s : SimpleSocket) (addrs : List Attempt) (c : Connector) (world : World)
    → IsTight c
    → c.next_addrinfo ≡ addrs
    → (addrs ≡ [] → c.error ≡ true)
    → Starts here s addrs c world (try_addresses here s addrs c world)
unfolding try_addresses connector_close with_socket give_up watched_fd_set_interest new_watched_fd
    events_to_system
try_addresses-Starts here s [] c world tight next e =
    let e' = e refl in
    ((c, simple_socket_wake_all here s world), rw e' refl, tight, exhausted tt e' next refl)
try_addresses-Starts here s (no_socket ∷ rest) c world tight next e =
    let c' = record (connector_close c) { next_addrinfo = rest; error = true } in
    let (r, ran, tight', st) =
      try_addresses-Starts here s rest c' world (omega arith) refl (λ _. refl) in
    (r, ran, tight', Started-later no_socket tt refl st)
try_addresses-Starts here s (connects fd ∷ rest) c world tight next e =
    let c' = with_socket fd (record (connector_close c) { next_addrinfo = rest; error = false }) in
    (
      (c', wait_list_up here c.connecting 1 world),
      refl,
      omega arith,
      on_address [] (connects fd) rest refl tt
          (refl, wait_list_up-up_count here c.connecting world 1) refl refl,
    )
try_addresses-Starts here s (pends fd true ∷ rest) c world tight next e =
    let c' = with_socket fd (record (connector_close c) { next_addrinfo = rest; error = false }) in
    (
      (record c' { watched_fd = (watched_fd_set_interest true only_out c'.watched_fd).0 }, world),
      refl,
      omega arith,
      on_address [] (pends fd true) rest refl tt (refl, refl, refl, refl) refl refl,
    )
try_addresses-Starts here s (pends fd false ∷ rest) c world tight next e =
    let c' = with_socket fd (record (connector_close c) { next_addrinfo = rest; error = true }) in
    (
      (c', simple_socket_wake_all here s world),
      refl,
      omega arith,
      untold [] fd rest refl tt refl refl refl,
    )
try_addresses-Starts here s (refuses fd ∷ rest) c world tight next e =
    let c' = with_socket fd (record (connector_close c) { next_addrinfo = rest; error = true }) in
    let (r, ran, tight', st) =
      try_addresses-Starts here s rest c' world (omega arith) refl (λ _. refl) in
    (r, ran, tight', Started-later (refuses fd) tt refl st)

-- From a connector with addresses left or its error set `start_connecting` comes back, every descriptor
-- that was opened closed again but the connector's own, and it is at the first address that does not
-- fail at once, where epoll watches the descriptor or the wait list has an up; or all addresses failed,
-- or epoll could not be told, and then the error is set and the readers and writers are woken.
pub start_connecting-Started :
    (here : ℕ) (s : SimpleSocket) (c : Connector) (world : World)
    → IsTight c
    → (c.next_addrinfo ≡ [] → c.error ≡ true)
    → (r : Connector × World) × (start_connecting here s c world ≡ ok r)
      × IsTight r.0
      × Started here s c.next_addrinfo c world r.0 r.1
unfolding start_connecting
start_connecting-Started here s c world tight e =
    try_addresses-Starts here s c.next_addrinfo c world tight refl e
