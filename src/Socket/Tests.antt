-- ===== src/Socket/Tests.antt =====
-- src/socket.c: concrete runs.
use molerat.Base.{◌≡◌, refl, true, false, none, some, List, [], ◌∷◌, ok}
use molerat.Tasklet.{current_started, World}
use molerat.Epoll.{new_watched_fd}
use molerat.Socket.{SimpleSocket}
use molerat.Socket.Server.{ServerFd, Round}
use molerat.Socket.Connector.{no_socket, pends, refuses, Connector, start_connecting}
use molerat.Socket.Connecting.{IsTight, Started, start_connecting-Started}

-- Tasklet 1 is idle, and no list has waiters; list 0 has an up.
abbrev world : World
world = record {
  tasklet = λ t. record { handler = 0; wait = none; unwaiting = 0; waited = false; runq = none };
  wait_list = λ w. record { waiters = []; finishing = false; unwaiting = 0; up_count = 1 };
  run_queue = λ q. record {
    queued = [];
    current = none;
    current_state = current_started;
    stop_waiting = false;
    worker_waiting = false;
    signalled = false;
  };
}

-- Two descriptors, one of them ready.
abbrev fds : List ServerFd
fds =
    record { watched_fd = new_watched_fd 5; fd = 5; ready = false }
    ∷ record { watched_fd = new_watched_fd 6; fd = 6; ready = true }
    ∷ []

-- A connection comes to the first descriptor after its turn in the first round.
abbrev rounds : List Round
rounds = record { told = true ∷ true ∷ []; events = 0 ∷ [] } ∷ []

abbrev socket : SimpleSocket
socket = record { reading = 1; writing = 2; watched_fd = new_watched_fd 0; fd = none; closes = 0 }

abbrev connector : Connector
connector = record {
  tasklet = 1;
  connecting = 3;
  watched_fd = new_watched_fd 4;
  fd = some 4;
  connected = false;
  next_addrinfo = no_socket ∷ refuses 5 ∷ pends 6 true ∷ no_socket ∷ [];
  error = true;
  opened = 1;
  closed = 0;
  destroyed = 0;
}

start_connecting-Started_example :
    (r : Connector × World) × (start_connecting 2 socket connector world ≡ ok r)
    × IsTight r.0
    × Started 2 socket connector.next_addrinfo connector world r.0 r.1
start_connecting-Started_example =
    start_connecting-Started 2 socket connector world refl (λ e. refl)
