-- ===== src/HttpServer/Tests.antt =====
-- Runs of the table of connections, and its theorems at concrete tables.
use molerat.Base.{◌+◌, ◌-◌, ◌≡◌, refl, arith, inl, true, false, none, [], ◌∷◌, ok}
use molerat.HttpServer.{
  Connections, Transfer, is_listed, remove_others, remove_connection, destroy_loop,
}
use molerat.Tasklet.{current_started, wait_list_init}
use molerat.HttpServer.Exchange.{Exchange, Serving, connection_create}
use molerat.HttpServer.Creating.{Created, connection_create-Created}
use molerat.HttpServer.Phases.{handling, Holds}
use molerat.HttpServer.Table.{IsTable, Has}
use molerat.HttpServer.Destroying.{Destroyed, destroy_loop-Destroyed}

-- Connections 100, 101 and 102 in a table of ten.
abbrev three_connections : Connections
three_connections = record {
  server = record { connections = λ i. 100 + i; connections_used = 3; connections_size = 10 };
  index = λ d. d - 100;
}

three_connections-IsTable : IsTable three_connections
three_connections-IsTable = record {
  fits = omega arith;
  some_size = omega arith;
  size_lt = omega arith;
  at_index = λ i lt. omega arith;
}

fresh_connection : ¬ Has three_connections 7
fresh_connection h = absurd (omega (arith, h.2))

abbrev passes : Transfer
passes = record { vetoed = false; others = [] }

abbrev vetoes : Transfer
vetoes = record { vetoed = true; others = 102 ∷ [] }

-- Another thread removes connection 102, which vetoes a transfer.
destroyed_test :
    (destroy_loop (vetoes ∷ passes ∷ passes ∷ passes ∷ []) three_connections).1 ≡ 100 ∷ 101 ∷ []
unfolding destroy_loop remove_connection remove_others is_listed
destroyed_test = refl

destroy_loop-Destroyed_example :
    Destroyed
      (vetoes ∷ passes ∷ passes ∷ passes ∷ [])
      three_connections
      (destroy_loop (vetoes ∷ passes ∷ passes ∷ passes ∷ []) three_connections)
destroy_loop-Destroyed_example =
    destroy_loop-Destroyed (vetoes ∷ passes ∷ passes ∷ passes ∷ []) three_connections
      three_connections-IsTable (omega arith)

-- Connection 101 while it is handled; no timer is set, and no tasklet runs.
abbrev exchange : Exchange
exchange = record { conn = 101; tasklet = 1; timeout = 5; timeout_tasklet = 2 }

abbrev serving : Serving
serving = record {
  connections = three_connections;
  timers = record {
    timer =
        λ t. record { earliest = 0; latest = 0; fired = false; next = none; prev = 0; waiting = 0 };
    timers = none;
    thread_woken = false;
    thread_stopping = false;
    wakes = 0;
  };
  world = record {
    tasklet = λ t. record { handler = 0; wait = none; unwaiting = 0; waited = false; runq = none };
    wait_list = λ w. wait_list_init 0;
    run_queue = λ q. record {
      queued = [];
      current = none;
      current_state = current_started;
      stop_waiting = false;
      worker_waiting = false;
      signalled = false;
    };
  };
  handled = [];
  freed = [];
}

serving-Holds : Holds handling exchange [] serving
unfolding wait_list_init
serving-Holds = (
  record {
    timers = record { ring = refl; outside = λ k h. refl; unfired = λ k h. absurd (cc) };
    table = three_connections-IsTable;
    listed = (1, omega arith, refl);
    alone = ((λ e. omega arith), refl, inl refl);
  },
  refl,
  refl,
  (refl, λ q e. cc),
)

abbrev newcomer : Exchange
newcomer = record { conn = 7; tasklet = 3; timeout = 6; timeout_tasklet = 4 }

connection_create-Created_example :
    (q : Serving) × (connection_create (λ i. 0) 0 50 newcomer serving ≡ ok q)
    × Created 0 newcomer serving q
connection_create-Created_example =
    connection_create-Created (λ i. 0) 0 50 newcomer [] serving (λ e. omega arith)
      serving-Holds.0.timers refl three_connections-IsTable fresh_connection (omega arith)
