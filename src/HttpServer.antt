-- ===== src/HttpServer.antt =====
-- src/http_server.c: the server's table of connections.
pub mod Table
pub mod Destroying
pub mod Exchange
pub mod Resting
pub mod Phases
pub mod Creating
pub mod Lifecycle
mod Tests
use molerat.Base.{
  ◌&&◌, ℕ, zero, suc, ◌+◌, ◌-◌, ◌*◌, ◌%◌, ◌^◌, Bool, true, false, List, [], ◌∷◌, ltb, ◌==◌,
  if◌then◌else◌, update,
}

-- The fields `connections`, `connections_used` and `connections_size` of `struct http_server`.
pub record HttpServer : Type 0 where
  pub connections : ℕ → ℕ
  pub connections_used : ℕ
  pub connections_size : ℕ

-- A server, and the fields `index` of the `struct http_server_exchange` of its connections.
pub record Connections : Type 0 where
  pub server : HttpServer
  pub index : ℕ → ℕ

-- The table of `http_server_create`; what `xalloc` returns holds anything.
unfoldable pub http_server_create : (junk : ℕ → ℕ) → HttpServer
http_server_create junk = record { connections = junk; connections_used = 0; connections_size = 10 }

-- The `xrealloc` of `add_connection`, which keeps the entries there were room for.
abbrev pub grown : (junk : ℕ → ℕ) → HttpServer → HttpServer
grown junk s = record s {
  connections = λ i. if ltb i s.connections_size then s.connections i else junk i;
  connections_size = s.connections_size * 2 % 2 ^ 64;
}

unfoldable pub add_connection : (junk : ℕ → ℕ) (conn : ℕ) → Connections → Connections
add_connection junk conn c =
    let place = c.server.connections_used in
    let used = (place + 1) % 2 ^ 64 in
    let s = record c.server { connections_used = used } in
    let s' = if ltb c.server.connections_size used then grown junk s else s in
    record {
      server = record s' { connections = update s'.connections place conn };
      index = update c.index conn place;
    }

unfoldable pub remove_connection : (conn : ℕ) → Connections → Connections
remove_connection conn c =
    let used = (c.server.connections_used + 2 ^ 64 - 1) % 2 ^ 64 in
    let last = c.server.connections used in
    record {
      server = record c.server {
        connections = update c.server.connections (c.index conn) last;
        connections_used = used;
      };
      index = update c.index last (c.index conn);
    }

-- A call of `mutex_transfer` in `http_server_destroy`: whether it is vetoed, and the connections that other
-- threads remove until the mutex of the server is held again.
pub record Transfer : Type 0 where
  pub vetoed : Bool
  pub others : List ℕ

-- Whether the connection is in the table.
unfoldable pub is_listed : (conn : ℕ) → Connections → Bool
is_listed conn c =
    ltb (c.index conn) c.server.connections_used && (c.server.connections (c.index conn) == conn)

-- What other threads do to the table: a connection that is in it may be removed.
unfoldable pub remove_others : List ℕ → Connections → Connections
unfolding is_listed remove_connection
remove_others [] c = c
remove_others (conn ∷ conns) c =
    remove_others conns (if is_listed conn c then remove_connection conn c else c)

-- The loop of `http_server_destroy`; the list is of the connections destroyed by it. No transfers are left
-- where the loop has to go on.
unfoldable pub destroy_loop : List Transfer → Connections → Connections × List ℕ
unfolding remove_others remove_connection
destroy_loop [] c = (c, [])
destroy_loop (x ∷ later) c =
    let conn = c.server.connections 0 in
    let c' = remove_others x.others (if x.vetoed then c else remove_connection conn c) in
    let r = destroy_loop later c' in
    if c.server.connections_used == 0 then (c, []) else if x.vetoed then r else (r.0, conn ∷ r.1)
