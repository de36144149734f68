-- ===== src/HttpServer/Destroying.antt =====
-- src/http_server.c: the loop of `http_server_destroy`.
use molerat.Base.{
  ◌++◌, ℕ, suc, ◌≤◌, ◌<◌, ◌≡◌, refl, sym, arith, Bool-cases, true, false, List, [], ◌∷◌, length,
  has, ◌==◌, ℕ_discrete, dec_lt, ◌⊎◌, inl, inr, if◌then◌else◌, has-append,
}
use molerat.HttpServer.{
  Connections, Transfer, is_listed, remove_connection, remove_others, destroy_loop,
}
use molerat.HttpServer.Table.{IsTable, Has, remove_connection-IsTable}

-- How many of the transfers of the mutex succeed.
abbrev pub successes : List Transfer → ℕ
successes [] = 0
successes (x ∷ later) = if x.vetoed then successes later else suc (successes later)

-- The connections that other threads remove meanwhile.
abbrev pub all_others : List Transfer → List ℕ
all_others [] = []
all_others (x ∷ later) = x.others ++ all_others later

-- What the loop leaves: no connection. Each that was there was destroyed by the loop, or removed by another
-- thread, and the loop destroyed no more than there were.
pub record Destroyed (xs : List Transfer) (c : Connections) (r : Connections × List ℕ)
    : Type 0 where
  pub none_left : r.0.server.connections_used ≡ 0
  pub each : (d : ℕ) → Has c d → (has d r.1 ≡ true) ⊎ (has d (all_others xs) ≡ true)
  pub count : length r.1 ≤ c.server.connections_used
  pub known : (d : ℕ) → has d r.1 ≡ true → Has c d

-- The table behind what other threads removed.
record Fewer (conns : List ℕ) (c c' : Connections) : Type 0 where
  table : IsTable c'
  used : c'.server.connections_used ≤ c.server.connections_used
  kept : (d : ℕ) → Has c d → Has c' d ⊎ (has d conns ≡ true)
  before : (d : ℕ) → Has c' d → Has c d

is_listed-Has : (conn : ℕ) (c : Connections) → is_listed conn c ≡ true → Has c conn
unfolding is_listed
is_listed-Has conn c e = (c.index conn, ground arith, ground arith)

one_other-Fewer :
    (conn : ℕ) (conns : List ℕ) (c : Connections)
    → IsTable c
    → Fewer (conn ∷ conns) c (if is_listed conn c then remove_connection conn c else c)
one_other-Fewer conn conns c h = elim (Bool-cases (is_listed conn c)) [
  | inl e ↦
      let (table, members, count) = remove_connection-IsTable conn c h (is_listed-Has conn c e) in
      rw e (record {
        table = table;
        used = omega (arith, count);
        kept = λ d m. elim (ℕ_discrete d conn) [
          | yes same ↦ inr (ground arith)
          | no other ↦ inl ((members d).1 (m, other))
        ];
        before = λ d m. ((members d).0 m).0;
      })
  | inr e ↦ rw e (record { table = h; used = omega arith; kept = λ d m. inl m; before = λ d m. m })
]

remove_others-Fewer :
    (conns : List ℕ) (c : Connections) → IsTable c → Fewer conns c (remove_others conns c)
unfolding remove_others
remove_others-Fewer [] c h = record {
  table = h;
  used = omega arith;
  kept = λ d m. inl m;
  before = λ d m. m;
}
remove_others-Fewer (conn ∷ conns) c h =
    let first = one_other-Fewer conn conns c h in
    let c' = if is_listed conn c then remove_connection conn c else c in
    let rest = remove_others-Fewer conns c' first.table in
    record {
      table = rest.table;
      used = omega (arith, first.used, rest.used);
      kept = λ d m. elim (first.kept d m) [
        | inl m' ↦ elim (rest.kept d m') [ inl m'' ↦ inl m'' | inr later ↦ inr (ground arith) ]
        | inr now ↦ inr now
      ];
      before = λ d m. first.before d (rest.before d m);
    }

none_used :
    (xs : List Transfer) (c : Connections) → c.server.connections_used ≡ 0 → Destroyed xs c (c, [])
none_used xs c e = record {
  none_left = e;
  each = λ d h. absurd (omega (arith, h.1));
  count = omega arith;
  known = λ d h. absurd (ground arith);
}

loop_stops :
    (xs : List Transfer) (c : Connections)
    → c.server.connections_used ≡ 0
    → destroy_loop xs c ≡ (c, [])
unfolding destroy_loop
loop_stops [] c e = refl
loop_stops (x ∷ later) c e = rw (destroy_loop, e) refl

loop_retries :
    (x : Transfer) (later : List Transfer) (c : Connections)
    → 0 < c.server.connections_used
    → x.vetoed ≡ true
    → destroy_loop (x ∷ later) c ≡ destroy_loop later (remove_others x.others c)
unfolding destroy_loop
loop_retries x later c some_used e =
    let more : c.server.connections_used == 0 ≡ false = ground arith in
    rw (destroy_loop, more, e) refl

loop_destroys :
    (x : Transfer) (later : List Transfer) (c : Connections)
    → 0 < c.server.connections_used
    → x.vetoed ≡ false
    → destroy_loop (x ∷ later) c ≡ (
        let conn = c.server.connections 0 in
        let r = destroy_loop later (remove_others x.others (remove_connection conn c)) in
        (r.0, conn ∷ r.1))
unfolding destroy_loop
loop_destroys x later c some_used e =
    let more : c.server.connections_used == 0 ≡ false = ground arith in
    rw (destroy_loop, more, e) refl

-- A round: others removed some connections of `c`, and the rest of the loop destroyed what was left.
further-Destroyed :
    (x : Transfer) (later : List Transfer) (c c' : Connections) (r : Connections × List ℕ)
    → Fewer x.others c c'
    → Destroyed later c' r
    → Destroyed (x ∷ later) c r
further-Destroyed x later c c' r f next = record {
  none_left = next.none_left;
  each = λ d m. elim (f.kept d m) [
    | inl m' ↦ elim (next.each d m') [
      | inl done ↦ inl done
      | inr other ↦ inr (ground (arith, has-append d x.others (all_others later)))
    ]
    | inr now ↦ inr (ground (arith, has-append d x.others (all_others later)))
  ];
  count = omega (arith, next.count, f.used);
  known = λ d m. f.before d (next.known d m);
}

-- Destroying a server with a sound table, while transfers are vetoed and other threads remove connections of
-- their own, ends once as many transfers succeeded as there were connections. Then none is left: each was
-- destroyed by the loop or removed by another thread, and the loop destroyed no more than there were.
pub destroy_loop-Destroyed :
    (xs : List Transfer) (c : Connections)
    → IsTable c
    → c.server.connections_used ≤ successes xs
    → Destroyed xs c (destroy_loop xs c)
destroy_loop-Destroyed [] c h enough =
    let e : c.server.connections_used ≡ 0 = omega arith in rw (loop_stops [] c e) (none_used [] c e)
destroy_loop-Destroyed (x ∷ later) c h enough = elim (dec_lt 0 c.server.connections_used) [
  | yes some_used ↦ elim (Bool-cases x.vetoed) [
    | inl vetoed ↦
        let f = remove_others-Fewer x.others c h in
        let left : c.server.connections_used ≤ successes later = rw vetoed at enough in
        rw (loop_retries x later c some_used vetoed) (
          further-Destroyed x later c (remove_others x.others c) _ f (
            destroy_loop-Destroyed later (remove_others x.others c) f.table
              (omega (arith, f.used, left))))
    | inr passed ↦
        let conn = c.server.connections 0 in
        let gone = remove_connection conn c in
        let (table, members, fewer) = remove_connection-IsTable conn c h (0, some_used, refl) in
        let f = remove_others-Fewer x.others gone table in
        let left : c.server.connections_used ≤ suc (successes later) = rw passed at enough in
        let next = further-Destroyed x later gone (remove_others x.others gone) _ f (
          destroy_loop-Destroyed later (remove_others x.others gone) f.table
            (omega (arith, f.used, left, fewer))) in
        rw (loop_destroys x later c some_used passed) (record {
          none_left = next.none_left;
          each = λ d m. elim (ℕ_discrete d conn) [
            | yes e ↦ inl (ground arith)
            | no ne ↦ elim (next.each d ((members d).1 (m, ne))) [
              | inl done ↦ inl (ground arith)
              | inr other ↦ inr other
            ]
          ];
          count = omega (arith, next.count, fewer);
          known = λ d m. elim (ℕ_discrete d conn) [
            | yes e ↦ (0, some_used, sym e)
            | no ne ↦ ((members d).0 (next.known d (ground arith))).0
          ];
        })
  ]
  | no nothing ↦
      let e : c.server.connections_used ≡ 0 = omega arith in
      rw (loop_stops (x ∷ later) c e) (none_used (x ∷ later) c e)
]
