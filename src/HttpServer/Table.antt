-- ===== src/HttpServer/Table.antt =====
-- src/http_server.c: the connections' places in the table.
use molerat.Base.{
  ℕ, ◌+◌, ◌-◌, ◌*◌, ◌%◌, ◌^◌, ◌≤◌, ◌<◌, ◌≡◌, ◌≢◌, sym, ap, ◌∙◌, subst, arith, ◌⊎◌, inl, inr, ◌↔◌,
  update_self, update_ne, dec_lt, ℕ_discrete,
}
use molerat.HttpServer.{Connections, add_connection, remove_connection}

-- Each place in use holds a connection whose `index` it is.
pub record IsTable (c : Connections) : Type 0 where
  pub fits : c.server.connections_used ≤ c.server.connections_size
  pub some_size : 0 < c.server.connections_size
  pub size_lt : c.server.connections_size < 2 ^ 63
  pub at_index : (i : ℕ) → i < c.server.connections_used → c.index (c.server.connections i) ≡ i

-- The connection is in the table.
abbrev pub Has : Connections → ℕ → Type 0
Has c conn = (i : ℕ) × (i < c.server.connections_used) × (c.server.connections i ≡ conn)

module _ (junk : ℕ → ℕ) (conn : ℕ) (c : Connections) (h : IsTable c) where
  added : Connections
  added = add_connection junk conn c

  added_used : added.server.connections_used ≡ c.server.connections_used + 1
  unfolding added add_connection
  added_used = let f = h.fits in let l = h.size_lt in ground arith

  added_last : added.server.connections c.server.connections_used ≡ conn
  unfolding added add_connection
  added_last = let f = h.fits in let l = h.size_lt in ground arith

  added_other :
      (i : ℕ) → i < c.server.connections_used → added.server.connections i ≡ c.server.connections i
  unfolding added add_connection
  added_other i lt = let f = h.fits in let l = h.size_lt in ground arith

  added_size :
      (added.server.connections_size ≡ c.server.connections_size
        × (c.server.connections_used < c.server.connections_size))
      ⊎ (added.server.connections_size ≡ c.server.connections_size * 2)
  unfolding added add_connection
  added_size = let f = h.fits in let l = h.size_lt in ground arith

  added_index : added.index conn ≡ c.server.connections_used
  unfolding added add_connection
  added_index = update_self c.index conn c.server.connections_used

  added_index_other : (d : ℕ) → d ≢ conn → added.index d ≡ c.index d
  unfolding added add_connection
  added_index_other d ne = update_ne c.index conn d c.server.connections_used (λ e. ne (sym e))

  -- A connection that is added comes to the others.
  pub add_connection-IsTable :
      c.server.connections_size < 2 ^ 62
      → ¬ Has c conn
      → IsTable (add_connection junk conn c)
        × ((d : ℕ) → Has (add_connection junk conn c) d ↔ (Has c d ⊎ (d ≡ conn)))
  unfolding added
  add_connection-IsTable room fresh =
      let used = added_used in
      (
        record {
          fits = elim added_size [
            | inl (same, lt) ↦ omega (arith, h.fits)
            | inr twice ↦ omega (arith, h.fits, h.some_size)
          ];
          some_size = elim added_size [
            | inl (same, lt) ↦ omega (arith, h.some_size)
            | inr twice ↦ omega (arith, h.some_size)
          ];
          size_lt = elim added_size [
            | inl (same, lt) ↦ omega (arith, h.size_lt)
            | inr twice ↦ omega (arith, room)
          ];
          at_index = λ i lt. elim (dec_lt i c.server.connections_used) [
            | yes old ↦ rw (added_other i old) (
                added_index_other (c.server.connections i) (λ e. fresh (i, old, e))
                ∙ h.at_index i old)
            | no new ↦
                let e : i ≡ c.server.connections_used = omega arith in
                subst (λ n. (added.index (added.server.connections n)) ≡ n) (sym e)
                  (rw added_last added_index)
          ];
        },
        λ d. (
          (λ has. elim (dec_lt has.0 c.server.connections_used) [
            | yes old ↦ inl (has.0, old, sym (added_other has.0 old) ∙ has.2)
            | no new ↦
                let e : has.0 ≡ c.server.connections_used = omega (arith, has.1) in
                inr (sym has.2 ∙ (ap added.server.connections e ∙ added_last))
          ]),
          (λ has. elim has [
            | inl (i, lt, e) ↦ (i, omega arith, added_other i lt ∙ e)
            | inr e ↦ (c.server.connections_used, omega arith, added_last ∙ sym e)
          ]),
        ),
      )

-- A connection is in one place.
Has_once :
    (c : Connections)
    → IsTable c
    → (i j : ℕ) → i < c.server.connections_used
    → j < c.server.connections_used
    → c.server.connections i ≡ c.server.connections j
    → i ≡ j
Has_once c h i j lt₁ lt₂ e = sym (h.at_index i lt₁) ∙ (ap c.index e ∙ h.at_index j lt₂)

module _ (conn : ℕ) (c : Connections) (h : IsTable c) (place : ℕ)
    (within : place < c.server.connections_used) (here : c.server.connections place ≡ conn) where
  removed : Connections
  removed = remove_connection conn c

  removed_used : removed.server.connections_used + 1 ≡ c.server.connections_used
  unfolding removed remove_connection
  removed_used = omega (arith, h.fits, h.size_lt)

  last_place : ℕ
  last_place = c.server.connections_used - 1

  conn_index : c.index conn ≡ place
  conn_index = ap c.index (sym here) ∙ h.at_index place within

  last_used : (c.server.connections_used + 2 ^ 64 - 1) % 2 ^ 64 ≡ last_place
  unfolding last_place
  last_used = omega (arith, h.fits, h.size_lt)

  removed_here : removed.server.connections place ≡ c.server.connections last_place
  unfolding removed remove_connection
  removed_here =
      rw (remove_connection, conn_index, last_used) (update_self c.server.connections place _)

  removed_other : (i : ℕ) → i ≢ place → removed.server.connections i ≡ c.server.connections i
  unfolding removed remove_connection
  removed_other i ne =
      rw (remove_connection, conn_index, last_used)
        (update_ne c.server.connections place i _ (λ e. ne (sym e)))

  removed_index : removed.index (c.server.connections last_place) ≡ place
  unfolding removed remove_connection
  removed_index = rw (remove_connection, conn_index, last_used) (update_self c.index _ place)

  removed_index_other : (d : ℕ) → d ≢ c.server.connections last_place → removed.index d ≡ c.index d
  unfolding removed remove_connection
  removed_index_other d ne =
      rw (remove_connection, conn_index, last_used) (update_ne c.index _ d place (λ e. ne (sym e)))

  last_lt : last_place < c.server.connections_used
  unfolding last_place
  last_lt = omega arith

  last_of :
      (i : ℕ)
      → i < c.server.connections_used
      → ¬ (i < removed.server.connections_used)
      → i ≡ last_place
  unfolding last_place
  last_of i lt gone = omega (arith, removed_used)

  below_last : (i : ℕ) → i < removed.server.connections_used → i < last_place
  unfolding last_place
  below_last i lt = omega (arith, removed_used)

  removed-IsTable : IsTable removed
  unfolding removed remove_connection
  removed-IsTable = record {
    fits = omega (arith, h.fits, removed_used);
    some_size = h.some_size;
    size_lt = h.size_lt;
    at_index = λ i lt. elim (ℕ_discrete i place) [
      | yes e ↦
          subst (λ n. removed.index (removed.server.connections n) ≡ n) (sym e)
            (rw removed_here removed_index)
      | no ne ↦
          let old : i < c.server.connections_used = omega (arith, removed_used) in
          rw (removed_other i ne) (
            removed_index_other (c.server.connections i) (λ e.
              absurd (omega (arith, below_last i lt, Has_once c h i last_place old last_lt e)))
            ∙ h.at_index i old)
    ];
  }

  removed-Has : (d : ℕ) → Has removed d → Has c d × (d ≢ conn)
  removed-Has d (i, lt, e) = elim (ℕ_discrete i place) [
    | yes at_place ↦
        let is_last : c.server.connections last_place ≡ d =
          sym removed_here ∙ (ap removed.server.connections (sym at_place) ∙ e) in
        (
          (last_place, last_lt, is_last),
          λ q. absurd (
              omega (
                arith,
                below_last i lt,
                Has_once c h last_place place last_lt within (is_last ∙ (q ∙ sym here)),
              )),
        )
    | no ne ↦
        let old : i < c.server.connections_used = omega (arith, removed_used) in
        let same : c.server.connections i ≡ d = sym (removed_other i ne) ∙ e in
        ((i, old, same), λ q. ne (Has_once c h i place old within (same ∙ (q ∙ sym here))))
  ]

  Has-removed : (d : ℕ) → Has c d → d ≢ conn → Has removed d
  Has-removed d (i, lt, e) ne =
      let elsewhere : i ≢ place = λ q. ne (sym e ∙ (ap c.server.connections q ∙ here)) in
      elim (dec_lt i removed.server.connections_used) [
        | yes still ↦ (i, still, removed_other i elsewhere ∙ e)
        | no gone ↦
            let q : i ≡ last_place = last_of i lt gone in
            (
              place,
              omega (arith, removed_used, last_of i lt gone, last_lt),
              removed_here ∙ (ap c.server.connections (sym q) ∙ e),
            )
      ]

-- A connection that is removed leaves the others, the last of which takes its place.
pub remove_connection-IsTable :
    (conn : ℕ) (c : Connections)
    → IsTable c
    → Has c conn
    → IsTable (remove_connection conn c)
      × ((d : ℕ) → Has (remove_connection conn c) d ↔ (Has c d × (d ≢ conn)))
      × ((remove_connection conn c).server.connections_used + 1 ≡ c.server.connections_used)
unfolding removed
remove_connection-IsTable conn c h (place, within, here) = (
  removed-IsTable conn c h place within here,
  (λ d. (
    removed-Has conn c h place within here d,
    λ p. Has-removed conn c h place within here d p.0 p.1,
  )),
  removed_used conn c h place within here,
)
