-- ===== src/HttpStatus/Searching.antt =====
-- src/http_status_gen.c: proofs about `search`.
use molerat.Base.{
  ℕ, zero, suc, ◌+◌, ◌*◌, ◌%◌, ◌^◌, ◌≤◌, ◌<◌, ◌≡◌, ◌≢◌, refl, subst, arith, inl, inr, true, false,
  Bool-cases, Option, none, some, List, [], ◌∷◌, map, has, Distinct, ltb, ◌==◌, update, update_self,
  ok,
}
use molerat.HttpStatus.{Status, hash_of, try_mult, search_loop, search_codes, mask_of}

-- The places in the table that the codes get.
abbrev pub hashes : (mask mult : ℕ) → List Status → List ℕ
hashes mask mult codes = map (λ c. hash_of mask mult c.code) codes

abbrev pub IsPerfect : (table_size mult : ℕ) → List Status → Type 0
IsPerfect table_size mult codes = Distinct (hashes (mask_of table_size) mult codes)

module _ (mask mult : ℕ) where
  -- A success is that the places are distinct, and none was hit in this round before.
  try_mult-success :
      (codes : List Status) (hits : ℕ → ℕ)
      → (try_mult mask mult codes hits).1 ≡ true
      → Distinct (hashes mask mult codes)
        × ((h : ℕ) → hits h ≡ mult → has h (hashes mask mult codes) ≡ false)
  unfolding try_mult
  try_mult-success [] hits e = (tt, λ h d. refl)
  try_mult-success (c ∷ cs) hits e = elim (Bool-cases (hits (hash_of mask mult c.code) == mult)) [
    | inl hit ↦ absurd (ground arith)
    | inr free ↦
        let place = hash_of mask mult c.code in
        let (d, unhit) = try_mult-success cs (update hits place mult) (ground arith) in
        (
          (unhit place (update_self hits place mult), d),
          λ h q. let elsewhere = unhit h in ground (arith, elsewhere),
        )
  ]

  -- Distinct places that were not hit in this round are a success.
  try_mult-Distinct :
      (codes : List Status) (hits : ℕ → ℕ)
      → Distinct (hashes mask mult codes)
      → ((h : ℕ) → has h (hashes mask mult codes) ≡ true → hits h ≢ mult)
      → (try_mult mask mult codes hits).1 ≡ true
  unfolding try_mult
  try_mult-Distinct [] hits d free = refl
  try_mult-Distinct (c ∷ cs) hits d free =
      let h = hash_of mask mult c.code in
      let first = free h (ground arith) in
      let rest =
        try_mult-Distinct cs (update hits h mult) d.1
          (λ k m e. free k (ground arith) (ground arith)) in
      ground (arith, rest)

  -- What is in `hits` is of this round or was there before.
  try_mult-hits :
      (codes : List Status) (hits : ℕ → ℕ) (h : ℕ)
      → (hits h ≤ mult)
      → (try_mult mask mult codes hits).0 h ≤ mult
  unfolding try_mult
  try_mult-hits [] hits h le = le
  try_mult-hits (c ∷ cs) hits h le =
      ground (arith, try_mult-hits cs (update hits (hash_of mask mult c.code) mult) h)

-- The least multiplier from `start` on, in steps of two, that is perfect, where there is one.
abbrev pub Least : (table_size start : ℕ) → List Status → Option ℕ → Type 0
Least table_size start codes none =
    (k : ℕ) → start + k * 2 < table_size * 1024 → ¬ IsPerfect table_size (start + k * 2) codes
Least table_size start codes (some m) =
    (k : ℕ) × (m ≡ start + k * 2)
    × (m < table_size * 1024)
    × IsPerfect table_size m codes
    × ((j : ℕ) → j < k → ¬ IsPerfect table_size (start + j * 2) codes)

module _ (table_size : ℕ) (codes : List Status) where
  -- One round more.
  Least-later :
      (start : ℕ) (r : Option ℕ)
      → ¬ IsPerfect table_size start codes
      → Least table_size (start + 2) codes r
      → Least table_size start codes r
  Least-later start none not l = λ k lt.
      elim k
          as (λ k.
            start + k * 2 < table_size * 1024 → ¬ IsPerfect table_size (start + k * 2) codes) [
              | zero ↦ λ lt'. subst (λ m. ¬ IsPerfect table_size m codes) (omega arith) not
              | suc k ↦ λ lt'.
                  subst (λ m. ¬ IsPerfect table_size m codes) (omega arith) (l k (omega arith))
            ]
        lt
  Least-later start (some m) not (k, e, lt, perfect, least) = (
    suc k,
    omega arith,
    lt,
    perfect,
    λ j lt'.
        elim j as (λ j. j < suc k → ¬ IsPerfect table_size (start + j * 2) codes) [
          | zero ↦ λ _. subst (λ m'. ¬ IsPerfect table_size m' codes) (omega arith) not
          | suc j ↦ λ lt''.
              subst (λ m'. ¬ IsPerfect table_size m' codes) (omega arith) (least j (omega arith))
        ]
          lt',
  )

  search_loop-Least :
      (fuel mult : ℕ) (hits : ℕ → ℕ)
      → ((h : ℕ) → hits h < mult)
      → 0 < fuel
      → table_size * 1024 + 1 < mult + fuel * 2
      → mult < 2 ^ 32
      → table_size < 2 ^ 22
      → (r : Option ℕ) × (search_loop fuel table_size mult codes hits ≡ ok r)
        × Least table_size mult codes r
  unfolding search_loop
  search_loop-Least zero mult hits below some_fuel enough fits small = absurd (omega arith)
  search_loop-Least (suc fuel) mult hits below some_fuel enough fits small =
      let (hits', success) = try_mult (mask_of table_size) mult codes hits in
      elim (Bool-cases (ltb mult (table_size * 1024 % 2 ^ 32))) [
        | inr out ↦ (none, rw out refl, λ k lt. absurd (ground arith))
        | inl lt ↦ elim (Bool-cases success) [
          | inl found ↦ (
            some mult,
            rw (lt, found) refl,
            (
              0,
              omega arith,
              ground arith,
              (try_mult-success (mask_of table_size) mult codes hits found).0,
              λ j h. absurd (omega arith),
            ),
          )
          | inr failed ↦
              let room : mult + 2 < 2 ^ 32 = ground arith in
              let (r, ran, l) =
                search_loop-Least fuel ((mult + 2) % 2 ^ 32) hits'
                  (λ h. omega (
                    arith,
                    try_mult-hits (mask_of table_size) mult codes hits h (omega (arith, below h)),
                  ))
                  (ground arith) (omega arith) (omega arith) small in
              let not : ¬ IsPerfect table_size mult codes = λ d. cc (
                try_mult-Distinct (mask_of table_size) mult codes hits d
                  (λ h m e. absurd (omega (arith, below h)))) in
              (
                r,
                rw (lt, failed) ran,
                Least-later mult r not (subst (λ m. Least table_size m codes r) (ground arith) l),
              )
        ]
      ]

-- For a table whose size does not overflow `table_size << 10`, `search` comes back: with the least odd multiplier below `table_size << 10` that gives each code a
-- place of its own in the table, or with -1 where there is none.
pub search_codes-Least :
    (table_size : ℕ) (codes : List Status)
    → table_size < 2 ^ 22
    → (r : Option ℕ) × (search_codes table_size codes ≡ ok r) × Least table_size 1 codes r
unfolding search_codes
search_codes-Least table_size codes small =
    search_loop-Least table_size codes (table_size * 2 ^ 9 + 1) 1 (λ _. 0) (λ h. omega arith)
      (omega arith) (omega arith) (omega arith) small
