-- ===== src/HttpStatus/Lookup.antt =====
-- src/http_status_gen.c: proofs about the table that `dump` writes.
use Prim.Native.Nat.{bit_and}
use molerat.Base.{
  ℕ, suc, ◌+◌, ◌*◌, ◌/◌, ◌%◌, ◌^◌, ◌≤◌, ◌<◌, ◌≡◌, refl, ap, subst, ◌∙◌, arith, inl, inr, false,
  Bool-cases, Option, none, some, List, [], ◌∷◌, has, Distinct, ◌==◌, ==_iff, if◌then◌else◌, update,
  ok, length, get_elem?,
}
use molerat.HttpStatus.{
  Status, hash_of, fill_table, dump_table, http_status_lookup, checked, search_codes, mask_of,
}
use molerat.HttpStatus.Searching.{hashes, IsPerfect, search_codes-Least, Least}

-- The first status with the code.
pub find_status : ℕ → List Status → Option Status
find_status code [] = none
find_status code (s ∷ ss) = if s.code == code then some s else find_status code ss

module _ (mask mult code : ℕ) where
  abbrev place : ℕ
  place = hash_of mask mult code

  find_status_absent :
      (ss : List Status) → has place (hashes mask mult ss) ≡ false → find_status code ss ≡ none
  unfolding find_status
  find_status_absent [] h = refl
  find_status_absent (s ∷ ss) h = elim (Bool-cases (s.code == code)) [
    | inl same ↦
        let e = ap (hash_of mask mult) ((==_iff s.code code).0 same) in absurd (ground arith)
    | inr other ↦ rw other (find_status_absent ss (ground arith))
  ]

  fill_table_absent :
      (i : ℕ) (ss : List Status) (table : ℕ → ℕ)
      → has place (hashes mask mult ss) ≡ false
      → fill_table mask mult i ss table place ≡ table place
  unfolding fill_table
  fill_table_absent i [] table h = refl
  fill_table_absent i (s ∷ ss) table h =
      fill_table_absent (i + 1) ss (update table (hash_of mask mult s.code) (i % 256))
        (ground arith)
      ∙ ground arith

  -- What `http_status_lookup` makes of an entry of the table.
  abbrev entry : List Status → ℕ → Option Status
  entry statuses n = checked code n (get_elem? statuses n)

  checked_255 : (o : Option Status) → checked code 255 o ≡ none
  checked_255 none = refl
  checked_255 (some s) = refl

  fill_table-find_status :
      (statuses : List Status) (i : ℕ) (ss : List Status) (table : ℕ → ℕ)
      → ((k : ℕ) → get_elem? statuses (i + k) ≡ get_elem? ss k)
      → Distinct (hashes mask mult ss)
      → table place ≡ 255
      → i + length ss ≤ 255
      → entry statuses (fill_table mask mult i ss table place) ≡ find_status code ss
  unfolding fill_table find_status
  fill_table-find_status statuses i [] table same d e fits =
      ap (entry statuses) e ∙ checked_255 (get_elem? statuses 255)
  fill_table-find_status statuses i (s ∷ ss) table same d e fits =
      let there = hash_of mask mult s.code in
      let table' = update table there (i % 256) in
      elim (Bool-cases (there == place)) [
        | inl q ↦
            let absent : has place (hashes mask mult ss) ≡ false =
              subst (λ h. has h (hashes mask mult ss) ≡ false) ((==_iff there place).0 q) d.0 in
            let value : fill_table mask mult (i + 1) ss table' place ≡ i =
              fill_table_absent (i + 1) ss table' absent
              ∙ ground (arith, (==_iff there place).0 q) in
            let here : get_elem? statuses i ≡ some s =
              ap (get_elem? statuses) (omega arith) ∙ same 0 in
            let low : i == 255 ≡ false = ground arith in
            ap (entry statuses) value
            ∙ (ap (checked code i) here ∙ ground (arith, find_status_absent ss absent, low))
        | inr q ↦
            let other : s.code == code ≡ false = elim (Bool-cases (s.code == code)) [
              | inl e' ↦
                  let p = ap (hash_of mask mult) ((==_iff s.code code).0 e') in
                  absurd (ground arith)
              | inr e' ↦ e'
            ] in
            rw other (
              fill_table-find_status statuses (i + 1) ss table'
                (λ k. ap (get_elem? statuses) (omega arith) ∙ same (suc k)) d.1 (ground arith)
                (omega arith))
      ]

no_wrap : (x : ℕ) → x < 2 ^ 31 → x ≡ x % 2 ^ 32
no_wrap x lt = omega arith

-- A table for a perfect multiplier is a search through the codes.
dump_table-find_status :
    (table_size mult code : ℕ) (codes : List Status)
    → IsPerfect table_size mult codes
    → length codes ≤ 255
    → code * mult < 2 ^ 31
    → http_status_lookup table_size mult (dump_table table_size mult codes) codes code
      ≡ find_status code codes
unfolding http_status_lookup dump_table hash_of
dump_table-find_status table_size mult code codes perfect fits small =
    let same : bit_and (code * mult / 2 ^ 10) (mask_of table_size)
        ≡ hash_of (mask_of table_size) mult code =
      ap (λ p. bit_and (p / 2 ^ 10) (mask_of table_size)) (no_wrap (code * mult) small) in
    ap (λ h. let n = dump_table table_size mult codes h in checked code n (get_elem? codes n)) same
    ∙ fill_table-find_status (mask_of table_size) mult code codes 0 codes (λ _. 255)
        (λ k. ap (get_elem? codes) (omega arith)) perfect refl (omega (arith, fits))

-- Where `search` of a table whose size does not overflow `table_size << 10` and of at most 255 codes comes to a multiplier, `http_status_lookup` with the table that
-- `dump` writes for it finds a code whose product with the multiplier does not overflow an `int`
-- exactly as a search through the codes does, and for other codes nothing.
pub http_status_lookup-find_status :
    (table_size mult code : ℕ) (codes : List Status)
    → table_size < 2 ^ 22
    → search_codes table_size codes ≡ ok (some mult)
    → length codes ≤ 255
    → code * mult < 2 ^ 31
    → http_status_lookup table_size mult (dump_table table_size mult codes) codes code
      ≡ find_status code codes
http_status_lookup-find_status table_size mult code codes room found fits small =
    let (r, ran, least) = search_codes-Least table_size codes room in
    let e : r ≡ some mult = cc in
    dump_table-find_status table_size mult code codes (subst (Least table_size 1 codes) e least).3
      fits small
