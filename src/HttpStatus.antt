-- ===== src/HttpStatus.antt =====
-- src/http_status_gen.c: the program that writes the table of status codes, src/http_status.c, and the
-- function `http_status_lookup` that it writes. An `unsigned int` has 32 bits.
pub mod Codes
pub mod Searching
pub mod Lookup
mod Tests
use Prim.Native.Nat.{bit_and}
use molerat.Base.{
  ℕ, zero, suc, ◌+◌, ◌-◌, ◌*◌, ◌/◌, ◌%◌, ◌^◌, Bool, true, false, not, ◌&&◌, Option, none, some,
  List, [], ◌∷◌, length, get_elem?, map, ltb, ◌==◌, if◌then◌else◌, update, Result, ok, out_of_fuel,
  ◌>>=◌,
}

-- `struct status`, with the bytes of the message.
pub record Status : Type 0 where
  pub code : ℕ
  pub message : List ℕ

-- `table_size - 1`
abbrev pub mask_of : ℕ → ℕ
mask_of table_size = (table_size + 2 ^ 32 - 1) % 2 ^ 32

-- `((code * mult) >> 10) & mask`
unfoldable pub hash_of : (mask mult code : ℕ) → ℕ
hash_of mask mult code = bit_and (code * mult % 2 ^ 32 / 2 ^ 10) mask

-- The inner loop of `search`: whether it comes to the end, and what `hits` holds then.
unfoldable pub try_mult : (mask mult : ℕ) → List Status → (ℕ → ℕ) → (ℕ → ℕ) × Bool
unfolding hash_of
try_mult mask mult [] hits = (hits, true)
try_mult mask mult (c ∷ cs) hits =
    let hash = hash_of mask mult c.code in
    if hits hash == mult then (hits, false) else try_mult mask mult cs (update hits hash mult)

-- The outer loop; `none` is the result -1.
unfoldable pub search_loop : (fuel table_size mult : ℕ) → List Status → (ℕ → ℕ) → Result (Option ℕ)
unfolding try_mult
search_loop zero table_size mult codes hits = out_of_fuel
search_loop (suc fuel) table_size mult codes hits =
    let (hits', success) = try_mult (mask_of table_size) mult codes hits in
    let rest = search_loop fuel table_size ((mult + 2) % 2 ^ 32) codes hits' in
    if ltb mult (table_size * 2 ^ 10 % 2 ^ 32)
    then (if success then ok (some mult) else rest)
    else ok none

unfoldable pub search_codes : (table_size : ℕ) → List Status → Result (Option ℕ)
unfolding search_loop
search_codes table_size codes = search_loop (table_size * 2 ^ 9 + 1) table_size 1 codes (λ _. 0)

-- The loop of `dump` that fills `table`, from the code with index `i` on.
unfoldable pub fill_table : (mask mult i : ℕ) → List Status → (ℕ → ℕ) → ℕ → ℕ
unfolding hash_of
fill_table mask mult i [] table = table
fill_table mask mult i (c ∷ cs) table =
    fill_table mask mult (i + 1) cs (update table (hash_of mask mult c.code) (i % 256))

-- The array `table` of the code that `dump` writes.
unfoldable pub dump_table : (table_size mult : ℕ) → List Status → ℕ → ℕ
unfolding fill_table
dump_table table_size mult codes = fill_table (mask_of table_size) mult 0 codes (λ _. 255)

-- `if (n != 255 && statuses[n].code == code)`; an index that is not of `statuses` would be read through.
abbrev pub checked : (code n : ℕ) → Option Status → Option Status
checked code n none = none
checked code n (some s) = if not (n == 255) && (s.code == code) then some s else none

-- `http_status_lookup` as `dump` writes it, where the product does not overflow an `int`.
unfoldable pub http_status_lookup :
    (table_size mult : ℕ) (table : ℕ → ℕ) (statuses : List Status) → (code : ℕ) → Option Status
http_status_lookup table_size mult table statuses code =
    let n = table (bit_and (code * mult / 2 ^ 10) (mask_of table_size)) in
    checked code n (get_elem? statuses n)

-- The loop of `power_of_2`.
unfoldable pub power_of_2_loop : (fuel n : ℕ) → Result ℕ
power_of_2_loop zero n = out_of_fuel
power_of_2_loop (suc fuel) n =
    let one_less_bit = bit_and n ((n + 2 ^ 32 - 1) % 2 ^ 32) in
    let rest = power_of_2_loop fuel one_less_bit in
    if one_less_bit == 0 then ok (n * 2 % 2 ^ 32) else rest

unfoldable pub power_of_2 : ℕ → Result ℕ
unfolding power_of_2_loop
power_of_2 n = let m = (n + 2 ^ 32 - 1) % 2 ^ 32 in power_of_2_loop (m + 1) m

-- The loop of `main`: the size of the table and the multiplier that are dumped.
unfoldable pub main_loop : (fuel table_size : ℕ) → List Status → Result (Option (ℕ × ℕ))
unfolding search_codes
main_loop zero table_size codes = out_of_fuel
main_loop (suc fuel) table_size codes =
    let rest = main_loop fuel (table_size * 2 % 2 ^ 32) codes in
    if ltb table_size 1200
    then search_codes table_size codes >>= (λ found. elim found as (λ _. Result (Option (ℕ × ℕ))) [
      | some mult ↦ ok (some (table_size, mult))
      | none ↦ rest
    ])
    else ok none
