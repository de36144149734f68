-- ===== src/HttpStatus/Tests.antt =====
-- src/http_status_gen.c: concrete runs.
use molerat.Base.{◌≡◌, refl, arith, some, Option, ℕ, List, take, length, ok}
use molerat.HttpStatus.{Status, search_codes, power_of_2, dump_table, http_status_lookup}
use molerat.HttpStatus.Codes.{codes}
use molerat.HttpStatus.Searching.{Least, search_codes-Least}
use molerat.HttpStatus.Lookup.{find_status, http_status_lookup-find_status}

-- The codes 100, 101, 102 and 200.
abbrev some_codes : List Status
some_codes = take 4 codes

some_codes_found : search_codes 8 some_codes ≡ ok (some 563)
unfolding search_codes
some_codes_found = refl

http_status_lookup-find_status_example :
    http_status_lookup 8 563 (dump_table 8 563 some_codes) some_codes 102
    ≡ find_status 102 some_codes
http_status_lookup-find_status_example =
    http_status_lookup-find_status 8 563 102 some_codes (omega arith) some_codes_found (omega arith)
      (omega arith)

power_of_2_run : power_of_2 (length codes) ≡ ok 64
unfolding power_of_2
power_of_2_run = refl

search_codes-Least_example :
    (r : Option ℕ) × (search_codes 8 some_codes ≡ ok r) × Least 8 1 some_codes r
search_codes-Least_example = search_codes-Least 8 some_codes (omega arith)
