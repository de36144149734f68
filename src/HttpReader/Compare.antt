-- ===== src/HttpReader/Compare.antt =====
-- src/http_reader.c: `compare_headers`.
use molerat.Base.{
  ℕ, zero, suc, ◌+◌, ◌-◌, ◌≤◌, ◌%◌, ◌≡◌, arith, List, map, ltb, ◌==◌, if◌then◌else◌, slice, Result,
  ok, out_of_fuel,
}
use molerat.Buffer.{GrowBuf, Sign, less, equal, greater}
use molerat.Buffer.Compare.{lexicographic}
use molerat.HttpReader.{HeaderInternal}

-- `achar`, a `signed char` with the bit of lower case, plus 128.
unfoldable pub folded : ℕ → ℕ
folded c = if ltb c 65 then c + 128 else if ltb c 91 then c + 160 else (c + 128) % 256

-- From `apos` and `bpos` on.
unfoldable pub compare_loop :
    (fuel : ℕ) (memory : ℕ → ℕ) (a b : HeaderInternal) (apos bpos : ℕ) → Result Sign
compare_loop zero memory a b apos bpos = out_of_fuel
compare_loop (suc fuel) memory a b apos bpos =
    let rest = compare_loop fuel memory a b (apos + 1) (bpos + 1) in
    let achar = folded (memory apos) in
    let bchar = folded (memory bpos) in
    if apos == a.name_end
    then ok (if bpos == b.name_end then equal else less)
    else if bpos == b.name_end
    then ok greater
    else if ltb achar bchar
    then ok less
    else if ltb bchar achar
    then ok greater
    else rest

unfoldable pub compare_headers : GrowBuf → HeaderInternal → HeaderInternal → Result Sign
unfolding compare_loop
compare_headers growbuf a b =
    compare_loop (a.name_end - a.name + 1) growbuf.memory a b a.name b.name

-- A header's name, as it is compared.
unfoldable pub folded_name : GrowBuf → HeaderInternal → List ℕ
folded_name growbuf h = map folded (slice growbuf.memory h.name (h.name_end - h.name))

compare_loop-lexicographic :
    (m n : ℕ) (memory : ℕ → ℕ) (a b : HeaderInternal) (apos bpos : ℕ)
    → apos + m ≡ a.name_end
    → bpos + n ≡ b.name_end
    → compare_loop (m + 1) memory a b apos bpos
      ≡ ok (lexicographic (map folded (slice memory apos m)) (map folded (slice memory bpos n)))
unfolding compare_loop lexicographic
compare_loop-lexicographic zero zero memory a b apos bpos e d = ground arith
compare_loop-lexicographic zero (suc n) memory a b apos bpos e d = ground arith
compare_loop-lexicographic (suc m) zero memory a b apos bpos e d = ground arith
compare_loop-lexicographic (suc m) (suc n) memory a b apos bpos e d =
    let rest =
      compare_loop-lexicographic m n memory a b (apos + 1) (bpos + 1) (omega arith) (omega arith) in
    ground (arith, rest)

-- For headers whose names do not end before they start, `compare_headers` comes back, and is the order
-- of the names in a dictionary, by signed bytes and with the letters of ASCII in lower case.
pub compare_headers-lexicographic :
    (growbuf : GrowBuf) (a b : HeaderInternal)
    → a.name ≤ a.name_end
    → b.name ≤ b.name_end
    → compare_headers growbuf a b
      ≡ ok (lexicographic (folded_name growbuf a) (folded_name growbuf b))
unfolding compare_headers folded_name
compare_headers-lexicographic growbuf a b le le' =
    compare_loop-lexicographic (a.name_end - a.name) (b.name_end - b.name) growbuf.memory a b a.name
      b.name (omega arith) (omega arith)
