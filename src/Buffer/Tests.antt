-- ===== src/Buffer/Tests.antt =====
-- Runs of the buffer model, and its theorems at concrete buffers.
use molerat.Base.{ℕ, ◌+◌, ◌≡◌, ◌≤◌, refl, false, [], ◌∷◌, ◌++◌, arith, ok}
use molerat.Buffer.{GrowBuf, growbuf_append, growbuf_vprintf, bytes_compare}
use molerat.Buffer.Growth.{HasSize}
use molerat.Buffer.Contents.{contents, IsOpen, contents-append}
use molerat.Buffer.Printing.{Printed, growbuf_vprintf-Printed, growbuf_vprintf_truncates}
use molerat.Buffer.Compare.{bytes_compare-lexicographic, lexicographic}

-- Three bytes in a memory of eight.
abbrev three : GrowBuf
three = record { memory = λ i. 65 + i; limit = 8; end = 3; frozen = false }

three-IsOpen : IsOpen three
three-IsOpen = record { thawed = refl; within = omega arith }

three-HasSize : (need : ℕ) → need ≤ 100 → HasSize three need
three-HasSize need h = record {
  some_limit = omega arith;
  within = omega arith;
  limit_lt = omega arith;
  fits = omega arith;
}

contents-append_example :
    (g : GrowBuf) × (growbuf_append three (1 ∷ 2 ∷ 3 ∷ 4 ∷ 5 ∷ 6 ∷ []) ≡ ok g)
    × (contents g ≡ contents three ++ 1 ∷ 2 ∷ 3 ∷ 4 ∷ 5 ∷ 6 ∷ [])
    × IsOpen g
contents-append_example =
    contents-append three (1 ∷ 2 ∷ 3 ∷ 4 ∷ 5 ∷ 6 ∷ []) three-IsOpen (three-HasSize 6 (omega arith))

growbuf_vprintf-Printed_example :
    (g : GrowBuf) × (growbuf_vprintf three (7 ∷ 8 ∷ []) ≡ ok g) × Printed three (7 ∷ 8 ∷ []) g
growbuf_vprintf-Printed_example =
    growbuf_vprintf-Printed three (7 ∷ 8 ∷ []) three-IsOpen (three-HasSize 2 (omega arith))
      (omega arith)

-- Five bytes into a space of five.
growbuf_vprintf_truncates_example :
    (g : GrowBuf) × (growbuf_vprintf three (1 ∷ 2 ∷ 3 ∷ 4 ∷ 5 ∷ []) ≡ ok g)
    × (contents g ≡ contents three ++ 1 ∷ 2 ∷ 3 ∷ 4 ∷ 0 ∷ [])
growbuf_vprintf_truncates_example =
    growbuf_vprintf_truncates three 1 (2 ∷ 3 ∷ 4 ∷ 5 ∷ []) three-IsOpen refl (omega arith)

bytes_compare-lexicographic_example :
    bytes_compare (1 ∷ 2 ∷ []) (1 ∷ 2 ∷ 0 ∷ []) ≡ lexicographic (1 ∷ 2 ∷ []) (1 ∷ 2 ∷ 0 ∷ [])
bytes_compare-lexicographic_example = bytes_compare-lexicographic (1 ∷ 2 ∷ []) (1 ∷ 2 ∷ 0 ∷ [])
