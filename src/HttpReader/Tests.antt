-- ===== src/HttpReader/Tests.antt =====
-- src/http_reader.c: concrete runs.
use molerat.Base.{
  List, map, ℕ, ◌-◌, ◌≤◌, ◌<◌, ◌≡◌, refl, arith, inl, inr, false, Bool-cases, [], ◌∷◌, length, ltb,
  if◌then◌else◌, write_at, ok,
}
use molerat.Stream.{moves, Source}
use molerat.Buffer.{GrowBuf, less}
use molerat.Buffer.Compare.{lexicographic}
use molerat.HttpReader.{body, HeaderInternal, http_reader_init, fresh, cont, HttpReader}
use molerat.HttpReader.Parsing.{body_data, message_complete, hpe_ok, hpe_paused, Execution, Outside}
use molerat.HttpReader.Compare.{folded, compare_headers, folded_name, compare_headers-lexicographic}
use molerat.HttpReader.Body.{BodyOutcome, http_reader_body}
use molerat.HttpReader.Filling.{BodyExecution, IsBodyParser}
use molerat.HttpReader.Bounds.{Bounded, http_reader_body-Bounded}
use molerat.HttpReader.Callbacks.{in_prebody}
use molerat.HttpReader.Parsing.{call_all}
use molerat.HttpReader.Pieces.{
  url_text, name_text, value_text, Held, IsArmed, url_first, url_url, url_name, name_value,
}
use molerat.HttpReader.Holding.{Holding}
use molerat.HttpReader.Fragments.{Fragment, event_of, IsHead, end_of, found_all, call_all-Holding}
use molerat.HttpReader.Iterating.{iterated, texts, http_reader_headers, http_header_iter_next-texts}

-- The bytes of `Ab: x`, `aC: y` and two of a body.
abbrev memory : ℕ → ℕ
memory = write_at (λ i. 0) 0 (65 ∷ 98 ∷ 120 ∷ 97 ∷ 67 ∷ 121 ∷ 51 ∷ 52 ∷ [])

abbrev first : HeaderInternal
first = record { name = 0; name_end = 2; value = 2; value_end = 3 }

abbrev second : HeaderInternal
second = record { name = 3; name_end = 5; value = 5; value_end = 6 }

abbrev growbuf : GrowBuf
growbuf = record { memory = memory; limit = 1000; end = 8; frozen = false }

-- The parser's state is what is left of the body.
abbrev partial_body : ℕ → ℕ → Execution ℕ
partial_body left n = record {
  events = body_data 0 n ∷ [];
  consumed = n;
  parser = left - n;
  errno = hpe_ok;
}

abbrev final_body : ℕ → ℕ → Execution ℕ
final_body left n = record {
  events = body_data 0 left ∷ message_complete ∷ [];
  consumed = left;
  parser = 0;
  errno = hpe_paused;
}

abbrev outside : Outside ℕ
outside = record {
  execute = λ left bytes.
      if ltb (length bytes) left
      then partial_body left (length bytes)
      else final_body left (length bytes);
  unpause = λ left. left;
  sort = λ compare headers n. headers;
  junk = λ i. 0;
  junk_headers = λ i. first;
  stray = λ i. 0;
}

abbrev reader : HttpReader ℕ
reader = record {
  state = body;
  parsed = 6;
  url = 0;
  url_end = 0;
  body_end = 0;
  prebody = growbuf;
  headers = λ i. if ltb i 1 then first else second;
  headers_used = 2;
  headers_size = 20;
  settings = record { on_url = fresh; on_header_field = cont; on_header_value = fresh };
  parser = 4;
}

abbrev source : Source
source = record { bytes = 53 ∷ 54 ∷ 55 ∷ []; answers = moves 3 ∷ [] }

partial-BodyExecution :
    (left n : ℕ) → n < left → BodyExecution (λ p. Unit {0}) n (partial_body left n)
partial-BodyExecution left n lt = record {
  only = refl;
  fits = omega arith;
  within = λ e. omega arith;
  whole = λ e. (refl, tt);
  complete = λ e. absurd (cc);
}

final-BodyExecution : (left n : ℕ) → left ≤ n → BodyExecution (λ p. Unit {0}) n (final_body left n)
final-BodyExecution left n le = record {
  only = refl;
  fits = omega arith;
  within = λ e. le;
  whole = λ e. absurd (cc);
  complete = λ e. refl;
}

outside-IsBodyParser : IsBodyParser outside (λ p. Unit {0})
outside-IsBodyParser left bytes inside = elim (Bool-cases (ltb (length bytes) left)) [
  | inl e ↦ rw e (partial-BodyExecution left (length bytes) (ground arith))
  | inr e ↦ rw e (final-BodyExecution left (length bytes) (ground arith))
]

http_reader_body-Bounded_example :
    (x : BodyOutcome ℕ) × (http_reader_body outside 3 10 3 source (reader, λ i. i) ≡ ok x)
    × Bounded 10 3 (λ i. i) x
http_reader_body-Bounded_example =
    http_reader_body-Bounded outside (λ p. Unit) outside-IsBodyParser 3 10 3 source reader (λ i. i)
      tt (inl refl) (record { thawed = refl; within = omega arith })
      (record {
        some_limit = omega arith;
        within = omega arith;
        limit_lt = omega arith;
        fits = omega arith;
      })
      (omega arith) (omega arith) (omega arith)

compare_headers-lexicographic_example :
    compare_headers growbuf first second
    ≡ ok (lexicographic (folded_name growbuf first) (folded_name growbuf second))
compare_headers-lexicographic_example =
    compare_headers-lexicographic growbuf first second (omega arith) (omega arith)

-- `Ab` stands before `aC`.
compare_headers_run : compare_headers growbuf first second ≡ ok less
unfolding compare_headers folded
compare_headers_run = refl

http_header_iter_next-texts_example :
    iterated 3 memory reader.headers (http_reader_headers reader)
    ≡ ok (texts memory reader.headers 0 2)
http_header_iter_next-texts_example = http_header_iter_next-texts reader 3 (omega arith) λ i lt.
    elim (Bool-cases (ltb i 1)) [
      | inl e ↦ rw e (record {
        name = omega arith;
        value = omega arith;
        name_fits = omega arith;
        value_fits = omega arith;
      })
      | inr e ↦ rw e (record {
        name = omega arith;
        value = omega arith;
        name_fits = omega arith;
        value_fits = omega arith;
      })
    ]

iterated_run :
    iterated 3 memory reader.headers (http_reader_headers reader)
    ≡ ok ((65 ∷ 98 ∷ [], 120 ∷ []) ∷ (97 ∷ 67 ∷ [], 121 ∷ []) ∷ [])
unfolding iterated http_reader_headers
iterated_run = refl

abbrev head_memory : ℕ → ℕ
head_memory = write_at (λ i. 0) 0 (47 ∷ 97 ∷ 32 ∷ 98 ∷ 10 ∷ 72 ∷ 58 ∷ 118 ∷ [])

abbrev new_reader : HttpReader ℕ
new_reader = record (http_reader_init reader (λ i. 0) (λ i. first) 4) {
  prebody = record { memory = head_memory; limit = 1000; end = 8; frozen = false };
}

-- The url in two pieces, then a name and a value.
abbrev fragments : List Fragment
fragments = (url_text, 0, 2) ∷ (url_text, 3, 1) ∷ (name_text, 5, 1) ∷ (value_text, 7, 1) ∷ []

new_reader-Holding : Holding head_memory 0 [] new_reader
unfolding http_reader_init Held IsArmed
new_reader-Holding = record {
  held = refl;
  armed = (refl, refl);
  room = omega arith;
  some_size = omega arith;
  ahead = λ i le. refl;
}

fragments-IsHead : IsHead head_memory 0 0 [] fragments
unfolding IsHead
fragments-IsHead = (
  url_first,
  omega arith,
  (url_url, omega arith, (url_name, omega arith, (name_value, omega arith, tt))),
)

call_all-Holding_example :
    Holding head_memory
      (end_of head_memory 0 0 fragments)
      (found_all head_memory 0 [] fragments)
      (call_all outside (in_prebody 0) (map event_of fragments) (new_reader, λ i. i)).0
unfolding end_of
call_all-Holding_example =
    call_all-Holding outside (λ i. i) head_memory 0 0 [] fragments new_reader (omega arith)
      fragments-IsHead new_reader-Holding

found_all_run :
    found_all head_memory 0 [] fragments
    ≡ (value_text, 118 ∷ []) ∷ (name_text, 72 ∷ []) ∷ (url_text, 47 ∷ 97 ∷ 98 ∷ []) ∷ []
unfolding found_all
found_all_run = refl
