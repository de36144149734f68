-- ===== src/HttpReader/HeadTests.antt =====
-- src/http_reader.c: concrete runs of `http_reader_prebody`.
use molerat.Base.{
  ℕ, ◌-◌, ◌≤◌, ◌<◌, ◌≡◌, refl, arith, inl, inr, Bool-cases, [], ◌∷◌, length, ltb, if◌then◌else◌, ok,
  ◌>>=◌, false,
}
use molerat.Stream.{moves, Source, stream_read}
use molerat.HttpReader.{eom, HeaderInternal, fresh, HttpReader}
use molerat.HttpReader.Parsing.{url, headers_complete, hpe_ok, hpe_paused, Execution, Outside}
use molerat.HttpReader.Prebody.{PrebodyOutcome, prebody_done, http_reader_prebody}
use molerat.HttpReader.Heading.{HeadExecution, IsHeadParser}
use molerat.HttpReader.Returning.{Ended}
use molerat.HttpReader.Reentry.{http_reader_prebody-Comes}

abbrev header : HeaderInternal
header = record { name = 0; name_end = 0; value = 0; value_end = 0 }

-- The parser's state is what is left of the head, which is all url.
abbrev partial_head : ℕ → ℕ → Execution ℕ
partial_head left n = record {
  events = url 0 n ∷ [];
  consumed = n;
  parser = left - n;
  errno = hpe_ok;
}

abbrev final_head : ℕ → Execution ℕ
final_head left = record {
  events = url 0 left ∷ headers_complete ∷ [];
  consumed = left;
  parser = 0;
  errno = hpe_paused;
}

abbrev head_parser : Outside ℕ
head_parser = record {
  execute = λ left bytes.
      if ltb (length bytes) left then partial_head left (length bytes) else final_head left;
  unpause = λ left. left;
  sort = λ compare headers n. headers;
  junk = λ i. 0;
  junk_headers = λ i. header;
  stray = λ i. 0;
}

partial-HeadExecution :
    (left n : ℕ) → n < left → HeadExecution (λ p. Unit {0}) n (partial_head left n)
partial-HeadExecution left n lt = record {
  only = refl;
  within = λ e. omega arith;
  whole = λ e. (refl, refl, tt);
  complete = λ e. absurd (cc);
}

final-HeadExecution : (left n : ℕ) → left ≤ n → HeadExecution (λ p. Unit {0}) n (final_head left)
final-HeadExecution left n le = record {
  only = refl;
  within = λ e. le;
  whole = λ e. absurd (cc);
  complete = λ e. refl;
}

head_parser-IsHeadParser : IsHeadParser head_parser (λ p. Unit {0})
head_parser-IsHeadParser left bytes inside = elim (Bool-cases (ltb (length bytes) left)) [
  | inl e ↦ rw e (partial-HeadExecution left (length bytes) (ground arith))
  | inr e ↦ rw e (final-HeadExecution left (length bytes) (ground arith))
]

-- A reader with a message behind it.
abbrev used_reader : HttpReader ℕ
used_reader = record {
  state = eom;
  parsed = 6;
  url = 0;
  url_end = 0;
  body_end = 0;
  prebody = record { memory = λ i. i; limit = 1000; end = 6; frozen = false };
  headers = λ i. header;
  headers_used = 2;
  headers_size = 20;
  settings = record { on_url = fresh; on_header_field = fresh; on_header_value = fresh };
  parser = 4;
}

abbrev two_reads : Source
two_reads = record { bytes = 53 ∷ 54 ∷ 55 ∷ 56 ∷ []; answers = moves 3 ∷ moves 3 ∷ [] }

http_reader_prebody-Comes_example :
    (x : PrebodyOutcome ℕ) × (http_reader_prebody head_parser 3 two_reads (used_reader, λ i. i)
      ≡ ok x)
    × Ended (λ p. Unit {0}) (length x.0.0.bytes) x.0.1 x.1
http_reader_prebody-Comes_example =
    http_reader_prebody-Comes head_parser (λ p. Unit) head_parser-IsHeadParser 3 two_reads
      used_reader (λ i. i) (inr refl)
      (record {
        inside = tt;
        state = refl;
        thawed = refl;
        unparsed = omega arith;
        some_limit = omega arith;
        within = omega arith;
        limit_le = omega arith;
        fits = omega arith;
      })
      (omega arith)

-- The head is complete with the second read.
two_reads_run :
    (http_reader_prebody head_parser 3 two_reads (used_reader, λ i. i) >>= (λ x. ok x.1))
    ≡ ok prebody_done
unfolding http_reader_prebody stream_read
two_reads_run = refl
