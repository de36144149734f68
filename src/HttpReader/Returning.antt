-- ===== src/HttpReader/Returning.antt =====
-- src/http_reader.c: proofs about the inner loop of `http_reader_prebody`.
use molerat.Base.{
  ℕ, suc, ◌+◌, ◌^◌, ◌≤◌, ◌<◌, ◌≡◌, refl, ap, ◌∙◌, arith, ◌⊎◌, inl, inr, length, true, false,
  Bool-cases, Option, none, some, slice, length-slice, ok, ◌==◌,
}
use molerat.Buffer.Contents.{IsOpen}
use molerat.HttpReader.{prebody, body}
use molerat.HttpReader.Callbacks.{in_prebody}
use molerat.HttpReader.Compare.{compare_headers}
use molerat.HttpReader.Parsing.{Errno, Outside, Reading, parse}
use molerat.HttpReader.Prebody.{
  PrebodyResult, prebody_closed, prebody_done, prebody_waiting, prebody_progress, prebody_error,
  size_sub, is_body, prebody_paused, prebody_parse_loop,
}
use molerat.HttpReader.Filling.{size_sub-minus, Errno-cases}
use molerat.HttpReader.Finishing.{size_sub_self}
use molerat.HttpReader.Heading.{IsHeadParser, parse-HeadParsed}

-- A reader that can go on with a head, of which the stream gives up to `left` bytes.
pub record Ready {P : Type 0} (InHead : P → Type 0) (left : ℕ) (s : Reading P) : Type 0 where
  pub inside : InHead s.0.parser
  pub state : s.0.state ≡ prebody
  pub thawed : s.0.prebody.frozen ≡ false
  pub unparsed : s.0.parsed ≤ s.0.prebody.end
  pub some_limit : 0 < s.0.prebody.limit
  pub within : s.0.prebody.end ≤ s.0.prebody.limit
  pub limit_le : s.0.prebody.limit ≤ 2 ^ 32
  pub fits : s.0.prebody.end + left + 100 < 2 ^ 31

-- What the results mean for the next call.
unfoldable pub Ended : {P : Type 0} → (P → Type 0) → ℕ → Reading P → PrebodyResult → Type 0
Ended InHead left s prebody_done =
    (s.0.state ≡ body) × (s.0.parsed ≤ s.0.prebody.end) × IsOpen s.0.prebody
Ended InHead left s prebody_closed = s.0.state ≡ prebody
Ended InHead left s prebody_waiting = Ready InHead left s
Ended InHead left s prebody_progress = Ready InHead left s
Ended InHead left s prebody_error = Unit

-- What the inner loop comes to: a result, or a reader that has parsed what there was.
abbrev pub Round : {P : Type 0} → (P → Type 0) → ℕ → Reading P × Option PrebodyResult → Type 0
Round InHead left y =
    ((result : PrebodyResult) × (y.1 ≡ some result) × Ended InHead left y.0 result)
    ⊎ ((y.1 ≡ none) × Ready InHead left y.0)

module _ {P : Type 0} (o : Outside P) (InHead : P → Type 0) (protocol : IsHeadParser o InHead)
    (left : ℕ) (s : Reading P) (ready : Ready InHead left s) where
  abbrev unparsed_size : ℕ
  unparsed_size = size_sub s.0.prebody.end s.0.parsed

  abbrev step : (Reading P × ℕ) × Errno
  step = parse o (in_prebody (s.0.parsed)) (slice s.0.prebody.memory s.0.parsed unparsed_size) s

  abbrev stepped : Reading P
  stepped = (record (step.0.0.0) { parsed = step.0.0.0.parsed + step.0.1 }, step.0.0.1)

  abbrev sorted : Reading P
  sorted = (
    record (stepped.0) {
      parser = o.unpause stepped.0.parser;
      headers = o.sort (compare_headers stepped.0.prebody) stepped.0.headers stepped.0.headers_used;
    },
    stepped.1,
  )

  paused_ok : stepped.0.state ≡ body → prebody_paused o stepped ≡ ok sorted
  unfolding prebody_paused
  paused_ok e = let d : is_body stepped.0.state ≡ true = ap is_body e in rw (prebody_paused, d) refl

  -- The loop ends in its first round.
  pub prebody_parse_loop-Round :
      (fuel : ℕ)
      → (y : Reading P × Option PrebodyResult) × (prebody_parse_loop o (suc fuel) unparsed_size s
          ≡ ok y)
        × Round InHead left y
  unfolding prebody_parse_loop Ended
  prebody_parse_loop-Round fuel =
      let n = unparsed_size in
      let minus =
        size_sub-minus s.0.prebody.end s.0.parsed ready.unparsed (omega (arith, ready.fits)) in
      let bytes = slice s.0.prebody.memory s.0.parsed n in
      let long = length-slice s.0.prebody.memory s.0.parsed n in
      let p = parse-HeadParsed o InHead protocol (in_prebody (s.0.parsed)) bytes s ready.inside in
      let s' = stepped in
      let parsed_le : step.0.1 ≤ length bytes → s'.0.parsed ≤ s'.0.prebody.end =
        λ le. omega (arith, p.parsed, p.bounds.end, le, long, minus, ready.unparsed) in
      let opened : IsOpen s'.0.prebody = record {
        thawed = p.bounds.frozen ∙ ready.thawed;
        within = omega (arith, p.bounds.end, p.bounds.limit, ready.within);
      } in
      elim (Errno-cases step.1) [
        | inl e ↦
            let (all, at, still) = p.whole e in
            let none_left : size_sub n step.0.1 == 0 ≡ true =
              rw (all ∙ long, size_sub_self n) refl in
            elim (Bool-cases (step.0.1 == 0)) [
              | inl d ↦ (
                ((record (s'.0) { state = prebody }, s'.1), some prebody_closed),
                rw (prebody_parse_loop, e, d) refl,
                inl (prebody_closed, refl, refl),
              )
              | inr d ↦ (
                (s', none),
                rw (prebody_parse_loop, e, d, none_left) refl,
                inr (
                  refl,
                  record {
                    inside = still;
                    state = at ∙ ready.state;
                    thawed = p.bounds.frozen ∙ ready.thawed;
                    unparsed = parsed_le (omega (arith, all));
                    some_limit = omega (arith, p.bounds.limit, ready.some_limit);
                    within = omega (arith, p.bounds.limit, p.bounds.end, ready.within);
                    limit_le = omega (arith, p.bounds.limit, ready.limit_le);
                    fits = omega (arith, p.bounds.end, ready.fits);
                  },
                ),
              )
            ]
        | inr (inl e) ↦ (
          (sorted, some prebody_done),
          rw (prebody_parse_loop, e, paused_ok (p.complete e)) refl,
          inl (prebody_done, refl, (p.complete e, parsed_le (p.within e), opened)),
        )
        | inr (inr e) ↦ (
          (s', some prebody_error),
          rw (prebody_parse_loop, e) refl,
          inl (prebody_error, refl, tt),
        )
      ]
