-- ===== src/HttpReader/Iterating.antt =====
-- src/http_reader.c: `http_reader_url`, and the iteration over the headers.
use molerat.Base.{
  ℕ, zero, suc, ◌+◌, ◌-◌, ◌^◌, ◌≤◌, ◌<◌, ◌≡◌, refl, ap, ◌∙◌, arith, false, Option, none, some, List,
  [], ◌∷◌, ◌==◌, if◌then◌else◌, slice, Result, ok, out_of_fuel, ◌>>=◌, zero-add,
}
use molerat.HttpReader.{HeaderInternal, HttpReader}
use molerat.HttpReader.Prebody.{size_sub}
use molerat.HttpReader.Filling.{size_sub-minus}

-- `struct http_header`, with pointers as offsets into `prebody`.
pub record HttpHeader : Type 0 where
  pub name : ℕ
  pub name_len : ℕ
  pub value : ℕ
  pub value_len : ℕ

-- `struct http_header_iter` but for the header, with indexes into `headers`; `base` is an offset.
pub record HttpHeaderIter : Type 0 where
  pub current : ℕ
  pub end : ℕ
  pub base : ℕ

unfoldable pub http_reader_url : {P : Type 0} → HttpReader P → List ℕ
http_reader_url r = slice r.prebody.memory r.url (size_sub r.url_end r.url)

unfoldable pub http_reader_headers : {P : Type 0} → HttpReader P → HttpHeaderIter
http_reader_headers r = record { current = 0; end = r.headers_used; base = 0 }

unfoldable pub http_header_iter_next :
    (headers : ℕ → HeaderInternal) → HttpHeaderIter → HttpHeaderIter × Option HttpHeader
http_header_iter_next headers iter =
    let current = headers iter.current in
    if iter.current == iter.end then (iter, none) else (
      record iter { current = iter.current + 1 },
      some (record {
        name = iter.base + current.name;
        name_len = size_sub current.name_end current.name;
        value = iter.base + current.value;
        value_len = size_sub current.value_end current.value;
      }),
    )

abbrev Texts : Type 0
Texts = List (List ℕ × List ℕ)

-- What a call gives, and then what the calls after it give.
abbrev and_then :
    (memory : ℕ → ℕ)
    → (HttpHeaderIter → Result Texts)
    → HttpHeaderIter × Option HttpHeader
    → Result Texts
and_then memory later (iter, none) = ok []
and_then memory later (iter, some h) =
    later iter
    >>= (λ rest. ok ((slice memory h.name h.name_len, slice memory h.value h.value_len) ∷ rest))

-- The names and values that the calls give, up to the one that gives none.
unfoldable pub iterated :
    (fuel : ℕ) (memory : ℕ → ℕ) (headers : ℕ → HeaderInternal) → HttpHeaderIter → Result Texts
unfolding http_header_iter_next
iterated zero memory headers iter = out_of_fuel
iterated (suc fuel) memory headers iter =
    and_then memory (iterated fuel memory headers) (http_header_iter_next headers iter)

-- The bytes from one offset to another.
abbrev pub between : (ℕ → ℕ) → ℕ → ℕ → List ℕ
between memory start stop = slice memory start (stop - start)

-- The names and values of `n` headers from the one at `i` on.
abbrev pub texts : (ℕ → ℕ) → (ℕ → HeaderInternal) → (i n : ℕ) → List (List ℕ × List ℕ)
texts memory headers i zero = []
texts memory headers i (suc n) =
    (
      between memory (headers i).name (headers i).name_end,
      between memory (headers i).value (headers i).value_end,
    )
    ∷ texts memory headers (i + 1) n

-- A header whose texts do not end before they start.
pub record IsSpans (h : HeaderInternal) : Type 0 where
  pub name : h.name ≤ h.name_end
  pub value : h.value ≤ h.value_end
  pub name_fits : h.name_end < 2 ^ 64
  pub value_fits : h.value_end < 2 ^ 64

module _ (memory : ℕ → ℕ) (headers : ℕ → HeaderInternal) where
  iterated_last :
      (fuel i base : ℕ)
      → iterated (suc fuel) memory headers (record { current = i; end = i; base = base }) ≡ ok []
  unfolding iterated http_header_iter_next
  iterated_last fuel i base = ground arith

  next_header :
      (i end : ℕ)
      → i < end
      → IsSpans (headers i)
      → http_header_iter_next headers (record { current = i; end = end; base = 0 }) ≡ (
        record { current = i + 1; end = end; base = 0 },
        some (record {
          name = (headers i).name;
          name_len = (headers i).name_end - (headers i).name;
          value = (headers i).value;
          value_len = (headers i).value_end - (headers i).value;
        }),
      )
  unfolding http_header_iter_next
  next_header i end lt spans =
      let h = headers i in
      let more : i == end ≡ false = ground arith in
      rw
        (
          http_header_iter_next,
          more,
          zero-add h.name,
          zero-add h.value,
          size_sub-minus h.name_end h.name spans.name spans.name_fits,
          size_sub-minus h.value_end h.value spans.value spans.value_fits,
        )
        refl

  iterated_next :
      (fuel i end : ℕ)
      → i < end
      → IsSpans (headers i)
      → (rest : List (List ℕ × List ℕ))
      → iterated fuel memory headers (record { current = i + 1; end = end; base = 0 }) ≡ ok rest
      → iterated (suc fuel) memory headers (record { current = i; end = end; base = 0 })
        ≡ ok (
            (
              between memory (headers i).name (headers i).name_end,
              between memory (headers i).value (headers i).value_end,
            )
            ∷ rest)
  unfolding iterated
  iterated_next fuel i end lt spans rest e =
      ap (and_then memory (iterated fuel memory headers)) (next_header i end lt spans)
      ∙ ap
          (λ m. m >>= λ texts'. ok (
            (
              between memory (headers i).name (headers i).name_end,
              between memory (headers i).value (headers i).value_end,
            )
            ∷ texts'))
          e

  iterated-texts :
      (n fuel i : ℕ)
      → n < fuel
      → ((j : ℕ) → j < i + n → IsSpans (headers j))
      → iterated fuel memory headers (record { current = i; end = i + n; base = 0 })
        ≡ ok (texts memory headers i n)
  iterated-texts n zero i lt h = absurd (omega arith)
  iterated-texts zero (suc fuel) i lt h =
      ap (λ e. iterated (suc fuel) memory headers (record { current = i; end = e; base = 0 }))
        (omega arith)
      ∙ iterated_last fuel i 0
  iterated-texts (suc n) (suc fuel) i lt h =
      iterated_next fuel i (i + suc n) (omega arith) (h i (omega arith))
        (texts memory headers (i + 1) n)
        (ap (λ e. iterated fuel memory headers (record { current = i + 1; end = e; base = 0 }))
            (omega arith)
          ∙ iterated-texts n fuel (i + 1) (omega arith) λ j le. h j (omega arith))

-- Where no text of a header in use ends before it starts, the calls of `http_header_iter_next` from
-- `http_reader_headers` on give the names and values of these headers, each once and in their order, and
-- then no header.
pub http_header_iter_next-texts :
    {P : Type 0} (r : HttpReader P) (fuel : ℕ)
    → r.headers_used < fuel
    → ((i : ℕ) → i < r.headers_used → IsSpans (r.headers i))
    → iterated fuel r.prebody.memory r.headers (http_reader_headers r)
      ≡ ok (texts r.prebody.memory r.headers 0 r.headers_used)
unfolding http_reader_headers
http_header_iter_next-texts r fuel lt h =
    ap (λ e. iterated fuel r.prebody.memory r.headers (record { current = 0; end = e; base = 0 }))
      (omega arith)
    ∙ iterated-texts r.prebody.memory r.headers r.headers_used fuel 0 lt (λ i le. h i (omega arith))
