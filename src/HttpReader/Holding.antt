-- ===== src/HttpReader/Holding.antt =====
-- src/http_reader.c: proofs about the callbacks for the url, the names and the values.
use molerat.Base.{
  ◌^◌, ℕ, ◌+◌, ◌-◌, ◌*◌, ◌≤◌, ◌<◌, ◌≡◌, refl, ap, sym, subst, ◌∙◌, arith, true, false, Bool-cases,
  inl, inr, List, [], ◌∷◌, ◌++◌, slice, write_at, write_at-below, length-slice, update, update_self,
  update_ne, ◌==◌, ltb, if◌then◌else◌,
}
use molerat.HttpReader.{HeaderInternal, fresh, cont, HttpReader}
use molerat.HttpReader.Callbacks.{
  int_of, in_prebody, apart, move_to, on_url, on_url_cont, on_header_field, grown_headers,
  offset_of, bytes_at,
}
use molerat.HttpReader.Firing.{write_at-above}
use molerat.HttpReader.Pieces.{
  url_text, name_text, value_text, Layout, IsArmed, Lies, Lies-first, Lies-moved, Lies-adjacent,
  Held, Held-frame,
}

-- The texts lie below `limit`, from where on `prebody` holds what it did, and the callbacks are the ones
-- for the newest text.
pub record Holding {P : Type 0} (before : ℕ → ℕ) (limit : ℕ) (l : Layout) (r : HttpReader P)
    : Type 0 where
  pub held : Held r.prebody.memory r.url r.url_end r.headers r.headers_used limit l
  pub armed : IsArmed r.settings l
  pub room : r.headers_used ≤ r.headers_size
  pub some_size : 0 < r.headers_size
  pub ahead : (i : ℕ) → limit ≤ i → r.prebody.memory i ≡ before i

pub Held-above :
    (memory : ℕ → ℕ) (url url_end : ℕ) (headers : ℕ → HeaderInternal) (n limit limit' : ℕ)
    (l : Layout)
    → limit ≤ limit'
    → Held memory url url_end headers n limit l
    → Held memory url url_end headers n limit' l
unfolding Held
Held-above memory url url_end headers n limit limit' [] le h = h
Held-above memory url url_end headers n limit limit' ((url_text, t) ∷ l) le (lies, none, last) = (
  record { ordered = lies.ordered; below = omega (arith, lies.below); text_is = lies.text_is },
  none,
  last,
)
Held-above memory url url_end headers n limit limit' ((name_text, t) ∷ l) le (some, lies, rest) = (
  some,
  record { ordered = lies.ordered; below = omega (arith, lies.below); text_is = lies.text_is },
  rest,
)
Held-above memory url url_end headers n limit limit' ((value_text, t) ∷ l) le
      (some, lies, name, rest) =
    (
      some,
      record { ordered = lies.ordered; below = omega (arith, lies.below); text_is = lies.text_is },
      name,
      rest,
    )

-- `memmove` where the text is not in its place.
pub moved_memory : (ℕ → ℕ) → (stop at len : ℕ) → ℕ → ℕ
moved_memory memory stop at len =
    if (if stop == at then false else true)
    then write_at memory stop (slice memory at len)
    else memory

module _ (memory : ℕ → ℕ) (start stop limit at len : ℕ) (le : stop ≤ at) where
  pub moved_memory-below : (i : ℕ) → i < stop → moved_memory memory stop at len i ≡ memory i
  unfolding moved_memory
  moved_memory-below i lt = elim (Bool-cases (stop == at)) [
    | inl e ↦ rw e refl
    | inr e ↦ rw e (write_at-below memory stop (slice memory at len) i lt)
  ]

  pub moved_memory-above : (i : ℕ) → at + len ≤ i → moved_memory memory stop at len i ≡ memory i
  unfolding moved_memory
  moved_memory-above i le' = elim (Bool-cases (stop == at)) [
    | inl e ↦ rw e refl
    | inr e ↦ rw e (
        write_at-above memory stop (slice memory at len) i
          (omega (arith, length-slice memory at len)))
  ]

  pub moved_memory-Lies :
      (text : List ℕ)
      → Lies memory start stop limit text
      → limit ≤ at
      → Lies
          (moved_memory memory stop at len)
          start
          (stop + len)
          (at + len)
          (text ++ slice memory at len)
  unfolding moved_memory
  moved_memory-Lies text h le' = elim (Bool-cases (stop == at)) [
    | inl e ↦ rw e (Lies-adjacent memory start stop limit at len text h (ground arith))
    | inr e ↦ rw e (Lies-moved memory start stop limit at len text h le')
  ]

pub int_of_small : (n : ℕ) → n < 2 ^ 31 → int_of n ≡ n
unfolding int_of
int_of_small n lt = omega arith

module _ {P : Type 0} (stray : ℕ → ℕ) (junk : ℕ → HeaderInternal) (buffer : ℕ → ℕ)
    (base at len : ℕ) where
  abbrev moved_reader : ℕ → HttpReader P → HttpReader P
  moved_reader stop r = record r {
    prebody = record (r.prebody) { memory = moved_memory r.prebody.memory stop (base + at) len };
  }

  pub move_to-moved :
      (stop : ℕ) (r : HttpReader P)
      → move_to buffer stop (in_prebody base) at len r ≡ moved_reader stop r
  unfolding move_to apart bytes_at moved_memory
  move_to-moved stop r = elim (Bool-cases (stop == base + at)) [
    | inl e ↦ rw e refl
    | inr e ↦ rw e refl
  ]

  module _ (before : ℕ → ℕ) (limit : ℕ) (r : HttpReader P) (le : limit ≤ base + at)
      (fits : base + at + len < 2 ^ 31) where
    abbrev text : List ℕ
    text = slice r.prebody.memory (base + at) len

    abbrev Then : Layout → HttpReader P → Type 0
    Then l r' = Holding before (base + at + len) l r'

    pub on_url-Holding :
        Holding before limit [] r
        → Then ((url_text, text) ∷ []) (on_url stray (in_prebody base) at len r)
    unfolding on_url offset_of Held IsArmed
    on_url-Holding h =
        rw (on_url, int_of_small (base + at) (omega arith), int_of_small (base + at + len) fits)
          (record {
            held = (Lies-first r.prebody.memory (base + at) len, h.held, refl);
            armed = (refl, h.armed.1);
            room = h.room;
            some_size = h.some_size;
            ahead = λ i le'. h.ahead i (omega arith);
          })

    pub on_url_cont-Holding :
        (t : List ℕ) (l : Layout)
        → Holding before limit ((url_text, t) ∷ l) r
        → Then ((url_text, t ++ text) ∷ l) (on_url_cont buffer (in_prebody base) at len r)
    unfolding on_url_cont Held IsArmed
    on_url_cont-Holding t l h =
        let m = r.prebody.memory in
        let lies = h.held.0 in
        let short : r.url_end ≤ base + at = omega (arith, lies.below) in
        rw (on_url_cont, int_of_small (r.url_end + len) (omega (arith, short, fits)))
          (subst (λ q. Then ((url_text, t ++ text) ∷ l) (record q { url_end = r.url_end + len }))
            (sym (move_to-moved r.url_end r))
            (record {
              held = (
                moved_memory-Lies m r.url r.url_end limit (base + at) len short t lies le,
                h.held.1,
                h.held.2,
              );
              armed = h.armed;
              room = h.room;
              some_size = h.some_size;
              ahead = λ i le'.
                  moved_memory-above m r.url r.url_end limit (base + at) len short i le'
                  ∙ h.ahead i (omega arith);
            }))

    -- The array with room for another header.
    grown_headers-same :
        r.headers_used ≤ r.headers_size
        → 0 < r.headers_size
        → (headers : ℕ → HeaderInternal) × (size : ℕ) × (grown_headers junk r
            ≡ record r { headers = headers; headers_size = size })
          × ((i : ℕ) → i < r.headers_used → headers i ≡ r.headers i)
          × (r.headers_used + 1 ≤ size)
    unfolding grown_headers
    grown_headers-same room some = elim (Bool-cases (ltb r.headers_size (r.headers_used + 1))) [
      | inl e ↦ (
        λ i. if ltb i r.headers_size then r.headers i else junk i,
        r.headers_size * 2,
        rw e refl,
        λ i lt. (let d : ltb i r.headers_size ≡ true = ground arith in rw d refl),
        ground arith,
      )
      | inr e ↦ (r.headers, r.headers_size, rw e refl, λ i lt. refl, ground arith)
    ]

    pub on_header_field-Holding :
        (l : Layout)
        → Holding before limit l r
        → Then ((name_text, text) ∷ l) (on_header_field stray junk (in_prebody base) at len r)
    unfolding on_header_field offset_of Held IsArmed
    on_header_field-Holding l h =
        let (headers, size, grown, same, room) = grown_headers-same h.room h.some_size in
        let m = r.prebody.memory in
        let n = r.headers_used in
        let header : HeaderInternal = record (headers n) {
          name = base + at;
          name_end = base + at + len;
        } in
        let headers' = update headers n header in
        let e : n + 1 - 1 ≡ n = omega arith in
        let d : headers' (n + 1 - 1) ≡ header = ap headers' e ∙ update_self headers n header in
        rw
          (
            on_header_field,
            int_of_small (base + at) (omega arith),
            int_of_small (base + at + len) fits,
          )
          (subst
            (λ q. Then ((name_text, text) ∷ l) (record q {
              headers =
                  update q.headers n
                    (record (q.headers n) { name = base + at; name_end = base + at + len });
              headers_used = n + 1;
              settings = record (r.settings) { on_header_field = cont; on_header_value = fresh };
            }))
            (sym grown)
            (record {
              held = (
                omega arith,
                subst (λ q. Lies m q.name q.name_end (base + at + len) text) (sym d)
                    (Lies-first m (base + at) len),
                subst (λ k. Held m r.url r.url_end headers' k (headers' (n + 1 - 1)).name l) (sym e)
                    (subst (λ q. Held m r.url r.url_end headers' n q.name l) (sym d)
                      (Held-frame m m r.url r.url_end r.headers headers' l n (base + at)
                        (λ i lt. refl)
                        (λ i lt. update_ne headers n i header (omega arith) ∙ same i lt)
                        (Held-above m r.url r.url_end r.headers n limit (base + at) l le h.held))),
              );
              armed = (refl, refl);
              room = room;
              some_size = omega arith;
              ahead = λ i le'. h.ahead i (omega arith);
            }))
