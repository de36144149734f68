-- ===== src/HttpReader/Headers.antt =====
-- src/http_reader.c: proofs about the callbacks that go on with a name, and for the values.
use molerat.Base.{
  ◌^◌, ℕ, ◌+◌, ◌-◌, ◌≤◌, ◌<◌, ◌≡◌, refl, sym, subst, ◌∙◌, arith, List, ◌∷◌, ◌++◌, slice, update,
  update_self, update_ne,
}
use molerat.HttpReader.{HeaderInternal, HttpReader}
use molerat.HttpReader.Callbacks.{
  in_prebody, on_header_field_cont, on_header_value, on_header_value_cont, offset_of,
}
use molerat.HttpReader.Pieces.{
  name_text, value_text, Layout, IsArmed, Lies, Lies-frame, Lies-first, Held, Held-frame, named,
}
use molerat.HttpReader.Holding.{
  int_of_small, Holding, moved_memory, moved_memory-below, moved_memory-above, moved_memory-Lies,
  move_to-moved,
}

module _ {P : Type 0} (stray : ℕ → ℕ) (buffer : ℕ → ℕ) (base at len : ℕ) (before : ℕ → ℕ)
    (limit : ℕ) (r : HttpReader P) (le : limit ≤ base + at) (fits : base + at + len < 2 ^ 31) where
  abbrev text : List ℕ
  text = slice r.prebody.memory (base + at) len

  abbrev Then : Layout → HttpReader P → Type 0
  Then l r' = Holding before (base + at + len) l r'

  abbrev newest : HeaderInternal
  newest = r.headers (r.headers_used - 1)

  -- The header in use changes; those before it do not.
  module _ (m' : ℕ → ℕ) (header : HeaderInternal) where
    abbrev headers' : ℕ → HeaderInternal
    headers' = update r.headers (r.headers_used - 1) header

    headers'_newest : headers' (r.headers_used - 1) ≡ header
    headers'_newest = update_self r.headers (r.headers_used - 1) header

    Held-others :
        (l : Layout) (limit' : ℕ)
        → ((i : ℕ) → i < limit' → m' i ≡ r.prebody.memory i)
        → Held r.prebody.memory r.url r.url_end r.headers (r.headers_used - 1) limit' l
        → Held m' r.url r.url_end headers' (r.headers_used - 1) limit' l
    Held-others l limit' same h =
        Held-frame r.prebody.memory m' r.url r.url_end r.headers headers' l (r.headers_used - 1)
          limit' same (λ i lt. update_ne r.headers (r.headers_used - 1) i header (omega arith)) h

    -- The name of the header in use stays where it is.
    Held-newest :
        (t : List ℕ) (l : Layout) (limit' limit'' : ℕ)
        → header.name ≡ newest.name
        → header.name_end ≡ newest.name_end
        → limit' ≤ limit''
        → ((i : ℕ) → i < limit' → m' i ≡ r.prebody.memory i)
        → Held r.prebody.memory r.url r.url_end r.headers r.headers_used limit' ((name_text, t) ∷ l)
        → Held m' r.url r.url_end headers' r.headers_used limit'' ((name_text, t) ∷ l)
    unfolding Held
    Held-newest t l limit' limit'' e e' above same (some, lies, rest) =
        let lies' = Lies-frame r.prebody.memory m' same lies in
        (
          some,
          subst (λ q. Lies m' q.name q.name_end limit'' t) (sym headers'_newest)
              (subst (λ k. Lies m' k header.name_end limit'' t) (sym e)
                (subst (λ k. Lies m' newest.name k limit'' t) (sym e')
                  (record {
                    ordered = lies'.ordered;
                    below = omega (arith, lies'.below);
                    text_is = lies'.text_is;
                  }))),
          subst (λ q. Held m' r.url r.url_end headers' (r.headers_used - 1) q.name l)
              (sym headers'_newest)
              (subst (λ k. Held m' r.url r.url_end headers' (r.headers_used - 1) k l) (sym e)
                (Held-others l newest.name
                  (λ i lt. same i (omega (arith, lies.ordered, lies.below))) rest)),
        )

  pub on_header_field_cont-Holding :
      (t : List ℕ) (l : Layout)
      → Holding before limit ((name_text, t) ∷ l) r
      → Then ((name_text, t ++ text) ∷ l) (on_header_field_cont buffer (in_prebody base) at len r)
  unfolding on_header_field_cont Held IsArmed
  on_header_field_cont-Holding t l h =
      let m = r.prebody.memory in
      let lies = h.held.1 in
      let stop = newest.name_end in
      let short : stop ≤ base + at = omega (arith, lies.below) in
      let m' = moved_memory m stop (base + at) len in
      let header : HeaderInternal = record newest { name_end = stop + len } in
      let same = moved_memory-below m newest.name stop limit (base + at) len short in
      rw (on_header_field_cont, int_of_small (stop + len) (omega (arith, short, fits)))
        (subst
          (λ q. Then ((name_text, t ++ text) ∷ l) (record q {
            headers =
                update q.headers (r.headers_used - 1) (record newest { name_end = stop + len });
          }))
          (sym (move_to-moved stray (λ i. newest) buffer base at len stop r))
          (record {
            held = (
              h.held.0,
              subst (λ q. Lies m' q.name q.name_end (base + at + len) (t ++ text))
                  (sym (headers'_newest m' header))
                  (moved_memory-Lies m newest.name stop limit (base + at) len short t lies le),
              subst
                  (λ q. Held m' r.url r.url_end (headers' m' header) (r.headers_used - 1) q.name l)
                  (sym (headers'_newest m' header))
                  (Held-others m' header l newest.name
                    (λ i lt. same i (omega (arith, lies.ordered))) h.held.2),
            );
            armed = h.armed;
            room = h.room;
            some_size = h.some_size;
            ahead = λ i le'.
                moved_memory-above m newest.name stop limit (base + at) len short i le'
                ∙ h.ahead i (omega arith);
          }))

  pub on_header_value-Holding :
      (t : List ℕ) (l : Layout)
      → Holding before limit ((name_text, t) ∷ l) r
      → Then
          ((value_text, text) ∷ (name_text, t) ∷ l)
          (on_header_value stray (in_prebody base) at len r)
  unfolding on_header_value offset_of Held IsArmed
  on_header_value-Holding t l h =
      let m = r.prebody.memory in
      let header : HeaderInternal = record newest {
        value = base + at;
        value_end = base + at + len;
      } in
      rw
        (
          on_header_value,
          int_of_small (base + at) (omega arith),
          int_of_small (base + at + len) fits,
        )
        (record {
          held = (
            h.held.0,
            subst (λ q. Lies m q.value q.value_end (base + at + len) text)
                (sym (headers'_newest m header)) (Lies-first m (base + at) len),
            named,
            subst
                (λ q.
                  Held m r.url r.url_end (headers' m header) r.headers_used q.value
                    ((name_text, t) ∷ l))
                (sym (headers'_newest m header))
                (Held-newest m header t l limit (base + at) refl refl le (λ i lt. refl) h.held),
          );
          armed = (refl, refl);
          room = h.room;
          some_size = h.some_size;
          ahead = λ i le'. h.ahead i (omega arith);
        })

  pub on_header_value_cont-Holding :
      (t t' : List ℕ) (l : Layout)
      → Holding before limit ((value_text, t) ∷ (name_text, t') ∷ l) r
      → Then
          ((value_text, t ++ text) ∷ (name_text, t') ∷ l)
          (on_header_value_cont buffer (in_prebody base) at len r)
  unfolding on_header_value_cont Held IsArmed
  on_header_value_cont-Holding t t' l h =
      let m = r.prebody.memory in
      let lies = h.held.1 in
      let stop = newest.value_end in
      let short : stop ≤ base + at = omega (arith, lies.below) in
      let m' = moved_memory m stop (base + at) len in
      let header : HeaderInternal = record newest { value_end = stop + len } in
      let same = moved_memory-below m newest.value stop limit (base + at) len short in
      rw (on_header_value_cont, int_of_small (stop + len) (omega (arith, short, fits)))
        (subst
          (λ q. Then ((value_text, t ++ text) ∷ (name_text, t') ∷ l) (record q {
            headers =
                update q.headers (r.headers_used - 1) (record newest { value_end = stop + len });
          }))
          (sym (move_to-moved stray (λ i. newest) buffer base at len stop r))
          (record {
            held = (
              h.held.0,
              subst (λ q. Lies m' q.value q.value_end (base + at + len) (t ++ text))
                  (sym (headers'_newest m' header))
                  (moved_memory-Lies m newest.value stop limit (base + at) len short t lies le),
              named,
              subst
                  (λ q.
                    Held m' r.url r.url_end (headers' m' header) r.headers_used q.value
                      ((name_text, t') ∷ l))
                  (sym (headers'_newest m' header))
                  (Held-newest m' header t' l newest.value newest.value refl refl (omega arith)
                    (λ i lt. same i (omega (arith, lies.ordered))) h.held.3),
            );
            armed = h.armed;
            room = h.room;
            some_size = h.some_size;
            ahead = λ i le'.
                moved_memory-above m newest.value stop limit (base + at) len short i le'
                ∙ h.ahead i (omega arith);
          }))
