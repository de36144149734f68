-- ===== src/HttpReader/Heading.antt =====
-- src/http_reader.c: proofs about a call of the parser while the head is read.
use molerat.Base.{
  inl, inr, ℕ, ◌≤◌, ◌≡◌, refl, ap, ◌∙◌, true, false, Bool, Bool-cases, List, [], ◌∷◌, length,
  if◌then◌else◌, ltb, ◌+◌, ◌-◌,
}
use molerat.Buffer.{GrowBuf}
use molerat.HttpReader.{ReaderState, body, fresh, cont, Callback, HeaderInternal, HttpReader}
use molerat.HttpReader.Callbacks.{
  Place, apart, move_to, grown_headers, on_url, on_url_cont, on_header_field, on_header_field_cont,
  on_header_value, on_header_value_cont, on_headers_complete,
}
use molerat.HttpReader.Parsing.{
  Event, url, field, value, body_data, headers_complete, message_complete, Errno, hpe_ok,
  hpe_paused, Execution, Outside, Reading, call_back, call_all, parse,
}

-- Events up to the end of the headers, where the parser is paused.
abbrev pub all_head : List Event → Bool
all_head [] = true
all_head (body_data at len ∷ es) = false
all_head (message_complete ∷ es) = false
all_head (_ ∷ es) = all_head es

abbrev pub ends_head : List Event → Bool
ends_head [] = false
ends_head (headers_complete ∷ es) = true
ends_head (_ ∷ es) = ends_head es

-- What http-parser does with `n` bytes of a head: it takes all of them unless it stops, and it is paused
-- by the end of the headers alone. What it says to have consumed where it fails may be more, as at the end
-- of the data inside of a head.
pub record HeadExecution {P : Type 0} (InHead : P → Type 0) (n : ℕ) (x : Execution P) : Type 0 where
  pub only : all_head x.events ≡ true
  pub within : x.errno ≡ hpe_paused → x.consumed ≤ n
  pub whole : x.errno ≡ hpe_ok → (x.consumed ≡ n) × (ends_head x.events ≡ false) × InHead x.parser
  pub complete : x.errno ≡ hpe_paused → ends_head x.events ≡ true

abbrev pub IsHeadParser : {P : Type 0} → Outside P → (P → Type 0) → Type 0
IsHeadParser {P = P} o InHead =
    (p : P) (bytes : List ℕ) → InHead p → HeadExecution InHead (length bytes) (o.execute p bytes)

-- The bounds of a buffer, but not its bytes.
pub record SameBounds (g g' : GrowBuf) : Type 0 where
  pub limit : g'.limit ≡ g.limit
  pub end : g'.end ≡ g.end
  pub frozen : g'.frozen ≡ g.frozen

-- What the callbacks for a url, a name or a value keep.
pub record Kept {P : Type 0} (r r' : HttpReader P) : Type 0 where
  pub bounds : SameBounds r.prebody r'.prebody
  pub parsed : r'.parsed ≡ r.parsed
  pub state : r'.state ≡ r.state

abbrev all_kept : {P : Type 0} (r : HttpReader P) → Kept r r
all_kept r = record {
  bounds = record { limit = refl; end = refl; frozen = refl };
  parsed = refl;
  state = refl;
}

module _ {P : Type 0} (buffer : ℕ → ℕ) (place : Place) (at len : ℕ) (r : HttpReader P) where
  move_to-Kept : (end : ℕ) → Kept r (move_to buffer end place at len r)
  unfolding move_to
  move_to-Kept end = elim (Bool-cases (apart place at end)) [
    | inl e ↦ rw e (record {
      bounds = record { limit = refl; end = refl; frozen = refl };
      parsed = refl;
      state = refl;
    })
    | inr e ↦ rw e (all_kept r)
  ]

grown_headers-Kept :
    {P : Type 0} (junk : ℕ → HeaderInternal) (r : HttpReader P) → Kept r (grown_headers junk r)
unfolding grown_headers
grown_headers-Kept junk r = elim (Bool-cases (ltb r.headers_size (r.headers_used + 1))) [
  | inl e ↦ rw e (record {
    bounds = record { limit = refl; end = refl; frozen = refl };
    parsed = refl;
    state = refl;
  })
  | inr e ↦ rw e (all_kept r)
]

-- Whichever of the two functions is set.
called_back-Kept :
    {P : Type 0} (r : HttpReader P) (x y : Reading P)
    → Kept r x.0
    → Kept r y.0
    → (c : Callback) → (let z : Reading P = elim c [ fresh ↦ x | cont ↦ y ] in Kept r z.0)
called_back-Kept r x y k k' fresh = k
called_back-Kept r x y k k' cont = k'

module _ {P : Type 0} (o : Outside P) (place : Place) (at len : ℕ) (s : Reading P) where
  url-Kept : Kept s.0 (call_back o place (url at len) s).0
  unfolding call_back on_url on_url_cont
  url-Kept =
      let k = move_to-Kept s.1 place at len s.0 s.0.url_end in
      called_back-Kept s.0 (on_url o.stray place at len s.0, s.1)
        (on_url_cont s.1 place at len s.0, s.1)
        (record {
          bounds = record { limit = refl; end = refl; frozen = refl };
          parsed = refl;
          state = refl;
        })
        (record { bounds = k.bounds; parsed = k.parsed; state = k.state }) s.0.settings.on_url

  field-Kept : Kept s.0 (call_back o place (field at len) s).0
  unfolding call_back on_header_field on_header_field_cont
  field-Kept =
      let k = move_to-Kept s.1 place at len s.0 (s.0.headers (s.0.headers_used - 1)).name_end in
      let q = grown_headers-Kept o.junk_headers s.0 in
      called_back-Kept s.0 (on_header_field o.stray o.junk_headers place at len s.0, s.1)
        (on_header_field_cont s.1 place at len s.0, s.1)
        (record { bounds = q.bounds; parsed = q.parsed; state = q.state })
        (record { bounds = k.bounds; parsed = k.parsed; state = k.state })
        s.0.settings.on_header_field

  value-Kept : Kept s.0 (call_back o place (value at len) s).0
  unfolding call_back on_header_value on_header_value_cont
  value-Kept =
      let k = move_to-Kept s.1 place at len s.0 (s.0.headers (s.0.headers_used - 1)).value_end in
      called_back-Kept s.0 (on_header_value o.stray place at len s.0, s.1)
        (on_header_value_cont s.1 place at len s.0, s.1)
        (record {
          bounds = record { limit = refl; end = refl; frozen = refl };
          parsed = refl;
          state = refl;
        })
        (record { bounds = k.bounds; parsed = k.parsed; state = k.state })
        s.0.settings.on_header_value

-- What the events of a head leave, which ends with them or not.
record Headed {P : Type 0} (ended : Bool) (r r' : HttpReader P) : Type 0 where
  pub bounds : SameBounds r.prebody r'.prebody
  pub parsed : r'.parsed ≡ r.parsed
  pub state : r'.state ≡ (if ended then body else r.state)

then_Headed :
    {P : Type 0} (ended : Bool) (r q r' : HttpReader P)
    → Kept r q
    → Headed ended q r'
    → Headed ended r r'
then_Headed ended r q r' k h = record {
  bounds = record {
    limit = h.bounds.limit ∙ k.bounds.limit;
    end = h.bounds.end ∙ k.bounds.end;
    frozen = h.bounds.frozen ∙ k.bounds.frozen;
  };
  parsed = h.parsed ∙ k.parsed;
  state = h.state ∙ ap (λ st. if ended then body else st) k.state;
}

body_either : (b : Bool) → (if b then body else body) ≡ body
body_either true = refl
body_either false = refl

module _ {P : Type 0} (o : Outside P) (place : Place) where
  call_all-Headed :
      (events : List Event) (s : Reading P)
      → all_head events ≡ true
      → Headed (ends_head events) s.0 (call_all o place events s).0
  unfolding call_all call_back on_headers_complete
  call_all-Headed [] s h = record {
    bounds = record { limit = refl; end = refl; frozen = refl };
    parsed = refl;
    state = refl;
  }
  call_all-Headed (url at len ∷ es) s h =
      let s' = call_back o place (url at len) s in
      then_Headed (ends_head es) s.0 s'.0 (call_all o place es s').0 (url-Kept o place at len s)
        (call_all-Headed es s' h)
  call_all-Headed (field at len ∷ es) s h =
      let s' = call_back o place (field at len) s in
      then_Headed (ends_head es) s.0 s'.0 (call_all o place es s').0 (field-Kept o place at len s)
        (call_all-Headed es s' h)
  call_all-Headed (value at len ∷ es) s h =
      let s' = call_back o place (value at len) s in
      then_Headed (ends_head es) s.0 s'.0 (call_all o place es s').0 (value-Kept o place at len s)
        (call_all-Headed es s' h)
  call_all-Headed (headers_complete ∷ es) s h =
      let rest = call_all-Headed es (call_back o place headers_complete s) h in
      record {
        bounds = rest.bounds;
        parsed = rest.parsed;
        state = rest.state ∙ body_either (ends_head es);
      }
  call_all-Headed (body_data at len ∷ es) s h = absurd (cc)
  call_all-Headed (message_complete ∷ es) s h = absurd (cc)

-- One call of the parser with `n` bytes.
pub record HeadParsed {P : Type 0} (InHead : P → Type 0) (n : ℕ) (s : Reading P)
    (x : (Reading P × ℕ) × Errno) : Type 0 where
  pub bounds : SameBounds s.0.prebody x.0.0.0.prebody
  pub parsed : x.0.0.0.parsed ≡ s.0.parsed
  pub within : x.1 ≡ hpe_paused → x.0.1 ≤ n
  pub whole : x.1 ≡ hpe_ok → (x.0.1 ≡ n) × (x.0.0.0.state ≡ s.0.state) × InHead x.0.0.0.parser
  pub complete : x.1 ≡ hpe_paused → x.0.0.0.state ≡ body

pub parse-HeadParsed :
    {P : Type 0} (o : Outside P) (InHead : P → Type 0)
    → IsHeadParser o InHead
    → (place : Place) (bytes : List ℕ) (s : Reading P) → InHead s.0.parser
    → HeadParsed InHead (length bytes) s (parse o place bytes s)
unfolding parse
parse-HeadParsed o InHead protocol place bytes s inside =
    let x = o.execute s.0.parser bytes in
    let b = protocol s.0.parser bytes inside in
    let h = call_all-Headed o place x.events s b.only in
    let at : Bool → ReaderState = λ c. if c then body else s.0.state in
    record {
      bounds = h.bounds;
      parsed = h.parsed;
      within = b.within;
      whole = λ e. let (all, none, still) = b.whole e in (all, h.state ∙ ap at none, still);
      complete = λ e. h.state ∙ ap at (b.complete e);
    }
