-- ===== src/HttpReader/Filling.antt =====
-- src/http_reader.c: proofs about `http_reader_body`.
use molerat.Base.{
  ℕ, ◌+◌, ◌-◌, ◌^◌, ◌≤◌, ◌<◌, ◌≡◌, refl, ap, ◌∙◌, arith, ◌⊎◌, inl, inr, true, List, length,
  if◌then◌else◌, ok,
}
use molerat.Buffer.{GrowBuf}
use molerat.HttpReader.{eom}
use molerat.HttpReader.Callbacks.{Place}
use molerat.HttpReader.Parsing.{
  Errno, hpe_ok, hpe_paused, hpe_other, Execution, Outside, Reading, parse,
}
use molerat.HttpReader.Prebody.{size_sub, is_eom}
use molerat.HttpReader.Body.{at_eom}
use molerat.HttpReader.Firing.{all_body, body_length, completes, call_all-Fired}

-- What http-parser does with `n` bytes of a body without trailers: its events lie in what it was given,
-- it consumes all of it unless it stops, and it is paused by the end of the message. What it says to have
-- consumed where it fails may be more, as at the end of the data inside of a message.
pub record BodyExecution {P : Type 0} (InBody : P → Type 0) (n : ℕ) (x : Execution P) : Type 0 where
  pub only : all_body x.events ≡ true
  pub fits : body_length x.events ≤ n
  pub within : x.errno ≡ hpe_paused → x.consumed ≤ n
  pub whole : x.errno ≡ hpe_ok → (x.consumed ≡ n) × InBody x.parser
  pub complete : x.errno ≡ hpe_paused → completes x.events ≡ true

abbrev pub IsBodyParser : {P : Type 0} → Outside P → (P → Type 0) → Type 0
IsBodyParser {P = P} o InBody =
    (p : P) (bytes : List ℕ) → InBody p → BodyExecution InBody (length bytes) (o.execute p bytes)

pub size_sub-minus : (a b : ℕ) → b ≤ a → a < 2 ^ 64 → size_sub a b ≡ a - b
size_sub-minus a b le lt = omega arith

pub Errno-cases : (q : Errno) → (q ≡ hpe_ok) ⊎ ((q ≡ hpe_paused) ⊎ (q ≡ hpe_other))
Errno-cases hpe_ok = inl refl
Errno-cases hpe_paused = inr (inl refl)
Errno-cases hpe_other = inr (inr refl)

-- The buffer is the part of memory from `buf` to `buf_end`, which alone was written to.
pub record Filling {P : Type 0} (buf buf_end : ℕ) (before : ℕ → ℕ) (s : Reading P) : Type 0 where
  pub from : buf ≤ s.0.body_end
  pub upto : s.0.body_end ≤ buf_end
  pub frame : (i : ℕ) → (i < buf) ⊎ (buf_end ≤ i) → s.1 i ≡ before i

module _ {P : Type 0} (o : Outside P) (InBody : P → Type 0) (protocol : IsBodyParser o InBody)
    (buf buf_end : ℕ) (before : ℕ → ℕ) where
  -- One call of the parser, with no more bytes than there is room for.
  pub record Parsed (n : ℕ) (g : GrowBuf) (s : Reading P) (x : (Reading P × ℕ) × Errno)
      : Type 0 where
    pub filling : Filling buf buf_end before x.0.0
    pub same : x.0.0.0.prebody ≡ g
    pub parsed : x.0.0.0.parsed ≡ s.0.parsed
    pub within : x.1 ≡ hpe_paused → x.0.1 ≤ n
    pub whole : x.1 ≡ hpe_ok → (x.0.1 ≡ n) × InBody x.0.0.0.parser
    pub complete : x.1 ≡ hpe_paused → is_eom x.0.0.0.state ≡ true

  pub parse-Parsed :
      (place : Place) (bytes : List ℕ) (s : Reading P)
      → InBody s.0.parser
      → Filling buf buf_end before s
      → s.0.body_end + length bytes ≤ buf_end
      → Parsed (length bytes) s.0.prebody s (parse o place bytes s)
  unfolding parse
  parse-Parsed place bytes s inside f room =
      let x = o.execute s.0.parser bytes in
      let b = protocol s.0.parser bytes inside in
      let fired = call_all-Fired o place x.events s b.only in
      record {
        filling = record {
          from = omega (arith, fired.body_end, f.from);
          upto = omega (arith, fired.body_end, b.fits);
          frame = λ i out. elim out [
            | inl below ↦ fired.outside i (inl (omega (arith, f.from))) ∙ f.frame i (inl below)
            | inr above ↦ fired.outside i (inr (omega (arith, b.fits))) ∙ f.frame i (inr above)
          ];
        };
        same = fired.prebody;
        parsed = fired.parsed;
        within = b.within;
        whole = b.whole;
        complete =
            λ e. ap is_eom (fired.state ∙ ap (λ c. if c then eom else s.0.state) (b.complete e));
      }

  pub at_eom-ok :
      (s : Reading P)
      → is_eom s.0.state ≡ true
      → at_eom o s ≡ ok (record (s.0) { parser = o.unpause s.0.parser }, s.1)
  unfolding at_eom
  at_eom-ok s e = rw e refl
