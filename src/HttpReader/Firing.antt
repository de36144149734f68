-- ===== src/HttpReader/Firing.antt =====
-- src/http_reader.c: proofs about the callbacks while the body is read.
use molerat.Base.{
  ℕ, ◌+◌, ◌≤◌, ◌<◌, ◌≡◌, refl, ◌∙◌, arith, ◌⊎◌, inl, inr, true, false, Bool, List, [], ◌∷◌, length,
  if◌then◌else◌, write_at, write_at-below, update, length-slice,
}
use molerat.HttpReader.{eom, HttpReader}
use molerat.HttpReader.Callbacks.{
  Place, in_prebody, in_buffer, bytes_at, on_body, on_message_complete,
}
use molerat.HttpReader.Parsing.{
  Event, url, field, value, body_data, headers_complete, message_complete, Outside, Reading,
  call_back, call_all,
}

-- Events of a body without trailers.
abbrev pub all_body : List Event → Bool
all_body [] = true
all_body (body_data at len ∷ es) = all_body es
all_body (message_complete ∷ es) = all_body es
all_body (_ ∷ es) = false

abbrev pub body_length : List Event → ℕ
body_length [] = 0
body_length (body_data at len ∷ es) = len + body_length es
body_length (_ ∷ es) = body_length es

abbrev pub completes : List Event → Bool
completes [] = false
completes (message_complete ∷ es) = true
completes (_ ∷ es) = completes es

pub write_at-above :
    (f : ℕ → ℕ) (p : ℕ) (xs : List ℕ) (i : ℕ) → p + length xs ≤ i → write_at f p xs i ≡ f i
write_at-above f p [] i le = refl
write_at-above f p (x ∷ xs) i le =
    write_at-above (update f p x) (p + 1) xs i (omega arith) ∙ ground arith

length-bytes_at :
    {P : Type 0} (buffer : ℕ → ℕ) (r : HttpReader P) (place : Place) (at len : ℕ)
    → length (bytes_at buffer r place at len) ≡ len
unfolding bytes_at
length-bytes_at buffer r (in_prebody base) at len = length-slice r.prebody.memory (base + at) len
length-bytes_at buffer r (in_buffer base) at len = length-slice buffer (base + at) len

-- What the events of a body leave.
pub record Fired {P : Type 0} (events : List Event) (s s' : Reading P) : Type 0 where
  pub body_end : s'.0.body_end ≡ s.0.body_end + body_length events
  pub prebody : s'.0.prebody ≡ s.0.prebody
  pub parsed : s'.0.parsed ≡ s.0.parsed
  pub state : s'.0.state ≡ (if completes events then eom else s.0.state)
  pub outside :
      (i : ℕ) → (i < s.0.body_end) ⊎ (s.0.body_end + body_length events ≤ i) → s'.1 i ≡ s.1 i

eom_either : (b : Bool) → (if b then eom else eom) ≡ eom
eom_either true = refl
eom_either false = refl

module _ {P : Type 0} (o : Outside P) (place : Place) where
  pub call_all-Fired :
      (events : List Event) (s : Reading P)
      → all_body events ≡ true
      → Fired events s (call_all o place events s)
  unfolding call_all call_back on_body on_message_complete
  call_all-Fired [] s h = record {
    body_end = omega arith;
    prebody = refl;
    parsed = refl;
    state = refl;
    outside = λ i out. refl;
  }
  call_all-Fired (body_data at len ∷ es) s h =
      let rest = call_all-Fired es (call_back o place (body_data at len) s) h in
      let long = length-bytes_at s.1 s.0 place at len in
      record {
        body_end = rest.body_end ∙ omega arith;
        prebody = rest.prebody;
        parsed = rest.parsed;
        state = rest.state;
        outside = λ i out. elim out [
          | inl below ↦
              rest.outside i (inl (omega arith))
              ∙ write_at-below s.1 s.0.body_end (bytes_at s.1 s.0 place at len) i below
          | inr above ↦
              rest.outside i (inr (omega arith))
              ∙ write_at-above s.1 s.0.body_end (bytes_at s.1 s.0 place at len) i (omega arith)
        ];
      }
  call_all-Fired (message_complete ∷ es) s h =
      let rest = call_all-Fired es (call_back o place message_complete s) h in
      record {
        body_end = rest.body_end;
        prebody = rest.prebody;
        parsed = rest.parsed;
        state = rest.state ∙ eom_either (completes es);
        outside = rest.outside;
      }
  call_all-Fired (url at len ∷ es) s h = absurd (cc)
  call_all-Fired (field at len ∷ es) s h = absurd (cc)
  call_all-Fired (value at len ∷ es) s h = absurd (cc)
  call_all-Fired (headers_complete ∷ es) s h = absurd (cc)
