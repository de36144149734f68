-- ===== src/HttpReader/Fragments.antt =====
-- src/http_reader.c: proofs about the fragments of a request's or response's head.
use molerat.Base.{
  ◌^◌, ◌<◌, ℕ, ◌+◌, ◌≤◌, ◌≡◌, ◌⊎◌, inl, inr, refl, ap, sym, subst, arith, List, [], ◌∷◌, slice,
  slice-cong, map,
}
use molerat.HttpReader.{Callback, fresh, cont, HttpReader}
use molerat.HttpReader.Callbacks.{
  in_prebody, on_url, on_url_cont, on_header_field, on_header_field_cont, on_header_value,
  on_header_value_cont,
}
use molerat.HttpReader.Parsing.{Event, url, field, value, Outside, call_back, call_all}
use molerat.HttpReader.Pieces.{
  Kind, url_text, name_text, value_text, Layout, found, Follows, url_first, name_first, url_url,
  url_name, name_name, name_value, value_value, value_name, IsNamed, IsArmed, Held,
}
use molerat.HttpReader.Holding.{
  Holding, on_url-Holding, on_url_cont-Holding, on_header_field-Holding,
}
use molerat.HttpReader.Headers.{
  on_header_field_cont-Holding, on_header_value-Holding, on_header_value_cont-Holding,
}

-- A fragment's kind, its offset in the data of the parse, and its length.
abbrev pub Fragment : Type 0
Fragment = Kind × ℕ × ℕ

abbrev pub event_of : Fragment → Event
event_of (url_text, at, len) = url at len
event_of (name_text, at, len) = field at len
event_of (value_text, at, len) = value at len

module _ (before : ℕ → ℕ) (base : ℕ) where
  -- The texts with the fragments, whose bytes are those of the data at `base`.
  unfoldable pub found_all : Layout → List Fragment → Layout
  found_all l [] = l
  found_all l ((k, at, len) ∷ fs) = found_all (found k (slice before (base + at) len) l) fs

  unfoldable pub end_of : ℕ → List Fragment → ℕ
  end_of limit [] = limit
  end_of limit ((k, at, len) ∷ fs) = end_of (base + at + len) fs

  -- The kinds may follow each other, and each fragment lies behind the one before it.
  unfoldable pub IsHead : (limit : ℕ) → Layout → List Fragment → Type 0
  IsHead limit l [] = Unit
  IsHead limit l ((k, at, len) ∷ fs) =
      Follows l k
      × (limit ≤ base + at)
      × IsHead (base + at + len) (found k (slice before (base + at) len) l) fs

callback_cases : (c : Callback) → (c ≡ fresh) ⊎ (c ≡ cont)
callback_cases fresh = inl refl
callback_cases cont = inr refl

module _ {P : Type 0} (o : Outside P) (buffer : ℕ → ℕ) (before : ℕ → ℕ)
    (base at len limit : ℕ) where
  module _ (r : HttpReader P) (c : Callback) where
    called_url :
        r.settings.on_url ≡ c
        → call_back o (in_prebody base) (url at len) (r, buffer) ≡ elim c [
          | fresh ↦ ((on_url o.stray (in_prebody base) at len r), buffer)
          | cont ↦ ((on_url_cont buffer (in_prebody base) at len r), buffer)
        ]
    unfolding call_back
    called_url e =
        ap
          (λ d. elim d [
            | fresh ↦ (on_url o.stray (in_prebody base) at len r, buffer)
            | cont ↦ (on_url_cont buffer (in_prebody base) at len r, buffer)
          ])
          e

    called_field :
        r.settings.on_header_field ≡ c
        → call_back o (in_prebody base) (field at len) (r, buffer) ≡ elim c [
          | fresh ↦ ((on_header_field o.stray o.junk_headers (in_prebody base) at len r), buffer)
          | cont ↦ ((on_header_field_cont buffer (in_prebody base) at len r), buffer)
        ]
    unfolding call_back
    called_field e =
        ap
          (λ d. elim d [
            | fresh ↦ (on_header_field o.stray o.junk_headers (in_prebody base) at len r, buffer)
            | cont ↦ (on_header_field_cont buffer (in_prebody base) at len r, buffer)
          ])
          e

    called_value :
        r.settings.on_header_value ≡ c
        → call_back o (in_prebody base) (value at len) (r, buffer) ≡ elim c [
          | fresh ↦ ((on_header_value o.stray (in_prebody base) at len r), buffer)
          | cont ↦ ((on_header_value_cont buffer (in_prebody base) at len r), buffer)
        ]
    unfolding call_back
    called_value e =
        ap
          (λ d. elim d [
            | fresh ↦ (on_header_value o.stray (in_prebody base) at len r, buffer)
            | cont ↦ (on_header_value_cont buffer (in_prebody base) at len r, buffer)
          ])
          e

  module _ (r : HttpReader P) (le : limit ≤ base + at) (fits : base + at + len < 2 ^ 31) where
    abbrev Calls : Kind → Layout → Type 0
    Calls k l =
        Holding before (base + at + len) (found k (slice r.prebody.memory (base + at) len) l)
          (call_back o (in_prebody base) (event_of (k, at, len)) (r, buffer)).0

    by_value :
        (t : List ℕ) (l : Layout)
        → IsNamed l
        → Holding before limit ((value_text, t) ∷ l) r
        → Calls value_text ((value_text, t) ∷ l)
    unfolding IsArmed
    by_value t [] n h = elim n [ ]
    by_value t ((url_text, t') ∷ l) n h = elim n [ ]
    by_value t ((value_text, t') ∷ l) n h = elim n [ ]
    by_value t ((name_text, t') ∷ l) n h =
        rw (called_value r cont h.armed.1)
          (on_header_value_cont-Holding o.stray buffer base at len before limit r le fits t t' l h)

    call_back-Holding : (k : Kind) (l : Layout) → Follows l k → Holding before limit l r → Calls k l
    unfolding IsArmed Held
    call_back-Holding _ _ url_first h =
        rw (called_url r fresh h.armed.0)
          (on_url-Holding o.stray o.junk_headers buffer base at len before limit r le fits h)
    call_back-Holding _ _ (url_url {t = t} {l = l}) h =
        rw (called_url r cont h.armed.0) (
          on_url_cont-Holding o.stray o.junk_headers buffer base at len before limit r le fits t l
            h)
    call_back-Holding _ _ name_first h = rw (called_field r fresh h.armed.1) (
        on_header_field-Holding o.stray o.junk_headers buffer base at len before limit r le fits []
          h)
    call_back-Holding _ _ (url_name {t = t} {l = l}) h = rw (called_field r fresh h.armed.1) (
        on_header_field-Holding o.stray o.junk_headers buffer base at len before limit r le fits
          ((url_text, t) ∷ l) h)
    call_back-Holding _ _ (value_name {t = t} {l = l}) h = rw (called_field r fresh h.armed.0) (
        on_header_field-Holding o.stray o.junk_headers buffer base at len before limit r le fits
          ((value_text, t) ∷ l) h)
    call_back-Holding _ _ (name_name {t = t} {l = l}) h =
        rw (called_field r cont h.armed.0)
          (on_header_field_cont-Holding o.stray buffer base at len before limit r le fits t l h)
    call_back-Holding _ _ (name_value {t = t} {l = l}) h =
        rw (called_value r fresh h.armed.1)
          (on_header_value-Holding o.stray buffer base at len before limit r le fits t l h)
    call_back-Holding _ _ (value_value {t = t} {l = l}) h = by_value t l h.held.2 h

buffer_kept :
    {P : Type 0} (o : Outside P) (buffer : ℕ → ℕ) (base at len : ℕ) (r : HttpReader P) (k : Kind)
    → (call_back o (in_prebody base) (event_of (k, at, len)) (r, buffer)).1 ≡ buffer
buffer_kept o buffer base at len r url_text = elim (callback_cases r.settings.on_url) [
  | inl e ↦ ap (λ s. s.1) (called_url o buffer (λ i. i) base at len 0 r fresh e)
  | inr e ↦ ap (λ s. s.1) (called_url o buffer (λ i. i) base at len 0 r cont e)
]
buffer_kept o buffer base at len r name_text = elim (callback_cases r.settings.on_header_field) [
  | inl e ↦ ap (λ s. s.1) (called_field o buffer (λ i. i) base at len 0 r fresh e)
  | inr e ↦ ap (λ s. s.1) (called_field o buffer (λ i. i) base at len 0 r cont e)
]
buffer_kept o buffer base at len r value_text = elim (callback_cases r.settings.on_header_value) [
  | inl e ↦ ap (λ s. s.1) (called_value o buffer (λ i. i) base at len 0 r fresh e)
  | inr e ↦ ap (λ s. s.1) (called_value o buffer (λ i. i) base at len 0 r cont e)
]

limit_le-end :
    (before : ℕ → ℕ) (base limit : ℕ) (l : Layout) (fragments : List Fragment)
    → IsHead before base limit l fragments
    → limit ≤ end_of before base limit fragments
unfolding IsHead end_of
limit_le-end before base limit l [] head = omega arith
limit_le-end before base limit l ((k, at, len) ∷ fs) (follows, le, rest) =
    let r =
      limit_le-end before base (base + at + len) (found k (slice before (base + at) len) l) fs
        rest in
    omega arith

-- The callbacks for fragments that lie behind each other, of kinds that may follow each other and at offsets
-- that an int holds, leave the url and each header's name and value in one piece: in `prebody` stand, in
-- order and where the reader says, the texts that were there, with each fragment added to the newest text of
-- its kind or as a new one, and nothing behind the last fragment has changed.
pub call_all-Holding :
    {P : Type 0} (o : Outside P) (buffer before : ℕ → ℕ) (base limit : ℕ) (l : Layout)
    (fragments : List Fragment) (r : HttpReader P)
    → end_of before base limit fragments < 2 ^ 31
    → IsHead before base limit l fragments
    → Holding before limit l r
    → Holding before
        (end_of before base limit fragments)
        (found_all before base l fragments)
        (call_all o (in_prebody base) (map event_of fragments) (r, buffer)).0
unfolding call_all IsHead end_of found_all
call_all-Holding o buffer before base limit l [] r fits head h = h
call_all-Holding o buffer before base limit l ((k, at, len) ∷ fs) r fits (follows, le, rest) h =
    let same : slice r.prebody.memory (base + at) len ≡ slice before (base + at) len =
      slice-cong r.prebody.memory before (base + at) (base + at) len
        λ i lt. h.ahead (base + at + i) (omega arith) in
    let next =
      call_back-Holding o buffer before base at len limit r le
        (omega (
          arith,
          fits,
          limit_le-end before base (base + at + len) (found k (slice before (base + at) len) l) fs
              rest,
        ))
        k l follows h in
    let s = call_back o (in_prebody base) (event_of (k, at, len)) (r, buffer) in
    subst
      (λ b.
        Holding before (end_of before base (base + at + len) fs)
          (found_all before base (found k (slice before (base + at) len) l) fs)
          (call_all o (in_prebody base) (map event_of fs) (s.0, b)).0)
      (sym (buffer_kept o buffer base at len r k))
      (call_all-Holding o buffer before base (base + at + len)
        (found k (slice before (base + at) len) l) fs s.0 fits rest
        (subst (λ text. Holding before (base + at + len) (found k text l) s.0) same next))
