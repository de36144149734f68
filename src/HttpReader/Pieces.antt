-- ===== src/HttpReader/Pieces.antt =====
-- src/http_reader.c: the url, the names and the values that the parser found, as texts, and where they
-- lie in `prebody`.
use molerat.Base.{
  ℕ, ◌+◌, ◌-◌, ◌≤◌, ◌<◌, ◌≡◌, ap, ap₂, sym, subst, ◌∙◌, arith, List, [], ◌∷◌, ◌++◌, slice,
  slice-cong, slice-add, write_at, write_at-below, slice-write_at, length-slice,
}
use molerat.HttpReader.{HeaderInternal, fresh, cont, Settings}

pub data Kind : Type 0 where
  url_text name_text value_text : Kind

-- The texts so far, the newest first.
abbrev pub Layout : Type 0
Layout = List (Kind × List ℕ)

-- A fragment belongs to the newest text if that is of its kind, and else begins a new one.
abbrev pub found : Kind → List ℕ → Layout → Layout
found url_text text ((url_text, t) ∷ l) = (url_text, t ++ text) ∷ l
found name_text text ((name_text, t) ∷ l) = (name_text, t ++ text) ∷ l
found value_text text ((value_text, t) ∷ l) = (value_text, t ++ text) ∷ l
found kind text l = (kind, text) ∷ l

-- Which kinds may follow.
pub data Follows : Layout → Kind → Type 0 where
  url_first : Follows [] url_text
  name_first : Follows [] name_text
  url_url : {t : List ℕ} {l : Layout} → Follows ((url_text, t) ∷ l) url_text
  url_name : {t : List ℕ} {l : Layout} → Follows ((url_text, t) ∷ l) name_text
  name_name : {t : List ℕ} {l : Layout} → Follows ((name_text, t) ∷ l) name_text
  name_value : {t : List ℕ} {l : Layout} → Follows ((name_text, t) ∷ l) value_text
  value_value : {t : List ℕ} {l : Layout} → Follows ((value_text, t) ∷ l) value_text
  value_name : {t : List ℕ} {l : Layout} → Follows ((value_text, t) ∷ l) name_text

-- A value stands behind its name.
pub data IsNamed : Layout → Type 0 where
  named : {t : List ℕ} {l : Layout} → IsNamed ((name_text, t) ∷ l)

-- The callbacks that are set.
unfoldable pub IsArmed : Settings → Layout → Type 0
IsArmed s [] = (s.on_url ≡ fresh) × (s.on_header_field ≡ fresh)
IsArmed s ((url_text, t) ∷ l) = (s.on_url ≡ cont) × (s.on_header_field ≡ fresh)
IsArmed s ((name_text, t) ∷ l) = (s.on_header_field ≡ cont) × (s.on_header_value ≡ fresh)
IsArmed s ((value_text, t) ∷ l) = (s.on_header_field ≡ fresh) × (s.on_header_value ≡ cont)

-- The text from `start` to `stop`, which is `limit` at most.
pub record Lies (memory : ℕ → ℕ) (start stop limit : ℕ) (text : List ℕ) : Type 0 where
  pub ordered : start ≤ stop
  pub below : stop ≤ limit
  pub text_is : slice memory start (stop - start) ≡ text

-- Each text lies where the reader says, in order and below `limit`, the names and values in `n` headers.
unfoldable pub Held :
    (memory : ℕ → ℕ) (url url_end : ℕ) (headers : ℕ → HeaderInternal) (n limit : ℕ)
    → Layout
    → Type 0
Held memory url url_end headers n limit [] = n ≡ 0
Held memory url url_end headers n limit ((url_text, t) ∷ l) =
    Lies memory url url_end limit t × (n ≡ 0) × (l ≡ [])
Held memory url url_end headers n limit ((name_text, t) ∷ l) =
    (0 < n)
    × Lies memory (headers (n - 1)).name (headers (n - 1)).name_end limit t
    × Held memory url url_end headers (n - 1) (headers (n - 1)).name l
Held memory url url_end headers n limit ((value_text, t) ∷ l) =
    (0 < n)
    × Lies memory (headers (n - 1)).value (headers (n - 1)).value_end limit t
    × IsNamed l
    × Held memory url url_end headers n (headers (n - 1)).value l

module _ (memory memory' : ℕ → ℕ) where
  pub Lies-frame :
      {start stop limit : ℕ} {text : List ℕ}
      → ((i : ℕ) → i < limit → memory' i ≡ memory i)
      → Lies memory start stop limit text
      → Lies memory' start stop limit text
  Lies-frame {start = start} {stop = stop} same h = record {
    ordered = h.ordered;
    below = h.below;
    text_is =
        slice-cong memory' memory start start (stop - start)
          (λ i lt. same (start + i) (omega (arith, h.ordered, h.below)))
        ∙ h.text_is;
  }

  module _ (url url_end : ℕ) (headers headers' : ℕ → HeaderInternal) where
    -- What lies above, and the headers to come, do not matter.
    pub Held-frame :
        (l : Layout) (n limit : ℕ)
        → ((i : ℕ) → i < limit → memory' i ≡ memory i)
        → ((i : ℕ) → i < n → headers' i ≡ headers i)
        → Held memory url url_end headers n limit l
        → Held memory' url url_end headers' n limit l
    unfolding Held
    Held-frame [] n limit same same' h = h
    Held-frame ((url_text, t) ∷ l) n limit same same' (lies, none, last) =
        (Lies-frame same lies, none, last)
    Held-frame ((name_text, t) ∷ l) n limit same same' (some, lies, rest) =
        let e = same' (n - 1) (omega arith) in
        (
          some,
          subst (λ h. Lies memory' h.name h.name_end limit t) (sym e) (Lies-frame same lies),
          subst (λ h. Held memory' url url_end headers' (n - 1) h.name l) (sym e)
              (Held-frame l (n - 1) (headers (n - 1)).name
                (λ i lt. same i (omega (arith, lies.ordered, lies.below)))
                (λ i lt. same' i (omega arith)) rest),
        )
    Held-frame ((value_text, t) ∷ l) n limit same same' (some, lies, name, rest) =
        let e = same' (n - 1) (omega arith) in
        (
          some,
          subst (λ h. Lies memory' h.value h.value_end limit t) (sym e) (Lies-frame same lies),
          name,
          subst (λ h. Held memory' url url_end headers' n h.value l) (sym e)
              (Held-frame l n (headers (n - 1)).value
                (λ i lt. same i (omega (arith, lies.ordered, lies.below))) same' rest),
        )

-- A fragment that begins a text.
pub Lies-first :
    (memory : ℕ → ℕ) (at len : ℕ) → Lies memory at (at + len) (at + len) (slice memory at len)
Lies-first memory at len = record {
  ordered = omega arith;
  below = omega arith;
  text_is = ap (slice memory at) (omega arith);
}

-- A fragment that is moved to the end of a text, and one that is there already.
pub Lies-moved :
    (memory : ℕ → ℕ) (start stop limit at len : ℕ) (text : List ℕ)
    → Lies memory start stop limit text
    → limit ≤ at
    → Lies
        (write_at memory stop (slice memory at len))
        start
        (stop + len)
        (at + len)
        (text ++ slice memory at len)
Lies-moved memory start stop limit at len text h le =
    let moved = slice memory at len in
    let memory' = write_at memory stop moved in
    let n = stop - start in
    let end : start + n ≡ stop = omega (arith, h.ordered) in
    record {
      ordered = omega (arith, h.ordered);
      below = omega (arith, h.below);
      text_is =
          slice-add memory' start n len (stop + len - start) (omega (arith, h.ordered))
          ∙ ap₂ ◌++◌
              (slice-cong memory' memory start start n
                  (λ i lt. write_at-below memory stop moved (start + i) (omega (arith, h.ordered)))
                ∙ h.text_is)
              (ap₂ (slice memory') end (sym (length-slice memory at len))
                ∙ slice-write_at memory stop moved);
    }

pub Lies-adjacent :
    (memory : ℕ → ℕ) (start stop limit at len : ℕ) (text : List ℕ)
    → Lies memory start stop limit text
    → stop ≡ at
    → Lies memory start (stop + len) (at + len) (text ++ slice memory at len)
Lies-adjacent memory start stop limit at len text h e =
    let n = stop - start in
    record {
      ordered = omega (arith, h.ordered);
      below = omega arith;
      text_is =
          slice-add memory start n len (stop + len - start) (omega (arith, h.ordered))
          ∙ ap₂ ◌++◌ h.text_is (ap (λ p. slice memory p len) (omega (arith, h.ordered)));
    }
