-- ===== src/Buffer/Printing.antt =====
-- src/buffer.c: proofs about `growbuf_vprintf`.
use molerat.Base.{
  assert, ◌>>◌, dec_le, lt→leb, lt→ltb, ℕ, zero, suc, ◌+◌, ◌-◌, ◌*◌, ◌^◌, ◌≤◌, ◌<◌, ◌≡◌, refl, ap,
  sym, ◌∙◌, arith, ◌⊎◌, inl, inr, not, List, [], ◌∷◌, ◌++◌, length, length-append, take, le→leb, ok,
  slice, slice-write_at_end, slice-write_at_part, slice-write_at_below, take-all, length-take,
  dec_lt, append-nil,
}
use molerat.Buffer.{GrowBuf, vsnprintf, vprintf_loop, growbuf_vprintf, double_capacity}
use molerat.Buffer.Growth.{HasSize, doublings, enough_doublings}
use molerat.Buffer.Contents.{contents, IsOpen}

-- A text whose last byte has given way to the null that `vsnprintf` ends with.
abbrev pub cut_short : List ℕ → List ℕ
cut_short [] = []
cut_short (x ∷ xs) = take (length xs) (x ∷ xs) ++ 0 ∷ []

length-cut_short : (text : List ℕ) → length (cut_short text) ≡ length text
length-cut_short [] = refl
length-cut_short (x ∷ xs) =
    omega
      (arith, length-append (take (length xs) (x ∷ xs)) (0 ∷ []), length-take (length xs) (x ∷ xs))

module _ (f : ℕ → ℕ) (p : ℕ) (text : List ℕ) where
  -- `vsnprintf` with more space than the text has bytes.
  vsnprintf_ample :
      (space k : ℕ)
      → length text < space
      → k ≡ p + length text
      → slice (vsnprintf f p space text) 0 k ≡ slice f 0 p ++ text
  vsnprintf_ample zero k h e = absurd (omega arith)
  vsnprintf_ample (suc room) k h e =
      rw (take-all text room (omega arith)) (slice-write_at_part f p k text (0 ∷ []) e)

  -- Nothing in front of `p` changes.
  vsnprintf_before : (space : ℕ) → slice (vsnprintf f p space text) 0 p ≡ slice f 0 p
  vsnprintf_before zero = refl
  vsnprintf_before (suc room) = slice-write_at_below f p (take room text ++ 0 ∷ [])

-- `vsnprintf` with as much space as the text has bytes.
vsnprintf_exact :
    (f : ℕ → ℕ) (p : ℕ) (text : List ℕ) (k : ℕ)
    → k ≡ p + length text
    → slice (vsnprintf f p (length text) text) 0 k ≡ slice f 0 p ++ cut_short text
vsnprintf_exact f p [] k e = ap (slice f 0) (omega arith) ∙ sym (append-nil (slice f 0 p))
vsnprintf_exact f p (x ∷ xs) k e =
    slice-write_at_end f p k (take (length xs) (x ∷ xs) ++ 0 ∷ [])
      (omega (arith, length-cut_short (x ∷ xs)))

-- What printing `text` into `g` comes to: the text whole where space is left over, and cut short
-- where the text fills the space.
pub record Printed (g : GrowBuf) (text : List ℕ) (g' : GrowBuf) : Type 0 where
  pub open' : IsOpen g'
  pub end : g'.end ≡ g.end + length text
  pub outcome :
      ((g'.end < g'.limit) × (contents g' ≡ contents g ++ text))
      ⊎ ((g'.end ≡ g'.limit) × (contents g' ≡ contents g ++ cut_short text))

-- A round of the loop that finds enough space.
module _ (g : GrowBuf) (text : List ℕ) (o : IsOpen g) (fits : g.end + length text ≤ g.limit)
    (small : length text < 2 ^ 31) where
  printed : GrowBuf
  printed = record g {
    memory = vsnprintf g.memory g.end (g.limit - g.end) text;
    end = g.end + length text;
  }

  last_round : (f : ℕ) → vprintf_loop (suc f) g text ≡ ok printed
  unfolding vprintf_loop printed
  last_round f = rw (
    lt→ltb (length text) (2 ^ 31) small,
    le→leb (length text) (g.limit - g.end) (omega arith),
    vprintf_loop,
  )

  last_round-Printed : Printed g text printed
  unfolding printed
  last_round-Printed = elim (dec_lt (length text) (g.limit - g.end)) [
    | yes ample ↦ record {
      open' = record { thawed = o.thawed; within = fits };
      end = refl;
      outcome = inl (
        omega arith,
        vsnprintf_ample g.memory g.end text (g.limit - g.end) (g.end + length text) ample refl,
      );
    }
    | no filled ↦
        let exact : g.limit - g.end ≡ length text = omega arith in
        record {
          open' = record { thawed = o.thawed; within = fits };
          end = refl;
          outcome = inr (
            omega arith,
            ap (λ n. slice (vsnprintf g.memory g.end n text) 0 (g.end + length text)) exact
                ∙ vsnprintf_exact g.memory g.end text (g.end + length text) refl,
          );
        }
  ]

-- The buffer for the next round of the loop.
next_round : GrowBuf → List ℕ → GrowBuf
next_round g text =
    double_capacity (record g { memory = vsnprintf g.memory g.end (g.limit - g.end) text })

other_round :
    (f : ℕ) (g : GrowBuf) (text : List ℕ)
    → g.limit < g.end + length text
    → g.end ≤ g.limit
    → length text < 2 ^ 31
    → vprintf_loop (suc f) g text ≡ vprintf_loop f (next_round g text) text
unfolding vprintf_loop next_round
other_round f g text short within small = rw (
  lt→ltb (length text) (2 ^ 31) small,
  lt→leb (length text) (g.limit - g.end) (omega arith),
  vprintf_loop,
)

next_round-IsOpen :
    (g : GrowBuf) (text : List ℕ)
    → IsOpen g
    → g.limit < 2 ^ 63
    → IsOpen (next_round g text) × ((next_round g text).limit ≡ g.limit * 2)
unfolding next_round double_capacity
next_round-IsOpen g text o h =
    (record { thawed = o.thawed; within = omega (arith, o.within) }, omega arith)

Printed-next_round :
    (g g' : GrowBuf) (text : List ℕ) → Printed (next_round g text) text g' → Printed g text g'
unfolding next_round double_capacity
Printed-next_round g g' text p = record {
  open' = p.open';
  end = p.end;
  outcome = rw (vsnprintf_before g.memory g.end text (g.limit - g.end)) at p.outcome;
}

-- The number of rounds is that of the doublings needed, and one more.
vprintf_loop-Printed :
    (f : ℕ) (g : GrowBuf) (text : List ℕ)
    → IsOpen g
    → g.end + length text ≤ 2 ^ 63
    → g.end + length text ≤ doublings f g.limit
    → length text < 2 ^ 31
    → (g' : GrowBuf) × (vprintf_loop (suc f) g text ≡ ok g') × Printed g text g'
unfolding doublings next_round double_capacity
vprintf_loop-Printed zero g text o h₁ h₂ small = (
  printed g text o h₂ small,
  last_round g text o h₂ small zero,
  last_round-Printed g text o h₂ small,
)
vprintf_loop-Printed (suc f) g text o h₁ h₂ small = elim (dec_le (g.end + length text) g.limit) [
  | yes fits ↦ (
    printed g text o fits small,
    last_round g text o fits small (suc f),
    last_round-Printed g text o fits small,
  )
  | no short ↦
      let (o', twice) = next_round-IsOpen g text o (omega arith) in
      let (g', e, p) = vprintf_loop-Printed f (next_round g text) text o' h₁ (rw twice h₂) small in
      (
        g',
        other_round (suc f) g text (omega arith) o.within small ∙ e,
        Printed-next_round g g' text p,
      )
]

vprintf_starts :
    (g : GrowBuf) (text : List ℕ) → IsOpen g → growbuf_vprintf g text ≡ vprintf_loop 65 g text
unfolding growbuf_vprintf
vprintf_starts g text o = ap (λ b. assert (not b) >> vprintf_loop 65 g text) o.thawed

-- Within the sizes that do not overflow, for a text of less than 2 ^ 31 bytes, `growbuf_vprintf` ends after 65 rounds at most. It puts the
-- text behind the other bytes; but where the text then ends at `limit` its last byte is a null.
pub growbuf_vprintf-Printed :
    (g : GrowBuf) (text : List ℕ)
    → IsOpen g
    → HasSize g (length text)
    → length text < 2 ^ 31
    → (g' : GrowBuf) × (growbuf_vprintf g text ≡ ok g') × Printed g text g'
growbuf_vprintf-Printed g text o h small =
    let (g', e, p) =
      vprintf_loop-Printed 64 g text o h.fits
        (omega (arith, h.fits, enough_doublings g.limit h.some_limit)) small in
    (g', vprintf_starts g text o ∙ e, p)

-- Printing a text that is not empty, has less than 2 ^ 31 bytes and exactly fills the space left of a buffer that may be written
-- to succeeds, but leaves a null in place of the text's last byte.
pub growbuf_vprintf_truncates :
    (g : GrowBuf) (x : ℕ) (xs : List ℕ)
    → IsOpen g
    → g.end + length (x ∷ xs) ≡ g.limit
    → length (x ∷ xs) < 2 ^ 31
    → (g' : GrowBuf) × (growbuf_vprintf g (x ∷ xs) ≡ ok g')
      × (contents g' ≡ contents g ++ (take (length xs) (x ∷ xs) ++ 0 ∷ []))
unfolding printed
growbuf_vprintf_truncates g x xs o exact small =
    let fits : g.end + length (x ∷ xs) ≤ g.limit = omega arith in
    let p = last_round-Printed g (x ∷ xs) o fits small in
    (
      printed g (x ∷ xs) o fits small,
      vprintf_starts g (x ∷ xs) o ∙ last_round g (x ∷ xs) o fits small 64,
      elim p.outcome [ inl room ↦ absurd (omega (arith, room.0)) | inr filled ↦ filled.1 ],
    )
