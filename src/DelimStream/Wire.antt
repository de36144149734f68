-- ===== src/DelimStream/Wire.antt =====
-- What a delimited stream puts on the stream below: chunks of payload, and an end.
use molerat.Base.{
  sym, ℕ, ◌≤◌, ◌<◌, ◌≡◌, refl, ap, ◌∙◌, arith, List, [], ◌∷◌, ◌++◌, length, append_assoc,
}
use molerat.DelimStream.{max_chunk_size, chunk_size_end_bit, chunk_size_to_net}
use molerat.DelimStream.Reader.{chunk_size_from_net}

abbrev pub Chunks : Type 0
Chunks = List (List ℕ)

-- The payload of the chunks.
abbrev pub payload_of : Chunks → List ℕ
payload_of [] = []
payload_of (c ∷ cs) = c ++ payload_of cs

-- A chunk has a payload, and one whose length leaves the end bit clear.
abbrev pub Fits : Chunks → Type 0
Fits [] = Unit {0}
Fits (c ∷ cs) = (0 < length c) × (length c ≤ max_chunk_size) × Fits cs

-- The chunks, each after its size.
abbrev pub frames : Chunks → List ℕ
frames [] = []
frames (c ∷ cs) = chunk_size_to_net (length c) ++ (c ++ frames cs)

-- The chunks, and the size that ends the stream.
abbrev pub wire : Chunks → List ℕ
wire [] = chunk_size_to_net chunk_size_end_bit
wire (c ∷ cs) = chunk_size_to_net (length c) ++ (c ++ wire cs)

pub wire-frames : (cs : Chunks) → wire cs ≡ frames cs ++ chunk_size_to_net chunk_size_end_bit
wire-frames [] = refl
wire-frames (c ∷ cs) =
    ap (λ xs. chunk_size_to_net (length c) ++ xs)
      (ap (λ xs. c ++ xs) (wire-frames cs) ∙ sym (append_assoc c (frames cs) _))

pub frames-append : (cs ds : Chunks) → frames (cs ++ ds) ≡ frames cs ++ frames ds
frames-append [] ds = refl
frames-append (c ∷ cs) ds =
    ap (λ xs. chunk_size_to_net (length c) ++ xs)
      (ap (λ xs. c ++ xs) (frames-append cs ds) ∙ sym (append_assoc c (frames cs) (frames ds)))

pub payload_of-append : (cs ds : Chunks) → payload_of (cs ++ ds) ≡ payload_of cs ++ payload_of ds
payload_of-append [] ds = refl
payload_of-append (c ∷ cs) ds =
    ap (λ xs. c ++ xs) (payload_of-append cs ds)
    ∙ sym (append_assoc c (payload_of cs) (payload_of ds))

pub append-Fits :
    (cs : Chunks) (c : List ℕ)
    → Fits cs
    → 0 < length c
    → length c ≤ max_chunk_size
    → Fits (cs ++ c ∷ [])
append-Fits [] c f h₁ h₂ = (h₁, h₂, tt)
append-Fits (b ∷ cs) c f h₁ h₂ = (f.0, f.1, append-Fits cs c f.2 h₁ h₂)

-- A size is read back as it was written.
pub from_net-to_net : (n : ℕ) → n < 65536 → chunk_size_from_net (chunk_size_to_net n) ≡ n
from_net-to_net n h = omega arith
