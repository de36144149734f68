-- ===== src/Base/Arrays.antt =====
-- Memory as a function from offsets: what stands in a part of it, and writes of several bytes.
use Prim.Native.Nat.{ℕ, zero, suc, ◌+◌, ◌<◌}
use mathlib.Core.Path.{◌≡◌, refl, sym, ap, ap₂, ◌∙◌}
use mathlib.Core.List.{List, [], ◌∷◌, ◌++◌}
use native.Mathlib.Nat.{add-zero, zero-add}
use native.Mathlib.Omega.{arith}
use molerat.Base.Lists.{length, drop, drop-append}
use molerat.Base.Maps.{update}

-- The `n` bytes from offset `r` on.
abbrev pub slice : (ℕ → ℕ) → ℕ → ℕ → List ℕ
slice f r zero = []
slice f r (suc n) = f r ∷ slice f (r + 1) n

-- `memcpy` of a list to offset `p`.
abbrev pub write_at : (ℕ → ℕ) → ℕ → List ℕ → ℕ → ℕ
write_at f p [] = f
write_at f p (x ∷ xs) = write_at (update f p x) (p + 1) xs

add_suc : (r i : ℕ) → r + suc i ≡ r + 1 + i
add_suc r i = omega arith

pub length-slice : (f : ℕ → ℕ) (r n : ℕ) → length (slice f r n) ≡ n
length-slice f r zero = refl
length-slice f r (suc n) = omega (arith, length-slice f (r + 1) n)

pub slice-cong :
    (f g : ℕ → ℕ) (r s n : ℕ)
    → ((i : ℕ) → i < n → f (r + i) ≡ g (s + i))
    → slice f r n ≡ slice g s n
slice-cong f g r s zero h = refl
slice-cong f g r s (suc n) h =
    let first = h 0 (omega arith) in
    let rest =
      slice-cong f g (r + 1) (s + 1) n
        λ i lt. rw (← add_suc r i, ← add_suc s i) (h (suc i) (omega arith)) in
    ap₂ ◌∷◌ (rw (add-zero r, add-zero s) at first) rest

pub slice-add :
    (f : ℕ → ℕ) (r m n k : ℕ) → k ≡ m + n → slice f r k ≡ slice f r m ++ slice f (r + m) n
slice-add f r zero n k e = ap₂ (slice f) (sym (add-zero r)) (omega arith)
slice-add f r (suc m) n zero e = absurd (omega arith)
slice-add f r (suc m) n (suc k) e = ap (◌∷◌ (f r)) (
    slice-add f (r + 1) m n k (omega arith)
    ∙ ap (λ i. slice f (r + 1) m ++ slice f i n) (sym (add_suc r m)))

pub write_at-below : (f : ℕ → ℕ) (p : ℕ) (xs : List ℕ) (i : ℕ) → i < p → write_at f p xs i ≡ f i
write_at-below f p [] i lt = refl
write_at-below f p (x ∷ xs) i lt =
    write_at-below (update f p x) (p + 1) xs i (omega arith) ∙ ground arith

pub slice-write_at : (f : ℕ → ℕ) (p : ℕ) (xs : List ℕ) → slice (write_at f p xs) p (length xs) ≡ xs
slice-write_at f p [] = refl
slice-write_at f p (x ∷ xs) =
    ap₂ ◌∷◌ (write_at-below (update f p x) (p + 1) xs p (omega arith) ∙ ground arith)
      (slice-write_at (update f p x) (p + 1) xs)

-- A list written behind the first `p` bytes.
pub slice-write_at_end :
    (f : ℕ → ℕ) (p k : ℕ) (xs : List ℕ)
    → k ≡ p + length xs
    → slice (write_at f p xs) 0 k ≡ slice f 0 p ++ xs
slice-write_at_end f p k xs e =
    slice-add (write_at f p xs) 0 p (length xs) k e
    ∙ ap₂ ◌++◌
        (slice-cong (write_at f p xs) f 0 0 p λ i lt. rw (zero-add i) (write_at-below f p xs i lt))
        (rw (zero-add p) (slice-write_at f p xs))

pub slice-write_at_prefix :
    (f : ℕ → ℕ) (p : ℕ) (xs ys : List ℕ) → slice (write_at f p (xs ++ ys)) p (length xs) ≡ xs
slice-write_at_prefix f p [] ys = refl
slice-write_at_prefix f p (x ∷ xs) ys =
    ap₂ ◌∷◌ (write_at-below (update f p x) (p + 1) (xs ++ ys) p (omega arith) ∙ ground arith)
      (slice-write_at_prefix (update f p x) (p + 1) xs ys)

-- Of a list written behind the first `p` bytes, the beginning.
pub slice-write_at_part :
    (f : ℕ → ℕ) (p k : ℕ) (xs ys : List ℕ)
    → k ≡ p + length xs
    → slice (write_at f p (xs ++ ys)) 0 k ≡ slice f 0 p ++ xs
slice-write_at_part f p k xs ys e =
    slice-add (write_at f p (xs ++ ys)) 0 p (length xs) k e
    ∙ ap₂ ◌++◌
        (slice-cong (write_at f p (xs ++ ys)) f 0 0 p
          λ i lt. rw (zero-add i) (write_at-below f p (xs ++ ys) i lt))
        (rw (zero-add p) (slice-write_at_prefix f p xs ys))

-- What a write at `p` leaves alone.
pub slice-write_at_below :
    (f : ℕ → ℕ) (p : ℕ) (xs : List ℕ) → slice (write_at f p xs) 0 p ≡ slice f 0 p
slice-write_at_below f p xs =
    slice-cong (write_at f p xs) f 0 0 p λ i lt. rw (zero-add i) (write_at-below f p xs i lt)

pub drop-slice : (f : ℕ → ℕ) (r m n k : ℕ) → k ≡ m + n → drop m (slice f r k) ≡ slice f (r + m) n
drop-slice f r m n k e =
    rw (slice-add f r m n k e) (drop-append (slice f r m) _ m (length-slice f r m))
