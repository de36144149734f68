-- ===== src/Buffer/Compare.antt =====
-- src/buffer.c: proofs about `bytes_compare`.
use molerat.Base.{
  ℕ, suc, ◌≡◌, refl, ap, sym, ◌∙◌, arith, List, [], ◌∷◌, length, ltb, if◌then◌else◌, ◌↔◌,
}
use molerat.Buffer.{Sign, less, equal, greater, bytes_compare}

-- The first bytes that differ decide, and else the list that goes on is greater.
unfoldable pub lexicographic : List ℕ → List ℕ → Sign
lexicographic [] [] = equal
lexicographic [] (y ∷ b) = less
lexicographic (x ∷ a) [] = greater
lexicographic (x ∷ a) (y ∷ b) =
    let rest = lexicographic a b in if ltb x y then less else if ltb y x then greater else rest

shorter : ℕ → ℕ → ℕ
shorter m n = if ltb m n then m else n

shorter-suc : (m n : ℕ) → shorter (suc m) (suc n) ≡ suc (shorter m n)
unfolding shorter
shorter-suc m n = ground arith

compare_cons :
    (x y : ℕ) (a b : List ℕ)
    → bytes_compare (x ∷ a) (y ∷ b)
      ≡ (if ltb x y then less else if ltb y x then greater else bytes_compare a b)
unfolding bytes_compare shorter
compare_cons x y a b = ground (arith, shorter-suc (length a) (length b))

-- `bytes_compare` of any two byte ranges is their order in a dictionary.
pub bytes_compare-lexicographic : (a b : List ℕ) → bytes_compare a b ≡ lexicographic a b
unfolding bytes_compare lexicographic
bytes_compare-lexicographic [] [] = refl
bytes_compare-lexicographic [] (y ∷ b) = ground arith
bytes_compare-lexicographic (x ∷ a) [] = ground arith
bytes_compare-lexicographic (x ∷ a) (y ∷ b) =
    compare_cons x y a b ∙ ground (arith, bytes_compare-lexicographic a b)

pub lexicographic-eq_equal : (a b : List ℕ) → lexicographic a b ≡ equal → a ≡ b
unfolding lexicographic
lexicographic-eq_equal [] [] e = refl
lexicographic-eq_equal [] (y ∷ b) e = cc
lexicographic-eq_equal (x ∷ a) [] e = cc
lexicographic-eq_equal (x ∷ a) (y ∷ b) e = ground (arith, lexicographic-eq_equal a b)

lexicographic_self : (a : List ℕ) → lexicographic a a ≡ equal
unfolding lexicographic
lexicographic_self [] = refl
lexicographic_self (x ∷ a) = ground (arith, lexicographic_self a)

abbrev pub opposite : Sign → Sign
opposite less = greater
opposite equal = equal
opposite greater = less

pub lexicographic_swap : (a b : List ℕ) → lexicographic b a ≡ opposite (lexicographic a b)
unfolding lexicographic
lexicographic_swap [] [] = refl
lexicographic_swap [] (y ∷ b) = refl
lexicographic_swap (x ∷ a) [] = refl
lexicographic_swap (x ∷ a) (y ∷ b) = ground (arith, lexicographic_swap a b)

-- `bytes_compare` gives zero exactly on equal byte ranges, and the opposite sign when its arguments
-- are swapped.
pub bytes_compare_order :
    (a b : List ℕ)
    → ((bytes_compare a b ≡ equal) ↔ (a ≡ b)) × (bytes_compare b a ≡ opposite (bytes_compare a b))
bytes_compare_order a b = (
  (
    (λ e. lexicographic-eq_equal a b (sym (bytes_compare-lexicographic a b) ∙ e)),
    (λ e. bytes_compare-lexicographic a b ∙ (ap (lexicographic a) (sym e) ∙ lexicographic_self a)),
  ),
  rw (bytes_compare-lexicographic a b, bytes_compare-lexicographic b a) (lexicographic_swap a b),
)
