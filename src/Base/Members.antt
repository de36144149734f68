-- ===== src/Base/Members.antt =====
-- Lists of distinct numbers, such as the members of a ring: membership, removal, distinctness.
use Prim.Native.Nat.{ℕ, ◌+◌}
use mathlib.Core.Path.{◌≡◌, refl}
use mathlib.Core.List.{List, [], ◌∷◌, ◌++◌}
use mathlib.Core.Bool.{Bool, true, false, ◌||◌}
use native.Mathlib.Omega.{arith}
use molerat.Base.Tests.{◌==◌, if◌then◌else◌}
use molerat.Base.Lists.{length}

abbrev pub has : ℕ → List ℕ → Bool
has a [] = false
has a (x ∷ xs) = (a == x) || has a xs

-- Takes out the first entry that is `a`.
abbrev pub remove : ℕ → List ℕ → List ℕ
remove a [] = []
remove a (x ∷ xs) = if a == x then xs else x ∷ remove a xs

abbrev pub Distinct : List ℕ → Type 0
Distinct [] = Unit {0}
Distinct (x ∷ xs) = (has x xs ≡ false) × Distinct xs

pub has-append : (a : ℕ) (xs ys : List ℕ) → has a (xs ++ ys) ≡ (has a xs || has a ys)
has-append a [] ys = refl
has-append a (x ∷ xs) ys = ground (arith, has-append a xs ys)

pub has-remove :
    (a b : ℕ) (xs : List ℕ)
    → Distinct xs
    → has a (remove b xs) ≡ (if a == b then false else has a xs)
has-remove a b [] d = ground arith
has-remove a b (x ∷ xs) d = ground (arith, has-remove a b xs d.1)

pub remove-Distinct : (b : ℕ) (xs : List ℕ) → Distinct xs → Distinct (remove b xs)
remove-Distinct b [] d = tt
remove-Distinct b (x ∷ xs) d = ground (arith, has-remove x b xs d.1, remove-Distinct b xs d.1)

pub append-Distinct :
    (b : ℕ) (xs : List ℕ) → Distinct xs → has b xs ≡ false → Distinct (xs ++ b ∷ [])
append-Distinct b [] d h = (refl, tt)
append-Distinct b (x ∷ xs) d h = ground (arith, has-append x xs (b ∷ []), append-Distinct b xs d.1)

pub length-remove : (b : ℕ) (xs : List ℕ) → has b xs ≡ true → length (remove b xs) + 1 ≡ length xs
length-remove b [] h = ground arith
length-remove b (x ∷ xs) h = ground (arith, length-remove b xs)
