-- ===== src/Base/Masks.antt =====
-- `x & (c - 1)` for a power of two `c`, at the values that an index takes which has passed the end of
-- an array of `c` entries at most once.
use Prim.Native.Nat.{
  ℕ, zero, suc, ◌+◌, ◌-◌, ◌*◌, ◌/◌, ◌%◌, ◌≤◌, ◌<◌, min, bit_and, digits, bit_and-bitwise,
}
use mathlib.Core.Path.{◌≡◌, refl, ◌∙◌}
use native.Mathlib.Omega.{arith}
use molerat.Base.Tests.{ltb, if◌then◌else◌}

pub data PowerOfTwo : ℕ → Type 0 where
  one : {c : ℕ} → c ≡ 1 → PowerOfTwo c
  double : {c d : ℕ} → PowerOfTwo c → d ≡ c + c → PowerOfTwo d

pub PowerOfTwo-pos : {c : ℕ} → PowerOfTwo c → 0 < c
PowerOfTwo-pos (one e) = omega arith
PowerOfTwo-pos (double p e) = omega (arith, PowerOfTwo-pos p)

-- The index `x`, which is below `2 * c`, brought back into the array.
abbrev pub wrap : ℕ → ℕ → ℕ
wrap c x = if ltb x c then x else x - c

-- The digits of `x & b`, with the count of rounds left open.
and_digits : ℕ → ℕ → ℕ → ℕ
and_digits n x b = digits (λ _. zero) min n x b

and_digits-zero : (n b : ℕ) → and_digits n 0 b ≡ 0
unfolding and_digits
and_digits-zero zero b = refl
and_digits-zero (suc n) b = refl

and_digits-suc :
    (n x b : ℕ)
    → and_digits (suc n) (suc x) b ≡ and_digits n (suc x / 2) (b / 2) * 2 + min (suc x % 2) (b % 2)
unfolding and_digits
and_digits-suc n x b = refl

and_digits-mask :
    {c : ℕ}
    → PowerOfTwo c
    → (n x b : ℕ) → x ≤ n
    → x < c + c
    → b + 1 ≡ c
    → and_digits n x b ≡ wrap c x
and_digits-mask p n zero b le lt e = ground (arith, and_digits-zero n b, PowerOfTwo-pos p)
and_digits-mask p zero (suc x) b le lt e = absurd (omega arith)
and_digits-mask (one p) (suc n) (suc x) b le lt e =
    let half : suc x / 2 ≡ 0 = omega arith in
    ground (arith, and_digits-suc n x b, half, and_digits-zero n (b / 2))
and_digits-mask (double {c} p q) (suc n) (suc x) b le lt e = ground (
  arith,
  and_digits-suc n x b,
  and_digits-mask p n (suc x / 2) (b / 2) (omega arith) (omega arith) (omega arith),
)

-- Masking with `c - 1` is coming back into the array.
pub bit_and-mask : (c x : ℕ) → PowerOfTwo c → x < c + c → bit_and x (c - 1) ≡ wrap c x
unfolding and_digits
bit_and-mask c x p lt =
    bit_and-bitwise x (c - 1)
    ∙ and_digits-mask p x x (c - 1) (omega arith) lt (omega (arith, PowerOfTwo-pos p))
