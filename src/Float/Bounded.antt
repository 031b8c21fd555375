-- ===== src/Float/Bounded.antt =====
-- Weighted means of numbers between 0 and 1.
use native.Mathlib.Nat.{mul-le-mul_left}
use rate_limiter.Base.{
  ℕ, ◌-◌, subst, inl, inr, Bool-cases, ◌+◌, ◌*◌, ◌^◌, ◌≤◌, ◌<◌, ◌≡◌, ◌≢◌, ◌∙◌, refl, ap, sym, true,
  false, ltb, arith,
}
use rate_limiter.Base.Int.{pos, negsuc, ◌+ℤ◌}
use rate_limiter.Float.{Float, nan, inf, fin, signed, round_to, to_float32}
use rate_limiter.Float.Rounding.{round_to-le, round32-le}
use rate_limiter.Float.Double.{round64, round_double, weighted, add64, one, clip}

-- A finite number from 0 to the bound.
abbrev pub Between : ℕ → Float → Type 0
Between bound x = (n : ℕ) × (x ≡ fin (pos n)) × (n ≤ bound)

pub clip-Between : (x : Float) → x ≢ nan → Between one (clip x)
unfolding clip
clip-Between nan h = absurd (h refl)
clip-Between (inf true) h = (0, refl, omega arith)
clip-Between (inf false) h = (one, refl, omega arith)
clip-Between (fin (negsuc n)) h = (0, refl, omega arith)
clip-Between (fin (pos n)) h = elim (Bool-cases (ltb one n)) [
  | inl over ↦ rw over (one, refl, omega arith)
  | inr within ↦ rw within (n, refl, ground arith)
]

-- A magnitude that stays below the overflow.
round_double-Between :
    (k n c j : ℕ)
    → k ≤ j
    → n ≤ c * 2 ^ j
    → n < 2 ^ (j + 53)
    → c * 2 ^ (j - k) < 2 ^ 2098
    → Between (c * 2 ^ (j - k)) (round_double (2 ^ k) (pos n))
unfolding round_double round64 signed
round_double-Between k n c j le h few fits =
    let bound = round_to-le 53 k n c j le h few in (round_to 53 (2 ^ k) n, ground arith, bound)

pub weighted-Between :
    (c n : ℕ)
    → c < 2 ^ 53
    → n ≤ one
    → Between (c * 2 ^ 1021) (weighted (c * 2 ^ 1021) (fin (pos n)))
unfolding weighted
weighted-Between c n small h =
    let most : c * 2 ^ 1021 * n ≤ c * 2 ^ 1021 * 2 ^ 1074 = mul-le-mul_left (c * 2 ^ 1021) h in
    round_double-Between 1074 (c * 2 ^ 1021 * n) c 2095 (omega arith) (omega arith) (omega arith)
      (omega arith)

sum : (m n : ℕ) → pos m +ℤ pos n ≡ pos (m + n)
unfolding ◌+ℤ◌
sum m n = ground arith

pub add64-Between :
    (a b m n c j : ℕ)
    → m ≤ a
    → n ≤ b
    → a + b ≤ c * 2 ^ j
    → a + b < 2 ^ (j + 53)
    → c * 2 ^ j < 2 ^ 2098
    → Between (c * 2 ^ j) (add64 (fin (pos m)) (fin (pos n)))
unfolding add64
add64-Between a b m n c j hm hn h few fits =
    let same : j ≡ j - 0 = omega arith in
    let B =
      round_double-Between 0 (m + n) c j (omega arith) (omega arith) (omega arith)
        (subst (λ i. c * 2 ^ i < 2 ^ 2098) same fits) in
    (B.0, ap (round_double 1) (sum m n) ∙ B.1, subst (λ i. B.0 ≤ c * 2 ^ i) (sym same) B.2)

-- The conversion to a `float32`.
pub to_float32-Between :
    (n c j : ℕ)
    → 925 ≤ j
    → n ≤ c * 2 ^ j
    → n < 2 ^ (j + 24)
    → c * 2 ^ (j - 925) < 2 ^ 277
    → Between (c * 2 ^ (j - 925)) (to_float32 (fin (pos n)))
unfolding to_float32 signed
to_float32-Between n c j le h few fits =
    let (m, rounded, bound) = round32-le 925 n c j le h few fits in (m, ground arith, bound)
