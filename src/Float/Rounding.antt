-- ===== src/Float/Rounding.antt =====
-- The bounds of rounded numbers.
use native.Mathlib.Nat.{
  pow-suc, mul_assoc, mul-le-mul_right, mul-div_cancel, le_of_mul-le-mul_right,
}
use rate_limiter.Base.{
  inl, inr, Bool-cases, ltb, leb, if◌then◌else◌, ℕ, zero, suc, ◌+◌, ◌-◌, ◌*◌, ◌/◌, ◌%◌, ◌^◌, ◌≤◌,
  ◌<◌, ◌≡◌, ◌∙◌, refl, sym, ap, some, ◌⊎◌, arith,
}
use rate_limiter.Float.{bit_length, nearest, round_to, round32}

pow_pos : (k : ℕ) → 0 < 2 ^ k
pow_pos zero = omega arith
pow_pos (suc k) = rw (pow-suc 2 k) (omega (arith, pow_pos k))

pow_add : (a b : ℕ) → 2 ^ (a + b) ≡ 2 ^ a * 2 ^ b
pow_add zero b = let e : 0 + b ≡ b = omega arith in ap (λ t. 2 ^ t) e ∙ omega arith
pow_add (suc a) b =
    let e : suc a + b ≡ suc (a + b) = omega arith in
    ap (λ t. 2 ^ t) e ∙ pow-suc 2 (a + b) ∙ grind (arith, pow_add a b, pow-suc 2 a)

-- A number below 2 ^ k has at most k digits.
bit_length-le : (fuel k n : ℕ) → n < 2 ^ k → bit_length fuel n ≤ k
unfolding bit_length
bit_length-le zero k n h = omega arith
bit_length-le (suc f) zero n h = ground arith
bit_length-le (suc f) (suc k) n h = ground (arith, bit_length-le f k (n / 2), pow-suc 2 k)

-- Either the quotient is below the bound, or it is the bound and nothing is left over.
whole_le : (n u c : ℕ) → 0 < u → n ≤ c * u → (n / u < c) ⊎ (n / u ≡ c) × (n % u ≡ 0)
whole_le n u c h k = grind arith

nearest-le : (n u c : ℕ) → 0 < u → n ≤ c * u → nearest n u ≤ c
unfolding nearest
nearest-le n u c h k = ground (arith, whole_le n u c h k)

step_le : (n c j d : ℕ) → d ≤ j → n ≤ c * 2 ^ j → nearest n (2 ^ d) * 2 ^ d ≤ c * 2 ^ j
step_le n c j d h k =
    let split : 2 ^ j ≡ 2 ^ (j - d) * 2 ^ d =
      let e : j ≡ (j - d) + d = omega arith in ap (λ t. 2 ^ t) e ∙ pow_add (j - d) d in
    let whole : c * 2 ^ j ≡ c * 2 ^ (j - d) * 2 ^ d =
      ap (λ t. c * t) split ∙ sym (mul_assoc c _ _) in
    rw whole (
      mul-le-mul_right (2 ^ d) (nearest-le n (2 ^ d) (c * 2 ^ (j - d)) (pow_pos d) (rw whole at k)))

pow_le : (a b : ℕ) → a ≤ b → 2 ^ a ≤ 2 ^ b
pow_le a b h =
    let e : b ≡ a + (b - a) = omega arith in
    let whole : 2 ^ b ≡ 2 ^ a * 2 ^ (b - a) = ap (λ t. 2 ^ t) e ∙ pow_add a (b - a) in
    rw whole (grind (arith, pow_pos (b - a)))

-- The unit that a number is rounded to is the finer of two powers of 2, taken up.
unit_lem :
    (d k : ℕ)
    → (e : ℕ) × ((if ltb (2 ^ d) (2 ^ k) then 2 ^ k else 2 ^ d) ≡ 2 ^ e)
      × (k ≤ e)
      × ((e ≡ d) ⊎ (e ≡ k))
unit_lem d k = elim (Bool-cases (leb k d)) [
  | inl t ↦ let h : k ≤ d = ground arith in (d, ground (arith, pow_le k d h), h, inl refl)
  | inr t ↦ let h : d ≤ k = ground arith in (k, ground (arith, pow_le d k h), omega arith, inr refl)
]

div_pow : (e k : ℕ) → k ≤ e → (2 ^ e / 2 ^ k) * 2 ^ k ≡ 2 ^ e
div_pow e k h =
    let split : 2 ^ e ≡ 2 ^ (e - k) * 2 ^ k =
      let q : e ≡ (e - k) + k = omega arith in ap (λ t. 2 ^ t) q ∙ pow_add (e - k) k in
    rw split (ap (λ t. t * 2 ^ k) (mul-div_cancel (2 ^ (e - k)) (pow_pos k)))

-- Rounding does not pass a multiple of a power of 2 that the number does not pass: the number has at
-- most j + precision digits, and is counted in units of 2 ^ -k of the result's.
pub round_to-le :
    (precision k n c j : ℕ)
    → k ≤ j
    → n ≤ c * 2 ^ j
    → n < 2 ^ (j + precision)
    → round_to precision (2 ^ k) n ≤ c * 2 ^ (j - k)
unfolding round_to
round_to-le precision k n c j le h few =
    let d = bit_length 2200 n - precision in
    let (e, unit, low, which) = unit_lem d k in
    let digits = bit_length-le 2200 (j + precision) n few in
    let bound : nearest n (2 ^ e) * 2 ^ e ≤ c * 2 ^ j =
      step_le n c j e (ground (arith, digits)) h in
    let left : (nearest n (2 ^ e) * (2 ^ e / 2 ^ k)) * 2 ^ k ≡ nearest n (2 ^ e) * 2 ^ e =
      mul_assoc _ _ _ ∙ ap (λ t. nearest n (2 ^ e) * t) (div_pow e k low) in
    let right : (c * 2 ^ (j - k)) * 2 ^ k ≡ c * 2 ^ j =
      mul_assoc c _ _
      ∙ ap (λ t. c * t)
          (sym (pow_add (j - k) k)
            ∙ (let q : (j - k) + k ≡ j = omega arith in ap (λ t. 2 ^ t) q)) in
    rw unit (le_of_mul-le-mul_right {k = 2 ^ k} (rw (left, right) bound) (pow_pos k))

-- As a `float32`, below the overflow.
pub round32-le :
    (k n c j : ℕ)
    → k ≤ j
    → n ≤ c * 2 ^ j
    → n < 2 ^ (j + 24)
    → c * 2 ^ (j - k) < 2 ^ 277
    → (m : ℕ) × (round32 (2 ^ k) n ≡ some m) × (m ≤ c * 2 ^ (j - k))
unfolding round32
round32-le k n c j le h few fits =
    let bound = round_to-le 24 k n c j le h few in (round_to 24 (2 ^ k) n, ground arith, bound)
