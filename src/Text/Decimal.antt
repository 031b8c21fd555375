-- ===== src/Text/Decimal.antt =====
-- `strconv.ParseInt(s, 10, 64)`, and the decimal print of a number.
use rate_limiter.Base.{
  ℕ, zero, suc, ◌+◌, ◌-◌, ◌*◌, ◌/◌, ◌%◌, ◌^◌, ◌<◌, ◌≤◌, ◌≡◌, ◌∙◌, Bool, true, false, ◌&&◌, Option,
  none, some, [], ◌∷◌, ◌++◌, Bytes, ltb, leb, ◌==◌, if◌then◌else◌, Bool-cases, inl, inr, ltb→lt, ap,
  All, All-append, arith,
}
use rate_limiter.Base.Int.{ℤ, pos, negsuc, sub_ℕ, IsI64}

abbrev is_digit : ℕ → Bool
is_digit c = leb b'0' c && leb c b'9'

-- The number that digits spell behind `n`. Go stops where it passes 64 bits, which is an error too.
unfoldable pub digits_value : Bytes → ℕ → Option ℕ
digits_value [] n = some n
digits_value (c ∷ s) n =
    let rest = digits_value s (n * 10 + (c - b'0')) in if is_digit c then rest else none

unsigned : Bytes → Option ℕ
unfolding digits_value
unsigned [] = none
unsigned (c ∷ s) = digits_value (c ∷ s) 0

in_range : Bool → ℕ → Option ℤ
in_range false n = if ltb n (2 ^ 63) then some (pos n) else none
in_range true n = if leb n (2 ^ 63) then some (sub_ℕ 0 n) else none

with_sign : Bool → Bytes → Option ℤ
unfolding unsigned in_range
with_sign negative s = elim (unsigned s) [ none ↦ none | some n ↦ in_range negative n ]

-- `none` stands for an error, of syntax or of range.
unfoldable pub parse_int64 : Bytes → Option ℤ
unfolding with_sign
parse_int64 [] = none
parse_int64 (c ∷ s) =
    if c == b'+'
    then with_sign false s
    else if c == b'-'
    then with_sign true s
    else with_sign false (c ∷ s)

-- The decimal digits; `suc n` rounds are more than enough for `n`.
unfoldable pub digits : ℕ → ℕ → Bytes
digits zero n = []
digits (suc rounds) n =
    let front = digits rounds (n / 10) in
    if ltb n 10 then (b'0' + n) ∷ [] else front ++ (b'0' + n % 10) ∷ []

unfoldable pub print_nat : ℕ → Bytes
unfolding digits
print_nat n = digits (suc n) n

unfoldable pub print_int : ℤ → Bytes
unfolding print_nat
print_int (pos n) = print_nat n
print_int (negsuc n) = b'-' ∷ print_nat (suc n)

digits_value-append :
    (s t : Bytes) (n m : ℕ) → digits_value s n ≡ some m → digits_value (s ++ t) n ≡ digits_value t m
unfolding digits_value
digits_value-append [] t n m h = ground arith
digits_value-append (c ∷ s) t n m h =
    ground (arith, digits_value-append s t (n * 10 + (c - b'0')) m)

one_more : (d n : ℕ) → d < 10 → digits_value ((b'0' + d) ∷ []) n ≡ some (n * 10 + d)
unfolding digits_value
one_more d n h = ground arith

digits_value-digits : (rounds n : ℕ) → n < rounds → digits_value (digits rounds n) 0 ≡ some n
unfolding digits
digits_value-digits zero n h = absurd (omega arith)
digits_value-digits (suc r) n h = elim (Bool-cases (ltb n 10)) [
  | inl small ↦ rw small (one_more n 0 (ltb→lt n 10 small) ∙ ap some (omega arith))
  | inr large ↦
      let whole : n / 10 * 10 + n % 10 ≡ n = omega arith in
      rw large (
        digits_value-append (digits r (n / 10)) _ 0 (n / 10)
          (digits_value-digits r (n / 10) (ground arith))
        ∙ one_more (n % 10) (n / 10) (omega arith)
        ∙ ap some whole)
]

-- A text that begins with a digit.
abbrev pub HeadDigit : Bytes → Type 0
HeadDigit [] = ⊥
HeadDigit (c ∷ s) = is_digit c ≡ true

HeadDigit-append : (s t : Bytes) → HeadDigit s → HeadDigit (s ++ t)
HeadDigit-append [] t h = absurd h
HeadDigit-append (c ∷ s) t h = h

digits-HeadDigit : (rounds n : ℕ) → n < rounds → HeadDigit (digits rounds n)
unfolding digits
digits-HeadDigit zero n h = absurd (omega arith)
digits-HeadDigit (suc r) n h = elim (Bool-cases (ltb n 10)) [
  | inl small ↦ rw small (ground arith)
  | inr large ↦ rw large (HeadDigit-append _ _ (digits-HeadDigit r (n / 10) (ground arith)))
]

parse_positive :
    (s : Bytes) (n : ℕ) → HeadDigit s → digits_value s 0 ≡ some n → parse_int64 s ≡ in_range false n
unfolding parse_int64
parse_positive [] n h e = absurd h
parse_positive (c ∷ s) n h e = ground arith

parse_negative :
    (s : Bytes) (n : ℕ)
    → HeadDigit s
    → digits_value s 0 ≡ some n
    → parse_int64 (b'-' ∷ s) ≡ in_range true n
unfolding parse_int64
parse_negative [] n h e = absurd h
parse_negative (c ∷ s) n h e = ground arith

-- The print of an `int64` is read back as the number.
pub parse_int64-print_int : (a : ℤ) → IsI64 a → parse_int64 (print_int a) ≡ some a
unfolding print_int in_range
parse_int64-print_int (pos n) h =
    parse_positive (digits (suc n) n) n (digits-HeadDigit (suc n) n (omega arith))
      (digits_value-digits (suc n) n (omega arith))
    ∙ ground arith
parse_int64-print_int (negsuc n) h =
    parse_negative (digits (suc (suc n)) (suc n)) (suc n)
      (digits-HeadDigit (suc (suc n)) (suc n) (omega arith))
      (digits_value-digits (suc (suc n)) (suc n) (omega arith))
    ∙ ground arith

-- No character of a decimal print is below the minus sign.
digits-All : (rounds n : ℕ) → All (λ c. b'-' ≤ c) (digits rounds n)
unfolding digits
digits-All zero n = tt
digits-All (suc r) n = elim (Bool-cases (ltb n 10)) [
  | inl small ↦ rw small (omega arith, tt)
  | inr large ↦
      rw large (All-append _ (digits r (n / 10)) _ (digits-All r (n / 10)) (omega arith, tt))
]

pub print_int-All : (a : ℤ) → All (λ c. b'-' ≤ c) (print_int a)
unfolding print_int
print_int-All (pos n) = digits-All (suc n) n
print_int-All (negsuc n) = (omega arith, digits-All (suc (suc n)) (suc n))
