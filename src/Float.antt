-- ===== src/Float.antt =====
-- IEEE 754 numbers as Go's `float32` and `float64`. A finite number is an integer times the
-- smallest unit of its format (2 ^ -149, 2 ^ -1074); the sign of zero, which no comparison of the
-- program sees, is left out. Results are rounded to the nearest, ties to even.
pub mod Rounding
pub mod Double
pub mod Bounded
use rate_limiter.Base.{
  ℕ, zero, suc, ◌+◌, ◌-◌, ◌*◌, ◌/◌, ◌%◌, ◌^◌, Bool, true, false, Option, none, some, ltb, leb, ◌==◌,
  if◌then◌else◌,
}
use rate_limiter.Base.Int.{ℤ, pos, negsuc, ltb_ℤ, sub_ℕ}

-- `inf true` is negative.
pub data Float : Type 0 where
  nan : Float
  inf : Bool → Float
  fin : ℤ → Float

-- `a > b`: false if one of the two is NaN.
unfoldable pub gt : Float → Float → Bool
gt nan b = false
gt (inf s) nan = false
gt (inf true) (inf t) = false
gt (inf true) (fin b) = false
gt (inf false) (inf t) = t
gt (inf false) (fin b) = true
gt (fin a) nan = false
gt (fin a) (inf t) = t
gt (fin a) (fin b) = ltb_ℤ b a

-- The number of binary digits, up to the fuel.
unfoldable pub bit_length : ℕ → ℕ → ℕ
bit_length zero n = 0
bit_length (suc fuel) n = let rest = bit_length fuel (n / 2) in if n == 0 then 0 else suc rest

-- The multiple of `u` nearest to `n`, counted in `u`; a tie goes to the even count.
unfoldable pub nearest : ℕ → ℕ → ℕ
nearest n u =
    if ltb (n % u * 2) u
    then n / u
    else if ltb u (n % u * 2)
    then n / u + 1
    else if n / u % 2 == 0
    then n / u
    else n / u + 1

-- A magnitude in units of the format's smallest unit / base, rounded to a number of the smallest unit:
-- so many binary digits, and no finer than one unit. `base` is a power of 2.
unfoldable pub round_to : ℕ → ℕ → ℕ → ℕ
round_to precision base n =
    let step = 2 ^ (bit_length 2200 n - precision) in
    let u = if ltb step base then base else step in nearest n u * (u / base)

-- As a `float32`; `none` is the overflow.
unfoldable pub round32 : ℕ → ℕ → Option ℕ
round32 base n = let m = round_to 24 base n in if ltb m (2 ^ 277) then some m else none

unfoldable pub signed : Bool → Option ℕ → Float
signed s none = inf s
signed true (some m) = fin (sub_ℕ 0 m)
signed false (some m) = fin (pos m)

round_signed : ℕ → ℤ → Float
unfolding signed round32 round_to
round_signed base (pos n) = signed false (round32 base n)
round_signed base (negsuc n) = signed true (round32 base (suc n))

-- `float32(x)` of a `float64`
unfoldable pub to_float32 : Float → Float
unfolding round_signed
to_float32 nan = nan
to_float32 (inf s) = inf s
to_float32 (fin a) = round_signed (2 ^ 925) a

-- `x * k` of a `float32` and a positive whole constant
unfoldable pub times : Float → ℕ → Float
unfolding round_signed
times nan k = nan
times (inf s) k = inf s
times (fin (pos n)) k = round_signed 1 (pos (n * k))
times (fin (negsuc n)) k = round_signed 1 (sub_ℕ 0 (suc n * k))

-- `int(x)`: the fraction is cut. What the machine gives for a number that no `int` holds is up to the
-- implementation, and is an argument.
unfoldable pub to_int : ℤ → Float → ℤ
to_int invalid nan = invalid
to_int invalid (inf s) = invalid
to_int invalid (fin (pos n)) = let q = n / 2 ^ 149 in if ltb q (2 ^ 63) then pos q else invalid
to_int invalid (fin (negsuc n)) =
    let q = suc n / 2 ^ 149 in if leb q (2 ^ 63) then sub_ℕ 0 q else invalid
