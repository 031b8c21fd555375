-- ===== src/Float/Double.antt =====
-- Arithmetic on `float64`, which is Python's `float`: a finite number is an integer times 2 ^ -1074.
use rate_limiter.Base.{ℕ, ◌+◌, ◌*◌, ◌^◌, true, false, not, Option, none, some, ltb, if◌then◌else◌}
use rate_limiter.Base.Int.{ℤ, pos, negsuc, sub_ℕ, ◌+ℤ◌, ◌-ℤ◌}
use rate_limiter.Float.{Float, nan, inf, fin, signed, round_to}

-- A magnitude in units of 2 ^ -1074 / base; `none` is the overflow.
unfoldable pub round64 : ℕ → ℕ → Option ℕ
round64 base n = let m = round_to 53 base n in if ltb m (2 ^ 2098) then some m else none

unfoldable pub round_double : ℕ → ℤ → Float
unfolding signed round64
round_double base (pos n) = signed false (round64 base n)
round_double base (negsuc n) = signed true (round64 base (n + 1))

-- `float(a)` of an integer
unfoldable pub double_of : ℤ → Float
double_of (pos n) = round_double 1 (pos (n * 2 ^ 1074))
double_of (negsuc n) = round_double 1 (sub_ℕ 0 ((n + 1) * 2 ^ 1074))

-- `w * x`, for a positive constant in units of 2 ^ -1074
unfoldable pub weighted : ℕ → Float → Float
weighted w nan = nan
weighted w (inf s) = inf s
weighted w (fin (pos n)) = round_double (2 ^ 1074) (pos (w * n))
weighted w (fin (negsuc n)) = round_double (2 ^ 1074) (sub_ℕ 0 (w * (n + 1)))

-- `a - x`, for a finite constant
unfoldable pub subtract_from : ℤ → Float → Float
subtract_from a nan = nan
subtract_from a (inf s) = inf (not s)
subtract_from a (fin b) = round_double 1 (a -ℤ b)

unfoldable pub add64 : Float → Float → Float
add64 nan y = nan
add64 (inf s) nan = nan
add64 (inf true) (inf t) = if t then inf true else nan
add64 (inf false) (inf t) = if t then nan else inf false
add64 (inf s) (fin b) = inf s
add64 (fin a) nan = nan
add64 (fin a) (inf t) = inf t
add64 (fin a) (fin b) = round_double 1 (a +ℤ b)

abbrev pub one : ℕ
one = 2 ^ 1074

abbrev pub half : ℕ
half = 2 ^ 1073

-- `np.clip(x, 0.0, 1.0)`, which lets NaN through
unfoldable pub clip : Float → Float
clip nan = nan
clip (inf true) = fin (pos 0)
clip (inf false) = fin (pos one)
clip (fin (negsuc n)) = fin (pos 0)
clip (fin (pos n)) = if ltb one n then fin (pos one) else fin (pos n)
