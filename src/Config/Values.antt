-- ===== src/Config/Values.antt =====
-- The numbers of the configuration.
use rate_limiter.Base.{
  ℕ, ◌*◌, ◌<◌, ◌^◌, ◌≡◌, ◌≢◌, ◌∙◌, ap, Option, some, [], ◌∷◌, Bytes, codes, length, arith,
}
use rate_limiter.Base.Int.{ℤ, pos, IsI64, u64_of, i64_of}
use rate_limiter.Float.{Float}
use rate_limiter.Text.Decimal.{parse_int64, print_int, parse_int64-print_int}
use rate_limiter.Config.{get_env_int64, mul_i64, second, load}

-- A lifetime of whole seconds that a duration can hold is stored without overflow.
mul_i64-second : (n : ℕ) → n * second < 2 ^ 63 → mul_i64 (pos n) second ≡ pos (n * second)
unfolding mul_i64 u64_of i64_of
mul_i64-second n h = ground arith

length_of_parsed : (s : Bytes) {a : ℤ} → parse_int64 s ≡ some a → length s ≢ 0
unfolding parse_int64
length_of_parsed [] h e = cc
length_of_parsed (c ∷ s) h e = omega arith

get_env_int64-print_int :
    (getenv : Bytes → Bytes) (key : Bytes) (default_val a : ℤ)
    → IsI64 a
    → getenv key ≡ print_int a
    → get_env_int64 getenv key default_val ≡ a
unfolding get_env_int64
get_env_int64-print_int getenv key default_val a h e =
    let read = ap parse_int64 e ∙ parse_int64-print_int a h in
    ground (arith, read, length_of_parsed (getenv key) read)

module _ (getenv : Bytes → Bytes) (parse_float : Bytes → Option Float) where
  -- With BUCKET_SIZE and BUCKET_TTL_SECONDS set to the decimal texts of two numbers in range, `Load`
  -- gives that size, and that many seconds as a duration.
  pub load_bucket :
      (size : ℤ) (seconds : ℕ)
      → IsI64 size
      → seconds * second < 2 ^ 63
      → getenv (codes "BUCKET_SIZE") ≡ print_int size
      → getenv (codes "BUCKET_TTL_SECONDS") ≡ print_int (pos seconds)
      → ((load getenv parse_float).bucket_size ≡ size)
        × ((load getenv parse_float).bucket_ttl ≡ pos (seconds * second))
  unfolding load
  load_bucket size seconds h k es et = (
    get_env_int64-print_int getenv _ _ size h es,
    ap (λ n. mul_i64 n second) (get_env_int64-print_int getenv _ _ (pos seconds) (ground arith) et)
        ∙ mul_i64-second seconds k,
  )
