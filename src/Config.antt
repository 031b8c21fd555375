-- ===== src/Config.antt =====
-- decision-engine/internal/config/config.go. `getenv` is the process environment (the empty text for
-- a variable that is not set), and `parse_float` is `strconv.ParseFloat` for 64 bits.
pub mod Lists
pub mod Values
use rate_limiter.Base.{
  ℕ, ◌*◌, ◌%◌, ◌^◌, Bool, Option, none, some, List, [], ◌∷◌, Bytes, codes, ◌==◌, if◌then◌else◌,
  length,
}
use rate_limiter.Base.Int.{ℤ, pos, u64_of, i64_of}
use rate_limiter.Float.{Float, fin}
use rate_limiter.Text.Split.{split, trim_space}
use rate_limiter.Text.Decimal.{parse_int64}

pub record Config : Type 0 where
  pub unix_socket_path : Bytes
  pub http_port : Bytes
  pub redis_addrs : List Bytes
  pub bucket_size : ℤ
  pub bucket_ttl : ℤ  -- time.Duration, in nanoseconds
  pub kafka_brokers : List Bytes
  pub ml_sidecar_addr : Bytes
  pub score_block_threshold : Float  -- float64
  pub score_throttle_threshold : Float  -- float64

-- The loop of `splitCSV` over the parts.
keep_parts : List Bytes → List Bytes
keep_parts [] = []
keep_parts (p ∷ parts) =
    let rest = keep_parts parts in if length (trim_space p) == 0 then rest else trim_space p ∷ rest

unfoldable pub split_csv : Bytes → List Bytes
unfolding keep_parts
split_csv s = keep_parts (split b',' s)

-- `a * b` of two `int64`
unfoldable pub mul_i64 : ℤ → ℕ → ℤ
mul_i64 a b = i64_of (u64_of a * b % 2 ^ 64)

-- `time.Second`
abbrev pub second : ℕ
second = 1000000000

-- The `float64` next to 0.85, and the one next to 0.60.
unfoldable pub default_block : Float
default_block = fin (pos (7656119366529843 * 2 ^ 1021))

unfoldable pub default_throttle : Float
default_throttle = fin (pos (5404319552844595 * 2 ^ 1021))

module _ (getenv : Bytes → Bytes) where
  unfoldable pub get_env : Bytes → Bytes → Bytes
  get_env key default_val = if length (getenv key) == 0 then default_val else getenv key

  unfoldable pub get_env_int64 : Bytes → ℤ → ℤ
  get_env_int64 key default_val =
      if length (getenv key) == 0
      then default_val
      else elim (parse_int64 (getenv key)) [ some n ↦ n | none ↦ default_val ]

  module _ (parse_float : Bytes → Option Float) where
    unfoldable pub get_env_float : Bytes → Float → Float
    get_env_float key default_val =
        if length (getenv key) == 0
        then default_val
        else elim (parse_float (getenv key)) [ some f ↦ f | none ↦ default_val ]

    unfoldable pub load : Config
    unfolding get_env get_env_int64 get_env_float
    load = record {
      unix_socket_path = get_env (codes "UNIX_SOCKET_PATH") (codes "/tmp/decision.sock");
      http_port = get_env (codes "HTTP_PORT") (codes "8080");
      redis_addrs = split_csv (get_env (codes "REDIS_ADDRS") (codes "localhost:6379"));
      bucket_size = get_env_int64 (codes "BUCKET_SIZE") (pos 100);
      bucket_ttl = mul_i64 (get_env_int64 (codes "BUCKET_TTL_SECONDS") (pos 60)) second;
      kafka_brokers = split_csv (get_env (codes "KAFKA_BROKERS") (codes "localhost:9092"));
      ml_sidecar_addr = get_env (codes "ML_SIDECAR_ADDR") (codes "localhost:50051");
      score_block_threshold = get_env_float (codes "SCORE_BLOCK_THRESHOLD") default_block;
      score_throttle_threshold = get_env_float (codes "SCORE_THROTTLE_THRESHOLD") default_throttle;
    }
