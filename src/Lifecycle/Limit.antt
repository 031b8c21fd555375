-- ===== src/Lifecycle/Limit.antt =====
-- The rate limit of the process, from the environment to the decisions on its connections.
use rate_limiter.Base.{
  ℕ, ◌*◌, ◌^◌, ◌≤◌, ◌<◌, ◌≡◌, refl, Option, List, ◌∷◌, Bytes, codes, Result-cases, ok, inl, inr,
  arith,
}
use rate_limiter.Base.Int.{pos, IsI64}
use rate_limiter.Float.{Float}
use rate_limiter.Text.Decimal.{print_int}
use rate_limiter.Config.{Config, load, second}
use rate_limiter.Config.Values.{load_bucket}
use rate_limiter.Kafka.{Producer}
use rate_limiter.Redis.{bucket_key, cluster_options}
use rate_limiter.Redis
use rate_limiter.Redis.Server
use rate_limiter.Redis.Bucket.{Bucket}
use rate_limiter.Redis.Refines.{Holds}
use rate_limiter.Redis.Runs.{Busy, IsGone}
use rate_limiter.Redis.Attempts.{whole_client}
use rate_limiter.Engine.Interface.{ebpf_blocklist}
use rate_limiter.Engine.Evaluate.{Engine}
use rate_limiter.Engine.Evaluate
use rate_limiter.Serving.System.{System}
use rate_limiter.Serving.Steps.{Label, Run}
use rate_limiter.Serving.Passes.{all_passes}
use rate_limiter.Serving.Account.{takes, Clocked, Answered, IsTidy}
use rate_limiter.Serving.Limit.{limit_interleaved}
use rate_limiter.Lifecycle.{Services, Outside, start_engine, program, serving}

module _ (S : Services) (O : Outside S) where
  engine_client :
      (cfg : Config) (size ttl : ℕ) {e : Engine S.invalid S.redis (ebpf_blocklist S.blocked_ips)}
      → start_engine S O cfg ≡ ok e
      → cfg.bucket_size ≡ pos size
      → cfg.bucket_ttl ≡ pos (ttl * second)
      → e.redis ≡ whole_client S.redis size ttl
  unfolding start_engine Redis.new Evaluate.new
  engine_client cfg size ttl {e} h s t =
      elim (Result-cases (O.ping (cluster_options cfg.redis_addrs))) [
        | inr (x, failed) ↦ absurd (ground arith)
        | inl (u, pinged) ↦ ground arith
      ]

  -- With BUCKET_SIZE and BUCKET_TTL_SECONDS set to the decimal texts of two positive numbers in range,
  -- and a cluster that answers the ping, the engine that `main` starts lets at most BUCKET_SIZE requests
  -- of an address pass, in any run of its socket server: the address has no bucket at the start, the
  -- server holds a bucket or none for every address, the script runs come in the order of time, those
  -- for the address are answered, and each comes less than the lifetime behind the one before.
  pub limit_configured :
      Server.IsLawful S.redis
      → (getenv : Bytes → Bytes) (parse_float : Bytes → Option Float) (size ttl : ℕ)
        (e : Engine S.invalid S.redis (ebpf_blocklist S.blocked_ips)) (redis : S.redis.State)
        (producer : Producer S.writer) {t : System (program S O e)} {ls : List Label} (ip : Bytes)
        (since first : ℕ) (later : List ℕ) (b : Bucket)
      → 0 < size
      → 0 < ttl
      → IsI64 (pos size)
      → ttl * second < 2 ^ 63
      → getenv (codes "BUCKET_SIZE") ≡ print_int (pos size)
      → getenv (codes "BUCKET_TTL_SECONDS") ≡ print_int (pos ttl)
      → start_engine S O (load getenv parse_float) ≡ ok e
      → IsTidy S.redis redis since
      → Holds S.redis (bucket_key ip) redis since b
      → Run (program S O e) (serving S O e redis producer) ls t
      → Clocked since ls
      → Answered ip ls
      → takes ip ls ≡ first ∷ later
      → IsGone b first
      → Busy ttl first later
      → all_passes (program S O e) ip t.conns ≤ size
  limit_configured L getenv parse_float size ttl e redis producer ip since first later b zs zt fits
        small es et started tidy h r clock ans times gone busy =
      let C = load_bucket getenv parse_float (pos size) ttl fits small es et in
      limit_interleaved (program S O e) L size ttl zs zt
        (engine_client (load getenv parse_float) size ttl started C.0 C.1) ip since first later b
        refl tidy h r clock ans times gone busy
