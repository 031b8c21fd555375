-- ===== src/Serving/Limit.antt =====
-- The rate limit when connections, goroutines and clients interleave.
use rate_limiter.Base.{
  ℕ, ◌+◌, ◌≤◌, ◌<◌, ◌≡◌, refl, List, [], ◌∷◌, Bytes, if◌then◌else◌, length, ltb, arith,
}
use rate_limiter.Redis.{bucket_key}
use rate_limiter.Redis.Server.{RedisServer}
use rate_limiter.Redis.Server
use rate_limiter.Redis.Bucket.{Bucket}
use rate_limiter.Redis.Refines.{Holds}
use rate_limiter.Redis.Runs.{Busy, IsGone, accepted_gone}
use rate_limiter.Redis.Attempts.{whole_client}
use rate_limiter.Serving.System.{Program, System}
use rate_limiter.Serving.Steps.{Label, Run, stop, next}
use rate_limiter.Serving.Passes.{all_passes, all_passes-le, claims, Step-Effect}
use rate_limiter.Serving.Account.{takes, Clocked, Answered, IsTidy, admits, advance}

module _ (P : Program) (L : Server.IsLawful P.redis) (capacity ttl : ℕ) (c : 0 < capacity)
    (l : 0 < ttl) (client : P.engine.redis ≡ whole_client P.redis capacity ttl) where
  claims_run :
      {s : System P} {ls : List Label} {t : System P} (ip : Bytes) (since : ℕ) (b : Bucket)
      → Run P s ls t
      → IsTidy P.redis s.world.redis since
      → Holds P.redis (bucket_key ip) s.world.redis since b
      → Clocked since ls
      → Answered ip ls
      → claims P ip t.conns
        ≤ claims P ip s.conns + admits P L capacity ttl c l client (takes ip ls) b
  claims_run ip since b (stop s) tidy h clock ans = omega arith
  claims_run ip since b (next {s = s} {t = t} {l = lab} {ls = ls} st r) tidy h clock ans =
      let N =
        advance P L capacity ttl c l client ip lab ls (claims P ip s.conns) (claims P ip t.conns)
          since s.world.redis t.world.redis b (Step-Effect P ip st) tidy h clock ans in
      omega (arith, N.within, claims_run ip N.since N.bucket r N.tidy N.held N.clocked N.answered)

  -- A server without connections, whose engine has a bucket size and a lifetime of whole seconds, both
  -- positive, over a Redis server that holds a bucket, empty or not, for every address, and any run of
  -- it: however connections, clients and goroutines interleave, the decisions on an address that are
  -- no block are at most the bucket size. The script runs come in the order of time, those for the
  -- address are answered, there is one, its bucket is gone by then, and each later one comes less
  -- than the lifetime behind the one before.
  pub limit_interleaved :
      {s t : System P} {ls : List Label} (ip : Bytes) (since first : ℕ) (later : List ℕ)
      (b : Bucket)
      → s.conns ≡ []
      → IsTidy P.redis s.world.redis since
      → Holds P.redis (bucket_key ip) s.world.redis since b
      → Run P s ls t
      → Clocked since ls
      → Answered ip ls
      → takes ip ls ≡ first ∷ later
      → IsGone b first
      → Busy ttl first later
      → all_passes P ip t.conns ≤ capacity
  limit_interleaved {s} {t} {ls} ip since first later b fresh tidy h r clock ans times gone busy =
      let bound = claims_run ip since b r tidy h clock ans in
      let none_yet : claims P ip s.conns ≡ 0 = rw fresh refl in
      let admitted : admits P L capacity ttl c l client (takes ip ls) b
          ≡ (if ltb capacity (length (first ∷ later)) then capacity else length (first ∷ later)) =
        rw times (accepted_gone (Unit {0}) capacity ttl first later b c gone busy) in
      let least : (if ltb capacity (length (first ∷ later))
            then capacity
            else length (first ∷ later))
          ≤ capacity =
        ground arith in
      omega (arith, all_passes-le P ip t.conns)
