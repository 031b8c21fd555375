-- ===== src/Redis.antt =====
-- decision-engine/internal/redis/client.go: the token-bucket script and the client that runs it.
-- The commands of the Redis server are an interface (`RedisServer`); every command of one script run
-- sees the same time, in seconds. Lua's numbers are doubles: the model is exact for bucket sizes up
-- to 2 ^ 53, where integers are represented exactly.
pub mod Server
pub mod Bucket
pub mod Refines
pub mod Runs
pub mod Attempts
pub mod Decrement
use rate_limiter.Base.{
  ℕ, zero, suc, ◌+◌, ◌/◌, Bool, true, false, List, [], ◌∷◌, ◌++◌, Bytes, codes, Result, ok, err,
  wrap_err, if◌then◌else◌,
}
use rate_limiter.Base.Int.{ℤ, pos, negsuc, sub_ℕ, ◌-ℤ◌, leb_ℤ}
use rate_limiter.Redis.Server.{RedisServer, absent, integer, unreadable}

-- Why a script run fails: a command fails, or GET gives nothing that is a number.
pub data ScriptError (E : Type 0) : Type 0 where
  command : E → ScriptError E
  not_a_number : ScriptError E

module _ (R : RedisServer) where
  abbrev pub ScriptReply : Type 0
  ScriptReply = Result (ScriptError R.Error) ℤ × R.State

  -- The branch for a key that exists.
  drain : ℕ → Bytes → ℤ → R.State → ScriptReply
  drain now key ttl s = elim (R.get s now key) [
    | absent ↦ (err not_a_number, s)
    | unreadable ↦ (err not_a_number, s)
    | integer remaining ↦
        if leb_ℤ remaining (pos 0)
        then (ok (negsuc 0), R.expire s now key ttl)
        else (ok (remaining -ℤ pos 1), R.expire (R.decr_by s now key 1) now key ttl)
  ]

  -- `tokenBucketScript`
  unfoldable pub token_bucket : ℕ → Bytes → ℤ → ℤ → R.State → ScriptReply
  unfolding drain
  token_bucket now key capacity ttl s = elim (R.exists s now key) [
    | false ↦ elim (R.set_ex s now key (capacity -ℤ pos 1) ttl) [
      | err e ↦ (err (command e), s)
      | ok t ↦ (ok (capacity -ℤ pos 1), t)
    ]
    | true ↦ drain now key ttl s
  ]

  -- The fields of `Client` besides the connection; the TTL is a duration in nanoseconds.
  pub record Client : Type 0 where
    pub bucket_size : ℤ
    pub bucket_ttl : ℤ

-- The options of the cluster client, times in milliseconds.
pub record ClusterOptions : Type 0 where
  pub addrs : List Bytes
  pub dial_timeout : ℕ
  pub read_timeout : ℕ
  pub write_timeout : ℕ
  pub pool_size : ℕ
  pub min_idle_conns : ℕ

unfoldable pub cluster_options : List Bytes → ClusterOptions
cluster_options addrs = record {
  addrs = addrs;
  dial_timeout = 2000;
  read_timeout = 500;
  write_timeout = 500;
  pool_size = 20;
  min_idle_conns = 5;
}

-- `New`, with what a ping of a cluster client answers.
unfoldable pub new :
    {E : Type 0} (R : RedisServer)
    → (ClusterOptions → Result E (Unit {0}))
    → List Bytes
    → ℤ
    → ℤ
    → Result E (Client R)
new R ping addrs bucket_size bucket_ttl = elim (ping (cluster_options addrs)) [
  | err e ↦ err e
  | ok _ ↦ ok (record { bucket_size = bucket_size; bucket_ttl = bucket_ttl })
]

-- `MaxRedirects`, which `New` leaves at the library's default: how often a command is sent again.
abbrev pub max_redirects : ℕ
max_redirects = 3

-- How the network treats one run: the reply arrives, the request is lost, or the reply is.
pub data Delivery : Type 0 where
  replied request_lost reply_lost : Delivery

-- `fmt.Sprintf("bucket:{%s}", ip)`
unfoldable pub bucket_key : Bytes → Bytes
bucket_key ip = codes "bucket:{" ++ (ip ++ codes "}")

-- `int64(d.Seconds())` of a duration of whole seconds (the fraction is cut).
unfoldable pub whole_seconds : ℤ → ℤ
whole_seconds (pos ns) = pos (ns / 1000000000)
whole_seconds (negsuc ns) = sub_ℕ 0 (suc ns / 1000000000)

pub data DecrementError (E : Type 0) : Type 0 where
  script : ScriptError E → DecrementError E
  network : DecrementError E

module _ (R : RedisServer) where
  -- One attempt at a run of the script.
  unfoldable pub attempt :
      Client R → ℕ → Delivery → Bytes → R.State → Result (DecrementError R.Error) ℤ × R.State
  attempt c now delivery ip s =
      let (reply, t) =
        token_bucket R now (bucket_key ip) c.bucket_size (whole_seconds c.bucket_ttl) s in
      elim delivery [
        | request_lost ↦ (err network, s)
        | reply_lost ↦ (err network, t)
        | replied ↦ (wrap_err script reply, t)
      ]

  -- The retries behind an attempt: the cluster client sends the command again after an error of the
  -- network, as often as `n` says, each time at its own second. Where the list ends it gives up.
  unfoldable pub go_on :
      Client R
      → ℕ
      → List (ℕ × Delivery)
      → Bytes
      → Result (DecrementError R.Error) ℤ × R.State
      → Result (DecrementError R.Error) ℤ × R.State
  go_on c n retries ip (ok v, s) = (ok v, s)
  go_on c n retries ip (err (script e), s) = (err (script e), s)
  go_on c zero retries ip (err network, s) = (err network, s)
  go_on c (suc n) [] ip (err network, s) = (err network, s)
  go_on c (suc n) ((now, delivery) ∷ retries) ip (err network, s) =
      go_on c n retries ip (attempt c now delivery ip s)

  -- `Decrement`, from the first attempt and the retries. On an error the Go code returns 0 beside it.
  unfoldable pub decrement :
      Client R
      → ℕ
      → Delivery
      → List (ℕ × Delivery)
      → Bytes
      → R.State
      → Result (DecrementError R.Error) ℤ × R.State
  decrement c now delivery retries ip s =
      go_on c max_redirects retries ip (attempt c now delivery ip s)
