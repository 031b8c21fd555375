-- ===== src/Nginx/Counters.antt =====
-- nginx/lua/counter.lua and nginx/lua/access.lua: the counters of requests for each address, and what
-- runs on a request. The shared dictionary is an interface; its clock is in milliseconds, a lifetime is
-- in seconds.
use rate_limiter.Base.{ℕ, ◌+◌, ◌*◌, ◌≤◌, ◌<◌, ◌≡◌, ◌≢◌, ◌⊎◌, Option, none, some, ◌++◌, Bytes, codes}
use rate_limiter.Base.Int.{ℤ}
use rate_limiter.Ml.{FeatureVector}
use rate_limiter.Nginx.{NginxRequest, Rates, Cosocket, Reply, Access, or_else, build_vector, access}

pub record SharedDict : Type 1 where
  pub State : Type 0
  -- `incr` by 1 from 0: the new value, or nil
  pub incr : State → ℕ → Bytes → ℕ → Option ℕ × State
  pub get : State → ℕ → Bytes → Option ℕ

-- What is documented of it: a key that `incr` makes lives for the lifetime, and a key that is there
-- keeps its own; other keys may be thrown out when memory runs short, but do not change.
pub record IsLawful (D : SharedDict) : Type 0 where
  pub incr_own :
      (s : D.State) (clock at : ℕ) (k : Bytes) (ttl v x : ℕ)
      → (D.incr s clock k ttl).0 ≡ some v
      → clock ≤ at
      → D.get (D.incr s clock k ttl).1 at k ≡ some x
      → ((u : ℕ) × (D.get s at k ≡ some u) × (x ≡ u + 1)) ⊎ ((x ≡ 1) × (at < clock + ttl * 1000))
  pub incr_failed :
      (s : D.State) (clock at : ℕ) (k : Bytes) (ttl x : ℕ)
      → (D.incr s clock k ttl).0 ≡ none
      → clock ≤ at
      → D.get (D.incr s clock k ttl).1 at k ≡ some x
      → D.get s at k ≡ some x
  pub incr_other :
      (s : D.State) (clock at : ℕ) (j k : Bytes) (ttl x : ℕ)
      → j ≢ k
      → clock ≤ at
      → D.get (D.incr s clock k ttl).1 at j ≡ some x
      → D.get s at j ≡ some x

-- `WINDOWS`, with its two columns
pub data CountWindow : Type 0 where
  one_second ten_seconds sixty_seconds : CountWindow

abbrev pub suffix : CountWindow → Bytes
suffix one_second = codes "1s"
suffix ten_seconds = codes "10s"
suffix sixty_seconds = codes "60s"

abbrev pub window_ttl : CountWindow → ℕ
window_ttl one_second = 1
window_ttl ten_seconds = 10
window_ttl sixty_seconds = 60

unfoldable pub counter_key : Bytes → CountWindow → Bytes
counter_key ip w = codes "ip:" ++ (ip ++ (codes ":" ++ suffix w))

module _ (D : SharedDict) where
  -- One round of the loop of `increment`.
  unfoldable pub increment_one : Bytes → ℕ → CountWindow → D.State → ℕ × D.State
  increment_one ip clock w s =
      let (new_val, t) = D.incr s clock (counter_key ip w) (window_ttl w) in (or_else new_val 0, t)

  unfoldable pub increment : Bytes → ℕ → D.State → Rates × D.State
  increment ip clock s =
      let (rate_1, s1) = increment_one ip clock one_second s in
      let (rate_2, s2) = increment_one ip clock ten_seconds s1 in
      let (rate_3, s3) = increment_one ip clock sixty_seconds s2 in
      (record { req_rate_1s = rate_1; req_rate_10s = rate_2; req_rate_60s = rate_3 }, s3)

  unfoldable pub rate_of : Bytes → ℕ → CountWindow → D.State → ℕ
  rate_of ip clock w s = or_else (D.get s clock (counter_key ip w)) 0

  unfoldable pub get_rates : Bytes → ℕ → D.State → Rates
  get_rates ip clock s = record {
    req_rate_1s = rate_of ip clock one_second s;
    req_rate_10s = rate_of ip clock ten_seconds s;
    req_rate_60s = rate_of ip clock sixty_seconds s;
  }

  -- access.lua: `none` is the error of Lua on a missing address.
  unfoldable pub on_request :
      (Bytes → Bytes)
      → (Bytes → Option ℤ)
      → (FeatureVector → Option Bytes)
      → (Bytes → Option Reply)
      → Cosocket
      → ℕ
      → NginxRequest
      → D.State
      → Option (Access × D.State)
  on_request md5 tonumber encode decode sock clock q s = elim q.remote_addr [
    | none ↦ none
    | some ip ↦
        let t = (increment ip clock s).1 in
        some (access encode decode sock (build_vector md5 tonumber q (get_rates ip clock t)), t)
  ]
