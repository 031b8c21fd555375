-- ===== src/Sidecar/Runtime.antt =====
-- What the sidecar runs on, and what is documented of it.
use rate_limiter.Base.{
  Bool, false, ◌↔◌, ◌-◌, ℕ, ◌+◌, ◌≤◌, ◌<◌, ◌≡◌, ◌≢◌, Option, none, some, List, Bytes, length,
}
use rate_limiter.Base.Int.{ℤ, pos}
use rate_limiter.Float.{Float}
use rate_limiter.Float.Double.{double_of}
use rate_limiter.Ml.{FeatureVector}
use mathlib.Core.List.{[], ◌∷◌}

pub record Runtime : Type 1 where
  pub State : Type 0
  pub get : State → ℕ → Bytes → Option Bytes
  pub setex : State → ℕ → Bytes → ℕ → Bytes → State
  pub exists : State → ℕ → Bytes → Bool
  pub ttl : State → ℕ → Bytes → ℤ  -- the seconds left, -1 without a lifetime
  pub characters : Bytes → ℕ  -- `len` of a text
  pub parse_float : Bytes → Option Float  -- `float` of a text
  pub Forest : Type 0
  pub joblib_load : Bytes → Option Forest  -- `none` is an exception
  pub joblib_dump : Forest → Bytes
  pub train : List (List Float) → Forest  -- `IsolationForest(…).fit`
  pub decision_function : Forest → List Float → Option Float  -- `none` is an exception
  pub baseline : Option Forest
  pub Session : Type 0
  pub session : Option Session
  pub run : Session → List (List Float) → Option Float  -- `none` is an exception
  pub dumps : List (List Float) → Bytes
  pub loads : Bytes → Option (List (List Float))
  pub model_version : Bytes

pub record IsLawful (R : Runtime) : Type 0 where
  pub get-setex_own :
      (s : R.State) (clock at : ℕ) (k : Bytes) (ttl : ℕ) (v : Bytes)
      → clock ≤ at
      → at < clock + ttl
      → R.get (R.setex s clock k ttl v) at k ≡ some v
  pub get-setex_over :
      (s : R.State) (clock at : ℕ) (k : Bytes) (ttl : ℕ) (v : Bytes)
      → clock + ttl ≤ at
      → R.get (R.setex s clock k ttl v) at k ≡ none
  pub get-setex_other :
      (s : R.State) (clock at : ℕ) (j k : Bytes) (ttl : ℕ) (v : Bytes)
      → j ≢ k
      → R.get (R.setex s clock k ttl v) at j ≡ R.get s at j
  pub exists_iff :
      (s : R.State) (at : ℕ) (k : Bytes) → (R.exists s at k ≡ false) ↔ (R.get s at k ≡ none)
  pub ttl-setex_own :
      (s : R.State) (clock at : ℕ) (k : Bytes) (ttl : ℕ) (v : Bytes)
      → clock ≤ at
      → at < clock + ttl
      → R.ttl (R.setex s clock k ttl v) at k ≡ pos (clock + ttl - at)
  pub ttl-setex_other :
      (s : R.State) (clock at : ℕ) (j k : Bytes) (ttl : ℕ) (v : Bytes)
      → j ≢ k
      → R.ttl (R.setex s clock k ttl v) at j ≡ R.ttl s at j
  pub loads-dumps : (seq : List (List Float)) → R.loads (R.dumps seq) ≡ some seq
  pub joblib_load-dump : (m : R.Forest) → R.joblib_load (R.joblib_dump m) ≡ some m
  pub dumps_text : (seq : List (List Float)) → 0 < length (R.dumps seq)

-- `_encode_feature_vector` and `_fv_to_array`: nine numbers.
unfoldable pub encode_feature_vector : Runtime → FeatureVector → List Float
encode_feature_vector R fv =
    fv.req_rate_1s
    ∷ fv.req_rate_10s
    ∷ fv.req_rate_60s
    ∷ double_of fv.content_length
    ∷ double_of fv.header_count
    ∷ double_of fv.is_http2
    ∷ double_of (pos (R.characters fv.http_method))
    ∷ double_of (pos (R.characters fv.ja3_hash))
    ∷ double_of (pos (R.characters fv.user_agent_hash))
    ∷ []
