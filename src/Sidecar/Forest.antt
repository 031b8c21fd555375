-- ===== src/Sidecar/Forest.antt =====
-- ml-sidecar/models/isolation_forest.py: the forest of a client, and its score or that of the baseline.
use rate_limiter.Base.{
  [], ◌∷◌, ℕ, List, length, ltb, if◌then◌else◌, ◌*◌, Option, none, some, ◌++◌, Bytes, codes,
}
use rate_limiter.Base.Int.{ℤ, pos}
use rate_limiter.Float.{Float, fin}
use rate_limiter.Float.Double.{half, subtract_from, clip}
use rate_limiter.Ml.{FeatureVector}
use rate_limiter.Sidecar.Dicts.{Members, encode_members, ◌>>=◌}
use rate_limiter.Sidecar.Runtime.{Runtime, encode_feature_vector}

abbrev pub min_samples_for_fit : ℕ
min_samples_for_fit = 20

abbrev pub model_ttl : ℕ
model_ttl = 7 * 24 * 3600

module _ (R : Runtime) where
  unfoldable pub redis_key : Bytes → Bytes
  redis_key ip = codes "model:iso:" ++ ip

  unfoldable pub store_model : Bytes → R.Forest → ℕ → R.State → R.State
  store_model ip m clock s = R.setex s clock (redis_key ip) model_ttl (R.joblib_dump m)

  -- The array of the encoded vectors.
  unfoldable pub encode_all : List Members → Option (List (List Float))
  encode_all [] = some []
  encode_all (fv ∷ fvs) = do v ← encode_members R fv; vs ← encode_all fvs; some (v ∷ vs)

  -- `none` is the exception of a vector that cannot be encoded.
  unfoldable pub fit : Bytes → List Members → ℕ → R.State → Option R.State
  fit ip feature_history clock s =
      if ltb (length feature_history) min_samples_for_fit
      then some s
      else encode_all feature_history >>= λ vs. some (store_model ip (R.train vs) clock s)

  unfoldable pub load_model : Bytes → ℕ → R.State → Option R.Forest
  load_model ip clock s = elim (R.get s clock (redis_key ip)) [
    | none ↦ none
    | some data_read ↦ R.joblib_load data_read
  ]

  -- redis/lua-scripts/get_set_model.lua: the bytes under a key and the seconds left, in one access.
  unfoldable pub get_set_model : Bytes → ℕ → R.State → Option (Bytes × ℤ)
  get_set_model key clock s =
      if R.exists s clock key
      then elim (R.get s clock key) [
        | none ↦ none
        | some model_bytes ↦ some (model_bytes, R.ttl s clock key)
      ]
      else none

  -- The client's model, or the baseline.
  unfoldable pub model_of : Bytes → ℕ → R.State → Option R.Forest
  model_of ip clock s = elim (load_model ip clock s) [ none ↦ R.baseline | some m ↦ some m ]

  -- `score`; `none` is an exception.
  unfoldable pub forest_score : Bytes → FeatureVector → ℕ → R.State → Option Float
  forest_score ip fv clock s = elim (model_of ip clock s) [
    | none ↦ some (fin (pos half))
    | some m ↦ elim (R.decision_function m (encode_feature_vector R fv)) [
      | none ↦ none
      | some raw ↦ some (clip (subtract_from (pos half) raw))
    ]
  ]
