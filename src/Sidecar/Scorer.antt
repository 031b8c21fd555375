-- ===== src/Sidecar/Scorer.antt =====
-- ml-sidecar/scorer.py and ml-sidecar/server.py: the combined score, and the remote call.
use rate_limiter.Base.{ℕ, ◌*◌, ◌^◌, Option, none, some, Result, ok, err}
use rate_limiter.Float.{Float, to_float32}
use rate_limiter.Float.Double.{weighted, add64}
use rate_limiter.Ml.{FeatureVector, ScoreResponse}
use rate_limiter.Sidecar.Runtime.{Runtime}
use rate_limiter.Sidecar.Forest.{forest_score}
use rate_limiter.Sidecar.Sequence.{push_feature_vector, sequence_score}

-- 0.6 and 0.4 as doubles
abbrev pub iso_weight : ℕ
iso_weight = 5404319552844595 * 2 ^ 1021

abbrev pub lstm_weight : ℕ
lstm_weight = 3602879701896397 * 2 ^ 1021

unfoldable pub combine : Float → Float → Float
combine iso lstm = add64 (weighted iso_weight iso) (weighted lstm_weight lstm)

-- When the three accesses of one call reach the Redis server.
pub record Clocks : Type 0 where
  pub pushed : ℕ
  pub loaded : ℕ
  pub scored : ℕ

-- The two scores, when neither raises an exception.
unfoldable pub combine_scores : Option Float → Option Float → Option Float
combine_scores none lstm = none
combine_scores (some iso) none = none
combine_scores (some iso) (some lstm) = some (combine iso lstm)

module _ (R : Runtime) where
  -- `Scorer.score`; `none` is an exception.
  unfoldable pub score : FeatureVector → Clocks → R.State → Option Float × R.State
  score fv clocks s = elim (push_feature_vector R fv.client_ip fv clocks.pushed s) [
    | none ↦ (none, s)
    | some t ↦ (
      combine_scores (forest_score R fv.client_ip fv clocks.loaded t)
          (sequence_score R fv.client_ip clocks.scored t),
      t,
    )
  ]

  -- `MLScorerServicer.Score`: an exception reaches the client as an error of the call, and the score
  -- is sent as a `float`.
  unfoldable pub answer_score :
      {E : Type 0} → E → FeatureVector → Clocks → R.State → Result E ScoreResponse × R.State
  answer_score e fv clocks s =
      let r = score fv clocks s in
      elim (r.0) [
        | none ↦ (err e, r.1)
        | some x ↦
            (ok (record { anomaly_score = to_float32 x; model_version = R.model_version }), r.1)
      ]
