-- ===== src/Engine/FailOpen.antt =====
-- What the engine does when the services around it fail, or answer with no number.
use rate_limiter.Base.{◌≡◌, ◌∙◌, ap, refl, false, [], ◌∷◌, ◌++◌, Result, ok, err, arith}
use rate_limiter.Base.Int.{ℤ, pos, ltb_ℤ}
use rate_limiter.Float.{Float, nan, fin, gt, to_float32}
use rate_limiter.Config.{Config}
use rate_limiter.Redis.{decrement, DecrementError}
use rate_limiter.Redis.Server.{RedisServer}
use rate_limiter.Ml.{FeatureVector, returns, dialled, ScoreResponse}
use rate_limiter.Engine.Interface.{allow, Blocklist, World, Call, publish_decision}
use rate_limiter.Engine.Evaluate.{Engine, enforce, evaluate, bucket_exhausted, event_of}
use rate_limiter.Kafka.{marshals}
use rate_limiter.Engine.Mirror.{exhausted_ok}
use rate_limiter.Engine.Events.{score_value, evaluate_dialled}

module _ (invalid : ℤ) (R : RedisServer) (B : Blocklist) where
  enforce_low :
      (cfg : Config) (fv : FeatureVector) (now : ℤ) (score : Float) (w : World R B)
      → gt score (to_float32 cfg.score_block_threshold) ≡ false
      → gt score (to_float32 cfg.score_throttle_threshold) ≡ false
      → enforce invalid R B cfg fv now score false w ≡ (
        record { action = allow; retry_after = pos 0 },
        record w { tasks = w.tasks ++ publish_decision (event_of fv score allow now) ∷ [] },
      )
  unfolding enforce
  enforce_low cfg fv now score w h k = rw (h, k)

  exhausted_err : {E : Type 0} (r : Result E ℤ) {x : E} → r ≡ err x → bucket_exhausted r ≡ false
  unfolding bucket_exhausted
  exhausted_err (ok n) h = absurd (ground arith)
  exhausted_err (err e) h = refl

  score_failed :
      {E : Type 0} (r : Result E ScoreResponse) {x : E} → r ≡ err x → score_value r ≡ fin (pos 0)
  score_failed (ok s) h = absurd (ground arith)
  score_failed (err e) h = refl

  -- At an engine with a client of the sidecar: if the token count does not arrive and the remote score
  -- does not either, and no threshold is below zero, the request is allowed, with the score 0 in its
  -- event and the block list untouched.
  pub evaluate_fail_open :
      {E : Type 0} (e : Engine invalid R B) (fv : FeatureVector) (call : Call E) (w : World R B)
      {x : DecrementError R.Error} {y : E}
      → e.ml ≡ dialled
      → (decrement R e.redis call.second call.delivery call.retries fv.client_ip w.redis).0 ≡ err x
      → call.scored ≡ err y
      → gt (fin (pos 0)) (to_float32 e.cfg.score_block_threshold) ≡ false
      → gt (fin (pos 0)) (to_float32 e.cfg.score_throttle_threshold) ≡ false
      → evaluate invalid R B e fv call w
        ≡ returns (
          record { action = allow; retry_after = pos 0 },
          record {
            redis =
                (decrement R e.redis call.second call.delivery call.retries fv.client_ip w.redis).1;
            blocklist = w.blocklist;
            tasks =
                w.tasks ++ publish_decision (event_of fv (fin (pos 0)) allow call.timestamp) ∷ [];
          },
        )
  evaluate_fail_open e fv call w h k f b t =
      let r = decrement R e.redis call.second call.delivery call.retries fv.client_ip w.redis in
      let taken : World R B = record w { redis = r.1 } in
      evaluate_dialled invalid R B e fv call w h
      ∙ ap returns (
          ap (λ s. enforce invalid R B e.cfg fv call.timestamp s (bucket_exhausted r.0) taken)
            (score_failed call.scored f)
          ∙ ap (λ x. enforce invalid R B e.cfg fv call.timestamp (fin (pos 0)) x taken)
              (exhausted_err r.0 k)
          ∙ enforce_low e.cfg fv call.timestamp (fin (pos 0)) taken b t)

  -- With a client of the sidecar, a score that arrives as NaN is neither above a threshold nor fit for
  -- JSON: a request with tokens left is allowed, and the event of its decision cannot be published.
  pub evaluate_nan :
      {E : Type 0} (e : Engine invalid R B) (fv : FeatureVector) (call : Call E) (w : World R B)
      (n : ℤ) {s : ScoreResponse}
      → e.ml ≡ dialled
      → (decrement R e.redis call.second call.delivery call.retries fv.client_ip w.redis).0 ≡ ok n
      → ltb_ℤ n (pos 0) ≡ false
      → call.scored ≡ ok s
      → s.anomaly_score ≡ nan
      → (w' : World R B) × (evaluate invalid R B e fv call w
          ≡ returns (record { action = allow; retry_after = pos 0 }, w'))
        × (w'.tasks ≡ w.tasks ++ publish_decision (event_of fv nan allow call.timestamp) ∷ [])
        × (marshals (event_of fv nan allow call.timestamp) ≡ false)
  unfolding gt marshals event_of
  evaluate_nan e fv call w n {s} h k left scored bad =
      let r = decrement R e.redis call.second call.delivery call.retries fv.client_ip w.redis in
      let taken : World R B = record w { redis = r.1 } in
      let is_nan : score_value call.scored ≡ nan = ap score_value scored ∙ bad in
      (
        record taken {
          tasks = w.tasks ++ publish_decision (event_of fv nan allow call.timestamp) ∷ [];
        },
        evaluate_dialled invalid R B e fv call w h
            ∙ ap returns (
                ap (λ x. enforce invalid R B e.cfg fv call.timestamp x (bucket_exhausted r.0) taken)
                  is_nan
                ∙ ap (λ x. enforce invalid R B e.cfg fv call.timestamp nan x taken)
                    (exhausted_ok invalid R B r.0 n k ∙ left)
                ∙ enforce_low e.cfg fv call.timestamp nan taken refl refl),
        refl,
        refl,
      )
