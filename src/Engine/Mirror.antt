-- ===== src/Engine/Mirror.antt =====
-- The stripped-down engine of the tests beside the engine.
use rate_limiter.Base.{◌≡◌, ◌∙◌, ap, Result, ok, err, arith}
use rate_limiter.Base.Int.{ℤ, pos, ltb_ℤ}
use rate_limiter.Float.{Float}
use rate_limiter.Config.{Config}
use rate_limiter.Redis.{decrement}
use rate_limiter.Redis.Server.{RedisServer}
use rate_limiter.Ml.{FeatureVector, returns, dialled}
use rate_limiter.Engine.Interface.{Blocklist, World, Call}
use rate_limiter.Engine.Evaluate.{
  Engine, enforce, evaluate, bucket_exhausted, test_evaluate, retry_after_of,
}
use rate_limiter.Engine.Events.{score_value, evaluate_dialled}

module _ (invalid : ℤ) (R : RedisServer) (B : Blocklist) where
  enforce-test_evaluate :
      (cfg : Config) (fv : FeatureVector) (now : ℤ) (score : Float) (remaining : ℤ) (w : World R B)
      → (enforce invalid R B cfg fv now score (ltb_ℤ remaining (pos 0)) w).0
        ≡ test_evaluate invalid (record { cfg = cfg; remaining = remaining; score = score })
  unfolding enforce test_evaluate retry_after_of
  enforce-test_evaluate cfg fv now score remaining w = ground arith

  pub exhausted_ok :
      {E : Type 0} (r : Result E ℤ) (n : ℤ) → r ≡ ok n → bucket_exhausted r ≡ ltb_ℤ n (pos 0)
  unfolding bucket_exhausted
  exhausted_ok (ok m) n h = ground arith
  exhausted_ok (err e) n h = absurd (ground arith)

  -- With a client of the sidecar, and a token count that arrives: `Evaluate` decides as the test
  -- engine with that count and that score.
  pub evaluate-test_evaluate :
      {E : Type 0} (e : Engine invalid R B) (fv : FeatureVector) (call : Call E) (w : World R B)
      (n : ℤ)
      → e.ml ≡ dialled
      → (decrement R e.redis call.second call.delivery call.retries fv.client_ip w.redis).0 ≡ ok n
      → (w' : World R B) × (evaluate invalid R B e fv call w
          ≡ returns (
            test_evaluate invalid
                (record { cfg = e.cfg; remaining = n; score = score_value call.scored }),
            w',
          ))
  evaluate-test_evaluate e fv call w n h k =
      let r = decrement R e.redis call.second call.delivery call.retries fv.client_ip w.redis in
      let taken : World R B = record w { redis = r.1 } in
      let score = score_value call.scored in
      let out = enforce invalid R B e.cfg fv call.timestamp score (bucket_exhausted r.0) taken in
      (
        out.1,
        evaluate_dialled invalid R B e fv call w h
            ∙ ap (λ d. returns (d, out.1))
                (ap (λ x. (enforce invalid R B e.cfg fv call.timestamp score x taken).0)
                    (exhausted_ok r.0 n k)
                  ∙ enforce-test_evaluate e.cfg fv call.timestamp score n taken),
      )
