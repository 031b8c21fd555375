-- ===== src/Engine/Throttle.antt =====
-- The back-off of a throttled request.
use rate_limiter.Base.{
  ℕ, ◌*◌, ◌^◌, ◌≤◌, ◌≡◌, ◌∙◌, ap, sym, Bool, true, false, some, if◌then◌else◌, arith,
}
use rate_limiter.Base.Int.{ℤ, pos, ◌≤ℤ◌, ltb_ℤ}
use rate_limiter.Float.{Float, fin, gt, to_float32, times, to_int, round32}
use rate_limiter.Float.Rounding.{round32-le}
use rate_limiter.Config.{Config}
use rate_limiter.Redis.{decrement}
use rate_limiter.Redis.Server.{RedisServer}
use rate_limiter.Ml.{FeatureVector, returns, dialled, value_or}
use rate_limiter.Engine.Interface.{throttle, Decision, Blocklist, World, Call}
use rate_limiter.Engine.Evaluate.{Engine, enforce, evaluate, retry_after_of, bucket_exhausted}
use rate_limiter.Engine.Events.{score_value, evaluate_dialled}

times_round : (n k m : ℕ) → round32 1 (n * k) ≡ some m → times (fin (pos n)) k ≡ fin (pos m)
unfolding times
times_round n k m h = ground arith

to_int_bounds :
    (invalid : ℤ) (q : ℕ)
    → q ≤ 15 * 2 ^ 152
    → let n = to_int invalid (fin (pos q)) in
      (pos 1 ≤ℤ (if ltb_ℤ n (pos 1) then pos 1 else n))
      × ((if ltb_ℤ n (pos 1) then pos 1 else n) ≤ℤ pos 120)
unfolding to_int
to_int_bounds invalid q h = ground arith

-- For a score between 0 and 1 the back-off lies between 1 and 120 seconds.
retry_after_of_bounds :
    (invalid : ℤ) (n : ℕ)
    → n ≤ 2 ^ 149
    → (pos 1 ≤ℤ retry_after_of invalid (fin (pos n)))
      × (retry_after_of invalid (fin (pos n)) ≤ℤ pos 120)
unfolding retry_after_of
retry_after_of_bounds invalid n h =
    let (m, rounded, small) =
      round32-le 0 (n * 2) 1 150 (omega arith) (omega arith) (omega arith) (omega arith) in
    let (q, again, bound) =
      round32-le 0 (m * 60) 15 152 (omega arith) (omega arith) (omega arith) (omega arith) in
    rw (times_round n 2 m rounded, times_round m 60 q again) (to_int_bounds invalid q bound)

module _ (invalid : ℤ) (R : RedisServer) (B : Blocklist) where
  enforce_throttle :
      (cfg : Config) (fv : FeatureVector) (now : ℤ) (score : Float) (exhausted : Bool)
      (w : World R B)
      → let d = (enforce invalid R B cfg fv now score exhausted w).0 in
        d.action ≡ throttle
        → (d.retry_after ≡ retry_after_of invalid score)
          × (gt score (to_float32 cfg.score_throttle_threshold) ≡ true)
          × (gt score (to_float32 cfg.score_block_threshold) ≡ false)
          × (exhausted ≡ false)
  unfolding enforce
  enforce_throttle cfg fv now score exhausted w h = ground arith

  -- A request with a score from 0 to 1, at an engine with a client of the sidecar: it is throttled
  -- only with tokens left, or no count of them, and with a score above the throttle threshold and not
  -- above the block threshold, and it is then told to come back after 1 to 120 seconds.
  pub throttle_bounds :
      {E : Type 0} (e : Engine invalid R B) (fv : FeatureVector) (call : Call E) (w w' : World R B)
      (d : Decision) (n : ℕ)
      → e.ml ≡ dialled
      → score_value call.scored ≡ fin (pos n)
      → n ≤ 2 ^ 149
      → evaluate invalid R B e fv call w ≡ returns (d, w')
      → d.action ≡ throttle
      → (pos 1 ≤ℤ d.retry_after)
        × (d.retry_after ≤ℤ pos 120)
        × (gt (fin (pos n)) (to_float32 e.cfg.score_throttle_threshold) ≡ true)
        × (gt (fin (pos n)) (to_float32 e.cfg.score_block_threshold) ≡ false)
        × (bucket_exhausted
              (decrement R e.redis call.second call.delivery call.retries fv.client_ip w.redis).0
            ≡ false)
  throttle_bounds e fv call w w' d n h value small returned act =
      let r = decrement R e.redis call.second call.delivery call.retries fv.client_ip w.redis in
      let taken : World R B = record w { redis = r.1 } in
      let out =
        enforce invalid R B e.cfg fv call.timestamp (fin (pos n)) (bucket_exhausted r.0) taken in
      let computed : evaluate invalid R B e fv call w ≡ returns out =
        evaluate_dialled invalid R B e fv call w h
        ∙ ap
            (λ s.
              returns (enforce invalid R B e.cfg fv call.timestamp s (bucket_exhausted r.0) taken))
            value in
      let same : d ≡ out.0 =
        ap (λ o. (value_or {A = Decision × World R B} (d, w') o).0) (sym returned ∙ computed) in
      let T =
        enforce_throttle e.cfg fv call.timestamp (fin (pos n)) (bucket_exhausted r.0) taken
          (ap (λ x. x.action) (sym same) ∙ act) in
      let after : d.retry_after ≡ retry_after_of invalid (fin (pos n)) =
        ap (λ x. x.retry_after) same ∙ T.0 in
      let bounds = retry_after_of_bounds invalid n small in
      (rw after bounds.0, rw after bounds.1, T.1, T.2, T.3)
