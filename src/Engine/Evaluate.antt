-- ===== src/Engine/Evaluate.antt =====
-- decision-engine/internal/engine/engine.go: `Evaluate`; engine_testing.go: its stripped-down twin.
use rate_limiter.Base.{Bool, false, not, ◌||◌, [], ◌∷◌, ◌++◌, Result, ok, err, is_ok, if◌then◌else◌}
use rate_limiter.Base.Int.{ℤ, pos, ltb_ℤ}
use rate_limiter.Float.{Float, gt, to_float32, times, to_int}
use rate_limiter.Config.{Config}
use rate_limiter.Redis.{decrement}
use rate_limiter.Redis
use rate_limiter.Redis.Server.{RedisServer}
use rate_limiter.Ml.{FeatureVector, Outcome, returns, ◌>>=◌, Scored, score_of}
use rate_limiter.Ml
use rate_limiter.Kafka.{DecisionEvent}
use rate_limiter.Engine.Interface.{
  Action, allow, throttle, block, action_text, Decision, Blocklist, publish_blocked,
  publish_decision, World, Call,
}

-- The first of the two results of `Decrement`.
abbrev remaining_of : {E : Type 0} → Result E ℤ → ℤ
remaining_of (ok n) = n
remaining_of (err e) = pos 0

-- Step 1 of `Evaluate`: `bucketExhausted`.
unfoldable pub bucket_exhausted : {E : Type 0} → Result E ℤ → Bool
bucket_exhausted r =
    let exhausted = not (is_ok r) || ltb_ℤ (remaining_of r) (pos 0) in
    if not (is_ok r) then false else exhausted

-- `int(score * 2 * 60)`, at least 1. `invalid` is what the machine makes of a number out of range.
unfoldable pub retry_after_of : ℤ → Float → ℤ
retry_after_of invalid score =
    let n = to_int invalid (times (times score 2) 60) in if ltb_ℤ n (pos 1) then pos 1 else n

unfoldable pub event_of : FeatureVector → Float → Action → ℤ → DecisionEvent
event_of fv score action now = record {
  ip = fv.client_ip;
  score = score;
  action = action_text action;
  timestamp = now;
  feature_vector = record {
    ja3_hash = fv.ja3_hash;
    user_agent_hash = fv.user_agent_hash;
    req_rate_1s = fv.req_rate_1s;
    req_rate_10s = fv.req_rate_10s;
    req_rate_60s = fv.req_rate_60s;
    http_method = fv.http_method;
    is_http2 = fv.is_http2;
  };
}

module _ (invalid : ℤ) (R : RedisServer) (B : Blocklist) where
  -- The fields of `Engine` that are not state.
  pub record Engine : Type 0 where
    pub cfg : Config
    pub redis : Redis.Client R
    pub ml : Ml.Client

  unfoldable pub new : Config → Redis.Client R → Ml.Client → Engine
  new cfg redis ml = record { cfg = cfg; redis = redis; ml = ml }

  -- Step 3, the `switch`, and step 4, in a world where the token has been taken.
  unfoldable pub enforce :
      Config → FeatureVector → ℤ → Float → Bool → World R B → Decision × World R B
  enforce cfg fv now score exhausted w =
      if gt score (to_float32 cfg.score_block_threshold) || exhausted
      then (
        record { action = block; retry_after = pos 0 },
        record w {
          blocklist = (B.add fv.client_ip w.blocklist).1;
          tasks =
              w.tasks
              ++ publish_blocked fv.client_ip ∷ publish_decision (event_of fv score block now) ∷ [];
        },
      )
      else if gt score (to_float32 cfg.score_throttle_threshold)
      then (
        record { action = throttle; retry_after = retry_after_of invalid score },
        record w { tasks = w.tasks ++ publish_decision (event_of fv score throttle now) ∷ [] },
      )
      else (
        record { action = allow; retry_after = pos 0 },
        record w { tasks = w.tasks ++ publish_decision (event_of fv score allow now) ∷ [] },
      )

  unfoldable pub evaluate :
      {E : Type 0} → Engine → FeatureVector → Call E → World R B → Outcome (Decision × World R B)
  evaluate e fv call w =
      let (reply, redis) =
        decrement R e.redis call.second call.delivery call.retries fv.client_ip w.redis in
      score_of e.ml call.scored >>= λ s. returns (
        enforce e.cfg fv call.timestamp s.score (bucket_exhausted reply)
          (record w { redis = redis }))

-- `testEngine`
pub record TestEngine : Type 0 where
  pub cfg : Config
  pub remaining : ℤ
  pub score : Float

-- `NewForTesting`
unfoldable pub new_for_testing : Config → ℤ → Float → TestEngine
new_for_testing cfg remaining score = record { cfg = cfg; remaining = remaining; score = score }

unfoldable pub test_evaluate : ℤ → TestEngine → Decision
test_evaluate invalid e =
    let exhausted = ltb_ℤ e.remaining (pos 0) in
    if gt e.score (to_float32 e.cfg.score_block_threshold) || exhausted
    then record { action = block; retry_after = pos 0 }
    else if gt e.score (to_float32 e.cfg.score_throttle_threshold)
    then (let n = to_int invalid (times (times e.score 2) 60) in
        record { action = throttle; retry_after = if ltb_ℤ n (pos 1) then pos 1 else n })
    else record { action = allow; retry_after = pos 0 }
