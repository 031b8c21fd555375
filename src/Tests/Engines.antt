-- ===== src/Tests/Engines.antt =====
-- The theorems on the engine, at concrete engines and requests.
use rate_limiter.Base.{
  suc, ℕ, ◌+◌, ◌*◌, ◌<◌, ◌≤◌, ◌^◌, ◌≡◌, ◌≢◌, refl, List, [], ◌∷◌, ◌++◌, Bytes, codes, Result, ok,
  err, Option, none, some, Bool, true, false, ltb, if◌then◌else◌, length, arith,
}
use rate_limiter.Base.Int.{ℤ, pos, negsuc, ltb_ℤ, leb_ℤ, ◌≤ℤ◌}
use rate_limiter.Float.{Float, nan, fin, gt, to_float32}
use rate_limiter.Config.{Config, default_block, default_throttle}
use rate_limiter.Kafka.{marshals}
use rate_limiter.Ml.{FeatureVector, ScoreResponse, Outcome, returns, panics, dialled, nil}
use rate_limiter.Ml
use rate_limiter.Redis.{Client, Delivery, replied, request_lost, network, bucket_key, decrement}
use rate_limiter.Redis.Bucket.{empty}
use rate_limiter.Redis.Attempts.{whole_client}
use rate_limiter.Engine.Interface.{
  allow, throttle, Decision, Blocklist, publish_decision, World, Call,
}
use rate_limiter.Engine.Evaluate.{
  Engine, evaluate, test_evaluate, bucket_exhausted, event_of, retry_after_of,
}
use rate_limiter.Engine.Events.{Effects, evaluate-Effects}
use rate_limiter.Engine.Mirror.{evaluate-test_evaluate}
use rate_limiter.Engine.Throttle.{throttle_bounds}
use rate_limiter.Engine.FailOpen.{evaluate_fail_open, evaluate_nan}
use rate_limiter.Engine.Limit.{decisions, not_blocked, limit_exact}
use rate_limiter.Tests.Shelf.{shelf, shelf-IsLawful}
use rate_limiter.Tests.Buckets.{bare, bare-Holds, client_text}

-- A block list that keeps the addresses it is given.
abbrev pub paper : Blocklist
paper = record {
  State = List Bytes;
  Error = Unit {0};
  add = λ ip b. (none, ip ∷ b);
  remove = λ ip b. (none, b);
}

abbrev pub defaults : Config
defaults = record {
  unix_socket_path = codes "/tmp/decision.sock";
  http_port = codes "8080";
  redis_addrs = codes "localhost:6379" ∷ [];
  bucket_size = pos 2;
  bucket_ttl = pos 30000000000;
  kafka_brokers = codes "localhost:9092" ∷ [];
  ml_sidecar_addr = codes "localhost:50051";
  score_block_threshold = default_block;
  score_throttle_threshold = default_throttle;
}

abbrev pub outside : ℤ
outside = negsuc 9223372036854775807

abbrev pub engine : Engine outside shelf paper
engine = record { cfg = defaults; redis = whole_client shelf 2 30; ml = dialled }

abbrev pub sample : FeatureVector
sample = record {
  client_ip = client_text;
  ja3_hash = [];
  user_agent_hash = [];
  req_rate_1s = fin (pos 0);
  req_rate_10s = fin (pos 0);
  req_rate_60s = fin (pos 0);
  http_method = codes "GET";
  uri_hash = [];
  content_length = pos 0;
  header_count = pos 5;
  is_http2 = pos 1;
  unix_timestamp = pos 1000;
}

abbrev pub start : World shelf paper
start = record { redis = bare; blocklist = []; tasks = [] }

-- The `float32` next to 0.70.
abbrev seventy : ℕ
seventy = 11744051 * 2 ^ 125

abbrev score_of : Float → Result (Unit {0}) ScoreResponse
score_of f = ok (record { anomaly_score = f; model_version = codes "v1" })

abbrev pub call_at : ℕ → Delivery → Result (Unit {0}) ScoreResponse → Call (Unit {0})
call_at second delivery scored = record {
  second = second;
  delivery = delivery;
  retries = [];
  scored = scored;
  timestamp = pos 1000;
}

abbrev calm : ℕ → Call (Unit {0})
calm second = call_at second replied (score_of (fin (pos 0)))

-- The same client with another request.
abbrev hurried : FeatureVector
hurried = record sample { req_rate_1s = fin (pos 1); unix_timestamp = pos 1020 }

abbrev calls : List (FeatureVector × Call (Unit {0}))
calls = (hurried, calm 1020) ∷ (sample, calm 1040) ∷ []

calm_score : gt (fin (pos 0)) (to_float32 default_block) ≡ false
unfolding gt to_float32 default_block rate_limiter.Float.nearest rate_limiter.Float.bit_length
calm_score = refl

calm_throttle : gt (fin (pos 0)) (to_float32 default_throttle) ≡ false
unfolding gt to_float32 default_throttle rate_limiter.Float.nearest rate_limiter.Float.bit_length
calm_throttle = refl

-- Three requests with two tokens, twenty seconds apart: two pass.
limit_exact_example :
    not_blocked (decisions outside shelf paper engine ((sample, calm 1000) ∷ calls) start)
    ≡ (if ltb 2 (suc (length calls)) then 2 else suc (length calls))
limit_exact_example =
    limit_exact outside shelf shelf-IsLawful paper 2 30 (omega arith) (omega arith) engine
      client_text sample (calm 1000) calls start 0 empty refl refl
      (refl, refl, calm_score, (refl, refl, calm_score, (refl, refl, calm_score, tt)))
      (bare-Holds (bucket_key client_text)) (omega arith) tt
      (omega arith, omega arith, (omega arith, omega arith, tt))

evaluate-Effects_example :
    (d : Decision) × (w : World shelf paper) × (evaluate outside shelf paper engine sample
        (calm 1000)
        start
      ≡ returns (d, w))
    × Effects outside shelf paper sample (pos 1000) (fin (pos 0)) start d w
    × (w.redis ≡ (decrement shelf engine.redis 1000 replied [] client_text bare).1)
evaluate-Effects_example = evaluate-Effects outside shelf paper engine sample (calm 1000) start refl

counted : (decrement shelf engine.redis 1000 replied [] client_text bare).0 ≡ ok (pos 1)
unfolding decrement rate_limiter.Redis.attempt rate_limiter.Redis.go_on
    rate_limiter.Redis.token_bucket rate_limiter.Tests.Shelf.is_there
    rate_limiter.Tests.Shelf.shelf_set rate_limiter.Redis.whole_seconds rate_limiter.Base.Int.◌-ℤ◌
counted = refl

evaluate-test_evaluate_example :
    (w : World shelf paper) × (evaluate outside shelf paper engine sample (calm 1000) start
      ≡ returns (
        test_evaluate outside (record { cfg = defaults; remaining = pos 1; score = fin (pos 0) }),
        w,
      ))
evaluate-test_evaluate_example =
    evaluate-test_evaluate outside shelf paper engine sample (calm 1000) start (pos 1) refl counted

abbrev suspect : Call (Unit {0})
suspect = call_at 1000 replied (score_of (fin (pos seventy)))

abbrev told : Decision
told = record { action = throttle; retry_after = pos 84 }

abbrev after : World shelf paper
after = record {
  redis = (decrement shelf engine.redis 1000 replied [] client_text bare).1;
  blocklist = [];
  tasks = publish_decision (event_of sample (fin (pos seventy)) throttle (pos 1000)) ∷ [];
}

throttled : evaluate outside shelf paper engine sample suspect start ≡ returns (told, after)
unfolding evaluate Ml.score_of rate_limiter.Engine.Evaluate.enforce gt to_float32 default_block
    rate_limiter.Float.nearest rate_limiter.Float.bit_length bucket_exhausted decrement
    rate_limiter.Redis.attempt rate_limiter.Redis.go_on rate_limiter.Redis.token_bucket
    rate_limiter.Tests.Shelf.is_there rate_limiter.Tests.Shelf.shelf_set
    rate_limiter.Redis.whole_seconds rate_limiter.Base.Int.◌-ℤ◌ default_throttle retry_after_of
    rate_limiter.Float.to_int rate_limiter.Float.round32 rate_limiter.Float.times
throttled = refl

throttle_bounds_example :
    (pos 1 ≤ℤ pos 84)
    × (pos 84 ≤ℤ pos 120)
    × (gt (fin (pos seventy)) (to_float32 default_throttle) ≡ true)
    × (gt (fin (pos seventy)) (to_float32 default_block) ≡ false)
    × (bucket_exhausted (decrement shelf engine.redis 1000 replied [] client_text bare).0 ≡ false)
throttle_bounds_example =
    throttle_bounds outside shelf paper engine sample suspect start after told seventy refl refl
      (omega arith) throttled refl

abbrev cut_off : Call (Unit {0})
cut_off = call_at 1000 request_lost (err tt)

lost : (decrement shelf engine.redis 1000 request_lost [] client_text bare).0 ≡ err network
unfolding decrement rate_limiter.Redis.attempt rate_limiter.Redis.go_on
lost = refl

evaluate_fail_open_example :
    evaluate outside shelf paper engine sample cut_off start
    ≡ returns (
      record { action = allow; retry_after = pos 0 },
      record {
        redis = (decrement shelf engine.redis 1000 request_lost [] client_text bare).1;
        blocklist = [];
        tasks = publish_decision (event_of sample (fin (pos 0)) allow (pos 1000)) ∷ [];
      },
    )
evaluate_fail_open_example =
    evaluate_fail_open outside shelf paper engine sample cut_off start refl lost refl calm_score
      calm_throttle

abbrev unscored : Call (Unit {0})
unscored = call_at 1000 replied (score_of nan)

evaluate_nan_example :
    (w : World shelf paper) × (evaluate outside shelf paper engine sample unscored start
      ≡ returns (record { action = allow; retry_after = pos 0 }, w))
    × (w.tasks ≡ publish_decision (event_of sample nan allow (pos 1000)) ∷ [])
    × (marshals (event_of sample nan allow (pos 1000)) ≡ false)
evaluate_nan_example =
    evaluate_nan outside shelf paper engine sample unscored start (pos 1) refl counted refl refl
      refl
