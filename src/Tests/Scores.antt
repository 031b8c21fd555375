-- ===== src/Tests/Scores.antt =====
-- The theorems on the sidecar, at a sidecar without the sequence model.
use rate_limiter.Base.{
  ℕ, ◌-◌, ◌+◌, ◌*◌, ◌^◌, ◌≤◌, ◌<◌, ◌≡◌, refl, Bool, true, none, some, List, [], ◌∷◌, Bytes, codes,
  Result, ok, err, Option, replicate, map, arith,
}
use rate_limiter.Base.Int.{ℤ, pos, negsuc, ◌≤ℤ◌}
use rate_limiter.Float.{Float, fin, gt, to_float32}
use rate_limiter.Float.Double.{half}
use rate_limiter.Ml.{FeatureVector, ScoreResponse, returns}
use rate_limiter.Ml
use rate_limiter.Config.{default_block, default_throttle}
use rate_limiter.Redis.{replied, decrement}
use rate_limiter.Engine.Interface.{block, throttle, Decision, World, Call}
use rate_limiter.Engine.Evaluate.{evaluate, bucket_exhausted, retry_after_of}
use rate_limiter.Sidecar.Runtime.{Runtime}
use rate_limiter.Sidecar.Forest.{fit, get_set_model, redis_key, model_ttl, model_of}
use rate_limiter.Sidecar.Sequence.{seq_key, read_sequence, last_items, max_seq_len}
use rate_limiter.Sidecar.Scorer.{Clocks, answer_score}
use rate_limiter.Sidecar.Verdicts.{scored_throttle, no_sequence_no_block}
use rate_limiter.Sidecar.Recent.{Push, push_all, vectors_of, pushes_kept}
use rate_limiter.Engine.Evaluate.{event_of}
use rate_limiter.Tests.Shelf.{shelf}
use rate_limiter.Tests.Buckets.{bare, client_text}
use rate_limiter.Tests.Engines.{paper, engine, sample, start, call_at, outside}
use rate_limiter.Tests.Desk.{Store, desk, desk-IsLawful, desk-IsNumeric}

-- Every forest finds every request as odd as it can be.
abbrev alarmed : Runtime
alarmed = desk (fin (negsuc (half - 1)))

abbrev no_keys : Store
no_keys = λ key. none

abbrev clocks : Clocks
clocks = record { pushed = 1000; loaded = 1000; scored = 1000 }

-- The `float32` next to 0.80.
abbrev eighty : Result (Unit {0}) ScoreResponse
eighty = ok (record { anomaly_score = fin (pos (13421773 * 2 ^ 125)); model_version = codes "v1" })

answered : eighty ≡ (answer_score alarmed tt sample clocks no_keys).0
unfolding answer_score rate_limiter.Sidecar.Scorer.score
    rate_limiter.Sidecar.Sequence.push_feature_vector read_sequence
    rate_limiter.Tests.Desk.store_get rate_limiter.Sidecar.Scorer.combine_scores
    rate_limiter.Sidecar.Forest.forest_score model_of rate_limiter.Sidecar.Forest.load_model
    rate_limiter.Sidecar.Sequence.write_sequence rate_limiter.Tests.Desk.store_set
    rate_limiter.Base.bytes_eq rate_limiter.Sidecar.Forest.redis_key seq_key
    rate_limiter.Sidecar.Sequence.sequence_score to_float32 rate_limiter.Sidecar.Scorer.combine
    rate_limiter.Float.Double.add64 rate_limiter.Base.Int.◌+ℤ◌ rate_limiter.Base.Int.◌-ℤ◌
    rate_limiter.Float.Double.clip rate_limiter.Float.Double.round64
    rate_limiter.Float.Double.round_double rate_limiter.Float.Double.subtract_from
    rate_limiter.Float.Double.weighted rate_limiter.Float.bit_length rate_limiter.Float.nearest
    rate_limiter.Float.round32 rate_limiter.Float.round_to rate_limiter.Float.signed gt
answered = refl

abbrev asked : Call (Unit {0})
asked = call_at 1000 replied eighty

throttled :
    (d : Decision) × ((w : World shelf paper) × ((evaluate outside shelf paper engine sample asked
            start
          ≡ returns (d, w))
        × (d.action ≡ throttle)))
unfolding evaluate Ml.score_of rate_limiter.Engine.Evaluate.enforce gt to_float32 default_block
    rate_limiter.Float.nearest rate_limiter.Float.bit_length bucket_exhausted decrement
    rate_limiter.Redis.attempt rate_limiter.Redis.go_on rate_limiter.Redis.token_bucket
    rate_limiter.Tests.Shelf.is_there rate_limiter.Tests.Shelf.shelf_set
    rate_limiter.Redis.whole_seconds rate_limiter.Base.Int.◌-ℤ◌ default_throttle retry_after_of
    rate_limiter.Float.to_int rate_limiter.Float.round32 rate_limiter.Float.times
throttled = (_, (_, (refl, refl)))

scored_throttle_example : (pos 1 ≤ℤ throttled.0.retry_after) × (throttled.0.retry_after ≤ℤ pos 120)
scored_throttle_example =
    scored_throttle alarmed (desk-IsNumeric (half - 1)) outside shelf paper engine sample asked
      start throttled.1.0 throttled.0 tt clocks no_keys refl answered throttled.1.1.0
      throttled.1.1.1

-- A bucket that is empty: the request is blocked for that alone.
abbrev drained : World shelf paper
drained = record start {
  redis =
      (decrement shelf engine.redis 1000 replied [] client_text
        (decrement shelf engine.redis 1000 replied [] client_text bare).1).1;
}

stopped :
    (d : Decision) × ((w : World shelf paper) × ((evaluate outside shelf paper engine sample asked
            drained
          ≡ returns (d, w))
        × (d.action ≡ block)))
unfolding evaluate Ml.score_of rate_limiter.Engine.Evaluate.enforce gt to_float32 default_block
    rate_limiter.Float.nearest rate_limiter.Float.bit_length bucket_exhausted decrement
    rate_limiter.Redis.attempt rate_limiter.Redis.go_on rate_limiter.Redis.token_bucket
    rate_limiter.Tests.Shelf.is_there rate_limiter.Tests.Shelf.shelf_set
    rate_limiter.Redis.whole_seconds rate_limiter.Base.Int.◌-ℤ◌ default_throttle retry_after_of
    rate_limiter.Float.to_int rate_limiter.Float.round32 rate_limiter.Float.times
    rate_limiter.Tests.Shelf.write rate_limiter.Base.bytes_eq rate_limiter.Redis.bucket_key
    rate_limiter.Tests.Shelf.seen rate_limiter.Tests.Shelf.renewed rate_limiter.Tests.Shelf.lowered
stopped = (_, (_, (refl, refl)))

no_sequence_no_block_example :
    bucket_exhausted (decrement shelf engine.redis 1000 replied [] client_text drained.redis).0
    ≡ true
no_sequence_no_block_example =
    no_sequence_no_block alarmed outside shelf paper engine sample asked drained stopped.1.0
      stopped.0 tt clocks no_keys refl refl refl answered stopped.1.1.0 stopped.1.1.1

-- Two requests of one subnet, and one of another in between.
abbrev pushes : List Push
pushes =
    record { at = 1000; ip = codes "10.0.0.1"; vector = sample }
    ∷ record { at = 1010; ip = codes "10.0.1.1"; vector = sample }
    ∷ record { at = 1010; ip = codes "10.0.0.9"; vector = sample }
    ∷ []

pushes_kept_example :
    (t : Store) × ((push_all alarmed pushes no_keys ≡ some t)
      × (read_sequence alarmed (seq_key (codes "10.0.0.1")) 2000 t
          ≡ some (last_items max_seq_len (vectors_of alarmed (seq_key (codes "10.0.0.1")) pushes))))
unfolding rate_limiter.Sidecar.Recent.IsTimely rate_limiter.Sidecar.Recent.last_time
    rate_limiter.Tests.Desk.store_get
pushes_kept_example =
    pushes_kept alarmed (desk-IsLawful (fin (negsuc (half - 1)))) (codes "10.0.0.1") 1000 4600 2000
      pushes no_keys (λ key clock. refl) (omega arith)
      (omega arith, (omega arith, (omega arith, (omega arith, (omega arith, (omega arith, tt))))))
      (omega arith) (omega arith)
