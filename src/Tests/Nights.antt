-- ===== src/Tests/Nights.antt =====
-- The nightly job on a topic of the engine's events, and on a topic of feature vectors.
use rate_limiter.Base.{
  ℕ, suc, zero, ◌+◌, ◌-◌, ◌≡◌, refl, Bool, true, false, none, some, List, [], ◌∷◌, Bytes, bytes_eq,
  codes, replicate, All, arith,
}
use rate_limiter.Base.Int.{pos, negsuc}
use rate_limiter.Float.{fin}
use rate_limiter.Float.Double.{half}
use rate_limiter.Kafka.{DecisionEvent}
use rate_limiter.Engine.Interface.{throttle}
use rate_limiter.Engine.Evaluate.{event_of}
use rate_limiter.Sidecar.Runtime.{Runtime, encode_feature_vector}
use rate_limiter.Sidecar.Dicts.{
  Json, text, object, Members, fv_to_dict, encode_members, encode_members-fv_to_dict,
}
use rate_limiter.Sidecar.Forest.{encode_all, redis_key, model_ttl, model_of, get_set_model}
use rate_limiter.Sidecar.Recent.{push_all}
use rate_limiter.Sidecar.Retrain.{Record, Job, IsPython, event_members, retrain}
use rate_limiter.Sidecar.Learned.{IsVector, messages, vectors, retrained_model}
use rate_limiter.Tests.Buckets.{client_text}
use rate_limiter.Tests.Engines.{sample}
use rate_limiter.Tests.Desk.{Store, desk, desk-IsLawful}

abbrev night : Runtime
night = desk (fin (negsuc (half - 1)))

abbrev no_keys : Store
no_keys = λ key. none

unfoldable pub same_text : Json → Json → Bool
same_text (text a) (text b) = bytes_eq a b
same_text _ _ = false

unfoldable pub str_of : Json → Bytes
str_of (text a) = a
str_of _ = []

-- A reader that reads every message as one dictionary.
abbrev job : Members → Job night
job fv = record {
  loads = λ b. some (object fv);
  same_key = same_text;
  str = str_of;
  train_baseline = λ vs. false;
}

job-IsPython : (fv : Members) → IsPython (job fv)
unfolding same_text str_of
job-IsPython fv = record { same_key_text = λ a b. refl; str_text = λ a. refl }

abbrev event : DecisionEvent
event = event_of sample (fin (pos 0)) throttle (pos 1000)

abbrev event_dict : Members
event_dict = event_members (codes "2026-01-01T00:00:00Z") event

abbrev topic : List Record
topic =
    record { timestamp = 400; value = codes "{}" }
    ∷ record { timestamp = 1000; value = codes "{}" }
    ∷ []

abbrev message : Record × Members
message = (record { timestamp = 1000; value = codes "{}" }, fv_to_dict sample)

encode_replicated :
    (n : ℕ)
    → encode_all night (vectors (replicate n message))
      ≡ some (replicate n (encode_feature_vector night sample))
unfolding encode_all
encode_replicated zero = refl
encode_replicated (suc n) =
    rw (encode_members-fv_to_dict night sample, encode_all, encode_replicated n) refl

are_vectors :
    (n : ℕ) → All (IsVector (job (fv_to_dict sample)) 500 client_text) (replicate n message)
unfolding IsVector fv_to_dict rate_limiter.Sidecar.Dicts.get_member bytes_eq
are_vectors zero = tt
are_vectors (suc n) = ((omega arith, (refl, refl)), are_vectors n)

retrained_model_example :
    ((retrain (job (fv_to_dict sample)) 500 (messages (replicate 20 message)) 1000 no_keys none).1
      ≡ some false)
    × ((model_of night client_text 5000
            (retrain
              (job (fv_to_dict sample))
              500
              (messages (replicate 20 message))
              1000
              no_keys
              none).0
          ≡ some true)
        × (get_set_model night
              (redis_key night client_text)
              5000
              (retrain
                (job (fv_to_dict sample))
                500
                (messages (replicate 20 message))
                1000
                no_keys
                none).0
            ≡ some (codes "forest", pos (1000 + model_ttl - 5000))))
unfolding push_all rate_limiter.Tests.Desk.dump_tree
retrained_model_example =
    retrained_model (job (fv_to_dict sample)) (job-IsPython (fv_to_dict sample)) 500 client_text
      (omega arith) (desk-IsLawful (fin (negsuc (half - 1)))) (replicate 20 message)
      (replicate 20 (encode_feature_vector night sample)) 1000 5000 [] no_keys
      (retrain (job (fv_to_dict sample)) 500 (messages (replicate 20 message)) 1000 no_keys none).0
      none (are_vectors 20) (encode_replicated 20) (omega arith) (omega arith) (omega arith) refl
