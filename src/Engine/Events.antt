-- ===== src/Engine/Events.antt =====
-- What a call of `Evaluate` leaves behind.
use rate_limiter.Base.{◌≡◌, ◌⊎◌, refl, Bool, List, [], ◌∷◌, ◌++◌, Bytes, Result, ok, err, arith}
use rate_limiter.Base.Int.{ℤ, pos}
use rate_limiter.Float.{Float, fin}
use rate_limiter.Config.{Config}
use rate_limiter.Redis.{decrement}
use rate_limiter.Redis.Server.{RedisServer}
use rate_limiter.Ml.{
  FeatureVector, Outcome, returns, panics, ◌>>=◌, score_of, ScoreResponse, dialled, nil,
}
use rate_limiter.Ml
use rate_limiter.Engine.Interface.{
  Action, throttle, block, Decision, Blocklist, Task, publish_blocked, publish_decision, World,
  Call,
}
use rate_limiter.Engine.Evaluate.{Engine, event_of, enforce, evaluate, bucket_exhausted}

-- The score that a call works with: 0 if the remote call fails.
abbrev pub score_value : {E : Type 0} → Result E ScoreResponse → Float
score_value (ok r) = r.anomaly_score
score_value (err e) = fin (pos 0)

-- The goroutines that an action starts.
abbrev pub announced : Action → FeatureVector → Float → ℤ → List Task
announced block fv score now =
    publish_blocked fv.client_ip ∷ publish_decision (event_of fv score block now) ∷ []
announced a fv score now = publish_decision (event_of fv score a now) ∷ []

abbrev pub listed : (B : Blocklist) → Action → Bytes → B.State → B.State
listed B block ip b = (B.add ip b).1
listed B _ ip b = b

score_of-value :
    {E A : Type 0} (c : Ml.Client) (r : Result E ScoreResponse) (k : Float → A)
    → c ≡ dialled
    → (score_of c r >>= λ s. returns (k s.score)) ≡ returns (k (score_value r))
unfolding score_of
score_of-value nil r k h = absurd (ground arith)
score_of-value dialled (ok r) k h = refl
score_of-value dialled (err e) k h = refl

module _ (invalid : ℤ) (R : RedisServer) (B : Blocklist) where
  pub record Effects (fv : FeatureVector) (now : ℤ) (score : Float) (w : World R B) (d : Decision)
      (w' : World R B) : Type 0 where
    pub tasks : w'.tasks ≡ w.tasks ++ announced d.action fv score now
    pub blocklist : w'.blocklist ≡ listed B d.action fv.client_ip w.blocklist
    pub retry : (d.action ≡ throttle) ⊎ (d.retry_after ≡ pos 0)

  enforce-Effects :
      (cfg : Config) (fv : FeatureVector) (now : ℤ) (score : Float) (exhausted : Bool)
      (w : World R B)
      → let r = enforce invalid R B cfg fv now score exhausted w in Effects fv now score w r.0 r.1
  unfolding enforce
  enforce-Effects cfg fv now score exhausted w = record {
    tasks = ground arith;
    blocklist = ground arith;
    retry = ground arith;
  }

  pub enforce_redis :
      (cfg : Config) (fv : FeatureVector) (now : ℤ) (score : Float) (exhausted : Bool)
      (w : World R B)
      → (enforce invalid R B cfg fv now score exhausted w).1.redis ≡ w.redis
  unfolding enforce
  enforce_redis cfg fv now score exhausted w = ground arith

  pub evaluate_dialled :
      {E : Type 0} (e : Engine invalid R B) (fv : FeatureVector) (call : Call E) (w : World R B)
      → e.ml ≡ dialled
      → let r = decrement R e.redis call.second call.delivery call.retries fv.client_ip w.redis in
        evaluate invalid R B e fv call w
        ≡ returns (
            enforce invalid R B e.cfg fv call.timestamp
              (score_value call.scored)
              (bucket_exhausted r.0)
              (record w { redis = r.1 }))
  unfolding evaluate
  evaluate_dialled e fv call w h =
      let r = decrement R e.redis call.second call.delivery call.retries fv.client_ip w.redis in
      score_of-value e.ml call.scored
        (λ x.
          enforce invalid R B e.cfg fv call.timestamp x (bucket_exhausted r.0)
            (record w { redis = r.1 }))
        h

  -- A nil client of the sidecar stops every request by a panic, whatever the request and the world.
  pub evaluate_nil :
      {E : Type 0} (e : Engine invalid R B) (fv : FeatureVector) (call : Call E) (w : World R B)
      → e.ml ≡ nil
      → evaluate invalid R B e fv call w ≡ panics
  unfolding evaluate score_of
  evaluate_nil e fv call w h = ground arith

  -- With a client of the sidecar, a request returns a decision. It starts one goroutine that publishes
  -- the decision, with the action and the score that decided, and before it, for a block alone, one
  -- that publishes the address; the block list is asked to add the address for a block, and is left
  -- alone otherwise; the server is left as `Decrement` leaves it; and only a throttled request is
  -- told to come back later.
  pub evaluate-Effects :
      {E : Type 0} (e : Engine invalid R B) (fv : FeatureVector) (call : Call E) (w : World R B)
      → e.ml ≡ dialled
      → (d : Decision) × (w' : World R B) × (evaluate invalid R B e fv call w ≡ returns (d, w'))
        × Effects fv call.timestamp (score_value call.scored) w d w'
        × (w'.redis
            ≡ (decrement R e.redis call.second call.delivery call.retries fv.client_ip w.redis).1)
  evaluate-Effects e fv call w h =
      let r = decrement R e.redis call.second call.delivery call.retries fv.client_ip w.redis in
      let taken : World R B = record w { redis = r.1 } in
      let score = score_value call.scored in
      let exhausted = bucket_exhausted r.0 in
      let out = enforce invalid R B e.cfg fv call.timestamp score exhausted taken in
      let X = enforce-Effects e.cfg fv call.timestamp score exhausted taken in
      (
        out.0,
        out.1,
        evaluate_dialled e fv call w h,
        record { tasks = X.tasks; blocklist = X.blocklist; retry = X.retry },
        enforce_redis e.cfg fv call.timestamp score exhausted taken,
      )
