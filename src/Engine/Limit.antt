-- ===== src/Engine/Limit.antt =====
-- The rate limit from end to end: `Evaluate` over the token bucket of the Redis server.
use rate_limiter.Base.{
  ℕ, suc, ◌≤◌, ◌<◌, ◌≡◌, ◌∙◌, refl, ap, sym, subst, Bool, false, List, [], ◌∷◌, map, Result, ok,
  ltb, if◌then◌else◌, length, Bytes, arith,
}
use rate_limiter.Base.Int.{ℤ, pos, ltb_ℤ}
use rate_limiter.Float.{Float, gt, to_float32}
use rate_limiter.Config.{Config}
use rate_limiter.Redis.{attempt, decrement, replied, bucket_key}
use rate_limiter.Redis.Server.{RedisServer}
use rate_limiter.Redis.Server
use rate_limiter.Redis.Bucket.{Bucket, touch}
use rate_limiter.Redis.Refines.{Holds}
use rate_limiter.Redis.Runs.{
  accepted, answers, Busy, IsGone, accepted_gone, Ascending, Busy-Ascending,
}
use rate_limiter.Redis.Attempts.{whole_client, attempt-touch}
use rate_limiter.Redis.Decrement.{decrement_replied}
use rate_limiter.Ml.{FeatureVector, returns, panics, dialled}
use rate_limiter.Engine.Interface.{Action, block, Decision, Blocklist, World, Call}
use rate_limiter.Engine.Evaluate.{Engine, enforce, evaluate, bucket_exhausted}
use rate_limiter.Engine.Events.{score_value, evaluate_dialled, enforce_redis}
use rate_limiter.Engine.Mirror.{exhausted_ok}

module _ (invalid : ℤ) (R : RedisServer) (B : Blocklist) where
  -- The decisions on requests, each with its own feature vector, up to a panic.
  pub decisions :
      {E : Type 0} → Engine invalid R B → List (FeatureVector × Call E) → World R B → List Action
  decisions e [] w = []
  decisions e ((fv, call) ∷ calls) w = elim (evaluate invalid R B e fv call w) [
    | panics ↦ []
    | returns (d, w') ↦ d.action ∷ decisions e calls w'
  ]

abbrev pub not_blocked : List Action → ℕ
not_blocked [] = 0
not_blocked (block ∷ rest) = not_blocked rest
not_blocked (_ ∷ rest) = suc (not_blocked rest)

-- Requests of one address whose script runs are answered, with scores that do not block.
abbrev pub Quiet : {E : Type 0} → Config → Bytes → List (FeatureVector × Call E) → Type 0
Quiet cfg ip [] = Unit
Quiet cfg ip ((fv, c) ∷ cs) =
    (fv.client_ip ≡ ip)
    × (c.delivery ≡ replied)
    × (gt (score_value c.scored) (to_float32 cfg.score_block_threshold) ≡ false)
    × Quiet cfg ip cs

abbrev pub seconds : {E : Type 0} → List (FeatureVector × Call E) → List ℕ
seconds [] = []
seconds ((fv, c) ∷ cs) = c.second ∷ seconds cs

length-seconds :
    {E : Type 0} (calls : List (FeatureVector × Call E)) → length (seconds calls) ≡ length calls
length-seconds [] = refl
length-seconds ((fv, c) ∷ cs) = ap suc (length-seconds cs)

enforce_block :
    (invalid : ℤ) (R : RedisServer) (B : Blocklist) (cfg : Config) (fv : FeatureVector) (now : ℤ)
    (score : Float) (exhausted : Bool) (w : World R B) (rest : List Action)
    → gt score (to_float32 cfg.score_block_threshold) ≡ false
    → not_blocked ((enforce invalid R B cfg fv now score exhausted w).0.action ∷ rest)
      ≡ (if exhausted then not_blocked rest else suc (not_blocked rest))
unfolding enforce
enforce_block invalid R B cfg fv now score exhausted w rest h = ground arith

decisions_step :
    (invalid : ℤ) (R : RedisServer) (B : Blocklist) {E : Type 0} (e : Engine invalid R B)
    (fv : FeatureVector) (call : Call E) (calls : List (FeatureVector × Call E)) (w : World R B)
    {d : Decision} {w' : World R B}
    → evaluate invalid R B e fv call w ≡ returns (d, w')
    → decisions invalid R B e ((fv, call) ∷ calls) w ≡ d.action ∷ decisions invalid R B e calls w'
unfolding decisions
decisions_step invalid R B e fv call calls w h = ground arith

counted_answer :
    (E : Type 0) (n : ℤ) (rest : ℕ) (replies : List (Result E ℤ))
    → rest ≡ accepted replies
    → (if ltb_ℤ n (pos 0) then rest else suc rest) ≡ accepted (ok n ∷ replies)
counted_answer E n rest replies h = ground arith

-- What one quiet call does: it returns, its decision is a block exactly if the bucket's answer is
-- negative, and the server holds the bucket that the request leaves.
record Step (invalid : ℤ) (R : RedisServer) (B : Blocklist) {E : Type 0} (capacity ttl : ℕ)
    (e : Engine invalid R B) (fv : FeatureVector) (call : Call E) (w : World R B) (b : Bucket)
    : Type 0 where
  decision : Decision
  world : World R B
  returned : evaluate invalid R B e fv call w ≡ returns (decision, world)
  counted :
      (rest : List Action)
      → not_blocked (decision.action ∷ rest) ≡ (
          if ltb_ℤ (touch capacity ttl call.second b).remaining (pos 0)
          then not_blocked rest
          else suc (not_blocked rest))
  held :
      Holds R
        (bucket_key fv.client_ip)
        world.redis
        call.second
        (touch capacity ttl call.second b).bucket

module _ (invalid : ℤ) (R : RedisServer) (L : Server.IsLawful R) (B : Blocklist) (capacity ttl : ℕ)
    (c : 0 < capacity) (l : 0 < ttl) where
  step :
      {E : Type 0} (e : Engine invalid R B) (fv : FeatureVector) (call : Call E) (w : World R B)
      (since : ℕ) (b : Bucket)
      → e.ml ≡ dialled
      → e.redis ≡ whole_client R capacity ttl
      → call.delivery ≡ replied
      → gt (score_value call.scored) (to_float32 e.cfg.score_block_threshold) ≡ false
      → Holds R (bucket_key fv.client_ip) w.redis since b
      → since ≤ call.second
      → Step invalid R B capacity ttl e fv call w b
  step e fv call w since b m client del low h from =
      let ip = fv.client_ip in
      let now = call.second in
      let a = touch capacity ttl now b in
      let r = decrement R e.redis now call.delivery call.retries ip w.redis in
      let D = attempt-touch R L capacity ttl c l now since replied ip w.redis b h from in
      let same : attempt R (whole_client R capacity ttl) now replied ip w.redis ≡ r =
        sym (decrement_replied R (whole_client R capacity ttl) now call.retries ip w.redis D.0)
        ∙ (λ i. decrement R (sym client i) now (sym del i) call.retries ip w.redis) in
      let answered : r.0 ≡ ok a.remaining = ap (λ x. x.0) (sym same) ∙ D.0 in
      let taken : World R B = record w { redis = r.1 } in
      let score = score_value call.scored in
      let out = enforce invalid R B e.cfg fv call.timestamp score (bucket_exhausted r.0) taken in
      let kept : Holds R (bucket_key ip) r.1 now a.bucket =
        subst (λ x. Holds R (bucket_key ip) x.1 now a.bucket) same D.1 in
      record {
        decision = out.0;
        world = out.1;
        returned = evaluate_dialled invalid R B e fv call w m;
        counted = λ rest.
            enforce_block invalid R B e.cfg fv call.timestamp score (bucket_exhausted r.0) taken
              rest low
            ∙ ap (λ x. if x then not_blocked rest else suc (not_blocked rest))
                (exhausted_ok invalid R B r.0 a.remaining answered);
        held =
            subst (λ s. Holds R (bucket_key ip) s now a.bucket)
              (sym (
                enforce_redis invalid R B e.cfg fv call.timestamp score (bucket_exhausted r.0)
                  taken))
              kept;
      }

  decisions-answers :
      {E : Type 0} (e : Engine invalid R B) (ip : Bytes) (calls : List (FeatureVector × Call E))
      (w : World R B) (since : ℕ) (b : Bucket)
      → e.ml ≡ dialled
      → e.redis ≡ whole_client R capacity ttl
      → Quiet e.cfg ip calls
      → Holds R (bucket_key ip) w.redis since b
      → Ascending since (seconds calls)
      → not_blocked (decisions invalid R B e calls w)
        ≡ accepted {E = E} (map ok (answers capacity ttl (seconds calls) b))
  unfolding decisions answers
  decisions-answers e ip [] w since b m client q h a = refl
  decisions-answers {E} e ip ((fv, call) ∷ calls) w since b m client (own, del, low, q) h
        (from, a) =
      let held = subst (λ j. Holds R (bucket_key j) w.redis since b) (sym own) h in
      let S = step e fv call w since b m client del low held from in
      let next = touch capacity ttl call.second b in
      let left =
        subst (λ j. Holds R (bucket_key j) S.world.redis call.second next.bucket) own S.held in
      let ih = decisions-answers e ip calls S.world call.second next.bucket m client q left a in
      ap not_blocked (decisions_step invalid R B e fv call calls w S.returned)
      ∙ S.counted (decisions invalid R B e calls S.world)
      ∙ counted_answer E next.remaining _
          (map ok (answers capacity ttl (seconds calls) next.bucket)) ih

  -- An engine with a client of the sidecar, with a positive bucket size and a lifetime of whole
  -- positive seconds; an address whose bucket is gone, and requests from it, whatever else they say,
  -- each less than the lifetime behind the one before, whose script runs are answered at the first
  -- attempt and whose scores are not above the block threshold: the number of them that the engine
  -- does not block is `capacity`, or the number of the requests if that is not above `capacity`.
  pub limit_exact :
      {E : Type 0} (e : Engine invalid R B) (ip : Bytes) (fv : FeatureVector) (call : Call E)
      (calls : List (FeatureVector × Call E)) (w : World R B) (since : ℕ) (b : Bucket)
      → e.ml ≡ dialled
      → e.redis ≡ whole_client R capacity ttl
      → Quiet e.cfg ip ((fv, call) ∷ calls)
      → Holds R (bucket_key ip) w.redis since b
      → since ≤ call.second
      → IsGone b call.second
      → Busy ttl call.second (seconds calls)
      → not_blocked (decisions invalid R B e ((fv, call) ∷ calls) w)
        ≡ (if ltb capacity (suc (length calls)) then capacity else suc (length calls))
  limit_exact {E} e ip fv call calls w since b m client q h from gone busy =
      decisions-answers e ip ((fv, call) ∷ calls) w since b m client q h
        (from, Busy-Ascending ttl call.second (seconds calls) busy)
      ∙ accepted_gone E capacity ttl call.second (seconds calls) b c gone busy
      ∙ ap (λ n. if ltb capacity (suc n) then capacity else suc n) (length-seconds calls)
