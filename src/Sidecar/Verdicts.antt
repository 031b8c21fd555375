-- ===== src/Sidecar/Verdicts.antt =====
-- What the engine does with the sidecar's scores.
use rate_limiter.Base.{
  ℕ, ◌+◌, ◌-◌, ◌<◌, ◌*◌, ◌^◌, ◌≤◌, ◌≡◌, ◌⊎◌, ◌∙◌, refl, ap, sym, inl, inr, Bool, true, Option,
  Option-cases, none, some, Bytes, arith,
}
use rate_limiter.Base.Int.{ℤ, pos, ◌≤ℤ◌}
use rate_limiter.Float.{
  Float, nan, fin, gt, to_float32, signed, round32, round_to, bit_length, nearest,
}
use rate_limiter.Float.Double.{half, one}
use rate_limiter.Float.Bounded.{Between, to_float32-Between}
use rate_limiter.Config.{Config, default_block}
use rate_limiter.Redis.{decrement}
use rate_limiter.Redis.Server.{RedisServer}
use rate_limiter.Ml.{FeatureVector, dialled, returns, value_or}
use rate_limiter.Engine.Interface.{block, throttle, Blocklist, World, Call, Decision}
use rate_limiter.Engine.Evaluate.{Engine, enforce, evaluate, bucket_exhausted}
use rate_limiter.Engine.Events.{score_value, evaluate_dialled}
use rate_limiter.Engine.Throttle.{throttle_bounds}
use rate_limiter.Sidecar.Runtime.{Runtime}
use rate_limiter.Sidecar.Sequence.{sequence_score, push_feature_vector}
use rate_limiter.Sidecar.Scorer.{combine_scores, Clocks, score, answer_score}
use rate_limiter.Sidecar.Bounds.{
  IsNumeric, Scores, combine-half-Limited, Limited, Limits, forest_score-Limits,
  forest_score-Scores, sequence_score-Scores, combine_scores-Scores,
}

module _ (R : Runtime) (N : IsNumeric R) where
  score-Scores :
      (fv : FeatureVector) (clocks : Clocks) (s : R.State)
      → Scores (1 * 2 ^ 1074) (score R fv clocks s).0
  unfolding score
  score-Scores fv clocks s =
      elim (Option-cases (push_feature_vector R fv.client_ip fv clocks.pushed s)) [
        | inl failed ↦ rw (failed, score) tt
        | inr (t, pushed) ↦
            rw (pushed, score)
              (combine_scores-Scores R N _ _
                (forest_score-Scores R N fv.client_ip fv clocks.loaded t)
                (sequence_score-Scores R N fv.client_ip clocks.scored t))
      ]

  -- The score that the engine takes from an answer: 0 for an error.
  answer_value :
      {E : Type 0} (e : E) (fv : FeatureVector) (clocks : Clocks) (s : R.State) (c j : ℕ)
      → 925 ≤ j
      → c * 2 ^ j < 2 ^ (j + 24)
      → c * 2 ^ (j - 925) < 2 ^ 277
      → Scores (c * 2 ^ j) (score R fv clocks s).0
      → Between (c * 2 ^ (j - 925)) (score_value (answer_score R e fv clocks s).0)
  unfolding answer_score
  answer_value e fv clocks s c j le few fits h = elim (Option-cases (score R fv clocks s).0) [
    | inl failed ↦ rw (failed, answer_score) (0, refl, omega arith)
    | inr (x, scored) ↦
        let (n, value, bound) = rw scored at h in
        let (m, rounded, small) = to_float32-Between n c j le bound (omega arith) fits in
        rw (scored, answer_score) (m, ap to_float32 value ∙ rounded, small)
  ]

module _ (R : Runtime) where
  -- Without the sequence model.
  combined_half :
      (x : Option Float)
      → Limits one x
      → Limits (13 * 2 ^ 1070) (combine_scores x (some (fin (pos half))))
  unfolding combine_scores
  combined_half none h = tt
  combined_half (some x) h = combine-half-Limited x h

  sequence_half :
      R.session ≡ none
      → (ip : Bytes) (clock : ℕ) (s : R.State) → sequence_score R ip clock s ≡ some (fin (pos half))
  unfolding sequence_score
  sequence_half missing ip clock s = rw (missing, sequence_score) refl

  score_half :
      R.session ≡ none
      → (fv : FeatureVector) (clocks : Clocks) (s : R.State)
      → Limits (13 * 2 ^ 1070) (score R fv clocks s).0
  unfolding score
  score_half missing fv clocks s =
      elim (Option-cases (push_feature_vector R fv.client_ip fv clocks.pushed s)) [
        | inl failed ↦ rw (failed, score) tt
        | inr (t, pushed) ↦
            rw (pushed, score, sequence_half missing fv.client_ip clocks.scored t)
              (combined_half _ (forest_score-Limits R fv.client_ip fv clocks.loaded t))
      ]

  -- The score that the engine then takes from an answer.
  value_half :
      {E : Type 0} (e : E) (fv : FeatureVector) (clocks : Clocks) (s : R.State)
      → R.session ≡ none
      → Limited (13 * 2 ^ 145) (score_value (answer_score R e fv clocks s).0)
  unfolding answer_score to_float32
  value_half e fv clocks s missing = elim (Option-cases (score R fv clocks s).0) [
    | inl failed ↦ rw (failed, answer_score) (inr (0, refl, omega arith))
    | inr (x, scored) ↦ elim (rw scored at (score_half missing fv clocks s)) [
      | inl is_nan ↦ rw (scored, answer_score, is_nan) (inl refl)
      | inr (n, value, bound) ↦
          let (m, rounded, small) =
            to_float32-Between n 13 1070 (omega arith) bound (omega arith) (omega arith) in
          rw (scored, answer_score) (inr (m, ap to_float32 value ∙ rounded, small))
    ]
  ]

default_block32 : to_float32 default_block ≡ fin (pos (14260634 * 2 ^ 125))
unfolding to_float32 default_block signed round32 round_to bit_length nearest
default_block32 = refl

enforce_block :
    (invalid : ℤ) (Y : RedisServer) (B : Blocklist) (cfg : Config) (fv : FeatureVector) (now : ℤ)
    (x : Float) (exhausted : Bool) (w : World Y B)
    → (enforce invalid Y B cfg fv now x exhausted w).0.action ≡ block
    → (gt x (to_float32 cfg.score_block_threshold) ≡ true) ⊎ (exhausted ≡ true)
unfolding enforce
enforce_block invalid Y B cfg fv now x exhausted w h = ground arith

gt_same : {x y z t : Float} → x ≡ z → y ≡ t → gt x y ≡ gt z t
gt_same p q = λ i. gt (p i) (q i)

module _ (R : Runtime) (N : IsNumeric R) (invalid : ℤ) (Y : RedisServer) (B : Blocklist) where
  -- A request that the engine throttles, with the sidecar's answer to it, be it an error: it is told to
  -- come back after 1 to 120 seconds. The models give numbers, and the engine has a client of the sidecar.
  pub scored_throttle :
      {E : Type 0} (e : Engine invalid Y B) (fv : FeatureVector) (call : Call E) (w w' : World Y B)
      (d : Decision) (failure : E) (clocks : Clocks) (s : R.State)
      → e.ml ≡ dialled
      → call.scored ≡ (answer_score R failure fv clocks s).0
      → evaluate invalid Y B e fv call w ≡ returns (d, w')
      → d.action ≡ throttle
      → (pos 1 ≤ℤ d.retry_after) × (d.retry_after ≤ℤ pos 120)
  scored_throttle e fv call w w' d failure clocks s ml same returned act =
      let (n, value, small) =
        answer_value R N failure fv clocks s 1 1074 (omega arith) (omega arith) (omega arith)
          (score-Scores R N fv clocks s) in
      let T =
        throttle_bounds invalid Y B e fv call w w' d n ml (ap score_value same ∙ value)
          (omega arith) returned act in
      (T.0, T.1)

module _ (R : Runtime) (invalid : ℤ) (Y : RedisServer) (B : Blocklist) where
  -- An engine with a client of a sidecar that has no sequence model, and with the default threshold for
  -- blocks: the engine blocks a request only when the bucket is exhausted, whatever the forests say,
  -- be it NaN or an error.
  pub no_sequence_no_block :
      {E : Type 0} (e : Engine invalid Y B) (fv : FeatureVector) (call : Call E) (w w' : World Y B)
      (d : Decision) (failure : E) (clocks : Clocks) (s : R.State)
      → R.session ≡ none
      → e.cfg.score_block_threshold ≡ default_block
      → e.ml ≡ dialled
      → call.scored ≡ (answer_score R failure fv clocks s).0
      → evaluate invalid Y B e fv call w ≡ returns (d, w')
      → d.action ≡ block
      → bucket_exhausted
          (decrement Y e.redis call.second call.delivery call.retries fv.client_ip w.redis).0
        ≡ true
  unfolding gt
  no_sequence_no_block e fv call w w' d failure clocks s missing threshold ml same returned act =
      let r = decrement Y e.redis call.second call.delivery call.retries fv.client_ip w.redis in
      let x = score_value call.scored in
      let taken : World Y B = record w { redis = r.1 } in
      let out = enforce invalid Y B e.cfg fv call.timestamp x (bucket_exhausted r.0) taken in
      let decided : d ≡ out.0 =
        ap (λ o. (value_or {A = Decision × World Y B} (d, w') o).0)
          (sym returned ∙ evaluate_dialled invalid Y B e fv call w ml) in
      elim (enforce_block invalid Y B e.cfg fv call.timestamp x (bucket_exhausted r.0) taken
        (ap (λ q. q.action) (sym decided) ∙ act)) [
          | inr exhausted ↦ exhausted
          | inl above ↦ elim (value_half R failure fv clocks s missing) [
            | inl is_nan ↦ absurd (
                let over : gt nan (to_float32 e.cfg.score_block_threshold) ≡ true =
                  gt_same (sym (ap score_value same ∙ is_nan)) refl ∙ above in
                ground arith)
            | inr (n, value, small) ↦ absurd (
                let over : gt (fin (pos n)) (fin (pos (14260634 * 2 ^ 125))) ≡ true =
                  gt_same (sym (ap score_value same ∙ value))
                    (sym (ap to_float32 threshold ∙ default_block32))
                  ∙ above in
                ground arith)
          ]
        ]
