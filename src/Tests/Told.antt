-- ===== src/Tests/Told.antt =====
-- A request from its line to the messages on it, as a run of the server, and the theorem on what is
-- published.
use rate_limiter.Base.{ℕ, ◌+◌, ◌≡◌, refl, true, List, [], ◌∷◌, codes, err, bytes_eq, arith}
use rate_limiter.Base.Int.{pos}
use rate_limiter.Redis.{replied}
use rate_limiter.Engine.Interface.{allow, block}
use rate_limiter.Serving.System.{System, new_conn}
use rate_limiter.Serving.Steps.{
  silent, took, read_good, take, judge, announce, accept, move, publish, Run, stop, next,
}
use rate_limiter.Serving.Announced.{
  all_made, decision_on, event_on, blocked_on, weight, ended, announced_once,
}
use rate_limiter.Tests.Buckets.{client_text}
use rate_limiter.Tests.Engines.{sample}
use rate_limiter.Tests.Runs.{tiny, booted}

one_told :
    (t : System tiny) × Run tiny booted
      (silent ∷ silent ∷ took client_text 1000 replied ∷ silent ∷ silent ∷ silent ∷ [])
      t
unfolding new_conn bytes_eq rate_limiter.Server.Lines.scan_lines rate_limiter.Ml.score_of
    rate_limiter.Serving.System.decide rate_limiter.Float.gt rate_limiter.Float.to_float32
    rate_limiter.Config.default_block rate_limiter.Float.nearest rate_limiter.Float.bit_length
    rate_limiter.Engine.Evaluate.bucket_exhausted rate_limiter.Redis.decrement
    rate_limiter.Redis.attempt rate_limiter.Redis.go_on rate_limiter.Redis.token_bucket
    rate_limiter.Tests.Shelf.is_there rate_limiter.Tests.Shelf.shelf_set
    rate_limiter.Redis.whole_seconds rate_limiter.Base.Int.◌-ℤ◌ rate_limiter.Config.default_throttle
one_told = (
  _,
  next (accept booted (codes "{}") refl refl) (
      next (move _ [] [] _ _ _ _ refl refl (read_good _ _ (codes "{}") [] sample refl refl refl)) (
        next (move _ [] [] _ _ _ _ refl refl (take _ _ sample 1000 _ replied refl)) (
          next (move _ [] [] _ _ _ _ refl refl (judge _ _ sample _ (err tt) _ refl refl)) (
            next (move _ [] [] _ _ _ _ refl refl (announce _ _ sample _ _ (pos 1000) true refl))
              (next (publish _ [] [] _ (pos 1000) refl refl) (stop _)))))),
)

announced_once_example :
    (all_made tiny (decision_on client_text allow) one_told.0.conns
      ≡ weight (event_on client_text allow) one_told.0.world.tasks
        + weight (event_on client_text allow) (ended tiny one_told.1))
    × (all_made tiny (decision_on client_text block) one_told.0.conns
        ≡ weight (blocked_on client_text) one_told.0.world.tasks
          + weight (blocked_on client_text) (ended tiny one_told.1))
announced_once_example = announced_once tiny client_text allow one_told.1 refl refl
