-- ===== src/Engine/Interface.antt =====
-- decision-engine/internal/engine/engine.go: the types, and the block list that the engine is given.
use rate_limiter.Base.{ℕ, Option, List, Bytes, codes, Result}
use rate_limiter.Base.Int.{ℤ}
use rate_limiter.Bpf.{BpfMap}
use rate_limiter.Blocklist.{BlocklistError, add, remove}
use rate_limiter.Redis.{Delivery}
use rate_limiter.Redis.Server.{RedisServer}
use rate_limiter.Kafka.{DecisionEvent}
use rate_limiter.Ml.{ScoreResponse}

pub data Action : Type 0 where
  allow throttle block : Action

abbrev pub action_text : Action → Bytes
action_text allow = codes "allow"
action_text throttle = codes "throttle"
action_text block = codes "block"

pub record Decision : Type 0 where
  pub action : Action
  pub retry_after : ℤ  -- int

-- The interface `Blocklist`.
pub record Blocklist : Type 1 where
  pub State : Type 0
  pub Error : Type 0
  pub add : Bytes → State → Option Error × State
  pub remove : Bytes → State → Option Error × State

-- The implementation that `main` passes to the engine.
abbrev pub ebpf_blocklist : BpfMap → Blocklist
ebpf_blocklist M = record {
  State = Option M.State;
  Error = BlocklistError M.Error;
  add = add M;
  remove = remove M;
}

-- The goroutines that `Evaluate` starts.
pub data Task : Type 0 where
  publish_blocked : Bytes → Task
  publish_decision : DecisionEvent → Task

-- What a call of `Evaluate` changes: the server, the block list, and the goroutines started so far.
pub record World (R : RedisServer) (B : Blocklist) : Type 0 where
  pub redis : R.State
  pub blocklist : B.State
  pub tasks : List Task

-- What the outside contributes to one call: the server's second and the fate of the script run, those
-- of its retries, the remote score, and the wall clock.
pub record Call (E : Type 0) : Type 0 where
  pub second : ℕ
  pub delivery : Delivery
  pub retries : List (ℕ × Delivery)
  pub scored : Result E ScoreResponse
  pub timestamp : ℤ
