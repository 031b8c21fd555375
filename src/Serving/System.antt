-- ===== src/Serving/System.antt =====
-- The state of the socket server between two steps of its goroutines.
use rate_limiter.Base.{
  ℕ, Bool, true, false, ◌||◌, Option, List, [], ◌∷◌, ◌++◌, Bytes, Result, if◌then◌else◌,
}
use rate_limiter.Base.Int.{ℤ, pos}
use rate_limiter.Float.{Float, gt, to_float32}
use rate_limiter.Config.{Config}
use rate_limiter.Redis.{DecrementError}
use rate_limiter.Redis.Server.{RedisServer}
use rate_limiter.Ml.{FeatureVector}
use rate_limiter.Kafka.{DecisionEvent, Writer, Producer}
use rate_limiter.Kafka
use rate_limiter.Engine.Interface.{
  allow, throttle, block, Decision, Blocklist, Task, publish_blocked, publish_decision, World,
}
use rate_limiter.Engine.Evaluate.{Engine, retry_after_of}
use rate_limiter.Server.Lines.{scan_lines}

-- What the process is built from: the machine, the services, the encoders, the engine, and what its
-- HTTP server answers to a request, on the block list that it shares with the engine.
pub record Program : Type 1 where
  pub invalid : ℤ
  pub redis : RedisServer
  pub blocklist : Blocklist
  pub writer : Writer
  pub RpcError : Type 0
  pub unmarshal : Bytes → Option FeatureVector
  pub encode : DecisionEvent → Bytes
  pub encode_ip : Bytes → ℤ → Bytes
  pub engine : Engine invalid redis blocklist
  pub Request : Type 0
  pub Response : Type 0
  pub respond : Request → blocklist.State → Response × blocklist.State

-- The `switch` of `Evaluate`: the decision alone.
unfoldable pub decide : ℤ → Config → Float → Bool → Decision
decide invalid cfg score exhausted =
    if gt score (to_float32 cfg.score_block_threshold) || exhausted
    then record { action = block; retry_after = pos 0 }
    else if gt score (to_float32 cfg.score_throttle_threshold)
    then record { action = throttle; retry_after = retry_after_of invalid score }
    else record { action = allow; retry_after = pos 0 }

module _ (P : Program) where
  -- Where the goroutine of a connection stands: before its next line, or in a call of `Evaluate`, in
  -- front of an attempt of `Decrement` (with the retries that the client has left), of `Score`, or of
  -- the `go` statements.
  pub data Activity : Type 0 where
    idle : Activity
    called : FeatureVector → ℕ → Activity
    counted : FeatureVector → Result (DecrementError P.redis.Error) ℤ → Activity
    judged : FeatureVector → Float → Decision → Activity

  pub record Conn : Type 0 where
    pub unread : List Bytes
    pub activity : Activity
    pub decided : List (FeatureVector × Decision)
    pub written : List Bytes

  pub record System : Type 0 where
    pub conns : List Conn
    pub world : World P.redis P.blocklist
    pub producer : Producer P.writer
    pub listening : Bool
    pub http_listening : Bool
    pub requests : List P.Request
    pub responses : List P.Response
    pub alive : Bool

  -- `go handleConn(conn, eng)`, with the bytes that arrive before the deadline.
  unfoldable pub new_conn : Bytes → Conn
  new_conn received = record {
    unread = scan_lines received;
    activity = idle;
    decided = [];
    written = [];
  }

  -- `conn.Write`: nothing is written once the deadline has passed.
  abbrev pub write : Bool → Bytes → List Bytes → List Bytes
  write true response written = written ++ response ∷ []
  write false response written = written

  -- One goroutine that publishes, run to its end.
  unfoldable pub perform : Task → ℤ → Producer P.writer → Producer P.writer
  perform (publish_blocked ip) now p = Kafka.publish_blocked P.writer P.encode_ip now ip p
  perform (publish_decision event) now p = Kafka.publish_decision P.writer P.encode event p
