-- ===== src/Ml.antt =====
-- decision-engine/internal/ml/client.go, and the messages of decision-engine/proto/scorer.pb.go. What
-- the remote call returns within its deadline is an argument: a response, or an error.
use rate_limiter.Base.{Option, none, some, [], Bytes, Result, ok, err}
use rate_limiter.Base.Int.{ℤ, pos}
use rate_limiter.Float.{Float, fin}

pub record FeatureVector : Type 0 where
  pub client_ip : Bytes
  pub ja3_hash : Bytes
  pub user_agent_hash : Bytes
  pub req_rate_1s : Float  -- float64
  pub req_rate_10s : Float  -- float64
  pub req_rate_60s : Float  -- float64
  pub http_method : Bytes
  pub uri_hash : Bytes
  pub content_length : ℤ  -- int64
  pub header_count : ℤ  -- int32
  pub is_http2 : ℤ  -- int32
  pub unix_timestamp : ℤ  -- int64

pub record ScoreResponse : Type 0 where
  pub anomaly_score : Float  -- float32
  pub model_version : Bytes

-- A call that returns, or a nil pointer that is followed.
pub data Outcome (A : Type 0) : Type 0 where
  returns : A → Outcome A
  panics : Outcome A

infixl 5 ◌>>=◌
abbrev pub ◌>>=◌ : {A B : Type 0} → Outcome A → (A → Outcome B) → Outcome B
returns a >>= f = f a
panics >>= f = panics

-- `*Client`: nil, or the client of a connection that was dialled.
pub data Client : Type 0 where
  nil dialled : Client

-- The client that `main` keeps, from what `grpc.Dial` returns.
unfoldable pub new : {E : Type 0} → Result E (Unit {0}) → Client
new (ok _) = dialled
new (err e) = nil

-- The three results of `Score`.
pub record Scored (E : Type 0) : Type 0 where
  pub score : Float  -- float32
  pub model_version : Bytes
  pub error : Option E

unfoldable pub score_of : {E : Type 0} → Client → Result E ScoreResponse → Outcome (Scored E)
score_of nil reply = panics
score_of dialled (err e) =
    returns (record { score = fin (pos 0); model_version = []; error = some e })
score_of dialled (ok r) =
    returns (record { score = r.anomaly_score; model_version = r.model_version; error = none })

-- The value of a call that returns.
abbrev pub value_or : {A : Type 0} → A → Outcome A → A
value_or a (returns b) = b
value_or a panics = a
