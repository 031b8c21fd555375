-- ===== src/Kafka.antt =====
-- decision-engine/internal/kafka/producer.go. The writer of kafka-go is an interface; the JSON text of
-- an event is an argument, since only that it exists matters: Go refuses NaN and infinities.
pub mod Laws
use rate_limiter.Base.{
  ℕ, Bool, true, false, ◌&&◌, Option, none, some, List, [], ◌∷◌, Bytes, codes, Result, ok, err,
  if◌then◌else◌,
}
use rate_limiter.Base.Int.{ℤ}
use rate_limiter.Float.{Float, fin}

abbrev pub topic_decisions : Bytes
topic_decisions = codes "rate-limit-decisions"

abbrev pub topic_blocked : Bytes
topic_blocked = codes "blocked-ips"

-- The map literal that `Evaluate` puts into the event.
pub record Features : Type 0 where
  pub ja3_hash : Bytes
  pub user_agent_hash : Bytes
  pub req_rate_1s : Float
  pub req_rate_10s : Float
  pub req_rate_60s : Float
  pub http_method : Bytes
  pub is_http2 : ℤ

pub record DecisionEvent : Type 0 where
  pub ip : Bytes
  pub score : Float
  pub action : Bytes
  pub timestamp : ℤ
  pub feature_vector : Features

pub record Message : Type 0 where
  pub key : Bytes
  pub value : Bytes

-- The settings of one writer, times in milliseconds.
pub record WriterConfig : Type 0 where
  pub brokers : List Bytes
  pub topic : Bytes
  pub batch_size : ℕ
  pub batch_timeout : ℕ
  pub write_timeout : ℕ
  pub auto_topic_creation : Bool

new_writer : List Bytes → Bytes → WriterConfig
new_writer brokers topic = record {
  brokers = brokers;
  topic = topic;
  batch_size = 100;
  batch_timeout = 10;
  write_timeout = 5000;
  auto_topic_creation = false;
}

-- `New`: the settings of the two writers, decisions first.
unfoldable pub new : List Bytes → WriterConfig × WriterConfig
unfolding new_writer
new brokers = (new_writer brokers topic_decisions, new_writer brokers topic_blocked)

-- `kafkago.Writer`: what has become of it, writing, and closing.
pub record Writer : Type 1 where
  pub State : Type 0
  pub Error : Type 0
  pub write : State → Message → Result Error State
  pub close : State → Option Error × State

abbrev is_finite : Float → Bool
is_finite (fin a) = true
is_finite _ = false

-- `json.Marshal` of the event fails exactly if a number in it is NaN or infinite.
unfoldable pub marshals : DecisionEvent → Bool
marshals e =
    is_finite e.score
    && is_finite e.feature_vector.req_rate_1s
    && is_finite e.feature_vector.req_rate_10s
    && is_finite e.feature_vector.req_rate_60s

module _ (W : Writer) where
  pub record Producer : Type 0 where
    pub decisions : W.State
    pub blocked : W.State

  unfoldable pub publish_decision : (DecisionEvent → Bytes) → DecisionEvent → Producer → Producer
  publish_decision encode e p =
      if marshals e
      then elim (W.write p.decisions (record { key = e.ip; value = encode e })) [
        | err _ ↦ p
        | ok t ↦ record p { decisions = t }
      ]
      else p

  -- The text of a blocked-address event never fails to marshal.
  unfoldable pub publish_blocked : (Bytes → ℤ → Bytes) → ℤ → Bytes → Producer → Producer
  publish_blocked encode now ip p =
      elim (W.write p.blocked (record { key = ip; value = encode ip now })) [
        | err _ ↦ p
        | ok t ↦ record p { blocked = t }
      ]

  first_error : Option W.Error → Option W.Error → Option W.Error
  first_error (some e) other = some e
  first_error none other = other

  -- `Close`: both writers are closed, and the first error is returned.
  unfoldable pub close : Producer → Option W.Error × Producer
  unfolding first_error
  close p =
      let (e, t) = W.close p.decisions in
      let (f, u) = W.close p.blocked in (first_error e f, record { decisions = t; blocked = u })
