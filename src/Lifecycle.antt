-- ===== src/Lifecycle.antt =====
-- decision-engine/cmd/server/main.go: `main`, from the environment to the engine, and from the signal
-- to the deferred calls. What the services answer at the start is an argument.
pub mod Shutdown
pub mod Limit
pub mod Listed
pub mod Dial
use rate_limiter.Base.{
  ℕ, Bool, true, false, ◌||◌, Option, none, some, List, [], ◌∷◌, ◌++◌, map, Bytes, Result, ok, err,
}
use rate_limiter.Base.Int.{ℤ}
use rate_limiter.Bpf.{BpfMap}
use rate_limiter.Blocklist
use rate_limiter.Config.{Config}
use rate_limiter.Kafka.{DecisionEvent, Writer, Producer}
use rate_limiter.Ml.{FeatureVector}
use rate_limiter.Ml
use rate_limiter.Redis.{ClusterOptions}
use rate_limiter.Redis
use rate_limiter.Redis.Server.{RedisServer}
use rate_limiter.Engine.Interface.{ebpf_blocklist, World}
use rate_limiter.Engine.Evaluate.{Engine}
use rate_limiter.Engine.Evaluate
use rate_limiter.Server.Http.{Router, HttpRequest, HttpBody, serve_http}
use rate_limiter.Serving.System.{Program, System}

-- The machine and the services that the process talks to.
pub record Services : Type 1 where
  pub invalid : ℤ
  pub redis : RedisServer
  pub blocked_ips : BpfMap
  pub writer : Writer
  pub RpcError : Type 0
  pub unmarshal : Bytes → Option FeatureVector
  pub encode : DecisionEvent → Bytes
  pub encode_ip : Bytes → ℤ → Bytes
  pub router : Router

-- How the services answer at the start: the ping of the cluster, `grpc.Dial`, and the pinned map.
pub record Outside (S : Services) : Type 1 where
  pub PingError : Type 0
  pub DialError : Type 0
  pub ping : ClusterOptions → Result PingError (Unit {0})
  pub dial : Result DialError (Unit {0})
  pub pinned_map : Result S.blocked_ips.Error S.blocked_ips.State

module _ (S : Services) (O : Outside S) where
  -- The engine that `main` builds, unless the cluster does not answer.
  unfoldable pub start_engine :
      Config → Result O.PingError (Engine S.invalid S.redis (ebpf_blocklist S.blocked_ips))
  start_engine cfg =
      elim (Redis.new S.redis O.ping cfg.redis_addrs cfg.bucket_size cfg.bucket_ttl) [
        | err e ↦ err e
        | ok client ↦ ok (
            Evaluate.new S.invalid S.redis (ebpf_blocklist S.blocked_ips) cfg client
              (Ml.new O.dial))
      ]

  -- The two servers with their engine and block list, as they start to listen.
  abbrev pub program : Engine S.invalid S.redis (ebpf_blocklist S.blocked_ips) → Program
  program e = record {
    invalid = S.invalid;
    redis = S.redis;
    blocklist = ebpf_blocklist S.blocked_ips;
    writer = S.writer;
    RpcError = S.RpcError;
    unmarshal = S.unmarshal;
    encode = S.encode;
    encode_ip = S.encode_ip;
    engine = e;
    Request = HttpRequest;
    Response = HttpBody S.blocked_ips.Error;
    respond = λ q b. serve_http S.blocked_ips S.router q.method q.path q.body b;
  }

  abbrev pub serving :
      (e : Engine S.invalid S.redis (ebpf_blocklist S.blocked_ips))
      → S.redis.State
      → Producer S.writer
      → System (program e)
  serving e redis producer = record {
    conns = [];
    world = record {
      redis = redis;
      blocklist = Blocklist.new S.blocked_ips O.pinned_map;
      tasks = [];
    };
    producer = producer;
    listening = true;
    http_listening = true;
    requests = [];
    responses = [];
    alive = true;
  }

-- What `main` opens and defers the closing of.
pub data Resource : Type 0 where
  redis_client kafka_producer ml_client blocked_ips_map signal_context : Resource

pub data Event : Type 0 where
  opened closed : Resource → Event
  socket_server http_server signalled drained : Event

-- `log.Fatal` ends the process without the deferred calls, and so does a panic of a goroutine.
pub data Ending : Type 0 where
  returned fatal crashed : Ending

-- What has happened, and the deferred calls, the last one first.
pub record Progress : Type 0 where
  pub trace : List Event
  pub deferred : List Resource

unfoldable pub acquire : Resource → Progress → Progress
acquire r p = record { trace = p.trace ++ opened r ∷ []; deferred = r ∷ p.deferred }

unfoldable pub acquire_if : {E A : Type 0} → Result E A → Resource → Progress → Progress
acquire_if (ok a) r p = acquire r p
acquire_if (err e) r p = p

-- A part of `main` that opens and closes nothing.
abbrev pub note : List Event → Progress → Progress
note es p = record p { trace = p.trace ++ es }

-- What `ListenAndServe` returns; `ErrServerClosed` is the end by `Shutdown`.
pub data ServeError : Type 0 where
  server_closed serve_failed : ServeError

-- Whether `runUnixSocket` calls `log.Fatal`, from what `net.Listen` returns.
unfoldable pub socket_fatal : {E : Type 0} → Result E (Unit {0}) → Bool
socket_fatal (err e) = true
socket_fatal (ok _) = false

-- Whether `runHTTP` calls `log.Fatal`; `none` if `ListenAndServe` has not returned.
unfoldable pub http_fatal : Option ServeError → Bool
http_fatal none = false
http_fatal (some server_closed) = false
http_fatal (some serve_failed) = true

-- The rest of `main` behind the two `go` statements; the flags say whether a goroutine calls
-- `log.Fatal`, or panics, before the grace of two seconds is over.
unfoldable pub finish : Bool → Bool → Progress → List Event × Ending
finish true panicked p = (p.trace, fatal)
finish false true p = (p.trace, crashed)
finish false false p =
    ((note (signalled ∷ drained ∷ []) p).trace ++ map closed p.deferred, returned)

module _ (S : Services) (O : Outside S) where
  -- From the ping of the cluster to the two `go` statements.
  unfoldable pub set_up : Progress
  unfolding acquire_if
  set_up = note (socket_server ∷ http_server ∷ []) (
      acquire signal_context (
        acquire_if O.pinned_map blocked_ips_map (
          acquire_if O.dial ml_client (
            acquire kafka_producer (acquire redis_client (record { trace = []; deferred = [] }))))))

  -- `main`, with what `net.Listen` gives and `ListenAndServe` has returned by the end of the grace, and
  -- whether a goroutine has panicked by then (`handleConn` recovers from nothing).
  unfoldable pub run_main :
      {E : Type 0} → Config → Result E (Unit {0}) → Option ServeError → Bool → List Event × Ending
  run_main cfg listened served panicked = elim (O.ping (Redis.cluster_options cfg.redis_addrs)) [
    | err e ↦ ([], fatal)
    | ok _ ↦ finish (socket_fatal listened || http_fatal served) panicked set_up
  ]
