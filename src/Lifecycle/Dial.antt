-- ===== src/Lifecycle/Dial.antt =====
-- A start at which the sidecar cannot be dialled.
use rate_limiter.Base.{ℕ, ◌≡◌, refl, some, List, ◌∷◌, ◌++◌, Bytes, ok, err}
use rate_limiter.Config.{Config}
use rate_limiter.Redis
use rate_limiter.Ml.{FeatureVector, panics, nil}
use rate_limiter.Ml
use rate_limiter.Engine.Interface.{ebpf_blocklist, World, Call}
use rate_limiter.Engine.Evaluate.{Engine}
use rate_limiter.Engine.Evaluate
use rate_limiter.Server.Lines.{scan_lines}
use rate_limiter.Server.Connection.{handle_conn}
use rate_limiter.Server.Laws.{handle_conn_panics}
use rate_limiter.Lifecycle.{Services, Outside, start_engine}

module _ (S : Services) (O : Outside S) where
  nil_engine :
      (cfg : Config) {u : Unit {0}} {cause : O.DialError}
      → O.ping (Redis.cluster_options cfg.redis_addrs) ≡ ok u
      → O.dial ≡ err cause
      → (e : Engine S.invalid S.redis (ebpf_blocklist S.blocked_ips)) × ((start_engine S O cfg
            ≡ ok e)
          × (e.ml ≡ nil))
  unfolding start_engine Redis.new Evaluate.new Ml.new
  nil_engine cfg pinged failed =
      let client : Redis.Client S.redis = record {
        bucket_size = cfg.bucket_size;
        bucket_ttl = cfg.bucket_ttl;
      } in
      (
        Evaluate.new S.invalid S.redis (ebpf_blocklist S.blocked_ips) cfg client (Ml.new O.dial),
        (rw (pinged, start_engine, Redis.new) refl, rw (failed, Ml.new) refl),
      )

  -- If the cluster answers the ping and dialling the sidecar fails, `main` starts all the same, with an
  -- engine whose connections panic: the handler of any connection does among whose lines there is a
  -- feature vector, wherever it stands and whatever Redis and the sidecar would have answered.
  pub dial_failed_panics :
      {E : Type 0} (cfg : Config) (calls : ℕ → Call E) (received : Bytes)
      (before after : List Bytes) (line : Bytes) (w : World S.redis (ebpf_blocklist S.blocked_ips))
      {fv : FeatureVector} {u : Unit {0}} {cause : O.DialError}
      → O.ping (Redis.cluster_options cfg.redis_addrs) ≡ ok u
      → O.dial ≡ err cause
      → scan_lines received ≡ before ++ (line ∷ after)
      → S.unmarshal line ≡ some fv
      → (e : Engine S.invalid S.redis (ebpf_blocklist S.blocked_ips)) × ((start_engine S O cfg
            ≡ ok e)
          × (handle_conn S.invalid S.redis
                (ebpf_blocklist S.blocked_ips)
                S.unmarshal
                e
                calls
                received
                w
              ≡ panics))
  dial_failed_panics cfg calls received before after line w pinged failed at good =
      let (e, (started, is_nil)) = nil_engine cfg pinged failed in
      (
        e,
        (
          started,
          handle_conn_panics S.invalid S.redis (ebpf_blocklist S.blocked_ips) S.unmarshal e calls
              received before after line w is_nil at good,
        ),
      )
