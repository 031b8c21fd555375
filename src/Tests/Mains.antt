-- ===== src/Tests/Mains.antt =====
-- The theorems on the two programs' `main`, at concrete environments and services.
use rate_limiter.Base.{
  err, true, some, is_ok, not, ◌&&◌, ◌↔◌, ℕ, ◌≤◌, ◌≡◌, ◌≢◌, inr, refl, sym, ap, ◌∙◌, Option, none,
  List, [], ◌∷◌, Bytes, codes, Result, ok, bytes_eq, if◌then◌else◌, arith,
}
use rate_limiter.Base.Int.{ℤ, pos, negsuc}
use rate_limiter.Float.{Float}
use rate_limiter.Net.{little, host_u32}
use rate_limiter.Text.Decimal.{print_int}
use rate_limiter.Redis
use rate_limiter.Config.{Config, load}
use rate_limiter.Kafka.{Producer}
use rate_limiter.Blocker.{tc_ingress_blocker, act_ok, saddr}
use rate_limiter.Loader.Address.{IpError, ip_to_uint32}
use rate_limiter.Loader.Handlers.{Request, BlockRequest}
use rate_limiter.Loader.Service.{serve_all}
use rate_limiter.Loader.Strangers.{IsForeign, stranger_passes}
use rate_limiter.Redis.{replied, bucket_key}
use rate_limiter.Redis.Bucket.{empty}
use rate_limiter.Engine.Interface.{ebpf_blocklist}
use rate_limiter.Engine.Evaluate.{Engine}
use rate_limiter.Serving.System.{System}
use rate_limiter.Serving.Steps.{Run, accept, move, read_good, take, stop, next}
use rate_limiter.Serving.Passes.{all_passes}
use rate_limiter.Serving.System.{new_conn}
use rate_limiter.Lifecycle.{
  Services, Outside, start_engine, program, serving, run_main, server_closed, returned,
  socket_fatal, http_fatal,
}
use rate_limiter.Lifecycle.Shutdown.{Closing, main_closes}
use rate_limiter.Lifecycle.Dial.{dial_failed_panics}
use rate_limiter.Ml.{panics}
use rate_limiter.Server.Lines.{scan_lines}
use rate_limiter.Server.Connection.{handle_conn}
use rate_limiter.Engine.Interface.{Call, ebpf_blocklist}
use rate_limiter.Engine.Evaluate.{Engine}
use rate_limiter.Lifecycle.Limit.{limit_configured}
use rate_limiter.Tests.Shelf.{shelf, shelf-IsLawful}
use rate_limiter.Tests.OneSlot.{one_slot, one_slot-IsLawful, Slot}
use rate_limiter.Tests.Packets.{decode_to, posting, posting_key, from_posting}
use rate_limiter.Tests.Buckets.{bare, bare-Holds, client_text}
use rate_limiter.Tests.Engines.{sample, call_at}
use rate_limiter.Tests.Routers.{exact}
use rate_limiter.Tests.Runs.{log, unmarshal, labels, bare-IsTidy}

abbrev pub services : Services
services = record {
  invalid = negsuc 9223372036854775807;
  redis = shelf;
  blocked_ips = one_slot little 8;
  writer = log;
  RpcError = Unit {0};
  unmarshal = unmarshal;
  encode = λ e. e.ip;
  encode_ip = λ ip now. ip;
  router = exact;
}

-- The cluster and the sidecar answer, and there is a pinned map.
abbrev pub outside : Outside services
outside = record {
  PingError = Unit {0};
  DialError = Unit {0};
  ping = λ o. ok tt;
  dial = ok tt;
  pinned_map = ok none;
}

pub getenv : Bytes → Bytes
getenv key =
    if bytes_eq key (codes "BUCKET_SIZE")
    then codes "2"
    else if bytes_eq key (codes "BUCKET_TTL_SECONDS")
    then codes "30"
    else []

abbrev pub parse_float : Bytes → Option Float
parse_float s = none

size_set : getenv (codes "BUCKET_SIZE") ≡ print_int (pos 2)
unfolding getenv print_int bytes_eq
size_set = refl

ttl_set : getenv (codes "BUCKET_TTL_SECONDS") ≡ print_int (pos 30)
unfolding getenv print_int bytes_eq
ttl_set = refl

abbrev pub cfg : Config
cfg = load getenv parse_float

started :
    (e : Engine services.invalid shelf (ebpf_blocklist (one_slot little 8))) × (start_engine
        services outside cfg
      ≡ ok e)
unfolding start_engine rate_limiter.Redis.new
started = (_, refl)

abbrev pub kafka : Producer log
kafka = record { decisions = []; blocked = [] }

abbrev first_state : System (program services outside started.0)
first_state = serving services outside started.0 bare kafka

one_take :
    (t : System (program services outside started.0)) × Run
      (program services outside started.0)
      first_state
      labels
      t
unfolding new_conn bytes_eq rate_limiter.Server.Lines.scan_lines
one_take = (
  _,
  next (accept first_state (codes "{}") refl refl) (
      next (move _ [] [] _ _ _ _ refl refl (read_good _ _ (codes "{}") [] sample refl refl refl))
        (next (move _ [] [] _ _ _ _ refl refl (take _ _ sample 1000 _ replied refl)) (stop _))),
)

limit_configured_example :
    all_passes (program services outside started.0) client_text one_take.0.conns ≤ 2
unfolding bytes_eq
limit_configured_example =
    limit_configured services outside shelf-IsLawful getenv parse_float 2 30 started.0 bare kafka
      client_text 0 1000 [] empty (omega arith) (omega arith) (omega arith, omega arith)
      (omega arith) size_set ttl_set started.1 bare-IsTidy (bare-Holds (bucket_key client_text))
      one_take.1 (omega arith, tt) (inr refl, tt) refl tt tt

abbrev listened : Result (Unit {0}) (Unit {0})
listened = ok tt

main_closes_example :
    Closing (run_main services outside cfg listened (some server_closed) true)
    × (((run_main services outside cfg listened (some server_closed) true).1 ≡ returned) ↔ (
        (is_ok (outside.ping (rate_limiter.Redis.cluster_options cfg.redis_addrs))
          && (not (socket_fatal listened) && not (http_fatal (some server_closed)) && not true))
        ≡ true))
main_closes_example = main_closes services outside cfg listened (some server_closed) true

-- The same with a sidecar that cannot be dialled.
abbrev blind : Outside services
blind = record outside { dial = err tt }

answered_late : ℕ → Call (Unit {0})
answered_late i = call_at 1000 replied (err tt)

one_vector : scan_lines (codes "{}") ≡ codes "{}" ∷ []
unfolding scan_lines
one_vector = refl

dial_failed_panics_example :
    (e : Engine services.invalid shelf (ebpf_blocklist (one_slot little 8))) × ((start_engine
          services blind cfg
        ≡ ok e)
      × (handle_conn services.invalid shelf
            (ebpf_blocklist (one_slot little 8))
            unmarshal
            e
            answered_late
            (codes "{}")
            first_state.world
          ≡ panics))
unfolding bytes_eq
dial_failed_panics_example =
    dial_failed_panics services blind cfg answered_late (codes "{}") [] [] (codes "{}")
      first_state.world refl refl one_vector refl

-- After a POST of 203.0.113.5 on a little-endian machine, what comes from 203.0.113.5 passes.
abbrev posts : List (ℤ × Request)
posts = (pos 1000, posting) ∷ (pos 1001, posting) ∷ []

posting_ip :
    (req : BlockRequest) → decode_to (pos 0) posting.body ≡ ok req → codes "203.0.113.5" ≡ req.ip
posting_ip req d = ground arith

not_stored : (key : ℕ) → 3405803781 ≡ key → saddr from_posting ≢ host_u32 little key
unfolding host_u32
not_stored key k e = absurd (ground arith)

foreign : IsForeign (one_slot little 8) (decode_to (pos 0)) (saddr from_posting) posting
foreign req key d k =
    let same : ◌≡◌ {A = Result IpError ℕ} (ok 3405803781) (ok key) =
      sym posting_key ∙ ap ip_to_uint32 (posting_ip req d) ∙ k in
    not_stored key (ground arith)

abbrev bare_slot : Slot
bare_slot = none

stranger_passes_example :
    tc_ingress_blocker
      (one_slot little 8)
      (serve_all (one_slot little 8) (decode_to (pos 0)) posts bare_slot).1
      7
      from_posting
    ≡ act_ok
unfolding rate_limiter.Tests.OneSlot.slot_lookup
stranger_passes_example =
    stranger_passes (one_slot little 8) (one_slot-IsLawful little 8) (decode_to (pos 0)) posts
      bare_slot 7 from_posting (foreign, (foreign, tt)) refl
