-- ===== src/Tests/Listings.antt =====
-- A request to the HTTP server that blocks one address, and the theorem on another one.
use rate_limiter.Base.{◌≡◌, ◌≢◌, refl, none, [], ◌∷◌, Bytes, codes, ok, arith}
use rate_limiter.Net.{little}
use rate_limiter.Blocklist.{ip_to_key}
use rate_limiter.Loader.Handlers.{post}
use rate_limiter.Engine.Interface.{ebpf_blocklist}
use rate_limiter.Engine.Evaluate.{Engine}
use rate_limiter.Server.Http.{HttpRequest}
use rate_limiter.Server.Spares.{shown}
use rate_limiter.Serving.System.{System}
use rate_limiter.Serving.Steps.{silent, http_accept, http_respond, Run, stop, next}
use rate_limiter.Lifecycle.{Services, Outside, start_engine, program, serving}
use rate_limiter.Lifecycle.Listed.{listed_named}
use rate_limiter.Tests.OneSlot.{one_slot, one_slot-IsLawful}
use rate_limiter.Tests.Buckets.{bare}
use rate_limiter.Tests.Mains.{services, cfg, kafka}

-- A map with values of four bytes, in which `Add` succeeds.
abbrev roomy : Services
roomy = record services { blocked_ips = one_slot little 4 }

abbrev answers : Outside roomy
answers = record {
  PingError = Unit {0};
  DialError = Unit {0};
  ping = λ o. ok tt;
  dial = ok tt;
  pinned_map = ok none;
}

started :
    (e : Engine roomy.invalid roomy.redis (ebpf_blocklist (one_slot little 4))) × (start_engine
        roomy answers cfg
      ≡ ok e)
unfolding start_engine rate_limiter.Redis.new
started = (_, refl)

abbrev first : System (program roomy answers started.0)
first = serving roomy answers started.0 bare kafka

abbrev asking : HttpRequest
asking = record { method = post; path = codes "/block"; body = ok (codes "203.0.113.6") }

one_blocked :
    (t : System (program roomy answers started.0)) × Run
      (program roomy answers started.0)
      first
      (silent ∷ silent ∷ [])
      t
one_blocked = (
  _,
  next (http_accept first asking refl refl) (next (http_respond _ [] [] asking refl refl) (stop _)),
)

abbrev spared : Bytes
spared = 203 ∷ 0 ∷ 113 ∷ 5 ∷ []

posted_key : ip_to_key (codes "203.0.113.6") ≡ ok (203 ∷ 0 ∷ 113 ∷ 6 ∷ [])
unfolding ip_to_key rate_limiter.Net.parse_ip rate_limiter.Net.parse_fields rate_limiter.Net.to4
    rate_limiter.Net.put_be_u32 rate_limiter.Net.be_u32
posted_key = refl

other_key : ip_to_key (codes "203.0.113.6") ≢ ok spared
other_key e = absurd (ground (arith, posted_key))

listed_named_example : shown (one_slot little 4) one_blocked.0.world.blocklist spared ≡ none
unfolding one_blocked rate_limiter.Blocklist.new rate_limiter.Tests.OneSlot.slot_lookup
listed_named_example =
    listed_named roomy answers (one_slot-IsLawful little 4) started.0 spared one_blocked.1
      (other_key, tt) refl
