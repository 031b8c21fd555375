-- ===== src/Nginx.antt =====
-- nginx/lua/fingerprint.lua: the feature vector of a request, the question to the decision engine over
-- the Unix socket, and what becomes of the request. The socket library, cjson and ngx.md5 are
-- arguments; log lines, timeouts and the pool of connections are left out.
pub mod Obeys
pub mod Counters
pub mod Keys
pub mod Windows
use rate_limiter.Base.{
  ℕ, ◌*◌, ◌^◌, Bool, true, false, not, ◌||◌, Option, none, some, List, [], ◌∷◌, ◌++◌, Bytes, codes,
  bytes_eq, Result, ok, err, if◌then◌else◌,
}
use rate_limiter.Base.Int.{ℤ, pos}
use rate_limiter.Float.{Float, fin}
use rate_limiter.Ml.{FeatureVector}
use rate_limiter.Server.Lines.{newline}

-- The variables and headers that `build_vector` reads; `none` is nil.
pub record NginxRequest : Type 0 where
  pub remote_addr : Option Bytes
  pub http_x_ja3_hash : Option Bytes
  pub ssl_ja3_hash : Option Bytes
  pub user_agent : Option Bytes
  pub request_method : Option Bytes
  pub uri : Option Bytes
  pub content_length : Option Bytes
  pub header_count : ℕ
  pub server_protocol : Option Bytes
  pub time : ℕ

-- What `counter.get_rates` gives.
pub record Rates : Type 0 where
  pub req_rate_1s : ℕ
  pub req_rate_10s : ℕ
  pub req_rate_60s : ℕ

-- Lua's `a or b`
abbrev or_else : {A : Type 0} → Option A → A → A
or_else (some a) b = a
or_else none b = b

abbrev first_of : Option Bytes → Option Bytes → Option Bytes
first_of (some a) b = some a
first_of none b = b

-- A count as a double.
abbrev double : ℕ → Float
double n = fin (pos (n * 2 ^ 1074))

abbrev number_of : (Bytes → Option ℤ) → Option Bytes → ℤ
number_of tonumber none = pos 0
number_of tonumber (some s) = or_else (tonumber s) (pos 0)

unfoldable pub build_vector :
    (Bytes → Bytes) → (Bytes → Option ℤ) → NginxRequest → Rates → FeatureVector
build_vector md5 tonumber q rates =
    let proto = or_else q.server_protocol [] in
    record {
      client_ip = or_else q.remote_addr (codes "0.0.0.0");
      ja3_hash = or_else (first_of q.http_x_ja3_hash q.ssl_ja3_hash) (codes "none");
      user_agent_hash = md5 (or_else q.user_agent []);
      req_rate_1s = double rates.req_rate_1s;
      req_rate_10s = double rates.req_rate_10s;
      req_rate_60s = double rates.req_rate_60s;
      http_method = or_else q.request_method (codes "GET");
      uri_hash = md5 (or_else q.uri (codes "/"));
      content_length = number_of tonumber q.content_length;
      header_count = pos q.header_count;
      is_http2 =
          if bytes_eq proto (codes "HTTP/2.0") || bytes_eq proto (codes "HTTP/2")
          then pos 1
          else pos 0;
      unix_timestamp = pos q.time;
    }

pub data QueryError : Type 0 where
  connect_error send_error read_error : QueryError

-- The socket: whether it connects, whether it sends, what comes back for what is sent, and the line
-- that `receive("*l")` makes of it.
pub record Cosocket : Type 0 where
  pub connects : Bool
  pub sends : Bool
  pub answer : Bytes → Bytes
  pub receive_line : Bytes → Option Bytes

unfoldable pub query_engine : Cosocket → Bytes → Result QueryError Bytes
query_engine sock payload =
    if not sock.connects
    then err connect_error
    else if not sock.sends
    then err send_error
    else elim (sock.receive_line (sock.answer (payload ++ newline ∷ []))) [
      | none ↦ err read_error
      | some line ↦ ok line
    ]

-- The two fields of the decoded response that are read, the second as `tonumber` gives it.
pub record Reply : Type 0 where
  pub action : Option Bytes
  pub retry_after : Option ℤ

-- What becomes of the request: it passes, 403, or 429 with Retry-After.
pub data Access : Type 0 where
  pass forbidden : Access
  too_many : ℤ → Access

unfoldable pub act_on : Reply → Access
act_on reply = elim reply.action [
  | none ↦ pass
  | some action ↦
      if bytes_eq action (codes "block")
      then forbidden
      else if bytes_eq action (codes "throttle")
      then too_many (or_else reply.retry_after (pos 5))
      else pass
]

-- `evaluate`
unfoldable pub access :
    (FeatureVector → Option Bytes) → (Bytes → Option Reply) → Cosocket → FeatureVector → Access
access encode decode sock vector = elim (encode vector) [
  | none ↦ pass
  | some payload ↦ elim (query_engine sock payload) [
    | err e ↦ pass
    | ok line ↦ elim (decode line) [ none ↦ pass | some reply ↦ act_on reply ]
  ]
]
