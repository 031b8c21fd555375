-- ===== src/Server/Http.antt =====
-- decision-engine/cmd/server/main.go: `runHTTP`, with the routes that the block list registers. The
-- router of gin is an interface: it finds a registered route, and the parameter in the path.
use rate_limiter.Base.{ℕ, ◌≡◌, ◌⊎◌, Option, none, some, List, [], ◌∷◌, ◌++◌, Bytes, codes, Result}
use rate_limiter.Bpf.{BpfMap}
use rate_limiter.Blocklist.{Blocklist, Answer, handle_block, handle_unblock}
use rate_limiter.Loader.Handlers.{Method, post, get, delete}

-- The four functions that are registered.
pub data Handler : Type 0 where
  health metrics block unblock : Handler

pub record Route : Type 0 where
  pub method : Method
  pub pattern : Bytes
  pub handler : Handler

-- `RegisterRoutes`
unfoldable pub register_routes : List Route → List Route
register_routes routes =
    routes
    ++ record { method = post; pattern = codes "/block"; handler = block }
      ∷ record { method = delete; pattern = codes "/block/:ip"; handler = unblock }
      ∷ []

unfoldable pub routes : List Route
routes = register_routes (
    record { method = get; pattern = codes "/health"; handler = health }
    ∷ record { method = get; pattern = codes "/metrics"; handler = metrics }
    ∷ [])

-- The settings of `http.Server`, times in milliseconds.
pub record HttpServer : Type 0 where
  pub addr : Bytes
  pub read_timeout : ℕ
  pub write_timeout : ℕ
  pub idle_timeout : ℕ

unfoldable pub http_server : Bytes → HttpServer
http_server port = record {
  addr = codes ":" ++ port;
  read_timeout = 5000;
  write_timeout = 10000;
  idle_timeout = 60000;
}

-- One of the routes has the method and the handler.
abbrev pub IsRegistered : List Route → Method → Handler → Type 0
IsRegistered [] m h = ⊥
IsRegistered (r ∷ rs) m h = ((r.method ≡ m) × (r.handler ≡ h)) ⊎ IsRegistered rs m h

pub record Router : Type 0 where
  pub find : List Route → Method → Bytes → Option (Handler × Bytes)
  pub found :
      (rs : List Route) (m : Method) (path : Bytes) (h : Handler) (param : Bytes)
      → find rs m path ≡ some (h, param)
      → IsRegistered rs m h

-- A request, with what binding its JSON body gives.
pub record HttpRequest : Type 0 where
  pub method : Method
  pub path : Bytes
  pub body : Result Bytes Bytes

-- What a response says.
pub data HttpBody (E : Type 0) : Type 0 where
  healthy metrics_text page_not_found : HttpBody E
  answered : Answer E → HttpBody E

module _ (M : BpfMap) where
  -- The handlers; the argument is what binding the body gives.
  unfoldable pub run_handler :
      Handler → Bytes → Result Bytes Bytes → Blocklist M → HttpBody M.Error × Blocklist M
  run_handler health param body b = (healthy, b)
  run_handler metrics param body b = (metrics_text, b)
  run_handler block param body b = let (a, c) = handle_block M body b in (answered a, c)
  run_handler unblock param body b = let (a, c) = handle_unblock M param b in (answered a, c)

  unfoldable pub serve_http :
      Router → Method → Bytes → Result Bytes Bytes → Blocklist M → HttpBody M.Error × Blocklist M
  serve_http router m path body b = elim (router.find routes m path) [
    | none ↦ (page_not_found, b)
    | some (h, param) ↦ run_handler h param body b
  ]
