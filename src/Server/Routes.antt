-- ===== src/Server/Routes.antt =====
-- Which requests to the decision engine change its block list.
use rate_limiter.Base.{◌≡◌, ◌⊎◌, inl, inr, refl, true, Option-cases, Bytes, Result, arith}
use rate_limiter.Bpf.{BpfMap}
use rate_limiter.Blocklist.{Blocklist}
use rate_limiter.Blocklist.Laws.{is_done, handlers_unchanged}
use rate_limiter.Loader.Handlers.{Method, post, delete}
use rate_limiter.Server.Http.{
  Handler, health, metrics, block, unblock, IsRegistered, routes, register_routes, Router, HttpBody,
  answered, run_handler, serve_http,
}

-- The handlers that change something are registered for POST and DELETE alone.
pub block_post : (m : Method) → IsRegistered routes m block → m ≡ post
unfolding routes register_routes
block_post m h = ground arith

unblock_delete : (m : Method) → IsRegistered routes m unblock → m ≡ delete
unfolding routes register_routes
unblock_delete m h = ground arith

-- A response 200 of one of the two handlers of the block list.
abbrev pub IsDone : {E : Type 0} → HttpBody E → Type 0
IsDone (answered a) = is_done a ≡ true
IsDone _ = ⊥

abbrev Change : (M : BpfMap) → Method → HttpBody M.Error × Blocklist M → Blocklist M → Type 0
Change M m (response, c) b = (c ≡ b) ⊎ (((m ≡ post) ⊎ (m ≡ delete)) × IsDone response)

run_handler-Change :
    (M : BpfMap) (m : Method) (h : Handler) (param : Bytes) (body : Result Bytes Bytes)
    (b : Blocklist M)
    → IsRegistered routes m h
    → Change M m (run_handler M h param body b) b
unfolding run_handler
run_handler-Change M m health param body b r = inl refl
run_handler-Change M m metrics param body b r = inl refl
run_handler-Change M m block param body b r = elim ((handlers_unchanged M body param b).0) [
  | inl done ↦ inr (inl (block_post m r), done)
  | inr same ↦ inl same
]
run_handler-Change M m unblock param body b r = elim ((handlers_unchanged M body param b).1) [
  | inl done ↦ inr (inr (unblock_delete m r), done)
  | inr same ↦ inl same
]

-- Whatever the request, the block list stays as it was, or the request is a POST or a DELETE that one
-- of the handlers of the block list answers with 200.
pub http_changes :
    (M : BpfMap) (router : Router) (m : Method) (path : Bytes) (body : Result Bytes Bytes)
    (b : Blocklist M)
    → ((serve_http M router m path body b).1 ≡ b)
      ⊎ (((m ≡ post) ⊎ (m ≡ delete)) × IsDone (serve_http M router m path body b).0)
unfolding serve_http
http_changes M router m path body b = elim (Option-cases (router.find routes m path)) [
  | inl nothing ↦ rw (nothing, serve_http) (inl refl)
  | inr ((h, param), found) ↦
      rw (found, serve_http)
        (run_handler-Change M m h param body b (router.found routes m path h param found))
]
