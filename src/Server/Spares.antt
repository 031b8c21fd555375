-- ===== src/Server/Spares.antt =====
-- What the operations of the block list, and the requests to the HTTP server, leave of a missing entry.
use rate_limiter.Base.{
  ◌≡◌, ◌≢◌, ◌∙◌, refl, sym, ap, inl, inr, Option, Option-cases, none, some, List, [], ◌∷◌, Bytes,
  Result, Result-cases, ok, err, All, arith,
}
use rate_limiter.Bpf.{BpfMap, IsLawful}
use rate_limiter.Blocklist.{Blocklist, ip_to_key, add, remove, handle_block}
use rate_limiter.Blocklist.Laws.{handle_block-add, handle_unblock-remove}
use rate_limiter.Loader.Handlers.{Method, post, get, delete, other}
use rate_limiter.Engine.Interface.{Action, allow, throttle, block, ebpf_blocklist}
use rate_limiter.Engine.Events.{listed}
use rate_limiter.Server.Http
use rate_limiter.Server.Http.{
  Handler, Router, HttpRequest, IsRegistered, routes, run_handler, serve_http,
}
use rate_limiter.Server.Routes.{block_post}

-- The address that a decision, or a request, wants on the block list.
abbrev pub blocks : Action → Bytes → List Bytes
blocks block ip = ip ∷ []
blocks _ ip = []

abbrev pub bound : Result Bytes Bytes → List Bytes
bound (ok ip) = ip ∷ []
bound (err e) = []

abbrev pub asks : HttpRequest → List Bytes
asks q = elim q.method [ post ↦ bound q.body | get ↦ [] | delete ↦ [] | other ↦ [] ]

-- What the map shows, if there is one.
abbrev pub shown : (M : BpfMap) → Blocklist M → Bytes → Option Bytes
shown M none j = none
shown M (some s) j = M.lookup s j

-- None of the addresses has the key.
abbrev pub Spares : Bytes → List Bytes → Type 0
Spares j = All (λ ip. ip_to_key ip ≢ ok j)

module _ (M : BpfMap) (L : IsLawful M) (j : Bytes) where
  add_absent :
      (ip : Bytes) (b : Blocklist M)
      → ip_to_key ip ≢ ok j
      → shown M b j ≡ none
      → shown M (add M ip b).1 j ≡ none
  unfolding add
  add_absent ip none ne absent = refl
  add_absent ip (some s) ne absent = elim (Result-cases (ip_to_key ip)) [
    | inr (e, bad) ↦ ground arith
    | inl (key, good) ↦ elim (Result-cases (M.put s key (M.marshal_u32 1))) [
      | inr (e, failed) ↦ ground arith
      | inl (t, done) ↦
          elim (L.lookup-put_other s t key (M.marshal_u32 1) j done
            (λ e. ne (good ∙ ap ok (sym e)))) [ inl same ↦ ground arith | inr gone ↦ ground arith ]
    ]
  ]

  remove_absent :
      (ip : Bytes) (b : Blocklist M) → shown M b j ≡ none → shown M (remove M ip b).1 j ≡ none
  unfolding remove
  remove_absent ip none absent = refl
  remove_absent ip (some s) absent = elim (Result-cases (ip_to_key ip)) [
    | inr (e, bad) ↦ ground arith
    | inl (key, good) ↦ elim (Result-cases (M.delete s key)) [
      | inr (e, failed) ↦ ground arith
      | inl (t, done) ↦ ground (arith, L.lookup-delete s t key j done)
    ]
  ]

  run_handler_absent :
      (h : Handler) (m : Method) (path param : Bytes) (body : Result Bytes Bytes) (b : Blocklist M)
      → IsRegistered routes m h
      → Spares j (asks (record { method = m; path = path; body = body }))
      → shown M b j ≡ none
      → shown M (run_handler M h param body b).1 j ≡ none
  unfolding run_handler handle_block
  run_handler_absent Http.health m path param body b r spared absent = absent
  run_handler_absent Http.metrics m path param body b r spared absent = absent
  run_handler_absent Http.unblock m path param body b r spared absent =
      ap (λ c. shown M c j) (handle_unblock-remove M param b) ∙ remove_absent param b absent
  run_handler_absent Http.block m path param (err e) b r spared absent = absent
  run_handler_absent Http.block m path param (ok ip) b r spared absent =
      ap (λ c. shown M c j) (handle_block-add M ip b)
      ∙ add_absent ip b ((rw (block_post m r) at spared).0) absent

  pub serve_http_absent :
      (router : Router) (q : HttpRequest) (b : Blocklist M)
      → Spares j (asks q)
      → shown M b j ≡ none
      → shown M (serve_http M router q.method q.path q.body b).1 j ≡ none
  unfolding serve_http
  serve_http_absent router q b spared absent =
      elim (Option-cases (router.find routes q.method q.path)) [
        | inl nothing ↦ rw (nothing, serve_http) absent
        | inr ((h, param), found) ↦
            rw (found, serve_http)
              (run_handler_absent h q.method q.path param q.body b
                (router.found routes q.method q.path h param found) spared absent)
      ]

  pub listed_absent :
      (a : Action) (ip : Bytes) (b : Blocklist M)
      → Spares j (blocks a ip)
      → shown M b j ≡ none
      → shown M (listed (ebpf_blocklist M) a ip b) j ≡ none
  listed_absent allow ip b spared absent = absent
  listed_absent throttle ip b spared absent = absent
  listed_absent block ip b (ne, h) absent = add_absent ip b ne absent
