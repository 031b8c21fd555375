-- ===== src/Loader/Service.antt =====
-- ebpf/loader/main.go: `main` and `getEnv`, and the API over many requests. The handlers
-- of POST and DELETE touch the map once, so such handlers that run beside one another do what they do one
-- behind the other; a listing beside them is taken as one look at the map.
use rate_limiter.Base.{
  Bool, true, false, List, [], ◌∷◌, Bytes, codes, Result, ok, err, ◌==◌, if◌then◌else◌, length,
}
use rate_limiter.Base.Int.{ℤ}
use rate_limiter.Bpf.{BpfMap}
use rate_limiter.Loader.Handlers.{BlockRequest, Request, Response, serve}
use rate_limiter.Loader.Startup.{EbpfLibrary, Answers, LoadError, Kernel, load_and_attach}

abbrev pub default_interface : Bytes
default_interface = codes "eth0"

-- `getEnv`, and the interface that `main` attaches to.
unfoldable pub get_env_or : (Bytes → Bytes) → Bytes → Bytes → Bytes
get_env_or getenv key def = if length (getenv key) == 0 then def else getenv key

unfoldable pub interface_of : (Bytes → Bytes) → Bytes
interface_of getenv = get_env_or getenv (codes "IFACE") default_interface

-- Why `main` ends by `log.Fatalf` before it serves.
pub data StartError : Type 0 where
  memlock : StartError
  load : LoadError → StartError

module _ (L : EbpfLibrary) where
  -- `main` up to the API: the handle `blockedIPs`, and the kernel. The answers are those for the
  -- interface, the flag is that of `rlimit.RemoveMemlock`.
  unfoldable pub start_loader :
      (Bytes → Answers) → Bool → (Bytes → Bytes) → Kernel L → Result StartError L.Map × Kernel L
  start_loader answers memlock_removed getenv k = elim memlock_removed [
    | false ↦ (err memlock, k)
    | true ↦
        let r = load_and_attach L (answers (interface_of getenv)) k in
        elim (r.0) [ err e ↦ (err (load e), r.1) | ok m ↦ (ok m, r.1) ]
  ]

module _ (M : BpfMap) (decode : Bytes → Result Bytes BlockRequest) where
  -- The requests in the order in which they touch the map, each with the clock's seconds.
  unfoldable pub serve_all : List (ℤ × Request) → M.State → List (Response M.Error) × M.State
  serve_all [] s = ([], s)
  serve_all ((now, r) ∷ rs) s =
      let (response, t) = serve M decode now r s in
      let (responses, u) = serve_all rs t in (response ∷ responses, u)
