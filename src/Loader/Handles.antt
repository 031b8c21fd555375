-- ===== src/Loader/Handles.antt =====
-- ebpf/loader/main.go: the handles that `loadAndAttach`, `ensureClsactQdisc` and `main` open, and the
-- deferred calls that close them. What the calls answer is what `Loader.Startup` takes.
use rate_limiter.Base.{
  Bool, true, false, none, some, List, [], ◌∷◌, ◌++◌, Bytes, ok, err, if◌then◌else◌,
}
use rate_limiter.Loader.Startup.{
  EbpfLibrary, Answers, MapSpec, Kernel, ensure_clsact_qdisc, reused_spec, load_and_attach,
}
use rate_limiter.Loader.Service.{interface_of}

-- The variables that hold a handle.
pub data Handle : Type 0 where
  pinned_map collection qdisc_socket filter_socket opened_map : Handle

pub data HandleEvent : Type 0 where
  opened closed : Handle → HandleEvent

-- A handle that is closed by `defer`, around the rest of the function.
unfoldable pub defer_close : Handle → List HandleEvent → List HandleEvent
defer_close h body = opened h ∷ body ++ closed h ∷ []

-- `ensureClsactQdisc`
unfoldable pub qdisc_handles : Answers → List HandleEvent
qdisc_handles a = if a.qdisc_netlink then defer_close qdisc_socket [] else []

module _ (L : EbpfLibrary) where
  -- Steps 4 to 6.
  unfoldable pub attach_handles : Answers → Kernel L → List HandleEvent
  attach_handles a k =
      if a.has_program
      then (if a.has_interface
          then qdisc_handles a
            ++ (if ensure_clsact_qdisc a
                then (if a.has_netlink
                    then defer_close filter_socket (
                        if a.replaces
                        then (elim (L.load_pinned k.library) [
                          | err e ↦ []
                          | ok m ↦ opened opened_map ∷ []
                        ])
                        else [])
                    else [])
                else [])
          else [])
      else []

  -- Step 3.
  unfoldable pub instantiate_handles : Answers → MapSpec → Kernel L → List HandleEvent
  instantiate_handles a spec k = elim (L.new_collection spec k.library) [
    | err e ↦ []
    | ok r ↦ defer_close collection (attach_handles a (record k { library = r.1 }))
  ]

  -- Step 2: nothing closes `pinnedMap`.
  unfoldable pub reuse_handles : Answers → MapSpec → Kernel L → List HandleEvent
  reuse_handles a spec k = elim (L.pinned k.library) [
    | none ↦ instantiate_handles a spec k
    | some old ↦ elim (L.load_pinned k.library) [
      | err e ↦ []
      | ok m ↦ opened pinned_map ∷ instantiate_handles a (reused_spec spec) k
    ]
  ]

  -- `loadAndAttach`
  unfoldable pub load_handles : Answers → Kernel L → List HandleEvent
  load_handles a k = elim a.object [
    | none ↦ []
    | some none ↦ []
    | some (some spec) ↦ reuse_handles a spec k
  ]

  -- `main`, whose deferred call is skipped when the API cannot listen and calls `log.Fatalf`.
  unfoldable pub main_handles :
      (Bytes → Answers) → Bool → (Bytes → Bytes) → Kernel L → Bool → List HandleEvent
  main_handles answers memlock_removed getenv k dies = elim memlock_removed [
    | false ↦ []
    | true ↦
        let a = answers (interface_of getenv) in
        let r = load_and_attach L a k in
        load_handles a k
        ++ elim (r.0) [ err e ↦ [] | ok m ↦ if dies then [] else closed opened_map ∷ [] ]
  ]
