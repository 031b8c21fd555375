-- ===== src/Loader/Leaks.antt =====
-- Which handles of the loader are left open.
use rate_limiter.Base.{
  ◌≡◌, ◌∙◌, refl, ap, Bool, true, false, ◌&&◌, Option, none, some, List, [], ◌∷◌, ◌++◌, Bytes,
  Result, Option-cases, Result-cases, ok, err, inl, inr, if◌then◌else◌, arith,
}
use rate_limiter.Loader.Startup.{
  EbpfLibrary, Answers, MapSpec, LoadError, no_object, no_map, no_pin, Kernel, ensure_clsact_qdisc,
  reused_spec, attach, instantiate, reuse_or_create, load_and_attach,
}
use rate_limiter.Loader.Service.{interface_of}
use rate_limiter.Loader.Handles.{
  Handle, pinned_map, collection, qdisc_socket, filter_socket, opened_map, HandleEvent, opened,
  closed, defer_close, qdisc_handles, attach_handles, instantiate_handles, reuse_handles,
  load_handles, main_handles,
}

abbrev same : Handle → Handle → Bool
same pinned_map pinned_map = true
same collection collection = true
same qdisc_socket qdisc_socket = true
same filter_socket filter_socket = true
same opened_map opened_map = true
same _ _ = false

abbrev take_out : Handle → List Handle → List Handle
take_out h [] = []
take_out h (g ∷ gs) = let rest = take_out h gs in if same h g then gs else g ∷ rest

-- The handles that are open after the events, the last opened first.
abbrev pub still_open : List HandleEvent → List Handle → List Handle
still_open [] hs = hs
still_open (opened h ∷ es) hs = still_open es (h ∷ hs)
still_open (closed h ∷ es) hs = still_open es (take_out h hs)

still_open-append :
    (xs ys : List HandleEvent) (hs : List Handle)
    → still_open (xs ++ ys) hs ≡ still_open ys (still_open xs hs)
still_open-append [] ys hs = refl
still_open-append (opened h ∷ xs) ys hs = still_open-append xs ys (h ∷ hs)
still_open-append (closed h ∷ xs) ys hs = still_open-append xs ys (take_out h hs)

-- The handle that a start hands over.
abbrev pub handed : {A : Type 0} → Result LoadError A → List Handle
handed (ok m) = opened_map ∷ []
handed (err e) = []

-- Did the start come past the pin?
abbrev pub past_pin : {A : Type 0} → Result LoadError A → Bool
past_pin (err no_object) = false
past_pin (err no_map) = false
past_pin (err no_pin) = false
past_pin _ = true

abbrev pub has_pin : {A : Type 0} → Option A → Bool
has_pin none = false
has_pin (some m) = true

collection_closed :
    {A : Type 0} (r : Result LoadError A) (hs : List Handle)
    → take_out collection (handed r ++ (collection ∷ hs)) ≡ handed r ++ hs
collection_closed (ok m) hs = refl
collection_closed (err e) hs = refl

module _ (L : EbpfLibrary) (a : Answers) where
  attach_open :
      (m : L.Map) (k : Kernel L) (hs : List Handle)
      → still_open (attach_handles L a k) hs ≡ handed (attach L a m k).0 ++ hs
  unfolding attach_handles attach defer_close qdisc_handles ensure_clsact_qdisc
  attach_open m k hs = ground arith

  instantiate_open :
      (spec : MapSpec) (k : Kernel L) (hs : List Handle)
      → still_open (instantiate_handles L a spec k) hs ≡ handed (instantiate L a spec k).0 ++ hs
  unfolding instantiate_handles instantiate defer_close
  instantiate_open spec k hs = elim (Result-cases (L.new_collection spec k.library)) [
    | inr (e, failed) ↦ rw (failed, instantiate, instantiate_handles) refl
    | inl ((m, t), made) ↦
        let next : Kernel L = record k { library = t } in
        rw (made, instantiate, instantiate_handles)
          (still_open-append (attach_handles L a next) (closed collection ∷ []) (collection ∷ hs)
            ∙ ap (take_out collection) (attach_open m next (collection ∷ hs))
            ∙ collection_closed (attach L a m next).0 hs)
  ]

  past_pin-instantiate :
      (spec : MapSpec) (k : Kernel L) → past_pin (instantiate L a spec k).0 ≡ true
  unfolding instantiate attach
  past_pin-instantiate spec k = ground arith

  -- What a start leaves open.
  abbrev pub Remains : Kernel L → Result LoadError L.Map → List HandleEvent → Type 0
  Remains k r es =
      still_open es []
      ≡ handed r ++ (if past_pin r && has_pin (L.pinned k.library) then pinned_map ∷ [] else [])

  reuse-Remains :
      (spec : MapSpec) (k : Kernel L)
      → Remains k (reuse_or_create L a spec k).0 (reuse_handles L a spec k)
  unfolding reuse_handles reuse_or_create
  reuse-Remains spec k = elim (Option-cases (L.pinned k.library)) [
    | inl absent ↦
        rw (absent, reuse_or_create, reuse_handles, past_pin-instantiate spec k)
          (instantiate_open spec k [])
    | inr (old, present) ↦ elim (Result-cases (L.load_pinned k.library)) [
      | inr (e, failed) ↦ rw (present, failed, reuse_or_create, reuse_handles) refl
      | inl (m, reopened) ↦
          rw
            (
              present,
              reopened,
              reuse_or_create,
              reuse_handles,
              past_pin-instantiate (reused_spec spec) k,
            )
            (instantiate_open (reused_spec spec) k (pinned_map ∷ []))
    ]
  ]

  load-Remains : (k : Kernel L) → Remains k (load_and_attach L a k).0 (load_handles L a k)
  unfolding load_handles load_and_attach
  load-Remains k = elim (Option-cases a.object) [
    | inl absent ↦ rw (absent, load_and_attach, load_handles) refl
    | inr (o, found) ↦ elim (Option-cases o) [
      | inl empty ↦ rw (found, empty, load_and_attach, load_handles) refl
      | inr (spec, there) ↦ rw (found, there, load_and_attach, load_handles) (reuse-Remains spec k)
    ]
  ]

-- What is open after the deferred call of `main`.
closed_last :
    {A : Type 0} (r : Result LoadError A) (hs : List Handle)
    → still_open (elim r [ err e ↦ [] | ok m ↦ closed opened_map ∷ [] ]) (handed r ++ hs) ≡ hs
closed_last (ok m) hs = refl
closed_last (err e) hs = refl

-- A loader that removes the memory limit, and whose API does not fail to listen, has closed every
-- handle in the end, also on each error of its start, but for one: the handle on the map of an earlier
-- run, when there is a pin, and the start comes past it.
pub main_leaves :
    (L : EbpfLibrary) (answers : Bytes → Answers) (getenv : Bytes → Bytes) (k : Kernel L)
    → let r = (load_and_attach L (answers (interface_of getenv)) k).0 in
      still_open (main_handles L answers true getenv k false) []
      ≡ (if past_pin r && has_pin (L.pinned k.library) then pinned_map ∷ [] else [])
unfolding main_handles
main_leaves L answers getenv k =
    let a = answers (interface_of getenv) in
    let r = (load_and_attach L a k).0 in
    let leaked : List Handle =
      if past_pin r && has_pin (L.pinned k.library) then pinned_map ∷ [] else [] in
    still_open-append (load_handles L a k) (elim r [ err e ↦ [] | ok m ↦ closed opened_map ∷ [] ])
      []
    ∙ ap (still_open (elim r [ err e ↦ [] | ok m ↦ closed opened_map ∷ [] ])) (load-Remains L a k)
    ∙ closed_last r leaked
