-- ===== src/Loader/Reload.antt =====
-- Which map the attached program looks up in, against the map that the loader's API writes.
use rate_limiter.Base.{
  ◌≡◌, ◌≢◌, ◌⊎◌, ◌∙◌, sym, ap, refl, none, some, ok, err, arith, Result-cases, inl, inr,
}
use rate_limiter.Loader.Startup.{
  EbpfLibrary, IsLawful, MapSpec, pin_none, pin_by_name, Answers, LoadError, no_reopened, Kernel,
  reused_spec, attach, instantiate, reuse_or_create, load_and_attach,
}

module _ (L : EbpfLibrary) (A : IsLawful L) (a : Answers) where
  attached_filter :
      (m h : L.Map) (k : Kernel L) → (attach L a m k).0 ≡ ok h → (attach L a m k).1.filter ≡ some m
  unfolding attach
  attached_filter m h k e = ground arith

  attached_opened :
      (m h : L.Map) (k : Kernel L) → (attach L a m k).0 ≡ ok h → L.load_pinned k.library ≡ ok h
  unfolding attach
  attached_opened m h k e = ground arith

  -- What a run of steps 3 to 6 that succeeds has done.
  record Attached (spec : MapSpec) (k : Kernel L) (h : L.Map) (k' : Kernel L) : Type 0 where
    made : L.Map
    library : L.State
    created : L.new_collection spec k.library ≡ ok (made, library)
    filtered : k'.filter ≡ some made
    opened : L.pinned library ≡ some h

  instantiated :
      (spec : MapSpec) (h : L.Map) (k : Kernel L)
      → (instantiate L a spec k).0 ≡ ok h
      → Attached spec k h (instantiate L a spec k).1
  unfolding instantiate
  instantiated spec h k e = elim (Result-cases (L.new_collection spec k.library)) [
    | inr (x, failed) ↦ absurd (ground arith)
    | inl ((m, t), made) ↦
        let next : Kernel L = record k { library = t } in
        let went : (attach L a m next).0 ≡ ok h = ground arith in
        record {
          made = m;
          library = t;
          created = made;
          filtered = ground (arith, attached_filter m h next went);
          opened = A.load_pinned_pin t h (attached_opened m h next went);
        }
  ]

  reused_pinning : (spec : MapSpec) → (reused_spec spec).pinning ≡ pin_none
  unfolding reused_spec
  reused_pinning spec = refl

  -- A start that finds a pin and succeeds hands the API the pinned map, while the program that it
  -- attaches looks up in another map.
  pub reload_splits :
      (k : Kernel L) (spec : MapSpec) (old h : L.Map)
      → a.object ≡ some (some spec)
      → L.pinned k.library ≡ some old
      → (load_and_attach L a k).0 ≡ ok h
      → (h ≡ old) × ((f : L.Map) × ((load_and_attach L a k).1.filter ≡ some f) × (f ≢ h))
  unfolding load_and_attach reuse_or_create
  reload_splits k spec old h o p e =
      let went : (instantiate L a (reused_spec spec) k).0 ≡ ok h = ground arith in
      let same : (load_and_attach L a k).1 ≡ (instantiate L a (reused_spec spec) k).1 =
        ground arith in
      let X = instantiated (reused_spec spec) h k went in
      let kept : L.pinned X.library ≡ some old =
        A.unpinned_keeps (reused_spec spec) k.library X.library X.made (reused_pinning spec)
          X.created
        ∙ p in
      let eq : h ≡ old = ground (arith, X.opened) in
      let fresh =
        A.unpinned_fresh (reused_spec spec) k.library X.library X.made old (reused_pinning spec)
          X.created p in
      (eq, (X.made, ap (λ q. q.filter) same ∙ X.filtered, λ q. fresh (q ∙ eq)))

  -- A start that finds no pin, with a spec that pins by name, and that succeeds hands the API the very
  -- map that the attached program looks up in.
  pub first_start_shares :
      (k : Kernel L) (spec : MapSpec) (h : L.Map)
      → a.object ≡ some (some spec)
      → spec.pinning ≡ pin_by_name
      → L.pinned k.library ≡ none
      → (load_and_attach L a k).0 ≡ ok h
      → (load_and_attach L a k).1.filter ≡ some h
  unfolding load_and_attach reuse_or_create
  first_start_shares k spec h o n p e =
      let went : (instantiate L a spec k).0 ≡ ok h = ground arith in
      let same : (load_and_attach L a k).1 ≡ (instantiate L a spec k).1 = ground arith in
      let X = instantiated spec h k went in
      ap (λ q. q.filter) same
      ∙ X.filtered
      ∙ sym (A.by_name_pinned spec k.library X.library X.made n X.created)
      ∙ X.opened

  failed_attach :
      (m : L.Map) (k : Kernel L) (x : LoadError)
      → (attach L a m k).0 ≡ err x
      → ((attach L a m k).1.filter ≡ k.filter) ⊎ (x ≡ no_reopened)
  unfolding attach
  failed_attach m k x e = ground arith

  -- A start that fails leaves the filter as it was, unless what fails is the last step, which opens the
  -- pinned map.
  pub failed_start :
      (k : Kernel L) (x : LoadError)
      → (load_and_attach L a k).0 ≡ err x
      → ((load_and_attach L a k).1.filter ≡ k.filter) ⊎ (x ≡ no_reopened)
  unfolding load_and_attach reuse_or_create instantiate attach
  failed_start k x e = ground arith
