-- ===== src/Loader/Startup.antt =====
-- ebpf/loader/main.go: `loadAndAttach`. The cilium/ebpf library with the kernel is an interface: what
-- is pinned under the loader's path, and what a collection makes of the spec of its map. What the
-- object file holds and how the calls to netlink end are arguments.
use rate_limiter.Base.{
  ℕ, if◌then◌else◌, ◌≡◌, ◌≢◌, Bool, true, false, Option, none, some, Bytes, Result, ok, err,
}

pub data Pinning : Type 0 where
  pin_none pin_by_name : Pinning

pub record MapSpec : Type 0 where
  pub name : Bytes
  pub map_type : ℕ
  pub key_size : ℕ
  pub value_size : ℕ
  pub max_entries : ℕ
  pub pinning : Pinning

pub record EbpfLibrary : Type 1 where
  pub State : Type 0
  pub Map : Type 0
  pub Error : Type 0
  pub pinned : State → Option Map
  pub load_pinned : State → Result Error Map
  pub new_collection : MapSpec → State → Result Error (Map × State)

-- What is documented of the library: a map is opened from its pin, and is pinned by its spec alone.
pub record IsLawful (L : EbpfLibrary) : Type 0 where
  pub load_pinned_pin : (s : L.State) (m : L.Map) → L.load_pinned s ≡ ok m → L.pinned s ≡ some m
  pub unpinned_keeps :
      (spec : MapSpec) (s t : L.State) (m : L.Map)
      → spec.pinning ≡ pin_none
      → L.new_collection spec s ≡ ok (m, t)
      → L.pinned t ≡ L.pinned s
  pub unpinned_fresh :
      (spec : MapSpec) (s t : L.State) (m old : L.Map)
      → spec.pinning ≡ pin_none
      → L.new_collection spec s ≡ ok (m, t)
      → L.pinned s ≡ some old
      → m ≢ old
  pub by_name_pinned :
      (spec : MapSpec) (s t : L.State) (m : L.Map)
      → spec.pinning ≡ pin_by_name
      → L.new_collection spec s ≡ ok (m, t)
      → L.pinned t ≡ some m

-- Why a start fails, in the order of the tests.
pub data LoadError : Type 0 where
  no_object no_map no_pin no_collection no_program no_interface no_qdisc no_netlink no_filter
        no_reopened :
      LoadError

-- How the rest of the system answers: the object file with the spec of "blocked_ips", if it is
-- there, whether it holds the program, and the calls to the network.
pub record Answers : Type 0 where
  pub object : Option (Option MapSpec)
  pub has_program : Bool
  pub has_interface : Bool
  pub qdisc_netlink : Bool
  pub qdisc_added : Bool
  pub qdisc_exists : Bool  -- what `isEexist`, whose source does not compile, says of the error
  pub has_netlink : Bool
  pub replaces : Bool

-- `ensureClsactQdisc`: is there no error?
unfoldable pub ensure_clsact_qdisc : Answers → Bool
ensure_clsact_qdisc a =
    if a.qdisc_netlink then (if a.qdisc_added then true else a.qdisc_exists) else false

-- The spec that takes the old one's place when there is a pin; the fields not named are zero.
unfoldable pub reused_spec : MapSpec → MapSpec
reused_spec spec = record {
  name = spec.name;
  map_type = spec.map_type;
  key_size = spec.key_size;
  value_size = spec.value_size;
  max_entries = spec.max_entries;
  pinning = pin_none;
}

module _ (L : EbpfLibrary) where
  -- The kernel: the pins, and the map that the attached program looks up in.
  pub record Kernel : Type 0 where
    pub library : L.State
    pub filter : Option L.Map

  -- Steps 4 to 6, with the collection's map.
  unfoldable pub attach : Answers → L.Map → Kernel → Result LoadError L.Map × Kernel
  attach a m k =
      if a.has_program
      then (if a.has_interface
          then (if ensure_clsact_qdisc a
              then (if a.has_netlink
                  then (if a.replaces
                      then (elim (L.load_pinned k.library) [
                        | err e ↦ (err no_reopened, record k { filter = some m })
                        | ok opened ↦ (ok opened, record k { filter = some m })
                      ])
                      else (err no_filter, k))
                  else (err no_netlink, k))
              else (err no_qdisc, k))
          else (err no_interface, k))
      else (err no_program, k)

  -- Step 3.
  unfoldable pub instantiate : Answers → MapSpec → Kernel → Result LoadError L.Map × Kernel
  instantiate a spec k = elim (L.new_collection spec k.library) [
    | err e ↦ (err no_collection, k)
    | ok r ↦ attach a r.0 (record k { library = r.1 })
  ]

  -- Step 2: is there a pin?
  unfoldable pub reuse_or_create : Answers → MapSpec → Kernel → Result LoadError L.Map × Kernel
  reuse_or_create a spec k = elim (L.pinned k.library) [
    | none ↦ instantiate a spec k
    | some old ↦ elim (L.load_pinned k.library) [
      | err e ↦ (err no_pin, k)
      | ok opened ↦ instantiate a (reused_spec spec) k
    ]
  ]

  unfoldable pub load_and_attach : Answers → Kernel → Result LoadError L.Map × Kernel
  load_and_attach a k = elim a.object [
    | none ↦ (err no_object, k)
    | some none ↦ (err no_map, k)
    | some (some spec) ↦ reuse_or_create a spec k
  ]
