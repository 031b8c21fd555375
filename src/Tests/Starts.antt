-- ===== src/Tests/Starts.antt =====
-- The theorems on the loader's start, at a library that numbers the maps.
use rate_limiter.Base.{
  ℕ, ◌+◌, ◌≡◌, ◌≢◌, refl, true, false, Option, none, some, [], ◌∷◌, codes, Result, ok, err, arith,
}
use rate_limiter.Loader.Startup.{
  EbpfLibrary, IsLawful, Pinning, MapSpec, pin_none, pin_by_name, Answers, LoadError, no_filter,
  no_reopened, Kernel, load_and_attach,
}
use rate_limiter.Loader.Handles.{pinned_map, main_handles}
use rate_limiter.Loader.Leaks.{still_open, main_leaves}
use rate_limiter.Loader.Reload.{reload_splits, first_start_shares}

-- The number of the pinned map; a new map has the number one above it.
abbrev Pin : Type 0
Pin = Option ℕ

unfoldable open_pin : Pin → Result (Unit {0}) ℕ
open_pin none = err tt
open_pin (some m) = ok m

unfoldable next_map : Pin → ℕ
next_map none = 0
next_map (some m) = m + 1

unfoldable collect : MapSpec → Pin → Result (Unit {0}) (ℕ × Pin)
collect spec s = elim spec.pinning [
  | pin_none ↦ ok (next_map s, s)
  | pin_by_name ↦ ok (next_map s, some (next_map s))
]

abbrev numbered : EbpfLibrary
numbered = record {
  State = Pin;
  Map = ℕ;
  Error = Unit {0};
  pinned = λ s. s;
  load_pinned = open_pin;
  new_collection = collect;
}

opened_pin : (s : Pin) (m : ℕ) → open_pin s ≡ ok m → s ≡ some m
unfolding open_pin
opened_pin none m h = absurd (ground arith)
opened_pin (some n) m h = ground arith

kept :
    (spec : MapSpec) (s t : Pin) (m : ℕ)
    → spec.pinning ≡ pin_none
    → collect spec s ≡ ok (m, t)
    → t ≡ s
unfolding collect
kept spec s t m p h = ground arith

fresh :
    (spec : MapSpec) (s t : Pin) (m old : ℕ)
    → spec.pinning ≡ pin_none
    → collect spec s ≡ ok (m, t)
    → s ≡ some old
    → m ≢ old
unfolding collect next_map
fresh spec none t m old p h e = absurd (ground arith)
fresh spec (some n) t m old p h e = λ q. absurd (ground arith)

named :
    (spec : MapSpec) (s t : Pin) (m : ℕ)
    → spec.pinning ≡ pin_by_name
    → collect spec s ≡ ok (m, t)
    → t ≡ some m
unfolding collect
named spec s t m p h = ground arith

numbered-IsLawful : IsLawful numbered
numbered-IsLawful = record {
  load_pinned_pin = opened_pin;
  unpinned_keeps = kept;
  unpinned_fresh = fresh;
  by_name_pinned = named;
}

abbrev blocked_ips : MapSpec
blocked_ips = record {
  name = codes "blocked_ips";
  map_type = 9;
  key_size = 4;
  value_size = 8;
  max_entries = 100000;
  pinning = pin_by_name;
}

abbrev fine : Answers
fine = record {
  object = some (some blocked_ips);
  has_program = true;
  has_interface = true;
  qdisc_netlink = true;
  qdisc_added = false;
  qdisc_exists = true;
  has_netlink = true;
  replaces = true;
}

abbrev booted : Kernel numbered
booted = record { library = none; filter = none }

abbrev restarted : Kernel numbered
restarted = record { library = some 0; filter = some 0 }

first_run : (load_and_attach numbered fine booted).0 ≡ ok 0
unfolding load_and_attach rate_limiter.Loader.Startup.reuse_or_create
    rate_limiter.Loader.Startup.instantiate collect rate_limiter.Loader.Startup.attach
    rate_limiter.Loader.Startup.ensure_clsact_qdisc open_pin next_map
first_run = refl

second_run : (load_and_attach numbered fine restarted).0 ≡ ok 0
unfolding load_and_attach rate_limiter.Loader.Startup.reuse_or_create open_pin
    rate_limiter.Loader.Startup.instantiate collect rate_limiter.Loader.Startup.reused_spec
    rate_limiter.Loader.Startup.attach rate_limiter.Loader.Startup.ensure_clsact_qdisc
second_run = refl

first_start_shares_example : (load_and_attach numbered fine booted).1.filter ≡ some 0
first_start_shares_example =
    first_start_shares numbered numbered-IsLawful fine booted blocked_ips 0 refl refl refl first_run

abbrev zeroth : ℕ
zeroth = 0

reload_splits_example :
    (zeroth ≡ 0)
    × ((f : ℕ) × ((load_and_attach numbered fine restarted).1.filter ≡ some f) × (f ≢ 0))
reload_splits_example =
    reload_splits numbered numbered-IsLawful fine restarted blocked_ips 0 0 refl refl second_run

abbrev refused : Answers
refused = record fine { replaces = false }

refused_run : (load_and_attach numbered refused restarted).0 ≡ err no_filter
unfolding load_and_attach rate_limiter.Loader.Startup.reuse_or_create open_pin
    rate_limiter.Loader.Startup.instantiate collect rate_limiter.Loader.Startup.reused_spec
    rate_limiter.Loader.Startup.attach rate_limiter.Loader.Startup.ensure_clsact_qdisc
refused_run = refl

main_leaves_example :
    still_open (main_handles numbered (λ i. fine) true (λ v. []) restarted false) []
    ≡ pinned_map ∷ []
unfolding load_and_attach rate_limiter.Loader.Startup.reuse_or_create open_pin
    rate_limiter.Loader.Startup.instantiate collect rate_limiter.Loader.Startup.reused_spec
    rate_limiter.Loader.Startup.attach rate_limiter.Loader.Startup.ensure_clsact_qdisc
main_leaves_example = main_leaves numbered (λ i. fine) (λ v. []) restarted
