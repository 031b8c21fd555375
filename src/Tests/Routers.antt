-- ===== src/Tests/Routers.antt =====
-- A router, and the theorem on the routes at a concrete request.
use rate_limiter.Base.{
  ◌≡◌, ◌⊎◌, inl, inr, Bool, Bool-cases, true, false, ◌&&◌, Option, none, some, List, [], ◌∷◌, Bytes,
  codes, bytes_eq, ok, if◌then◌else◌, arith,
}
use rate_limiter.Bpf.{BpfMap}
use rate_limiter.Net.{little}
use rate_limiter.Loader.Handlers.{Method, post, get, delete, other}
use rate_limiter.Server.Http.{Handler, Route, IsRegistered, Router, serve_http}
use rate_limiter.Server.Routes.{IsDone, http_changes}
use rate_limiter.Tests.OneSlot.{one_slot}

same_method : Method → Method → Bool
same_method post post = true
same_method get get = true
same_method delete delete = true
same_method other other = true
same_method _ _ = false

same_method_sound : (m n : Method) → same_method m n ≡ true → m ≡ n
unfolding same_method
same_method_sound post n h = ground arith
same_method_sound get n h = ground arith
same_method_sound delete n h = ground arith
same_method_sound other n h = ground arith

-- The first route of the method whose pattern is the path; no route here takes a parameter.
pub find_exact : List Route → Method → Bytes → Option (Handler × Bytes)
find_exact [] m path = none
find_exact (r ∷ rs) m path =
    if same_method r.method m && bytes_eq r.pattern path
    then some (r.handler, [])
    else find_exact rs m path

pub find_exact-IsRegistered :
    (rs : List Route) (m : Method) (path : Bytes) (h : Handler) (param : Bytes)
    → find_exact rs m path ≡ some (h, param)
    → IsRegistered rs m h
unfolding find_exact
find_exact-IsRegistered [] m path h param e = absurd (ground arith)
find_exact-IsRegistered (r ∷ rs) m path h param e =
    elim (Bool-cases (same_method r.method m && bytes_eq r.pattern path)) [
      | inl hit ↦ inl (same_method_sound r.method m (ground arith), ground arith)
      | inr miss ↦ inr (find_exact-IsRegistered rs m path h param (ground arith))
    ]

abbrev pub exact : Router
exact = record { find = find_exact; found = find_exact-IsRegistered }

abbrev slots : BpfMap
slots = one_slot little 4

abbrev bare_slot : Option (Option (Bytes × Bytes))
bare_slot = some none

http_changes_example :
    ((serve_http slots exact post (codes "/block") (ok (codes "203.0.113.5")) bare_slot).1
      ≡ bare_slot)
    ⊎ (((post ≡ post) ⊎ (post ≡ delete))
        × IsDone
            (serve_http slots exact post (codes "/block") (ok (codes "203.0.113.5")) bare_slot).0)
http_changes_example =
    http_changes slots exact post (codes "/block") (ok (codes "203.0.113.5")) bare_slot
