-- ===== src/Tests/Shelf.antt =====
-- A Redis server that keeps, under each key, a number and the second at which it is forgotten.
use rate_limiter.Base.{
  ℕ, ◌+◌, ◌≤◌, ◌≡◌, ◌≢◌, ◌↔◌, ◌∙◌, refl, sym, ap, Bool, false, not, Option, none, some, Bytes,
  bytes_eq, bytes_eq_iff, Result, ok, err, is_ok, ltb, if◌then◌else◌, Bool-cases, inl, inr, arith,
}
use rate_limiter.Base.Int.{ℤ, pos, ◌-ℤ◌, leb_ℤ, pos_part}
use rate_limiter.Redis.Server.{RedisServer, IsLawful, Stored, absent, integer, lasting, less}

abbrev pub Entry : Type 0
Entry = Option (ℤ × ℕ)

abbrev pub Rows : Type 0
Rows = Bytes → Entry

unfoldable pub seen : Entry → ℕ → Stored
seen none now = absent
seen (some (v, deadline)) now = if ltb now deadline then integer v else absent

unfoldable pub is_there : Entry → ℕ → Bool
is_there none now = false
is_there (some (v, deadline)) now = ltb now deadline

unfoldable pub write : Rows → Bytes → Entry → Rows
write s k e j = if bytes_eq j k then e else s j

-- A lifetime of whole seconds; `ttl` is positive where this is used.
unfoldable pub renewed : Entry → ℕ → ℤ → Entry
renewed none now ttl = none
renewed (some (v, deadline)) now ttl =
    if ltb now deadline then some (v, now + pos_part ttl) else none

unfoldable pub lowered : Entry → ℕ → Entry
lowered none n = none
lowered (some (v, deadline)) n = some (v -ℤ pos n, deadline)

unfoldable pub shelf_set : Rows → ℕ → Bytes → ℤ → ℤ → Result (Unit {0}) Rows
shelf_set s now k v ttl =
    if leb_ℤ ttl (pos 0) then err tt else ok (write s k (some (v, now + pos_part ttl)))

abbrev pub shelf : RedisServer
shelf = record {
  State = Rows;
  Error = Unit {0};
  exists = λ s now k. is_there (s k) now;
  get = λ s now k. seen (s k) now;
  set_ex = shelf_set;
  expire = λ s now k ttl. write s k (renewed (s k) now ttl);
  decr_by = λ s now k n. write s k (lowered (s k) n);
}

there_iff : (e : Entry) (now : ℕ) → (is_there e now ≡ false) ↔ (seen e now ≡ absent)
unfolding is_there seen
there_iff none now = (λ h. refl, λ h. refl)
there_iff (some (v, d)) now = (λ h. ground arith, λ h. ground arith)

set_ok :
    (s : Rows) (now : ℕ) (k : Bytes) (v ttl : ℤ)
    → is_ok (shelf_set s now k v ttl) ≡ not (leb_ℤ ttl (pos 0))
unfolding shelf_set
set_ok s now k v ttl = ground arith

set_write :
    (s t : Rows) (now : ℕ) (k : Bytes) (v : ℤ) (ttl : ℕ)
    → shelf_set s now k v (pos ttl) ≡ ok t
    → write s k (some (v, now + ttl)) ≡ t
unfolding shelf_set
set_write s t now k v ttl h = ground arith

write_self :
    (s : Rows) (k : Bytes) (e : Entry) (j : Bytes) (at : ℕ)
    → seen (write s k e j) at ≡ (if bytes_eq j k then seen e at else seen (s j) at)
unfolding write
write_self s k e j at = ground arith

get_set :
    (s t : Rows) (now at : ℕ) (k j : Bytes) (v : ℤ) (ttl : ℕ)
    → shelf_set s now k v (pos ttl) ≡ ok t
    → now ≤ at
    → seen (t j) at ≡ (if bytes_eq j k then lasting now ttl at (integer v) else seen (s j) at)
unfolding seen
get_set s t now at k j v ttl h le =
    sym (ap (λ r. seen (r j) at) (set_write s t now k v ttl h))
    ∙ write_self s k (some (v, now + ttl)) j at

renewed-lasting :
    (e : Entry) (now at ttl : ℕ)
    → seen e now ≢ absent
    → seen (renewed e now (pos ttl)) at ≡ lasting now ttl at (seen e now)
unfolding seen renewed
renewed-lasting none now at ttl h = absurd (h refl)
renewed-lasting (some (v, d)) now at ttl h = ground arith

lowered-less : (e : Entry) (n at : ℕ) → seen (lowered e n) at ≡ less n (seen e at)
unfolding seen lowered
lowered-less none n at = refl
lowered-less (some (v, d)) n at = ground arith

get_renewed :
    (s : Rows) (now at : ℕ) (k j : Bytes) (ttl : ℕ)
    → seen (s k) now ≢ absent
    → seen (write s k (renewed (s k) now (pos ttl)) j) at
      ≡ (if bytes_eq j k then lasting now ttl at (seen (s k) now) else seen (s j) at)
get_renewed s now at k j ttl h =
    write_self s k (renewed (s k) now (pos ttl)) j at
    ∙ ap (λ x. if bytes_eq j k then x else seen (s j) at) (renewed-lasting (s k) now at ttl h)

get_lowered :
    (s : Rows) (at : ℕ) (k j : Bytes) (n : ℕ)
    → seen (write s k (lowered (s k) n) j) at
      ≡ (if bytes_eq j k then less n (seen (s j) at) else seen (s j) at)
get_lowered s at k j n = elim (Bool-cases (bytes_eq j k)) [
  | inl same ↦
      let eq : j ≡ k = (bytes_eq_iff j k).0 same in
      write_self s k (lowered (s k) n) j at
      ∙ ap (λ x. if bytes_eq j k then x else seen (s j) at)
          (lowered-less (s k) n at ∙ ap (λ i. less n (seen (s i) at)) (sym eq))
  | inr other ↦ write_self s k (lowered (s k) n) j at ∙ (rw other)
]

pub shelf-IsLawful : IsLawful shelf
shelf-IsLawful = record {
  exists_iff = λ s now k. there_iff (s k) now;
  set_ex_ok = set_ok;
  get-set_ex = get_set;
  get-expire = λ s now at k j ttl h le. get_renewed s now at k j ttl h;
  get-decr_by = λ s now at k j n v h le. get_lowered s at k j n;
}
