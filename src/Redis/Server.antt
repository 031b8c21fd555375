-- ===== src/Redis/Server.antt =====
-- The commands of the Redis server that the token-bucket script calls, and what is documented of
-- them. Time is in seconds; a key whose time is over is absent.
use rate_limiter.Base.{
  ℕ, ◌+◌, ◌≤◌, ◌≡◌, ◌≢◌, ◌↔◌, Bool, false, not, Bytes, bytes_eq, Result, ok, is_ok, ltb,
  if◌then◌else◌,
}
use rate_limiter.Base.Int.{ℤ, pos, ◌-ℤ◌, leb_ℤ}

-- What GET finds: nothing, the text of an integer, or a value that the script cannot use.
pub data Stored : Type 0 where
  absent unreadable : Stored
  integer : ℤ → Stored

pub record RedisServer : Type 1 where
  pub State : Type 0
  pub Error : Type 0
  pub exists : State → ℕ → Bytes → Bool
  pub get : State → ℕ → Bytes → Stored
  pub set_ex : State → ℕ → Bytes → ℤ → ℤ → Result Error State
  pub expire : State → ℕ → Bytes → ℤ → State
  pub decr_by : State → ℕ → Bytes → ℕ → State

-- A value that has the lifetime `ttl` from the second `from`, as it is at `at`.
abbrev pub lasting : ℕ → ℕ → ℕ → Stored → Stored
lasting from ttl at v = if ltb at (from + ttl) then v else absent

abbrev pub less : ℕ → Stored → Stored
less n absent = absent
less n unreadable = unreadable
less n (integer v) = integer (v -ℤ pos n)

pub record IsLawful (R : RedisServer) : Type 0 where
  pub exists_iff :
      (s : R.State) (now : ℕ) (k : Bytes) → (R.exists s now k ≡ false) ↔ (R.get s now k ≡ absent)
  -- SET with EX wants a positive lifetime.
  pub set_ex_ok :
      (s : R.State) (now : ℕ) (k : Bytes) (v : ℤ) (ttl : ℤ)
      → is_ok (R.set_ex s now k v ttl) ≡ not (leb_ℤ ttl (pos 0))
  pub get-set_ex :
      (s t : R.State) (now at : ℕ) (k j : Bytes) (v : ℤ) (ttl : ℕ)
      → R.set_ex s now k v (pos ttl) ≡ ok t
      → now ≤ at
      → R.get t at j ≡ (if bytes_eq j k then lasting now ttl at (integer v) else R.get s at j)
  pub get-expire :
      (s : R.State) (now at : ℕ) (k j : Bytes) (ttl : ℕ)
      → R.get s now k ≢ absent
      → now ≤ at
      → R.get (R.expire s now k (pos ttl)) at j
        ≡ (if bytes_eq j k then lasting now ttl at (R.get s now k) else R.get s at j)
  pub get-decr_by :
      (s : R.State) (now at : ℕ) (k j : Bytes) (n : ℕ) (v : ℤ)
      → R.get s now k ≡ integer v
      → now ≤ at
      → R.get (R.decr_by s now k n) at j
        ≡ (if bytes_eq j k then less n (R.get s at j) else R.get s at j)
