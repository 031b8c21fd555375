-- ===== src/Redis/Bucket.antt =====
-- What the token bucket promises: a level that a request lowers, and a second at which it is
-- forgotten. Every request, admitted or not, puts that second off.
use rate_limiter.Base.{ℕ, zero, suc, ◌+◌, ◌-◌, leb, if◌then◌else◌}
use rate_limiter.Base.Int.{ℤ, pos, negsuc, sub_ℕ}

pub data Bucket : Type 0 where
  empty : Bucket
  filled : ℕ → ℕ → Bucket  -- level, and the second at which the key expires

pub record Answered : Type 0 where
  pub remaining : ℤ
  pub bucket : Bucket

module _ (capacity ttl : ℕ) where
  -- A request for which there is no bucket: the capacity less one.
  abbrev pub fresh : ℕ → Answered
  fresh now = record { remaining = sub_ℕ capacity 1; bucket = filled (capacity - 1) (now + ttl) }

  -- A request at a second when the bucket is there.
  abbrev pub pour : ℕ → ℕ → Answered
  pour now zero = record { remaining = negsuc 0; bucket = filled 0 (now + ttl) }
  pour now (suc n) = record { remaining = pos n; bucket = filled n (now + ttl) }

  unfoldable pub touch : ℕ → Bucket → Answered
  touch now empty = fresh now
  touch now (filled level deadline) = if leb deadline now then fresh now else pour now level
