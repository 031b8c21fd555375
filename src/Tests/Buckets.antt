-- ===== src/Tests/Buckets.antt =====
-- The theorems on the token bucket at the concrete server.
use rate_limiter.Base.{
  ℕ, ◌+◌, ◌*◌, ◌<◌, ◌≤◌, ◌≡◌, ◌≢◌, refl, List, [], ◌∷◌, Bytes, codes, Result, ok, err, is_ok,
  Option, none, some, Bool, true, false, ltb, if◌then◌else◌, length, arith,
}
use rate_limiter.Base.Int.{ℤ, pos, negsuc, leb_ℤ}
use rate_limiter.Redis.{
  Client, replied, reply_lost, bucket_key, token_bucket, decrement, whole_seconds,
}
use rate_limiter.Redis.Server.{absent}
use rate_limiter.Redis.Bucket.{empty, touch}
use rate_limiter.Redis.Refines.{Holds, Implements, token_bucket-touch}
use rate_limiter.Redis.Runs.{replies}
use rate_limiter.Redis.Decrement.{tries, decrement_short_ttl}
use rate_limiter.Tests.Shelf.{shelf, shelf-IsLawful, Rows}

-- A server that holds nothing.
abbrev pub bare : Rows
bare k = none

pub bare-Holds : (key : Bytes) → Holds shelf key bare 0 empty
unfolding rate_limiter.Tests.Shelf.seen
bare-Holds key = record { shown = λ at le. refl }

abbrev pub client_text : Bytes
client_text = codes "203.0.113.5"

abbrev pub other_text : Bytes
other_text = codes "203.0.113.6"

abbrev key : Bytes
key = bucket_key client_text

token_bucket-touch_example :
    Implements shelf key 1000 bare
      (token_bucket shelf 1000 key (pos 2) (pos 30) bare)
      (touch 2 30 1000 empty)
token_bucket-touch_example =
    token_bucket-touch shelf shelf-IsLawful key 2 30 (omega arith) (omega arith) bare 0 1000 empty
      (bare-Holds key) (omega arith)

-- Five requests, twenty seconds apart: two are admitted.
abbrev times : List ℕ
times = 1020 ∷ 1040 ∷ 1060 ∷ 1080 ∷ []

two_of_five :
    replies shelf key (pos 2) (pos 30) (1000 ∷ times) bare
    ≡ ok (pos 1) ∷ ok (pos 0) ∷ ok (negsuc 0) ∷ ok (negsuc 0) ∷ ok (negsuc 0) ∷ []
unfolding replies token_bucket rate_limiter.Tests.Shelf.is_there rate_limiter.Tests.Shelf.shelf_set
    rate_limiter.Base.Int.◌-ℤ◌ rate_limiter.Tests.Shelf.write rate_limiter.Base.bytes_eq bucket_key
    rate_limiter.Tests.Shelf.seen rate_limiter.Tests.Shelf.renewed rate_limiter.Tests.Shelf.lowered
two_of_five = refl

two_taken : (tries 2 30 4 0 empty ((1000, reply_lost) ∷ (1001, replied) ∷ [])).answer ≡ some (pos 0)
unfolding tries touch
two_taken = refl

two_clients : other_text ≢ client_text
two_clients h = absurd (ground arith)

-- BUCKET_TTL_SECONDS=0.
abbrev hasty : Client shelf
hasty = record { bucket_size = pos 100; bucket_ttl = pos 0 }

zero_seconds : leb_ℤ (whole_seconds hasty.bucket_ttl) (pos 0) ≡ true
unfolding whole_seconds
zero_seconds = refl

nothing_there : (at : ℕ) → shelf.get bare at (bucket_key client_text) ≡ absent
unfolding rate_limiter.Tests.Shelf.seen
nothing_there at = refl

decrement_short_ttl_example :
    is_ok (decrement shelf hasty 1000 replied [] client_text bare).0 ≡ false
decrement_short_ttl_example =
    decrement_short_ttl shelf shelf-IsLawful hasty client_text zero_seconds 1000 replied [] bare
      nothing_there
