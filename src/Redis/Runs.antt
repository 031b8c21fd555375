-- ===== src/Redis/Runs.antt =====
-- What a client sees over many runs of the script.
use rate_limiter.Base.{
  ℕ, zero, suc, ◌+◌, ◌≤◌, ◌<◌, ◌≡◌, ◌∙◌, refl, ap, List, [], ◌∷◌, map, Bytes, Result, ok, err, ltb,
  if◌then◌else◌, length, arith,
}
use rate_limiter.Base.Int.{ℤ, pos, leb_ℤ}
use rate_limiter.Redis.{ScriptError, token_bucket}
use rate_limiter.Redis.Server.{RedisServer, IsLawful}
use rate_limiter.Redis.Bucket.{Bucket, empty, filled, touch}
use rate_limiter.Redis.Refines.{Holds, token_bucket-touch}

-- The replies to requests for one key at the given seconds.
module _ (R : RedisServer) (key : Bytes) (capacity ttl : ℤ) where
  unfoldable pub replies : List ℕ → R.State → List (Result (ScriptError R.Error) ℤ)
  replies [] s = []
  replies (now ∷ times) s =
      let (reply, t) = token_bucket R now key capacity ttl s in reply ∷ replies times t

-- How many of the replies admit their request: those that are no error and not negative.
abbrev pub accepted : {E : Type 0} → List (Result E ℤ) → ℕ
accepted [] = 0
accepted (ok n ∷ rs) = let rest = accepted rs in if leb_ℤ (pos 0) n then suc rest else rest
accepted (err e ∷ rs) = accepted rs

-- What the bucket answers to the same requests.
unfoldable pub answers : ℕ → ℕ → List ℕ → Bucket → List ℤ
answers capacity ttl [] b = []
answers capacity ttl (now ∷ times) b =
    let a = touch capacity ttl now b in a.remaining ∷ answers capacity ttl times a.bucket

abbrev pub Ascending : ℕ → List ℕ → Type 0
Ascending since [] = Unit
Ascending since (now ∷ times) = (since ≤ now) × Ascending now times

-- Each request comes less than `ttl` seconds behind the one before.
abbrev pub Busy : ℕ → ℕ → List ℕ → Type 0
Busy ttl since [] = Unit
Busy ttl since (now ∷ times) = (since ≤ now) × (now < since + ttl) × Busy ttl now times

pub Busy-Ascending : (ttl since : ℕ) (times : List ℕ) → Busy ttl since times → Ascending since times
Busy-Ascending ttl since [] h = tt
Busy-Ascending ttl since (now ∷ times) (from, soon, h) = (from, Busy-Ascending ttl now times h)

-- The bucket is empty, or forgotten by the second `now`.
abbrev pub IsGone : Bucket → ℕ → Type 0
IsGone empty now = Unit
IsGone (filled level deadline) now = deadline ≤ now

accepted_from :
    (E : Type 0) (capacity ttl level since : ℕ) (times : List ℕ)
    → Busy ttl since times
    → accepted {E = E} (map ok (answers capacity ttl times (filled level (since + ttl))))
      ≡ (if ltb level (length times) then level else length times)
unfolding answers touch
accepted_from E capacity ttl level since [] h = ground arith
accepted_from E capacity ttl zero since (now ∷ times) (from, soon, h) =
    ground (arith, accepted_from E capacity ttl zero now times h)
accepted_from E capacity ttl (suc n) since (now ∷ times) (from, soon, h) =
    ground (arith, accepted_from E capacity ttl n now times h)

pub accepted_gone :
    (E : Type 0) (capacity ttl now : ℕ) (times : List ℕ) (b : Bucket)
    → 0 < capacity
    → IsGone b now
    → Busy ttl now times
    → accepted {E = E} (map ok (answers capacity ttl (now ∷ times) b))
      ≡ (if ltb capacity (length (now ∷ times)) then capacity else length (now ∷ times))
unfolding answers touch
accepted_gone E (suc n) ttl now times empty c g h =
    ground (arith, accepted_from E (suc n) ttl n now times h)
accepted_gone E (suc n) ttl now times (filled level deadline) c g h =
    ground (arith, accepted_from E (suc n) ttl n now times h)
accepted_gone E zero ttl now times b c g h = absurd (omega arith)

module _ (R : RedisServer) (L : IsLawful R) (key : Bytes) (capacity ttl : ℕ) where
  -- Over any sequence of requests in the order of time, the script's replies are the bucket's.
  pub replies-answers :
      (s : R.State) (since : ℕ) (b : Bucket) (times : List ℕ)
      → 0 < capacity
      → 0 < ttl
      → Holds R key s since b
      → Ascending since times
      → replies R key (pos capacity) (pos ttl) times s ≡ map ok (answers capacity ttl times b)
  unfolding replies answers
  replies-answers s since b [] c l h a = refl
  replies-answers s since b (now ∷ times) c l h (from, a) =
      let I = token_bucket-touch R L key capacity ttl c l s since now b h from in
      let next = touch capacity ttl now b in
      rw (
        I.answers,
        replies-answers (token_bucket R now key (pos capacity) (pos ttl) s).1 now next.bucket times
            c l I.holds a,
      )

  -- A key whose bucket is gone at the second `now`, and requests from `now` on, each less than the
  -- lifetime behind the one before, with a positive capacity and lifetime: the script admits
  -- `capacity` of them, or all if they are not more, however slowly they come.
  pub replies_bounded :
      (s : R.State) (since now : ℕ) (b : Bucket) (times : List ℕ)
      → 0 < capacity
      → 0 < ttl
      → Holds R key s since b
      → since ≤ now
      → IsGone b now
      → Busy ttl now times
      → accepted (replies R key (pos capacity) (pos ttl) (now ∷ times) s)
        ≡ (if ltb capacity (length (now ∷ times)) then capacity else length (now ∷ times))
  replies_bounded s since now b times c l h from g busy =
      ap accepted
        (replies-answers s since b (now ∷ times) c l h (from, Busy-Ascending ttl now times busy))
      ∙ accepted_gone _ capacity ttl now times b c g busy
