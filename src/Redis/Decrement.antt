-- ===== src/Redis/Decrement.antt =====
-- `Decrement` for a client, with its retries.
use rate_limiter.Base.{
  ℕ, zero, suc, ◌≤◌, ◌<◌, ◌≡◌, ◌∙◌, refl, sym, subst, true, false, Option, none, some, List, [],
  ◌∷◌, Bytes, Result, ok, err, is_ok, arith,
}
use rate_limiter.Base.Int.{ℤ, pos, leb_ℤ}
use rate_limiter.Redis.{
  Client, Delivery, replied, request_lost, reply_lost, DecrementError, script, network,
  max_redirects, bucket_key, whole_seconds, attempt, go_on, decrement,
}
use rate_limiter.Redis.Server.{RedisServer, IsLawful, absent}
use rate_limiter.Redis.Bucket.{Bucket, touch}
use rate_limiter.Redis.Refines.{Holds}
use rate_limiter.Redis.Attempts.{is_ok-wrap_err, short_script}

-- What becomes of a request on a bucket: the answer that arrives, the bucket, and the second.
pub record Tried : Type 0 where
  pub answer : Option ℤ
  pub bucket : Bucket
  pub second : ℕ

-- At most `n` tries: a lost request leaves the bucket, a lost reply takes a token, and a reply is the
-- end.
unfoldable pub tries : ℕ → ℕ → ℕ → ℕ → Bucket → List (ℕ × Delivery) → Tried
tries capacity ttl zero since b rs = record { answer = none; bucket = b; second = since }
tries capacity ttl (suc n) since b [] = record { answer = none; bucket = b; second = since }
tries capacity ttl (suc n) since b ((now, replied) ∷ rs) = record {
  answer = some (touch capacity ttl now b).remaining;
  bucket = (touch capacity ttl now b).bucket;
  second = now;
}
tries capacity ttl (suc n) since b ((now, request_lost) ∷ rs) = tries capacity ttl n now b rs
tries capacity ttl (suc n) since b ((now, reply_lost) ∷ rs) =
    tries capacity ttl n now (touch capacity ttl now b).bucket rs

-- The tries come in the order of time.
abbrev pub InOrder : ℕ → List (ℕ × Delivery) → Type 0
InOrder since [] = Unit
InOrder since ((now, d) ∷ rs) = (since ≤ now) × InOrder now rs

abbrev pub reply_of : {E : Type 0} → Option ℤ → Result (DecrementError E) ℤ
reply_of none = err network
reply_of (some n) = ok n

go_on_ok :
    (R : RedisServer) (c : Client R) (n : ℕ) (rs : List (ℕ × Delivery)) (ip : Bytes)
    (r : Result (DecrementError R.Error) ℤ × R.State) {v : ℤ}
    → r.0 ≡ ok v
    → go_on R c n rs ip r ≡ r
unfolding go_on
go_on_ok R c n rs ip (ok u, s) h = refl
go_on_ok R c n rs ip (err e, s) h = absurd (ground arith)

-- Behind a reply there is no retry.
pub decrement_replied :
    (R : RedisServer) (c : Client R) (now : ℕ) (rs : List (ℕ × Delivery)) (ip : Bytes) (s : R.State)
    {v : ℤ}
    → (attempt R c now replied ip s).0 ≡ ok v
    → decrement R c now replied rs ip s ≡ attempt R c now replied ip s
unfolding decrement
decrement_replied R c now rs ip s h =
    go_on_ok R c max_redirects rs ip (attempt R c now replied ip s) h

module _ (R : RedisServer) (L : IsLawful R) (capacity ttl : ℕ) (c : 0 < capacity)
    (l : 0 < ttl) where
  Follows : Bytes → Result (DecrementError R.Error) ℤ × R.State → Tried → Type 0
  Follows ip r t = (r.0 ≡ reply_of t.answer) × Holds R (bucket_key ip) r.1 t.second t.bucket

module _ (R : RedisServer) (L : IsLawful R) (c : Client R) (ip : Bytes)
    (short : leb_ℤ (whole_seconds c.bucket_ttl) (pos 0) ≡ true) where
  IsBare : R.State → Type 0
  IsBare s = (at : ℕ) → R.get s at (bucket_key ip) ≡ absent

  record Failed (r : Result (DecrementError R.Error) ℤ × R.State) : Type 0 where
    refused : is_ok r.0 ≡ false
    bare : IsBare r.1

  attempt-Failed :
      (now : ℕ) (d : Delivery) (s : R.State) → IsBare s → Failed (attempt R c now d ip s)
  unfolding attempt IsBare
  attempt-Failed now request_lost s bare = record { refused = refl; bare = bare }
  attempt-Failed now reply_lost s bare =
      let S =
        short_script R L now (bucket_key ip) c.bucket_size (whole_seconds c.bucket_ttl) s short
          (bare now) in
      record { refused = refl; bare = subst IsBare (sym S.1) bare }
  attempt-Failed now replied s bare =
      let S =
        short_script R L now (bucket_key ip) c.bucket_size (whole_seconds c.bucket_ttl) s short
          (bare now) in
      record { refused = is_ok-wrap_err script _ ∙ S.0; bare = subst IsBare (sym S.1) bare }

  go_on-Failed :
      (n : ℕ) (rs : List (ℕ × Delivery)) (r : Result (DecrementError R.Error) ℤ × R.State)
      → Failed r
      → Failed (go_on R c n rs ip r)
  unfolding go_on
  go_on-Failed n rs (ok v, s) f = f
  go_on-Failed n rs (err (script e), s) f = f
  go_on-Failed zero rs (err network, s) f = f
  go_on-Failed (suc n) [] (err network, s) f = f
  go_on-Failed (suc n) ((now, d) ∷ rs) (err network, s) f =
      go_on-Failed n rs (attempt R c now d ip s) (attempt-Failed now d s f.bare)

  -- With a lifetime below one second, whatever the size, every request of an address that has no
  -- bucket at any second ends in an error, whatever is retried.
  pub decrement_short_ttl :
      (now : ℕ) (d : Delivery) (retries : List (ℕ × Delivery)) (s : R.State)
      → ((at : ℕ) → R.get s at (bucket_key ip) ≡ absent)
      → is_ok (decrement R c now d retries ip s).0 ≡ false
  unfolding decrement IsBare
  decrement_short_ttl now d retries s gone =
      (go_on-Failed max_redirects retries (attempt R c now d ip s)
        (attempt-Failed now d s gone)).refused
