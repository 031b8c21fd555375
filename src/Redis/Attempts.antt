-- ===== src/Redis/Attempts.antt =====
-- One attempt of a client: every delivery, errors, and the separation of addresses.
use rate_limiter.Base.{
  append_cancel, ℕ, ◌*◌, ◌≤◌, ◌<◌, ◌≡◌, ◌≢◌, ◌∙◌, refl, ap, true, false, length, length-append,
  Bytes, codes, Result, ok, err, wrap_err, is_ok, Result-cases, inl, inr, arith,
}
use rate_limiter.Base.Int.{ℤ, pos, ◌-ℤ◌, leb_ℤ}
use rate_limiter.Redis.{
  ScriptReply, Client, Delivery, replied, request_lost, reply_lost, DecrementError, script, network,
  bucket_key, whole_seconds, token_bucket, attempt,
}
use rate_limiter.Redis.Server.{RedisServer, IsLawful, absent}
use rate_limiter.Redis.Bucket.{Bucket, touch}
use rate_limiter.Redis.Refines.{Holds, Spares, Implements, token_bucket-touch}

-- The reply that a client gets, by delivery.
abbrev pub delivered : {E : Type 0} → Delivery → ℤ → Result (DecrementError E) ℤ
delivered replied n = ok n
delivered _ n = err network

abbrev pub left_by : Delivery → Bucket → Bucket → Bucket
left_by request_lost before after = before
left_by _ before after = after

-- Two addresses have two keys.
pub bucket_key-injective : (a b : Bytes) → bucket_key a ≡ bucket_key b → a ≡ b
unfolding bucket_key
bucket_key-injective a b h =
    append_cancel a b (codes "}") (ground arith)
      (omega (arith, ap length h, length-append a (codes "}"), length-append b (codes "}")))

-- A client with a positive size, and a lifetime of whole seconds.
abbrev pub whole_client : (R : RedisServer) → ℕ → ℕ → Client R
whole_client R capacity ttl = record {
  bucket_size = pos capacity;
  bucket_ttl = pos (ttl * 1000000000);
}

pub whole_seconds-mul : (ttl : ℕ) → whole_seconds (pos (ttl * 1000000000)) ≡ pos ttl
unfolding whole_seconds
whole_seconds-mul ttl = ground arith

module _ (R : RedisServer) (L : IsLawful R) (capacity ttl : ℕ) (c : 0 < capacity)
    (l : 0 < ttl) where
  abbrev run : ℕ → Bytes → R.State → ScriptReply R
  run now ip s = token_bucket R now (bucket_key ip) (pos capacity) (pos ttl) s

  abbrev through : Delivery → R.State → ScriptReply R → Result (DecrementError R.Error) ℤ × R.State
  through request_lost s r = (err network, s)
  through reply_lost s r = (err network, r.1)
  through replied s r = (wrap_err script r.0, r.1)

  attempt-through :
      (now : ℕ) (d : Delivery) (ip : Bytes) (s : R.State)
      → attempt R (whole_client R capacity ttl) now d ip s ≡ through d s (run now ip s)
  unfolding attempt
  attempt-through now replied ip s = rw whole_seconds-mul
  attempt-through now request_lost ip s = refl
  attempt-through now reply_lost ip s = rw whole_seconds-mul

  through-Holds :
      (now since : ℕ) (d : Delivery) (key : Bytes) (s : R.State) (r : ScriptReply R) (b : Bucket)
      → Holds R key s since b
      → since ≤ now
      → Implements R key now s r (touch capacity ttl now b)
      → let a = touch capacity ttl now b in
        ((through d s r).0 ≡ delivered d a.remaining)
        × Holds R key (through d s r).1 now (left_by d b a.bucket)
  through-Holds now since replied key s r b h from I = (ap (wrap_err script) I.answers, I.holds)
  through-Holds now since request_lost key s r b h from I =
      (refl, record { shown = λ at le. h.shown at (omega arith) })
  through-Holds now since reply_lost key s r b h from I = (refl, I.holds)

  -- For a client of a positive size and a lifetime of whole positive seconds: an attempt returns
  -- what the bucket of the address answers if the reply arrives, and an error otherwise. It leaves
  -- the bucket that the request leaves, also if only the reply is lost, and the bucket of before if
  -- the request is lost.
  pub attempt-touch :
      (now since : ℕ) (d : Delivery) (ip : Bytes) (s : R.State) (b : Bucket)
      → Holds R (bucket_key ip) s since b
      → since ≤ now
      → let a = touch capacity ttl now b in
        let r = attempt R (whole_client R capacity ttl) now d ip s in
        (r.0 ≡ delivered d a.remaining) × Holds R (bucket_key ip) r.1 now (left_by d b a.bucket)
  attempt-touch now since d ip s b h from = rw attempt-through (
      through-Holds now since d (bucket_key ip) s (run now ip s) b h from
        (token_bucket-touch R L (bucket_key ip) capacity ttl c l s since now b h from))

  through-spares :
      (now since : ℕ) (d : Delivery) (key other : Bytes) (s : R.State) (r : ScriptReply R)
      (b : Bucket)
      → other ≢ key
      → Holds R other s since b
      → since ≤ now
      → Spares R key s r.1 now
      → Holds R other (through d s r).1 now b
  through-spares now since request_lost key other s r b ne h from S = record {
    shown = λ at le. h.shown at (omega arith);
  }
  through-spares now since reply_lost key other s r b ne h from S = record {
    shown = λ at le. S.spared other at ne le ∙ h.shown at (omega arith);
  }
  through-spares now since replied key other s r b ne h from S = record {
    shown = λ at le. S.spared other at ne le ∙ h.shown at (omega arith);
  }

  -- A request of one address leaves the bucket of every other address as it was, however it is
  -- delivered.
  pub attempt_isolated :
      (now since : ℕ) (d : Delivery) (ip other : Bytes) (s : R.State) (own b : Bucket)
      → other ≢ ip
      → Holds R (bucket_key ip) s since own
      → Holds R (bucket_key other) s since b
      → since ≤ now
      → Holds R (bucket_key other) (attempt R (whole_client R capacity ttl) now d ip s).1 now b
  attempt_isolated now since d ip other s own b ne ho h from = rw attempt-through (
      through-spares now since d (bucket_key ip) (bucket_key other) s (run now ip s) b
        (λ e. ne (bucket_key-injective other ip e)) h from
        (token_bucket-touch R L (bucket_key ip) capacity ttl c l s since now own ho from).spares)

pub short_script :
    (R : RedisServer)
    → IsLawful R
    → (now : ℕ) (key : Bytes) (capacity ttl : ℤ) (s : R.State) → leb_ℤ ttl (pos 0) ≡ true
    → R.get s now key ≡ absent
    → let r = token_bucket R now key capacity ttl s in (is_ok r.0 ≡ false) × (r.1 ≡ s)
unfolding token_bucket
short_script R L now key capacity ttl s short gone =
    elim (Result-cases (R.set_ex s now key (capacity -ℤ pos 1) ttl)) [
      | inl (t, set) ↦ absurd (ground (arith, L.set_ex_ok s now key (capacity -ℤ pos 1) ttl))
      | inr (e, failed) ↦
          let missing : R.exists s now key ≡ false = ground (arith, L.exists_iff s now key) in
          (rw (missing, token_bucket, failed) refl, rw (missing, token_bucket, failed) refl)
    ]

pub is_ok-wrap_err :
    {E F : Type 0} {A : Type 0} (f : E → F) (r : Result E A) → is_ok (wrap_err f r) ≡ is_ok r
is_ok-wrap_err f (ok a) = refl
is_ok-wrap_err f (err e) = refl
