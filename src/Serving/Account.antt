-- ===== src/Serving/Account.antt =====
-- The account of one address in the Redis server, step by step.
use rate_limiter.Base.{
  ℕ, ◌+◌, ◌≤◌, ◌<◌, ◌≡◌, ◌⊎◌, ◌∙◌, ap, sym, subst, inl, inr, Bool-cases, false, List, [], ◌∷◌, map,
  Bytes, bytes_eq, bytes_eq_iff, ok, if◌then◌else◌, arith,
}
use rate_limiter.Base.Int.{pos, ltb_ℤ}
use rate_limiter.Redis.{Delivery, replied, bucket_key, attempt}
use rate_limiter.Redis.Server.{RedisServer}
use rate_limiter.Redis.Server
use rate_limiter.Redis.Bucket.{Bucket, touch}
use rate_limiter.Redis.Refines.{Holds}
use rate_limiter.Redis.Runs.{accepted, answers}
use rate_limiter.Redis.Attempts.{whole_client, left_by, attempt-touch, attempt_isolated}
use rate_limiter.Engine.Evaluate.{bucket_exhausted}
use rate_limiter.Engine.Mirror.{exhausted_ok}
use rate_limiter.Serving.System.{Program}
use rate_limiter.Serving.Steps.{Label, silent, took}
use rate_limiter.Serving.Passes.{Effect}

-- The seconds at which tokens of the address are taken.
abbrev pub takes : Bytes → List Label → List ℕ
takes ip [] = []
takes ip (silent ∷ ls) = takes ip ls
takes ip (took j second delivery ∷ ls) = if bytes_eq j ip then second ∷ takes ip ls else takes ip ls

-- The clock of the Redis server does not run backwards.
abbrev pub Clocked : ℕ → List Label → Type 0
Clocked since [] = Unit
Clocked since (silent ∷ ls) = Clocked since ls
Clocked since (took j second delivery ∷ ls) = (since ≤ second) × Clocked second ls

-- Every script run for the address is answered.
abbrev pub Answered : Bytes → List Label → Type 0
Answered ip [] = Unit
Answered ip (silent ∷ ls) = Answered ip ls
Answered ip (took j second delivery ∷ ls) =
    ((bytes_eq j ip ≡ false) ⊎ (delivery ≡ replied)) × Answered ip ls

-- The server holds a bucket, empty or not, for every address.
abbrev pub IsTidy : (R : RedisServer) → R.State → ℕ → Type 0
IsTidy R s since = (ip : Bytes) → (b : Bucket) × Holds R (bucket_key ip) s since b

module _ (P : Program) (L : Server.IsLawful P.redis) (capacity ttl : ℕ) (c : 0 < capacity)
    (l : 0 < ttl) (client : P.engine.redis ≡ whole_client P.redis capacity ttl) where
  abbrev after : P.redis.State → Bytes → ℕ → Delivery → P.redis.State
  after s j second delivery = (attempt P.redis P.engine.redis second delivery j s).1

  same_client :
      (s : P.redis.State) (j : Bytes) (second : ℕ) (delivery : Delivery)
      → attempt P.redis (whole_client P.redis capacity ttl) second delivery j s
        ≡ attempt P.redis P.engine.redis second delivery j s
  same_client s j second delivery = λ i. attempt P.redis (sym client i) second delivery j s

  after_own :
      (s : P.redis.State) (since second : ℕ) (j : Bytes) (delivery : Delivery) (own : Bucket)
      → Holds P.redis (bucket_key j) s since own
      → since ≤ second
      → Holds P.redis
          (bucket_key j)
          (after s j second delivery)
          second
          (left_by delivery own (touch capacity ttl second own).bucket)
  after_own s since second j delivery own h from =
      subst
        (λ r.
          Holds P.redis (bucket_key j) r.1 second
            (left_by delivery own (touch capacity ttl second own).bucket))
        (same_client s j second delivery)
        (attempt-touch P.redis L capacity ttl c l second since delivery j s own h from).1

  after-Holds :
      (s : P.redis.State) (since second : ℕ) (j ip : Bytes) (delivery : Delivery) (own b : Bucket)
      → Holds P.redis (bucket_key j) s since own
      → Holds P.redis (bucket_key ip) s since b
      → since ≤ second
      → Holds P.redis
          (bucket_key ip)
          (after s j second delivery)
          second
          (if bytes_eq j ip then left_by delivery own (touch capacity ttl second own).bucket else b)
  after-Holds s since second j ip delivery own b ho hb from = elim (Bool-cases (bytes_eq j ip)) [
    | inl same ↦ rw same (
        subst
          (λ k.
            Holds P.redis (bucket_key k) (after s j second delivery) second
              (left_by delivery own (touch capacity ttl second own).bucket))
          ((bytes_eq_iff j ip).0 same) (after_own s since second j delivery own ho from))
    | inr differ ↦ rw differ (
        subst (λ r. Holds P.redis (bucket_key ip) r.1 second b) (same_client s j second delivery)
          (attempt_isolated P.redis L capacity ttl c l second since delivery j ip s own b
            (λ e. cc ((bytes_eq_iff j ip).1 (sym e))) ho hb from))
  ]

  after-IsTidy :
      (s : P.redis.State) (since second : ℕ) (j : Bytes) (delivery : Delivery)
      → IsTidy P.redis s since
      → since ≤ second
      → IsTidy P.redis (after s j second delivery) second
  after-IsTidy s since second j delivery tidy from ip = (
    _,
    after-Holds s since second j ip delivery (tidy j).0 (tidy ip).0 (tidy j).1 (tidy ip).1 from,
  )

  after_reply :
      (s : P.redis.State) (since second : ℕ) (j : Bytes) (own : Bucket)
      → Holds P.redis (bucket_key j) s since own
      → since ≤ second
      → bucket_exhausted (attempt P.redis P.engine.redis second replied j s).0
        ≡ ltb_ℤ (touch capacity ttl second own).remaining (pos 0)
  after_reply s since second j own h from =
      exhausted_ok P.invalid P.redis P.blocklist _ (touch capacity ttl second own).remaining (
        ap (λ r. r.0) (sym (same_client s j second replied))
        ∙ (attempt-touch P.redis L capacity ttl c l second since replied j s own h from).0)

  -- The requests that the bucket still admits.
  abbrev pub admits : List ℕ → Bucket → ℕ
  admits times b = accepted {E = Unit {0}} (map ok (answers capacity ttl times b))

  -- Where a step leaves the account of an address.
  pub record Next (ip : Bytes) (ls : List Label) (s : P.redis.State) (spent budget : ℕ)
      : Type 0 where
    pub since : ℕ
    pub bucket : Bucket
    pub tidy : IsTidy P.redis s since
    pub held : Holds P.redis (bucket_key ip) s since bucket
    pub clocked : Clocked since ls
    pub answered : Answered ip ls
    pub within : spent + admits (takes ip ls) bucket ≤ budget

  admits_cons :
      (second : ℕ) (times : List ℕ) (b : Bucket)
      → admits (second ∷ times) b
        ≡ (if ltb_ℤ (touch capacity ttl second b).remaining (pos 0) then 0 else 1)
          + admits times (touch capacity ttl second b).bucket
  unfolding answers
  admits_cons second times b = ground arith

  advance_own :
      (ip : Bytes) (second : ℕ) (ls : List Label) (n n' since : ℕ) (s s' : P.redis.State)
      (b : Bucket)
      → n'
        ≤ n
          + (if bucket_exhausted (attempt P.redis P.engine.redis second replied ip s).0
              then 0
              else 1)
      → s' ≡ after s ip second replied
      → IsTidy P.redis s since
      → Holds P.redis (bucket_key ip) s since b
      → since ≤ second
      → Clocked second ls
      → Answered ip ls
      → Next ip ls s' n' (n + admits (second ∷ takes ip ls) b)
  advance_own ip second ls n n' since s s' b less same tidy h from clock ans = record {
    since = second;
    bucket = (touch capacity ttl second b).bucket;
    tidy =
        subst (λ r. IsTidy P.redis r second) (sym same)
          (after-IsTidy s since second ip replied tidy from);
    held =
        subst (λ r. Holds P.redis (bucket_key ip) r second (touch capacity ttl second b).bucket)
          (sym same) (after_own s since second ip replied b h from);
    clocked = clock;
    answered = ans;
    within = omega (
      arith,
      admits_cons second (takes ip ls) b,
      ap {B = ℕ} (λ x. if x then 0 else 1) (after_reply s since second ip b h from),
    );
  }

  advance_other :
      (ip j : Bytes) (second : ℕ) (delivery : Delivery) (ls : List Label) (n n' since : ℕ)
      (s s' : P.redis.State) (b : Bucket)
      → n' ≤ n + 0
      → s' ≡ after s j second delivery
      → IsTidy P.redis s since
      → Holds P.redis (bucket_key ip) s since b
      → since ≤ second
      → Clocked second ls
      → Answered ip ls
      → bytes_eq j ip ≡ false
      → Next ip ls s' n' (n + admits (takes ip (took j second delivery ∷ ls)) b)
  advance_other ip j second delivery ls n n' since s s' b less same tidy h from clock ans other =
      record {
        since = second;
        bucket = b;
        tidy =
            subst (λ r. IsTidy P.redis r second) (sym same)
              (after-IsTidy s since second j delivery tidy from);
        held =
            subst (λ r. Holds P.redis (bucket_key ip) r second b) (sym same)
              (rw other at
                (after-Holds s since second j ip delivery (tidy j).0 b (tidy j).1 h from));
        clocked = clock;
        answered = ans;
        within = rw other (omega arith);
      }

  pub advance :
      (ip : Bytes) (lab : Label) (ls : List Label) (n n' since : ℕ) (s s' : P.redis.State)
      (b : Bucket)
      → Effect P ip n s lab n' s'
      → IsTidy P.redis s since
      → Holds P.redis (bucket_key ip) s since b
      → Clocked since (lab ∷ ls)
      → Answered ip (lab ∷ ls)
      → Next ip ls s' n' (n + admits (takes ip (lab ∷ ls)) b)
  advance ip silent ls n n' since s s' b (less, same) tidy h clock ans = record {
    since = since;
    bucket = b;
    tidy = subst (λ r. IsTidy P.redis r since) (sym same) tidy;
    held = subst (λ r. Holds P.redis (bucket_key ip) r since b) (sym same) h;
    clocked = clock;
    answered = ans;
    within = omega arith;
  }
  advance ip (took j second delivery) ls n n' since s s' b (less, same) tidy h (from, clock)
        (inl other, ans) =
      advance_other ip j second delivery ls n n' since s s' b (rw other at less) same tidy h from
        clock ans other
  advance ip (took j second delivery) ls n n' since s s' b (less, same) tidy h (from, clock)
        (inr whole, ans) =
      elim (Bool-cases (bytes_eq j ip)) [
        | inr other ↦
            advance_other ip j second delivery ls n n' since s s' b (rw other at less) same tidy h
              from clock ans other
        | inl mine ↦
            let e : j ≡ ip = (bytes_eq_iff j ip).0 mine in
            let D : attempt P.redis P.engine.redis second delivery j s
                ≡ attempt P.redis P.engine.redis second replied ip s =
              λ i. attempt P.redis P.engine.redis second (whole i) (e i) s in
            rw mine (
              advance_own ip second ls n n' since s s' b
                (subst (λ r. n' ≤ n + (if bucket_exhausted r.0 then 0 else 1)) D (rw mine at less))
                (same ∙ ap (λ r. r.1) D) tidy h from clock ans)
      ]
