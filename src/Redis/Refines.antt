-- ===== src/Redis/Refines.antt =====
-- The script against the bucket.
use rate_limiter.Base.{
  ℕ, zero, suc, ◌+◌, ◌-◌, ◌≤◌, ◌<◌, ◌≡◌, ◌≢◌, ◌∙◌, refl, ap, inl, inr, false, Bytes, bytes_eq,
  bytes_eq_refl, bytes_eq_iff, Bool-cases, Result-cases, ok, ltb, leb, if◌then◌else◌, arith,
}
use rate_limiter.Base.Int.{ℤ, pos, negsuc, sub_ℕ, ◌-ℤ◌}
use rate_limiter.Redis.{token_bucket, ScriptReply}
use rate_limiter.Redis.Server.{RedisServer, IsLawful, Stored, absent, integer}
use rate_limiter.Redis.Bucket.{Bucket, empty, filled, touch, pour, Answered}

-- What GET finds of a bucket at a second.
abbrev pub view : Bucket → ℕ → Stored
view empty at = absent
view (filled level deadline) at = if ltb at deadline then integer (pos level) else absent

module _ (R : RedisServer) (key : Bytes) where
  -- From the second `now` on, the server's value under `key` is the bucket's.
  pub record Holds (s : R.State) (now : ℕ) (b : Bucket) : Type 0 where
    pub shown : (at : ℕ) → now ≤ at → R.get s at key ≡ view b at

  -- A script run from `s` to `t` has left all other keys alone.
  pub record Spares (s t : R.State) (now : ℕ) : Type 0 where
    pub spared : (j : Bytes) (at : ℕ) → j ≢ key → now ≤ at → R.get t at j ≡ R.get s at j

  pub record Implements (now : ℕ) (s : R.State) (reply : ScriptReply R) (a : Answered)
      : Type 0 where
    pub answers : reply.0 ≡ ok a.remaining
    pub holds : Holds reply.1 now a.bucket
    pub spares : Spares s reply.1 now

bytes_ne : (j k : Bytes) → j ≢ k → bytes_eq j k ≡ false
bytes_ne j k h = ground (arith, bytes_eq_iff j k)

module _ (R : RedisServer) (L : IsLawful R) (key : Bytes) (capacity ttl : ℕ) (c : 0 < capacity)
    (l : 0 < ttl) where
  set_done :
      (s : R.State) (now : ℕ) (v : ℤ) → (t : R.State) × (R.set_ex s now key v (pos ttl) ≡ ok t)
  set_done s now v = elim (Result-cases (R.set_ex s now key v (pos ttl))) [
    | inl done ↦ done
    | inr (e, failed) ↦ absurd (ground (arith, L.set_ex_ok s now key v (pos ttl)))
  ]

  script_fresh :
      (s t : R.State) (now : ℕ)
      → R.get s now key ≡ absent
      → R.set_ex s now key (pos capacity -ℤ pos 1) (pos ttl) ≡ ok t
      → token_bucket R now key (pos capacity) (pos ttl) s ≡ (ok (pos capacity -ℤ pos 1), t)
  unfolding token_bucket
  script_fresh s t now gone set = ground (arith, L.exists_iff s now key)

  capacity_less : pos capacity -ℤ pos 1 ≡ pos (capacity - 1)
  unfolding ◌-ℤ◌
  capacity_less = ground arith

  fresh_Implements :
      (s : R.State) (now : ℕ)
      → R.get s now key ≡ absent
      → Implements R key now s
          (token_bucket R now key (pos capacity) (pos ttl) s)
          (record { remaining = sub_ℕ capacity 1; bucket = filled (capacity - 1) (now + ttl) })
  fresh_Implements s now gone =
      let (t, set) = set_done s now (pos capacity -ℤ pos 1) in
      rw (script_fresh s t now gone set) (record {
        answers = ap ok (capacity_less ∙ ground arith);
        holds = record {
          shown = λ at h.
              L.get-set_ex s t now at key key (pos capacity -ℤ pos 1) ttl set h
              ∙ rw (bytes_eq_refl key, capacity_less);
        };
        spares = record {
          spared = λ j at ne h.
              L.get-set_ex s t now at key j (pos capacity -ℤ pos 1) ttl set h
              ∙ rw (bytes_ne j key ne);
        };
      })

  script_denied :
      (s : R.State) (now : ℕ)
      → R.get s now key ≡ integer (pos 0)
      → token_bucket R now key (pos capacity) (pos ttl) s
        ≡ (ok (negsuc 0), R.expire s now key (pos ttl))
  unfolding token_bucket
  script_denied s now h = ground (arith, L.exists_iff s now key)

  denied_Implements :
      (s : R.State) (now : ℕ)
      → R.get s now key ≡ integer (pos 0)
      → Implements R key now s
          (token_bucket R now key (pos capacity) (pos ttl) s)
          (record { remaining = negsuc 0; bucket = filled 0 (now + ttl) })
  denied_Implements s now h =
      let there : R.get s now key ≢ absent = λ e. ground arith in
      rw (script_denied s now h) (record {
        answers = refl;
        holds = record {
          shown = λ at le. L.get-expire s now at key key ttl there le ∙ rw (bytes_eq_refl key, h);
        };
        spares = record {
          spared = λ j at ne le. L.get-expire s now at key j ttl there le ∙ rw (bytes_ne j key ne);
        };
      })

  script_admitted :
      (s : R.State) (now n : ℕ)
      → R.get s now key ≡ integer (pos (suc n))
      → token_bucket R now key (pos capacity) (pos ttl) s
        ≡ (ok (pos n), R.expire (R.decr_by s now key 1) now key (pos ttl))
  unfolding token_bucket ◌-ℤ◌
  script_admitted s now n h = ground (arith, L.exists_iff s now key)

  decremented :
      (s : R.State) (now n : ℕ)
      → R.get s now key ≡ integer (pos (suc n))
      → R.get (R.decr_by s now key 1) now key ≡ integer (pos n)
  unfolding ◌-ℤ◌
  decremented s now n h =
      L.get-decr_by s now now key key 1 (pos (suc n)) h (omega arith)
      ∙ rw (bytes_eq_refl key, h) (ground arith)

  admitted_Implements :
      (s : R.State) (now n : ℕ)
      → R.get s now key ≡ integer (pos (suc n))
      → Implements R key now s
          (token_bucket R now key (pos capacity) (pos ttl) s)
          (record { remaining = pos n; bucket = filled n (now + ttl) })
  admitted_Implements s now n h =
      let lower = R.decr_by s now key 1 in
      let there : R.get lower now key ≢ absent = λ e. ground (arith, decremented s now n h) in
      rw (script_admitted s now n h) (record {
        answers = refl;
        holds = record {
          shown = λ at le.
              L.get-expire lower now at key key ttl there le
              ∙ rw (bytes_eq_refl key, decremented s now n h);
        };
        spares = record {
          spared = λ j at ne le.
              L.get-expire lower now at key j ttl there le
              ∙ rw (bytes_ne j key ne)
                  (L.get-decr_by s now at key j 1 (pos (suc n)) h le ∙ rw (bytes_ne j key ne));
        };
      })

  poured :
      (s : R.State) (now level : ℕ)
      → R.get s now key ≡ integer (pos level)
      → Implements R key now s
          (token_bucket R now key (pos capacity) (pos ttl) s)
          (pour capacity ttl now level)
  poured s now zero h = denied_Implements s now h
  poured s now (suc n) h = admitted_Implements s now n h

  -- One run of the script, at or after the second from which the server holds the bucket `b`: it
  -- answers what the bucket answers, leaves the bucket that the bucket leaves, and spares all other
  -- keys. The capacity and the lifetime are positive.
  pub token_bucket-touch :
      (s : R.State) (since now : ℕ) (b : Bucket)
      → Holds R key s since b
      → since ≤ now
      → Implements R key now s
          (token_bucket R now key (pos capacity) (pos ttl) s)
          (touch capacity ttl now b)
  unfolding touch
  token_bucket-touch s since now empty h le = fresh_Implements s now (h.shown now le)
  token_bucket-touch s since now (filled level deadline) h le =
      elim (Bool-cases (leb deadline now)) [
        | inl late ↦ rw late (fresh_Implements s now (h.shown now le ∙ ground arith))
        | inr soon ↦ rw soon (poured s now level (h.shown now le ∙ ground arith))
      ]
