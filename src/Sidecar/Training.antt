-- ===== src/Sidecar/Training.antt =====
-- The forest that was trained for a client, in the store that also keeps the sequences.
use rate_limiter.Base.{
  sym, ◌-◌, Bool-cases, ℕ, ◌+◌, ◌≤◌, ◌<◌, ◌≡◌, ◌≢◌, ◌∙◌, refl, ap, subst, false, Option-cases, inl,
  inr, some, List, [], ◌∷◌, Bytes, ltb, length, arith,
}
use rate_limiter.Base.Int.{ℤ, pos}
use rate_limiter.Sidecar.Runtime.{Runtime, IsLawful}
use rate_limiter.Float.{Float}
use rate_limiter.Sidecar.Dicts.{Members}
use rate_limiter.Sidecar.Forest.{
  encode_all, redis_key, get_set_model, fit, store_model, load_model, model_of, min_samples_for_fit,
  model_ttl,
}
use rate_limiter.Sidecar.Sequence.{seq_key, read_sequence, write_sequence, push_feature_vector}
use rate_limiter.Sidecar.Recent.{Push, push_all}

-- `model:iso:…` against `seq:…`
keys_apart : (R : Runtime) (ip j : Bytes) → redis_key R ip ≢ seq_key j
unfolding redis_key seq_key
keys_apart R ip j e = ground arith

pub fit_stores :
    (R : Runtime) (ip : Bytes) (history : List Members) (vs : List (List Float)) (clock : ℕ)
    (s : R.State)
    → min_samples_for_fit ≤ length history
    → encode_all R history ≡ some vs
    → fit R ip history clock s ≡ some (store_model R ip (R.train vs) clock s)
unfolding fit
fit_stores R ip history vs clock s enough encoded =
    let many : ltb (length history) min_samples_for_fit ≡ false = ground arith in
    rw (many, fit, encoded) refl

module _ (R : Runtime) (L : IsLawful R) where
  -- The key of the model has the same value and the same seconds left.
  SameModel : Bytes → ℕ → R.State → R.State → Type 0
  SameModel ip at s t =
      (R.get t at (redis_key R ip) ≡ R.get s at (redis_key R ip))
      × (R.ttl t at (redis_key R ip) ≡ R.ttl s at (redis_key R ip))

  push_other :
      (ip : Bytes) (at : ℕ) (p : Push) (s t : R.State)
      → push_feature_vector R p.ip p.vector p.at s ≡ some t
      → SameModel ip at s t
  unfolding push_feature_vector write_sequence SameModel
  push_other ip at p s t h = elim (Option-cases (read_sequence R (seq_key p.ip) p.at s)) [
    | inl failed ↦ absurd (let e = rw (failed, push_feature_vector) at h in ground arith)
    | inr (seq, found) ↦
        let e : write_sequence R (seq_key p.ip) p.vector p.at seq s ≡ t =
          let q = rw (found, push_feature_vector) at h in cc in
        subst (SameModel ip at s) e (
          L.get-setex_other s p.at at (redis_key R ip) (seq_key p.ip) _ _ (keys_apart R ip p.ip),
          L.ttl-setex_other s p.at at (redis_key R ip) (seq_key p.ip) _ _ (keys_apart R ip p.ip),
        )
  ]

  push_all_other :
      (ip : Bytes) (at : ℕ) (ps : List Push) (s t : R.State)
      → push_all R ps s ≡ some t
      → SameModel ip at s t
  unfolding push_all SameModel
  push_all_other ip at [] s t h = let e : s ≡ t = cc in subst (SameModel ip at s) e (refl, refl)
  push_all_other ip at (p ∷ ps) s t h =
      elim (Option-cases (push_feature_vector R p.ip p.vector p.at s)) [
        | inl failed ↦ absurd (let e = rw (failed, push_all) at h in ground arith)
        | inr (u, pushed) ↦
            let rest = push_all_other ip at ps u t (rw (pushed, push_all) at h) in
            let first = push_other ip at p s u pushed in (rest.0 ∙ first.0, rest.1 ∙ first.1)
      ]

  script_reads :
      (key : Bytes) (at : ℕ) (t : R.State) (v : Bytes) (left : ℤ)
      → R.get t at key ≡ some v
      → R.ttl t at key ≡ left
      → get_set_model R key at t ≡ some (v, left)
  unfolding get_set_model
  script_reads key at t v left kept lasts = elim (Bool-cases (R.exists t at key)) [
    | inl there ↦ rw (there, kept, lasts) refl
    | inr gone ↦ absurd (let e = (L.exists_iff t at key).0 gone in ground arith)
  ]

  -- For a week after 20 or more vectors were fitted for an address, the model of that address is the
  -- forest trained on them, and the script for stored models gives its bytes with the seconds that are
  -- left, whatever vectors are pushed in between.
  pub fit_model :
      (ip : Bytes) (history : List Members) (vs : List (List Float)) (clock at : ℕ) (ps : List Push)
      (s : R.State) (fitted t : R.State)
      → min_samples_for_fit ≤ length history
      → encode_all R history ≡ some vs
      → fit R ip history clock s ≡ some fitted
      → clock ≤ at
      → at < clock + model_ttl
      → push_all R ps fitted ≡ some t
      → (model_of R ip at t ≡ some (R.train vs))
        × (get_set_model R (redis_key R ip) at t
            ≡ some (R.joblib_dump (R.train vs), pos (clock + model_ttl - at)))
  unfolding store_model model_of load_model SameModel
  fit_model ip history vs clock at ps s fitted t enough encoded done late soon pushed =
      let m = R.train vs in
      let stored : fitted ≡ store_model R ip m clock s =
        let e = sym done ∙ fit_stores R ip history vs clock s enough encoded in cc in
      let same = push_all_other ip at ps fitted t pushed in
      let kept : R.get t at (redis_key R ip) ≡ some (R.joblib_dump m) =
        same.0
        ∙ (ap (λ u. R.get u at (redis_key R ip)) stored
            ∙ L.get-setex_own s clock at (redis_key R ip) model_ttl (R.joblib_dump m) late soon) in
      let left : R.ttl t at (redis_key R ip) ≡ pos (clock + model_ttl - at) =
        same.1
        ∙ (ap (λ u. R.ttl u at (redis_key R ip)) stored
            ∙ L.ttl-setex_own s clock at (redis_key R ip) model_ttl (R.joblib_dump m) late soon) in
      (
        rw (kept, model_of, load_model, L.joblib_load-dump m) refl,
        script_reads (redis_key R ip) at t (R.joblib_dump m) _ kept left,
      )
