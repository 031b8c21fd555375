-- ===== src/Sidecar/Accesses.antt =====
-- The accesses of the sidecar to one sequence: what a reading finds behind a writing.
use rate_limiter.Base.{
  ℕ, suc, ◌+◌, ◌-◌, ◌≤◌, ◌<◌, ◌≡◌, ◌≢◌, ◌∙◌, refl, ap, sym, inl, inr, Bool-cases, false, some, List,
  [], ◌∷◌, ◌++◌, Bytes, leb, ◌==◌, length, length-append, drop, length-drop, drop-append, drop-suc,
  arith,
}
use rate_limiter.Float.{Float}
use rate_limiter.Ml.{FeatureVector}
use rate_limiter.Sidecar.Runtime.{Runtime, IsLawful, encode_feature_vector}
use rate_limiter.Sidecar.Sequence.{max_seq_len, seq_ttl, last_items, read_sequence, write_sequence}

last_items_over :
    {A : Type 0} (n : ℕ) (h : List A) (x : A)
    → n < length h
    → last_items n (last_items n h ++ x ∷ []) ≡ last_items n (h ++ x ∷ [])
unfolding last_items
last_items_over {A} n h x many =
    let a = length h - n in
    let kept : length (drop a h) ≡ n = omega (arith, length-drop a h) in
    let one : length (drop a h ++ x ∷ []) - n ≡ 1 =
      omega (arith, length-append (drop a h) (x ∷ [])) in
    let all : length (h ++ x ∷ []) - n ≡ suc a = omega (arith, length-append h (x ∷ [])) in
    ap (λ k. drop k (drop a h ++ x ∷ [])) one
    ∙ (ap (drop 1) (sym (drop-append a h (x ∷ []) (omega arith)))
        ∙ (drop-suc a (h ++ x ∷ []) ∙ sym (ap (λ k. drop k (h ++ x ∷ [])) all)))

-- Cutting before one more item comes makes no difference.
pub last_items_again :
    {A : Type 0} (n : ℕ) (h : List A) (x : A)
    → last_items n (last_items n h ++ x ∷ []) ≡ last_items n (h ++ x ∷ [])
unfolding last_items
last_items_again n h x = elim (Bool-cases (leb (length h) n)) [
  | inl few ↦ let e : length h - n ≡ 0 = ground arith in rw e refl
  | inr many ↦ last_items_over n h x (ground arith)
]

module _ (R : Runtime) (L : IsLawful R) where
  pub read_own :
      (key : Bytes) (fv : FeatureVector) (clock at : ℕ) (seq : List (List Float)) (s : R.State)
      → clock ≤ at
      → at < clock + seq_ttl
      → read_sequence R key at (write_sequence R key fv clock seq s)
        ≡ some (last_items max_seq_len (seq ++ encode_feature_vector R fv ∷ []))
  unfolding read_sequence write_sequence
  read_own key fv clock at seq s late soon =
      let kept = last_items max_seq_len (seq ++ encode_feature_vector R fv ∷ []) in
      let full : (length (R.dumps kept) == 0) ≡ false = let h = L.dumps_text kept in ground arith in
      rw (L.get-setex_own s clock at key seq_ttl (R.dumps kept) late soon, full, read_sequence)
        (L.loads-dumps kept)

  pub read_over :
      (key : Bytes) (fv : FeatureVector) (clock at : ℕ) (seq : List (List Float)) (s : R.State)
      → clock + seq_ttl ≤ at
      → read_sequence R key at (write_sequence R key fv clock seq s) ≡ some []
  unfolding read_sequence write_sequence
  read_over key fv clock at seq s late =
      rw
        (
          L.get-setex_over s clock at key seq_ttl
              (R.dumps (last_items max_seq_len (seq ++ encode_feature_vector R fv ∷ []))) late,
          read_sequence,
        )
        refl

  pub read_other :
      (key j : Bytes) (fv : FeatureVector) (clock at : ℕ) (seq : List (List Float)) (s : R.State)
      → j ≢ key
      → read_sequence R j at (write_sequence R key fv clock seq s) ≡ read_sequence R j at s
  unfolding read_sequence write_sequence
  read_other key j fv clock at seq s apart =
      rw
        (
          L.get-setex_other s clock at j key seq_ttl
              (R.dumps (last_items max_seq_len (seq ++ encode_feature_vector R fv ∷ []))) apart,
          read_sequence,
        )
        refl
