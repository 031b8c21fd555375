-- ===== src/Sidecar/Bounds.antt =====
-- The range of the sidecar's scores.
use rate_limiter.Base.{
  ◌⊎◌, ℕ, ◌*◌, ◌^◌, ◌≡◌, ◌≢◌, refl, inl, inr, Option, Option-cases, none, some, List, [], ◌∷◌,
  Bytes, arith,
}
use rate_limiter.Base.Int.{ℤ, pos, negsuc}
use rate_limiter.Float.{Float, nan, inf, fin, signed, round_to, bit_length, nearest}
use rate_limiter.Float.Double.{
  add64, weighted, half, one, clip, subtract_from, round_double, round64,
}
use rate_limiter.Float.Bounded.{Between, clip-Between, weighted-Between, add64-Between}
use rate_limiter.Ml.{FeatureVector}
use rate_limiter.Sidecar.Runtime.{Runtime, encode_feature_vector}
use rate_limiter.Sidecar.Forest.{forest_score, model_of}
use rate_limiter.Sidecar.Sequence.{infer, seq_key, sequence_score, read_sequence, prepare_input}
use rate_limiter.Sidecar.Scorer.{combine, combine_scores, lstm_weight}

-- The models give numbers.
pub record IsNumeric (R : Runtime) : Type 0 where
  pub forest_number :
      (m : R.Forest) (v : List Float) (x : Float) → R.decision_function m v ≡ some x → x ≢ nan
  pub session_number :
      (m : R.Session) (v : List (List Float)) (x : Float) → R.run m v ≡ some x → x ≢ nan

-- A score, if there is one, from 0 to the bound.
abbrev pub Scores : ℕ → Option Float → Type 0
Scores bound none = Unit
Scores bound (some x) = Between bound x

round_double_number : (base : ℕ) (a : ℤ) → round_double base a ≢ nan
unfolding round_double signed
round_double_number base (pos n) h = ground arith
round_double_number base (negsuc n) h = ground arith

subtract_from_number : (a : ℤ) (x : Float) → x ≢ nan → subtract_from a x ≢ nan
unfolding subtract_from
subtract_from_number a nan h = h
subtract_from_number a (inf s) h = λ e. cc
subtract_from_number a (fin b) h = round_double_number 1 _

-- `clip` of what a model gives.
clip-Scores :
    (a : ℤ) (o : Option Float)
    → ((x : Float) → o ≡ some x → x ≢ nan)
    → Scores one (elim o [ none ↦ none | some x ↦ some (clip (subtract_from a x)) ])
clip-Scores a none h = tt
clip-Scores a (some x) h = clip-Between (subtract_from a x) (subtract_from_number a x (h x refl))

infer_clip :
    (o : Option Float)
    → ((x : Float) → o ≡ some x → x ≢ nan)
    → Between one (elim o [ none ↦ fin (pos half) | some x ↦ clip x ])
infer_clip none h = (half, refl, omega arith)
infer_clip (some x) h = clip-Between x (h x refl)

weighted-half : weighted lstm_weight (fin (pos half)) ≡ fin (pos (3602879701896397 * 2 ^ 1020))
unfolding weighted round_double round64 round_to bit_length nearest signed
weighted-half = refl

-- The weighted mean of two scores from 0 to 1.
combine-Between :
    (x y : Float) → Between one x → Between one y → Between (1 * 2 ^ 1074) (combine x y)
unfolding combine
combine-Between x y (m, ex, hm) (n, ey, hn) =
    let A = weighted-Between 5404319552844595 m (omega arith) hm in
    let B = weighted-Between 3602879701896397 n (omega arith) hn in
    rw (ex, ey, A.1, B.1)
      (add64-Between (5404319552844595 * 2 ^ 1021) (3602879701896397 * 2 ^ 1021) A.0 B.0 1 1074 A.2
        B.2 (omega arith) (omega arith) (omega arith))

-- Without the sequence model the score of the sequence is a half.
pub combine-half :
    (x : Float) → Between one x → Between (13 * 2 ^ 1070) (combine x (fin (pos half)))
unfolding combine
combine-half x (m, ex, hm) =
    let A = weighted-Between 5404319552844595 m (omega arith) hm in
    let B = weighted-half in
    rw (ex, A.1, B)
      (add64-Between (5404319552844595 * 2 ^ 1021) (3602879701896397 * 2 ^ 1020) A.0
        (3602879701896397 * 2 ^ 1020) 13 1070 A.2 (omega arith) (omega arith) (omega arith)
        (omega arith))

-- A number from 0 to the bound, or NaN.
abbrev pub Limited : ℕ → Float → Type 0
Limited bound x = (x ≡ nan) ⊎ Between bound x

-- A score, if there is one, from 0 to the bound, or NaN.
abbrev pub Limits : ℕ → Option Float → Type 0
Limits bound none = Unit
Limits bound (some x) = Limited bound x

clip-Limited : (x : Float) → Limited one (clip x)
unfolding clip
clip-Limited nan = inl refl
clip-Limited (inf s) = inr (clip-Between (inf s) (λ e. cc))
clip-Limited (fin a) = inr (clip-Between (fin a) (λ e. cc))

pub combine-half-Limited :
    (x : Float) → Limited one x → Limited (13 * 2 ^ 1070) (combine x (fin (pos half)))
unfolding combine weighted add64
combine-half-Limited x (inl e) = rw e (inl refl)
combine-half-Limited x (inr h) = inr (combine-half x h)

clipped-Limits :
    (a : ℤ) (o : Option Float)
    → Limits one (elim o [ none ↦ none | some x ↦ some (clip (subtract_from a x)) ])
clipped-Limits a none = tt
clipped-Limits a (some x) = clip-Limited (subtract_from a x)

pub forest_score-Limits :
    (R : Runtime) (ip : Bytes) (fv : FeatureVector) (clock : ℕ) (s : R.State)
    → Limits one (forest_score R ip fv clock s)
unfolding forest_score
forest_score-Limits R ip fv clock s = elim (Option-cases (model_of R ip clock s)) [
  | inl missing ↦ rw (missing, forest_score) (inr (half, refl, omega arith))
  | inr (m, found) ↦
      rw (found, forest_score)
        (clipped-Limits (pos half) (R.decision_function m (encode_feature_vector R fv)))
]

module _ (R : Runtime) (N : IsNumeric R) where
  pub forest_score-Scores :
      (ip : Bytes) (fv : FeatureVector) (clock : ℕ) (s : R.State)
      → Scores one (forest_score R ip fv clock s)
  unfolding forest_score
  forest_score-Scores ip fv clock s = elim (Option-cases (model_of R ip clock s)) [
    | inl missing ↦ rw (missing, forest_score) (half, refl, omega arith)
    | inr (m, found) ↦
        rw (found, forest_score)
          (clip-Scores (pos half) (R.decision_function m (encode_feature_vector R fv))
            (λ x e. N.forest_number m (encode_feature_vector R fv) x e))
  ]

  infer-Between : (m : R.Session) (seq : List (List Float)) → Between one (infer R m seq)
  unfolding infer
  infer-Between m seq =
      infer_clip (R.run m (prepare_input seq)) (λ x e. N.session_number m (prepare_input seq) x e)

  read-Scores :
      (m : R.Session) (o : Option (List (List Float)))
      → Scores one (elim o [
        | none ↦ none
        | some [] ↦ some (fin (pos half))
        | some (v ∷ vs) ↦ some (infer R m (v ∷ vs))
      ])
  read-Scores m none = tt
  read-Scores m (some []) = (half, refl, omega arith)
  read-Scores m (some (v ∷ vs)) = infer-Between m (v ∷ vs)

  pub sequence_score-Scores :
      (ip : Bytes) (clock : ℕ) (s : R.State) → Scores one (sequence_score R ip clock s)
  unfolding sequence_score
  sequence_score-Scores ip clock s = elim (Option-cases R.session) [
    | inl missing ↦ rw (missing, sequence_score) (half, refl, omega arith)
    | inr (m, loaded) ↦
        rw (loaded, sequence_score) (read-Scores m (read_sequence R (seq_key ip) clock s))
  ]

  pub combine_scores-Scores :
      (x y : Option Float)
      → Scores one x
      → Scores one y
      → Scores (1 * 2 ^ 1074) (combine_scores x y)
  unfolding combine_scores
  combine_scores-Scores none y hx hy = tt
  combine_scores-Scores (some a) none hx hy = tt
  combine_scores-Scores (some a) (some b) hx hy = combine-Between a b hx hy
