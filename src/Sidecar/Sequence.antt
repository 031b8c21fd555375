-- ===== src/Sidecar/Sequence.antt =====
-- ml-sidecar/models/lstm_model.py: the last requests of a subnet, and their score.
use rate_limiter.Base.{
  ℕ, ◌-◌, Option, none, some, List, [], ◌∷◌, ◌++◌, map, leb, Bytes, codes, ◌==◌, if◌then◌else◌,
  length, take, drop, replicate,
}
use rate_limiter.Base.Int.{pos}
use rate_limiter.Float.{Float, fin, to_float32}
use rate_limiter.Float.Double.{half, clip}
use rate_limiter.Text.Split.{split}
use rate_limiter.Ml.{FeatureVector}
use rate_limiter.Sidecar.Runtime.{Runtime, encode_feature_vector}

abbrev pub max_seq_len : ℕ
max_seq_len = 20

abbrev pub feature_dim : ℕ
feature_dim = 9

abbrev pub seq_ttl : ℕ
seq_ttl = 3600

-- `sep.join(parts)`
unfoldable pub join_by : ℕ → List Bytes → Bytes
join_by sep [] = []
join_by sep (p ∷ []) = p
join_by sep (p ∷ q ∷ parts) = p ++ (sep ∷ join_by sep (q ∷ parts))

unfoldable pub ip_to_subnet : Bytes → Bytes
ip_to_subnet ip =
    let parts = split b'.' ip in
    let groups = split b':' ip in
    if length parts == 4
    then join_by b'.' (take 3 parts)
    else if leb 3 (length groups)
    then join_by b':' (take 3 groups)
    else ip

unfoldable pub seq_key : Bytes → Bytes
seq_key ip = codes "seq:" ++ ip_to_subnet ip

-- `xs[-n:]`
unfoldable pub last_items {ℓ} : {A : Type ℓ} → ℕ → List A → List A
last_items n xs = drop (length xs - n) xs

-- `_prepare_input`, without the outer axis
unfoldable pub prepare_row : List Float → List Float
prepare_row vec = take feature_dim (map to_float32 vec ++ replicate feature_dim (fin (pos 0)))

unfoldable pub prepare_input : List (List Float) → List (List Float)
prepare_input seq = take max_seq_len (
    map prepare_row (last_items max_seq_len seq)
    ++ replicate max_seq_len (replicate feature_dim (fin (pos 0))))

module _ (R : Runtime) where
  -- The two accesses of `push_feature_vector`; `none` is the exception of a text that is no JSON.
  unfoldable pub read_sequence : Bytes → ℕ → R.State → Option (List (List Float))
  read_sequence key clock s = elim (R.get s clock key) [
    | none ↦ some []
    | some raw ↦ if length raw == 0 then some [] else R.loads raw
  ]

  unfoldable pub write_sequence : Bytes → FeatureVector → ℕ → List (List Float) → R.State → R.State
  write_sequence key fv clock seq s =
      R.setex s clock key seq_ttl
        (R.dumps (last_items max_seq_len (seq ++ encode_feature_vector R fv ∷ [])))

  unfoldable pub push_feature_vector : Bytes → FeatureVector → ℕ → R.State → Option R.State
  push_feature_vector ip fv clock s = elim (read_sequence (seq_key ip) clock s) [
    | none ↦ none
    | some seq ↦ some (write_sequence (seq_key ip) fv clock seq s)
  ]

  -- The score of a sequence that is not empty.
  unfoldable pub infer : R.Session → List (List Float) → Float
  infer session seq = elim (R.run session (prepare_input seq)) [
    | none ↦ fin (pos half)
    | some x ↦ clip x
  ]

  -- `score`
  unfoldable pub sequence_score : Bytes → ℕ → R.State → Option Float
  sequence_score ip clock s = elim R.session [
    | none ↦ some (fin (pos half))
    | some session ↦ elim (read_sequence (seq_key ip) clock s) [
      | none ↦ none
      | some [] ↦ some (fin (pos half))
      | some (v ∷ vs) ↦ some (infer session (v ∷ vs))
    ]
  ]
