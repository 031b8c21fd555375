-- ===== src/Config/Lists.antt =====
-- The comma-separated lists of addresses.
use rate_limiter.Base.{
  ◌≡◌, ◌≢◌, refl, ◌∙◌, ap, List, [], ◌∷◌, ◌++◌, Bytes, ◌==◌, length, All, Bool-cases, inl, inr,
  arith,
}
use rate_limiter.Text.Split.{
  split, trim_space, Lacks, split-Lacks, split-append, split_single, trim_space-Lacks,
}
use rate_limiter.Text.Trim.{trim_space_again}
use rate_limiter.Config.{keep_parts, split_csv}

-- An address as `splitCSV` returns it.
pub record IsAddress (p : Bytes) : Type 0 where
  pub non_empty : p ≢ []
  pub no_comma : Lacks b',' p
  pub trimmed : trim_space p ≡ p

-- The list written with commas.
pub join : List Bytes → Bytes
join [] = []
join (p ∷ []) = p
join (p ∷ q ∷ ps) = p ++ (b',' ∷ join (q ∷ ps))

keep_parts-kept :
    (p : Bytes) (parts : List Bytes) → IsAddress p → keep_parts (p ∷ parts) ≡ p ∷ keep_parts parts
unfolding keep_parts
keep_parts-kept [] parts A = absurd (A.non_empty refl)
keep_parts-kept (c ∷ p) parts A = rw A.trimmed (ground arith)

-- A list of addresses written with commas is read back as the list; no address gives no text.
pub split_csv-join : (ps : List Bytes) → All IsAddress ps → split_csv (join ps) ≡ ps
unfolding split_csv join split trim_space
split_csv-join [] h = refl
split_csv-join (p ∷ []) (A, _) =
    ap keep_parts (split_single b',' p A.no_comma) ∙ keep_parts-kept p [] A
split_csv-join (p ∷ q ∷ ps) (A, rest) =
    ap keep_parts (split-append b',' p _ A.no_comma)
    ∙ keep_parts-kept p (split b',' (join (q ∷ ps))) A
    ∙ ap (λ r. p ∷ r) (split_csv-join (q ∷ ps) rest)

keep_parts-All : (parts : List Bytes) → All (Lacks b',') parts → All IsAddress (keep_parts parts)
unfolding keep_parts
keep_parts-All [] h = tt
keep_parts-All (p ∷ parts) (hp, hs) = elim (Bool-cases (length (trim_space p) == 0)) [
  | inl blank ↦ rw blank (keep_parts-All parts hs)
  | inr filled ↦ rw filled (
    record {
      non_empty = λ e. ground arith;
      no_comma = trim_space-Lacks b',' p hp;
      trimmed = trim_space_again p;
    },
    keep_parts-All parts hs,
  )
]

-- Whatever the text, each address that `splitCSV` returns is non-empty, holds no comma and has no
-- space at its ends.
pub split_csv-IsAddress : (s : Bytes) → All IsAddress (split_csv s)
unfolding split_csv
split_csv-IsAddress s = keep_parts-All (split b',' s) (split-Lacks b',' s)
