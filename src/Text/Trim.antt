-- ===== src/Text/Trim.antt =====
-- `strings.TrimSpace` applied twice.
use rate_limiter.Base.{ℕ, ◌≡◌, refl, ap, ◌∙◌, false, [], ◌∷◌, Bytes, Bool-cases, inl, inr, arith}
use rate_limiter.Text.Split.{is_space, trim_start, trim_end, keep_unless_space, trim_space}

-- A text that does not begin with a space.
abbrev NoLead : Bytes → Type 0
NoLead [] = Unit
NoLead (c ∷ s) = is_space c ≡ false

trim_start-NoLead : (s : Bytes) → NoLead (trim_start s)
unfolding trim_start
trim_start-NoLead [] = tt
trim_start-NoLead (c ∷ s) = elim (Bool-cases (is_space c)) [
  | inl space ↦ rw space (trim_start-NoLead s)
  | inr other ↦ rw other other
]

trim_start_of_NoLead : (s : Bytes) → NoLead s → trim_start s ≡ s
unfolding trim_start
trim_start_of_NoLead [] h = refl
trim_start_of_NoLead (c ∷ s) h = rw h

keep-NoLead : (c : ℕ) (s : Bytes) → is_space c ≡ false → NoLead (keep_unless_space c s)
unfolding keep_unless_space
keep-NoLead c [] h = rw h h
keep-NoLead c (d ∷ s) h = h

trim_end-NoLead : (s : Bytes) → NoLead s → NoLead (trim_end s)
unfolding trim_end
trim_end-NoLead [] h = tt
trim_end-NoLead (c ∷ s) h = keep-NoLead c (trim_end s) h

trim_end_again : (s : Bytes) → trim_end (trim_end s) ≡ trim_end s
unfolding trim_end
trim_end_again [] = refl
trim_end_again (c ∷ s) = kept c (trim_end s) (trim_end_again s)
  where
    kept :
        (c : ℕ) (r : Bytes)
        → trim_end r ≡ r
        → trim_end (keep_unless_space c r) ≡ keep_unless_space c r
    kept c [] h = elim (Bool-cases (is_space c)) [
      | inl space ↦ ground arith
      | inr other ↦ ground arith
    ]
    kept c (d ∷ r) h = ap (keep_unless_space c) h

pub trim_space_again : (s : Bytes) → trim_space (trim_space s) ≡ trim_space s
unfolding trim_space
trim_space_again s =
    ap trim_end (trim_start_of_NoLead _ (trim_end-NoLead _ (trim_start-NoLead s)))
    ∙ trim_end_again (trim_start s)
