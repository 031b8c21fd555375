-- ===== src/Text/Split.antt =====
-- `strings.Split(s, sep)` for a separator of one character, and `strings.TrimSpace`.
use rate_limiter.Base.{
  ℕ, ◌≡◌, ◌≢◌, refl, Bool, ◌&&◌, ◌||◌, List, [], ◌∷◌, ◌++◌, Bytes, leb, ◌==◌, All, if◌then◌else◌,
  Bool-cases, inl, inr, arith,
}

cons_head : ℕ → List Bytes → List Bytes
cons_head c [] = (c ∷ []) ∷ []
cons_head c (p ∷ ps) = (c ∷ p) ∷ ps

unfoldable pub split : ℕ → Bytes → List Bytes
unfolding cons_head
split sep [] = [] ∷ []
split sep (c ∷ s) = let rest = split sep s in if c == sep then [] ∷ rest else cons_head c rest

-- `unicode.IsSpace`
unfoldable pub is_space : ℕ → Bool
is_space c =
    (leb 9 c && leb c 13)
    || c == 32
    || c == 0x85
    || c == 0xa0
    || c == 0x1680
    || (leb 0x2000 c && leb c 0x200a)
    || c == 0x2028
    || c == 0x2029
    || c == 0x202f
    || c == 0x205f
    || c == 0x3000

unfoldable pub trim_start : Bytes → Bytes
unfolding is_space
trim_start [] = []
trim_start (c ∷ s) = let rest = trim_start s in if is_space c then rest else c ∷ s

unfoldable pub keep_unless_space : ℕ → Bytes → Bytes
unfolding is_space
keep_unless_space c [] = if is_space c then [] else c ∷ []
keep_unless_space c (d ∷ s) = c ∷ d ∷ s

unfoldable pub trim_end : Bytes → Bytes
unfolding keep_unless_space
trim_end [] = []
trim_end (c ∷ s) = keep_unless_space c (trim_end s)

unfoldable pub trim_space : Bytes → Bytes
unfolding trim_start trim_end
trim_space s = trim_end (trim_start s)

abbrev pub Lacks : ℕ → Bytes → Type 0
Lacks b = All (λ c. c ≢ b)

cons_head-Lacks :
    (sep c : ℕ) (ps : List Bytes) → c ≢ sep → All (Lacks sep) ps → All (Lacks sep) (cons_head c ps)
unfolding cons_head
cons_head-Lacks sep c [] h k = ((h, tt), tt)
cons_head-Lacks sep c (p ∷ ps) h (kp, ks) = ((h, kp), ks)

pub split-Lacks : (sep : ℕ) (s : Bytes) → All (Lacks sep) (split sep s)
unfolding split
split-Lacks sep [] = (tt, tt)
split-Lacks sep (c ∷ s) = elim (Bool-cases (c == sep)) [
  | inl same ↦ rw same (tt, split-Lacks sep s)
  | inr other ↦
      rw other (cons_head-Lacks sep c (split sep s) (λ e. ground arith) (split-Lacks sep s))
]

-- Splitting at the first separator.
pub split-append :
    (sep : ℕ) (p s : Bytes) → Lacks sep p → split sep (p ++ (sep ∷ s)) ≡ p ∷ split sep s
unfolding split
split-append sep [] s h = ground arith
split-append sep (c ∷ p) s (hc, hp) = ground (arith, split-append sep p s hp)

pub split_single : (sep : ℕ) (p : Bytes) → Lacks sep p → split sep p ≡ p ∷ []
unfolding split
split_single sep [] h = refl
split_single sep (c ∷ p) (hc, hp) = ground (arith, split_single sep p hp)

pub trim_start-Lacks : (b : ℕ) (s : Bytes) → Lacks b s → Lacks b (trim_start s)
unfolding trim_start
trim_start-Lacks b [] h = tt
trim_start-Lacks b (c ∷ s) (hc, hs) = elim (Bool-cases (is_space c)) [
  | inl space ↦ rw space (trim_start-Lacks b s hs)
  | inr other ↦ rw other (hc, hs)
]

keep-Lacks : (b c : ℕ) (s : Bytes) → c ≢ b → Lacks b s → Lacks b (keep_unless_space c s)
unfolding keep_unless_space
keep-Lacks b c [] h k = elim (Bool-cases (is_space c)) [ inl e ↦ rw e tt | inr e ↦ rw e (h, tt) ]
keep-Lacks b c (d ∷ s) h k = (h, k)

pub trim_end-Lacks : (b : ℕ) (s : Bytes) → Lacks b s → Lacks b (trim_end s)
unfolding trim_end
trim_end-Lacks b [] h = tt
trim_end-Lacks b (c ∷ s) (hc, hs) = keep-Lacks b c (trim_end s) hc (trim_end-Lacks b s hs)

pub trim_space-Lacks : (b : ℕ) (s : Bytes) → Lacks b s → Lacks b (trim_space s)
unfolding trim_space
trim_space-Lacks b s h = trim_end-Lacks b (trim_start s) (trim_start-Lacks b s h)
