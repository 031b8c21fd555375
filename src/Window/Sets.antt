-- ===== src/Window/Sets.antt =====
-- The commands on sorted sets that the sliding-window script calls, and what is documented of them.
use rate_limiter.Base.{ℕ, ◌+◌, ◌≤◌, ◌≡◌, List, [], ◌∷◌, Bytes, ltb, ◌==◌, if◌then◌else◌, length}

pub record Entry : Type 0 where
  pub score : ℕ
  pub member : ℕ

-- The entries whose score is above `now - window`, at whatever `now`.
abbrev pub within : ℕ → ℕ → List Entry → List Entry
within window now [] = []
within window now (e ∷ es) =
    let rest = within window now es in if ltb now (e.score + window) then e ∷ rest else rest

-- The entries of other members.
abbrev pub without : ℕ → List Entry → List Entry
without m [] = []
without m (e ∷ es) = let rest = without m es in if e.member == m then rest else e ∷ rest

pub record SortedSets : Type 1 where
  pub State : Type 0
  -- The set under a key as it is at a time of the server's clock; the empty list for no set.
  pub view : State → ℕ → Bytes → List Entry
  -- ZREMRANGEBYSCORE key -inf (now - window), given by the window and `now`
  pub zremrangebyscore : State → ℕ → Bytes → ℕ → ℕ → State
  pub zcard : State → ℕ → Bytes → ℕ
  pub zadd : State → ℕ → Bytes → Entry → State
  pub expire : State → ℕ → Bytes → ℕ → State

pub record IsLawful (R : SortedSets) : Type 0 where
  pub view-zremrangebyscore :
      (s : R.State) (clock : ℕ) (k : Bytes) (window now : ℕ)
      → R.view (R.zremrangebyscore s clock k window now) clock k
        ≡ within window now (R.view s clock k)
  pub zcard_length :
      (s : R.State) (clock : ℕ) (k : Bytes) → R.zcard s clock k ≡ length (R.view s clock k)
  -- The order of the entries is left open by the list's reader, who counts.
  pub view-zadd :
      (s : R.State) (clock : ℕ) (k : Bytes) (e : Entry)
      → R.view (R.zadd s clock k e) clock k ≡ e ∷ without e.member (R.view s clock k)
  pub view-expire :
      (s : R.State) (clock at : ℕ) (k : Bytes) (lifetime : ℕ)
      → clock ≤ at
      → R.view (R.expire s clock k lifetime) at k
        ≡ (if ltb at (clock + lifetime) then R.view s clock k else [])
