-- ===== src/Tests/Windows.antt =====
-- A server of sorted sets, and the theorem on the sliding window at concrete requests.
use rate_limiter.Base.{
  ℕ, ◌+◌, ◌≤◌, ◌≡◌, refl, Bool, true, false, Option, none, some, List, [], ◌∷◌, Bytes, codes,
  bytes_eq, bytes_eq_refl, ltb, if◌then◌else◌, length, arith,
}
use rate_limiter.Window.Sets.{Entry, within, without, SortedSets, IsLawful}
use rate_limiter.Window.Exact.{reference, window_replies, Keeps, window_replies-reference}

-- The entries, and the time at which the set is forgotten, if there is one.
record Row : Type 0 where
  entries : List Entry
  deadline : Option ℕ

is_live : Option ℕ → ℕ → Bool
is_live none at = true
is_live (some deadline) at = ltb at deadline

abbrev Rows : Type 0
Rows = Bytes → Row

shown : Rows → ℕ → Bytes → List Entry
unfolding is_live
shown s at k = let r = s k in if is_live r.deadline at then r.entries else []

put : Rows → Bytes → Row → Rows
put s k r j = if bytes_eq j k then r else s j

abbrev rows : SortedSets
rows = record {
  State = Rows;
  view = shown;
  zremrangebyscore = λ s clock k window now.
      put s k (record { entries = within window now (shown s clock k); deadline = none });
  zcard = λ s clock k. length (shown s clock k);
  zadd = λ s clock k e.
      put s k (record { entries = e ∷ without e.member (shown s clock k); deadline = none });
  expire = λ s clock k lifetime.
      put s k (record { entries = shown s clock k; deadline = some (clock + lifetime) });
}

shown-put :
    (s : Rows) (at : ℕ) (k : Bytes) (r : Row)
    → shown (put s k r) at k ≡ (if is_live r.deadline at then r.entries else [])
unfolding shown put
shown-put s at k r = rw (bytes_eq_refl k) refl

shown_expire :
    (s : Rows) (clock at : ℕ) (k : Bytes) (lifetime : ℕ)
    → clock ≤ at
    → shown
        (put s k (record { entries = shown s clock k; deadline = some (clock + lifetime) }))
        at
        k
      ≡ (if ltb at (clock + lifetime) then shown s clock k else [])
unfolding is_live
shown_expire s clock at k lifetime h =
    shown-put s at k (record { entries = shown s clock k; deadline = some (clock + lifetime) })

rows-IsLawful : IsLawful rows
unfolding is_live
rows-IsLawful = record {
  view-zremrangebyscore = λ s clock k window now.
      shown-put s clock k
        (record { entries = within window now (shown s clock k); deadline = none });
  zcard_length = λ s clock k. refl;
  view-zadd = λ s clock k e.
      shown-put s clock k
        (record { entries = e ∷ without e.member (shown s clock k); deadline = none });
  view-expire = shown_expire;
}

abbrev key : Bytes
key = codes "bucket:{203.0.113.5}"

abbrev bare : Rows
bare k = record { entries = []; deadline = none }

bare-Keeps : Keeps rows rows-IsLawful key 2 10 bare 0 []
unfolding shown
bare-Keeps = record { recent_kept = λ at now from le. refl; old = λ at from. tt; past_old = tt }

-- Two tokens in a window of 10: the third request is denied, the fourth comes when the first is old.
abbrev times : List ℕ
times = 1 ∷ 2 ∷ 3 ∷ 11 ∷ 12 ∷ []

window_replies-reference_example : window_replies rows key 2 10 times bare ≡ reference 2 10 [] times
window_replies-reference_example =
    window_replies-reference rows rows-IsLawful key 2 10 times [] bare 0 bare-Keeps
      (omega arith, (omega arith, (omega arith, (omega arith, (omega arith, tt)))))

third_denied : reference 2 10 [] times ≡ true ∷ true ∷ false ∷ true ∷ true ∷ []
unfolding reference
third_denied = refl
