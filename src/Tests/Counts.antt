-- ===== src/Tests/Counts.antt =====
-- A shared dictionary with room for all, and the theorem on the counters at a few requests.
use rate_limiter.Base.{
  ℕ, ◌+◌, ◌*◌, ◌≤◌, ◌<◌, ◌≡◌, ◌≢◌, ◌⊎◌, ◌∙◌, refl, ap, sym, inl, inr, Bool-cases, Option, none,
  some, List, [], ◌∷◌, Bytes, codes, bytes_eq, bytes_eq_iff, ltb, if◌then◌else◌, arith,
}
use rate_limiter.Nginx.Counters.{
  SharedDict, IsLawful, CountWindow, counter_key, get_rates, increment, increment_one, rate_of,
}
use rate_limiter.Nginx.Windows.{count_all, rates_never_over}

-- The newest row of a key counts.
record Row : Type 0 where
  key : Bytes
  value : ℕ
  expiry : ℕ

find : List Row → Bytes → Option Row
find [] k = none
find (r ∷ rs) k = let rest = find rs k in if bytes_eq r.key k then some r else rest

alive : ℕ → Option Row → Option ℕ
alive at none = none
alive at (some r) = if ltb at r.expiry then some r.value else none

-- The row that takes the place of the one found.
next_row : ℕ → Bytes → ℕ → Option Row → Row
next_row clock k ttl none = record { key = k; value = 1; expiry = clock + ttl * 1000 }
next_row clock k ttl (some r) =
    if ltb clock r.expiry
    then record { key = k; value = r.value + 1; expiry = r.expiry }
    else record { key = k; value = 1; expiry = clock + ttl * 1000 }

abbrev rows : SharedDict
rows = record {
  State = List Row;
  incr = λ s clock k ttl. let r = next_row clock k ttl (find s k) in (some r.value, r ∷ s);
  get = λ s at k. alive at (find s k);
}

next_row-key : (clock : ℕ) (k : Bytes) (ttl : ℕ) (o : Option Row) → (next_row clock k ttl o).key ≡ k
unfolding next_row
next_row-key clock k ttl none = refl
next_row-key clock k ttl (some r) = ground arith

found_own : (r : Row) (s : List Row) (k : Bytes) → r.key ≡ k → find (r ∷ s) k ≡ some r
unfolding find
found_own r s k e = ground (arith, (bytes_eq_iff r.key k).1 e)

found_other : (r : Row) (s : List Row) (j k : Bytes) → r.key ≡ k → j ≢ k → find (r ∷ s) j ≡ find s j
unfolding find
found_other r s j k e ne = elim (Bool-cases (bytes_eq r.key j)) [
  | inl same ↦ absurd (ne (sym ((bytes_eq_iff r.key j).0 same) ∙ e))
  | inr differ ↦ ground arith
]

next_alive :
    (clock at : ℕ) (k : Bytes) (ttl x : ℕ) (o : Option Row)
    → clock ≤ at
    → alive at (some (next_row clock k ttl o)) ≡ some x
    → ((u : ℕ) × (alive at o ≡ some u) × (x ≡ u + 1)) ⊎ ((x ≡ 1) × (at < clock + ttl * 1000))
unfolding alive next_row
next_alive clock at k ttl x none le h = inr (ground arith)
next_alive clock at k ttl x (some r) le h = elim (Bool-cases (ltb clock r.expiry)) [
  | inl there ↦ inl (r.value, ground arith, ground arith)
  | inr over ↦ inr (ground arith)
]

rows-IsLawful : IsLawful rows
rows-IsLawful = record {
  incr_own = λ s clock at k ttl v x counted le shows. next_alive clock at k ttl x (find s k) le (
      sym (
        ap (alive at)
          (found_own (next_row clock k ttl (find s k)) s k (next_row-key clock k ttl (find s k))))
      ∙ shows);
  incr_failed = λ s clock at k ttl x failed le shows. absurd (ground arith);
  incr_other = λ s clock at j k ttl x ne le shows.
      sym (
        ap (alive at) (
          found_other (next_row clock k ttl (find s k)) s j k (next_row-key clock k ttl (find s k))
            ne))
      ∙ shows;
}

abbrev visitor : Bytes
visitor = codes "203.0.113.5"

-- Four requests, one of them from another address.
abbrev visits : List (Bytes × ℕ)
visits = (visitor, 1000) ∷ (codes "203.0.113.6", 1500) ∷ (visitor, 60900) ∷ (visitor, 61100) ∷ []

nothing_counted :
    (w : CountWindow) (at : ℕ) → 0 ≤ at → alive at (find [] (counter_key visitor w)) ≡ none
unfolding alive find
nothing_counted w at h = refl

-- The counter of a minute has started again, while two requests are in the last minute.
fixed_window : (get_rates rows visitor 61100 (count_all rows visits [])).req_rate_60s ≡ 1
unfolding get_rates count_all rate_of increment increment_one counter_key find alive next_row
    bytes_eq
fixed_window = refl

rates_never_over_example :
    let r = get_rates rows visitor 61100 (count_all rows visits []) in
    (r.req_rate_1s ≤ 2) × (r.req_rate_10s ≤ 2) × (r.req_rate_60s ≤ 2)
unfolding bytes_eq
rates_never_over_example =
    rates_never_over rows rows-IsLawful visitor visits 0 61100 [] nothing_counted
      (omega arith, (omega arith, (omega arith, (omega arith, tt)))) (omega arith)
