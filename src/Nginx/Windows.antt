-- ===== src/Nginx/Windows.antt =====
-- The counters against the requests of the last seconds.
use rate_limiter.Base.{
  recent, ℕ, ◌+◌, ◌*◌, ◌≤◌, ◌<◌, ◌≡◌, ◌≢◌, sym, subst, inl, inr, Bool-cases, false, Option-cases,
  none, some, List, [], ◌∷◌, Bytes, bytes_eq, bytes_eq_iff, if◌then◌else◌, arith,
}
use rate_limiter.Nginx.Counters.{
  SharedDict, IsLawful, CountWindow, one_second, ten_seconds, sixty_seconds, window_ttl,
  counter_key, increment_one, increment, rate_of, get_rates,
}
use rate_limiter.Nginx.Keys.{counter_key-injective}

-- The times of the requests of an address, the last one first, in front of earlier ones.
abbrev pub times_of : Bytes → List (Bytes × ℕ) → List ℕ → List ℕ
times_of ip [] past = past
times_of ip ((jp, t) ∷ rs) past = times_of ip rs (if bytes_eq jp ip then t ∷ past else past)

-- The requests come in the order of time.
abbrev pub Ordered : ℕ → List (Bytes × ℕ) → Type 0
Ordered since [] = Unit
Ordered since ((jp, t) ∷ rs) = (since ≤ t) × Ordered t rs

-- The time of the last request.
abbrev pub last_time : ℕ → List (Bytes × ℕ) → ℕ
last_time since [] = since
last_time since ((jp, t) ∷ rs) = last_time t rs

abbrev pub milliseconds : CountWindow → ℕ
milliseconds w = window_ttl w * 1000

-- The counting of `access.lua` on one request behind the other.
unfoldable pub count_all : (D : SharedDict) → List (Bytes × ℕ) → D.State → D.State
count_all D [] s = s
count_all D ((jp, t) ∷ rs) s = count_all D rs (increment D jp t s).1

module _ (D : SharedDict) (A : IsLawful D) where
  -- A counter shows at most the requests within its window, and is gone when the window is over.
  abbrev pub Kept : D.State → ℕ → Bytes → CountWindow → List ℕ → Type 0
  Kept s since ip w past =
      (at x : ℕ)
      → since ≤ at
      → D.get s at (counter_key ip w) ≡ some x
      → (x ≤ recent (milliseconds w) at past) × (at < since + milliseconds w)

  module _ (ip : Bytes) (w : CountWindow) (s : D.State) (since clock : ℕ) (past : List ℕ)
      (from : since ≤ clock) (h : Kept s since ip w past) where
    -- The counter itself, of a request of the address.
    keep_own : Kept (increment_one D ip clock w s).1 clock ip w (clock ∷ past)
    unfolding increment_one
    keep_own at x le shows =
        elim (Option-cases (D.incr s clock (counter_key ip w) (window_ttl w)).0) [
          | inl failed ↦
              let (few, alive) =
                h at x (omega arith)
                  (A.incr_failed s clock at (counter_key ip w) (window_ttl w) x failed le shows) in
              (omega arith, omega arith)
          | inr (v, counted) ↦
              elim (A.incr_own s clock at (counter_key ip w) (window_ttl w) v x counted le shows) [
                | inl (u, before, next) ↦
                    let (few, alive) = h at u (omega arith) before in (ground arith, omega arith)
                | inr (first, alive) ↦ (ground arith, omega arith)
              ]
        ]

    -- Another counter.
    keep_other :
        (jp : Bytes) (v : CountWindow)
        → counter_key ip w ≢ counter_key jp v
        → Kept (increment_one D jp clock v s).1 clock ip w past
    unfolding increment_one
    keep_other jp v ne at x le shows =
        let (few, alive) = h at x (omega arith) (
          A.incr_other s clock at (counter_key ip w) (counter_key jp v) (window_ttl v) x ne le
            shows) in
        (few, omega arith)

  other_address :
      (ip jp : Bytes) (w v : CountWindow)
      → bytes_eq jp ip ≡ false
      → counter_key ip w ≢ counter_key jp v
  other_address ip jp w v differ e =
      cc ((bytes_eq_iff jp ip).1 (sym (counter_key-injective ip jp w v e).0))

  other_window : (ip : Bytes) (w v : CountWindow) → w ≢ v → counter_key ip w ≢ counter_key ip v
  other_window ip w v ne e = ne (counter_key-injective ip ip w v e).1

  increment_own :
      (ip : Bytes) (w : CountWindow) (clock since : ℕ) (past : List ℕ) (s : D.State)
      → since ≤ clock
      → Kept s since ip w past
      → Kept (increment D ip clock s).1 clock ip w (clock ∷ past)
  unfolding increment
  increment_own ip one_second clock since past s from h =
      keep_other ip one_second _ clock clock (clock ∷ past) (omega arith)
        (keep_other ip one_second _ clock clock (clock ∷ past) (omega arith)
          (keep_own ip one_second s since clock past from h) ip ten_seconds
          (other_window ip one_second ten_seconds (λ e. ground arith)))
        ip sixty_seconds (other_window ip one_second sixty_seconds (λ e. ground arith))
  increment_own ip ten_seconds clock since past s from h =
      keep_other ip ten_seconds _ clock clock (clock ∷ past) (omega arith)
        (keep_own ip ten_seconds _ clock clock past (omega arith) (
          keep_other ip ten_seconds s since clock past from h ip one_second
            (other_window ip ten_seconds one_second (λ e. ground arith))))
        ip sixty_seconds (other_window ip ten_seconds sixty_seconds (λ e. ground arith))
  increment_own ip sixty_seconds clock since past s from h =
      keep_own ip sixty_seconds _ clock clock past (omega arith) (
        keep_other ip sixty_seconds _ clock clock past (omega arith)
          (keep_other ip sixty_seconds s since clock past from h ip one_second
            (other_window ip sixty_seconds one_second (λ e. ground arith)))
          ip ten_seconds (other_window ip sixty_seconds ten_seconds (λ e. ground arith)))

  increment_other :
      (ip jp : Bytes) (w : CountWindow) (clock since : ℕ) (past : List ℕ) (s : D.State)
      → bytes_eq jp ip ≡ false
      → since ≤ clock
      → Kept s since ip w past
      → Kept (increment D jp clock s).1 clock ip w past
  unfolding increment
  increment_other ip jp w clock since past s differ from h =
      keep_other ip w _ clock clock past (omega arith)
        (keep_other ip w _ clock clock past (omega arith)
          (keep_other ip w s since clock past from h jp one_second
            (other_address ip jp w one_second differ))
          jp ten_seconds (other_address ip jp w ten_seconds differ))
        jp sixty_seconds (other_address ip jp w sixty_seconds differ)

  increment-Kept :
      (ip jp : Bytes) (w : CountWindow) (clock since : ℕ) (past : List ℕ) (s : D.State)
      → since ≤ clock
      → Kept s since ip w past
      → Kept (increment D jp clock s).1 clock ip w (if bytes_eq jp ip then clock ∷ past else past)
  increment-Kept ip jp w clock since past s from h = elim (Bool-cases (bytes_eq jp ip)) [
    | inr differ ↦ rw differ (increment_other ip jp w clock since past s differ from h)
    | inl mine ↦ rw mine (
        subst (λ j. Kept (increment D j clock s).1 clock ip w (clock ∷ past))
          (sym ((bytes_eq_iff jp ip).0 mine)) (increment_own ip w clock since past s from h))
  ]

  count_all-Kept :
      (ip : Bytes) (w : CountWindow) (rs : List (Bytes × ℕ)) (since : ℕ) (past : List ℕ)
      (s : D.State)
      → Ordered since rs
      → Kept s since ip w past
      → Kept (count_all D rs s) (last_time since rs) ip w (times_of ip rs past)
  unfolding count_all
  count_all-Kept ip w [] since past s o h = h
  count_all-Kept ip w ((jp, t) ∷ rs) since past s (from, o) h =
      count_all-Kept ip w rs t (if bytes_eq jp ip then t ∷ past else past) (increment D jp t s).1 o
        (increment-Kept ip jp w t since past s from h)

  rate_over :
      (ip : Bytes) (w : CountWindow) (s : D.State) (since now : ℕ) (past : List ℕ)
      → Kept s since ip w past
      → since ≤ now
      → rate_of D ip now w s ≤ recent (milliseconds w) now past
  unfolding rate_of
  rate_over ip w s since now past h le = elim (Option-cases (D.get s now (counter_key ip w))) [
    | inl gone ↦ rw gone (omega arith)
    | inr (x, shows) ↦ rw shows ((h now x le shows).0)
  ]

  -- Any requests of any addresses, in the order of time, from a dictionary without counters of an
  -- address, also when memory runs short: behind them, each of the three rates of the address is at
  -- most the number of its requests within the last 1, 10 and 60 seconds.
  pub rates_never_over :
      (ip : Bytes) (rs : List (Bytes × ℕ)) (since now : ℕ) (s : D.State)
      → ((w : CountWindow) (at : ℕ) → since ≤ at → D.get s at (counter_key ip w) ≡ none)
      → Ordered since rs
      → last_time since rs ≤ now
      → let r = get_rates D ip now (count_all D rs s) in
        let mine = times_of ip rs [] in
        (r.req_rate_1s ≤ recent 1000 now mine)
        × (r.req_rate_10s ≤ recent 10000 now mine)
        × (r.req_rate_60s ≤ recent 60000 now mine)
  unfolding get_rates
  rates_never_over ip rs since now s bare o le =
      let rate = λ (w : CountWindow).
        rate_over ip w (count_all D rs s) (last_time since rs) now (times_of ip rs [])
          (count_all-Kept ip w rs since [] s o
            (λ at x from shows. absurd (ground (arith, bare w at from))))
          le in
      (rate one_second, rate ten_seconds, rate sixty_seconds)
