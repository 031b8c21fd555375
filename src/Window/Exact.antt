-- ===== src/Window/Exact.antt =====
-- The script against a limiter that remembers every admitted request for ever.
use rate_limiter.Base.{
  recent, ℕ, ◌+◌, ◌≤◌, ◌<◌, ◌≡◌, ◌∙◌, refl, ap, sym, subst, inl, inr, Bool, Bool-cases, true, false,
  List, [], ◌∷◌, Bytes, ltb, if◌then◌else◌, length, All, arith,
}
use rate_limiter.Window.Sets.{Entry, within, without, SortedSets, IsLawful}
use rate_limiter.Window.{sliding_window}

-- The reference: it admits a request if fewer than `max_tokens` admitted ones are recent.
unfoldable pub reference : ℕ → ℕ → List ℕ → List ℕ → List Bool
reference max_tokens window past [] = []
reference max_tokens window past (now ∷ times) =
    let allowed = ltb (recent window now past) max_tokens in
    allowed ∷ reference max_tokens window (if allowed then now ∷ past else past) times

-- The replies of the script to requests that come with the server's own time.
unfoldable pub window_replies : (R : SortedSets) → Bytes → ℕ → ℕ → List ℕ → R.State → List Bool
window_replies R key max_tokens window [] s = []
window_replies R key max_tokens window (now ∷ times) s =
    let (allowed, t) = sliding_window R key max_tokens window now now s in
    allowed ∷ window_replies R key max_tokens window times t

-- Each request comes later than the one before.
abbrev pub Strict : ℕ → List ℕ → Type 0
Strict since [] = Unit
Strict since (now ∷ times) = (since < now) × Strict now times

within_twice :
    (window now earlier : ℕ) (es : List Entry)
    → earlier ≤ now
    → within window now (within window earlier es) ≡ within window now es
within_twice window now earlier [] h = refl
within_twice window now earlier (e ∷ es) h = ground (arith, within_twice window now earlier es h)

within-All :
    (window now m : ℕ) (es : List Entry)
    → All (λ e. e.member ≤ m) es
    → All (λ e. e.member ≤ m) (within window now es)
within-All window now m [] h = tt
within-All window now m (e ∷ es) (he, h) = ground (arith, within-All window now m es h)

without_later : (m k : ℕ) (es : List Entry) → k < m → All (λ e. e.member ≤ k) es → without m es ≡ es
without_later m k [] lt h = refl
without_later m k (e ∷ es) lt (he, h) = ground (arith, without_later m k es lt h)

All-le :
    (k m : ℕ) (es : List Entry) → k ≤ m → All (λ e. e.member ≤ k) es → All (λ e. e.member ≤ m) es
All-le k m [] le h = tt
All-le k m (e ∷ es) le (he, h) = (omega arith, All-le k m es le h)

past-le : (k m : ℕ) (ts : List ℕ) → k ≤ m → All (λ t. t ≤ k) ts → All (λ t. t ≤ m) ts
past-le k m [] le h = tt
past-le k m (t ∷ ts) le (ht, h) = (omega arith, past-le k m ts le h)

recent_over :
    (window now k : ℕ) (ts : List ℕ)
    → k + window ≤ now
    → All (λ t. t ≤ k) ts
    → recent window now ts ≡ 0
recent_over window now k [] le h = refl
recent_over window now k (t ∷ ts) le (ht, h) = ground (arith, recent_over window now k ts le h)

module _ (R : SortedSets) (L : IsLawful R) (key : Bytes) (max_tokens window : ℕ) where
  -- From the time `since` on, the set shows as many recent entries as the history has requests, and
  -- nothing in it or in the history is later than `since`.
  pub record Keeps (s : R.State) (since : ℕ) (past : List ℕ) : Type 0 where
    pub recent_kept :
        (at now : ℕ)
        → since ≤ at
        → at ≤ now
        → length (within window now (R.view s at key)) ≡ recent window now past
    pub old : (at : ℕ) → since ≤ at → All (λ e. e.member ≤ since) (R.view s at key)
    pub past_old : All (λ t. t ≤ since) past

  expire_alive :
      (s : R.State) (clock at : ℕ)
      → clock ≤ at
      → ltb at (clock + window) ≡ true
      → R.view (R.expire s clock key window) at key ≡ R.view s clock key
  expire_alive s clock at from alive = L.view-expire s clock at key window from ∙ (rw alive)

  expire_over :
      (s : R.State) (clock at : ℕ)
      → clock ≤ at
      → ltb at (clock + window) ≡ false
      → R.view (R.expire s clock key window) at key ≡ []
  expire_over s clock at from over = L.view-expire s clock at key window from ∙ (rw over)

  -- A set with the given entries, whose lifetime is the window, from `clock` on.
  Keeps-expire :
      (s : R.State) (clock : ℕ) (es : List Entry) (past : List ℕ)
      → R.view s clock key ≡ es
      → ((now : ℕ) → clock ≤ now → length (within window now es) ≡ recent window now past)
      → All (λ e. e.member ≤ clock) es
      → All (λ t. t ≤ clock) past
      → Keeps (R.expire s clock key window) clock past
  Keeps-expire s clock es past shows counts small old = record {
    recent_kept = λ at now from le. elim (Bool-cases (ltb at (clock + window))) [
      | inl alive ↦
          ap (λ q. length (within window now q)) (expire_alive s clock at from alive ∙ shows)
          ∙ counts now (omega arith)
      | inr over ↦
          ap (λ q. length (within window now q)) (expire_over s clock at from over)
          ∙ sym (recent_over window now clock past (ground arith) old)
    ];
    old = λ at from. elim (Bool-cases (ltb at (clock + window))) [
      | inl alive ↦
          subst (All (λ e. e.member ≤ clock)) (sym (expire_alive s clock at from alive ∙ shows))
            small
      | inr over ↦ subst (All (λ e. e.member ≤ clock)) (sym (expire_over s clock at from over)) tt
    ];
    past_old = old;
  }

  record Stepped (s : R.State) (now : ℕ) (past : List ℕ) : Type 0 where
    reply :
        (sliding_window R key max_tokens window now now s).0
        ≡ ltb (recent window now past) max_tokens
    kept :
        Keeps
          (sliding_window R key max_tokens window now now s).1
          now
          (if ltb (recent window now past) max_tokens then now ∷ past else past)

  sliding_window-Stepped :
      (s : R.State) (since now : ℕ) (past : List ℕ)
      → Keeps s since past
      → since < now
      → Stepped s now past
  unfolding sliding_window
  sliding_window-Stepped s since now past K lt =
      let pruned = R.zremrangebyscore s now key window now in
      let V = R.view s now key in
      let shows : R.view pruned now key ≡ within window now V =
        L.view-zremrangebyscore s now key window now in
      let counts : (at : ℕ)
          → now ≤ at
          → length (within window at (within window now V)) ≡ recent window at past =
        λ at le.
          ap length (within_twice window at now V le) ∙ K.recent_kept now at (omega arith) le in
      let card : R.zcard pruned now key ≡ recent window now past =
        L.zcard_length pruned now key
        ∙ ap length shows
        ∙ K.recent_kept now now (omega arith) (omega arith) in
      let small : All (λ e. e.member ≤ since) (within window now V) =
        within-All window now since V (K.old now (omega arith)) in
      let entry : Entry = record { score = now; member = now } in
      let added = R.zadd pruned now key entry in
      let shows_added : R.view added now key ≡ entry ∷ within window now V =
        L.view-zadd pruned now key entry
        ∙ ap (λ q. entry ∷ without now q) shows
        ∙ ap (λ q. entry ∷ q) (without_later now since (within window now V) lt small) in
      elim (Bool-cases (ltb (recent window now past) max_tokens)) [
        | inl room ↦
            let test : ltb (R.zcard pruned now key) max_tokens ≡ true =
              ap (λ n. ltb n max_tokens) card ∙ room in
            record {
              reply = rw (room, test, sliding_window) refl;
              kept =
                  rw (room, test, sliding_window)
                    (Keeps-expire added now (entry ∷ within window now V) (now ∷ past) shows_added
                      (λ at le. ground (arith, counts at le))
                      (omega arith, All-le since now (within window now V) (omega arith) small)
                      (omega arith, past-le since now past (omega arith) K.past_old));
            }
        | inr full ↦
            let test : ltb (R.zcard pruned now key) max_tokens ≡ false =
              ap (λ n. ltb n max_tokens) card ∙ full in
            record {
              reply = rw (full, test, sliding_window) refl;
              kept =
                  rw (full, test, sliding_window)
                    (Keeps-expire pruned now (within window now V) past shows counts
                      (All-le since now (within window now V) (omega arith) small)
                      (past-le since now past (omega arith) K.past_old));
            }
      ]

  -- From a set that shows the history, requests that come with the server's own time, each later than
  -- the one before: the script answers as a limiter that remembers every admitted request for ever
  -- and admits one if fewer than `max_tokens` of them are less than the window old.
  pub window_replies-reference :
      (times past : List ℕ) (s : R.State) (since : ℕ)
      → Keeps s since past
      → Strict since times
      → window_replies R key max_tokens window times s ≡ reference max_tokens window past times
  unfolding window_replies reference
  window_replies-reference [] past s since K h = refl
  window_replies-reference (now ∷ times) past s since K (lt, h) =
      let S = sliding_window-Stepped s since now past K lt in
      rw (S.reply, window_replies-reference times _ _ now S.kept h)
