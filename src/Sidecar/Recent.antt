-- ===== src/Sidecar/Recent.antt =====
-- The stored sequence of a subnet against all that was ever pushed to it.
use rate_limiter.Base.{
  ℕ, ◌+◌, ◌≤◌, ◌<◌, ◌≡◌, ◌∙◌, refl, ap, sym, subst, inl, inr, Bool-cases, Option, none, some, List,
  [], ◌∷◌, ◌++◌, append_assoc, append-nil, Bytes, bytes_eq, bytes_eq_sound, bytes_apart, ltb,
  if◌then◌else◌, arith,
}
use rate_limiter.Float.{Float}
use rate_limiter.Ml.{FeatureVector}
use rate_limiter.Sidecar.Runtime.{Runtime, IsLawful, encode_feature_vector}
use rate_limiter.Sidecar.Sequence.{
  max_seq_len, seq_ttl, seq_key, last_items, read_sequence, write_sequence, push_feature_vector,
}
use rate_limiter.Sidecar.Accesses.{last_items_again, read_own, read_over, read_other}

pub record Push : Type 0 where
  pub at : ℕ
  pub ip : Bytes
  pub vector : FeatureVector

-- The pushes stand in the order of their times, none before `since`, all before `until`.
unfoldable pub IsTimely : ℕ → ℕ → List Push → Type 0
IsTimely since until [] = Unit
IsTimely since until (p ∷ ps) = (since ≤ p.at) × ((p.at < until) × IsTimely p.at until ps)

unfoldable pub last_time : ℕ → List Push → ℕ
last_time since [] = since
last_time since (p ∷ ps) = last_time p.at ps

module _ (R : Runtime) where
  -- The pushes one after another, each at its own time.
  unfoldable pub push_all : List Push → R.State → Option R.State
  push_all [] s = some s
  push_all (p ∷ ps) s = elim (push_feature_vector R p.ip p.vector p.at s) [
    | none ↦ none
    | some t ↦ push_all ps t
  ]

  -- What the pushes to one key carry, in their order.
  unfoldable pub vectors_of : Bytes → List Push → List (List Float)
  vectors_of key [] = []
  vectors_of key (p ∷ ps) =
      (if bytes_eq (seq_key p.ip) key then encode_feature_vector R p.vector ∷ [] else [])
      ++ vectors_of key ps

  IsTidy : ℕ → R.State → Type 0
  IsTidy since s =
      (ip : Bytes) (at : ℕ)
      → since ≤ at
      → (seq : List (List Float)) × (read_sequence R (seq_key ip) at s ≡ some seq)

  Keeps : Bytes → ℕ → ℕ → List (List Float) → R.State → Type 0
  Keeps key since until h s =
      (at : ℕ)
      → since ≤ at
      → at < until
      → read_sequence R key at s ≡ some (last_items max_seq_len h)

  module _ (L : IsLawful R) where
    write-IsTidy :
        (key : Bytes) (fv : FeatureVector) (since clock : ℕ) (seq : List (List Float)) (s : R.State)
        → since ≤ clock
        → IsTidy since s
        → IsTidy clock (write_sequence R key fv clock seq s)
    unfolding IsTidy
    write-IsTidy key fv since clock seq s le tidy j at late =
        elim (Bool-cases (bytes_eq (seq_key j) key)) [
          | inl same ↦
              let e : key ≡ seq_key j = sym (bytes_eq_sound (seq_key j) key same) in
              subst
                (λ k.
                  (out : List (List Float)) × (read_sequence R k at
                      (write_sequence R key fv clock seq s)
                    ≡ some out))
                e
                (elim (Bool-cases (ltb at (clock + seq_ttl))) [
                  | inl soon ↦ (_, read_own R L key fv clock at seq s late (ground arith))
                  | inr over ↦ (_, read_over R L key fv clock at seq s (ground arith))
                ])
          | inr apart ↦
              let (out, h) = tidy j at (omega arith) in
              (
                out,
                read_other R L key (seq_key j) fv clock at seq s (bytes_apart (seq_key j) key apart)
                    ∙ h,
              )
        ]

    write-Keeps :
        (key : Bytes) (since until : ℕ) (h : List (List Float)) (p : Push) (seq : List (List Float))
        (s : R.State)
        → since ≤ p.at
        → p.at < until
        → until ≤ p.at + seq_ttl
        → read_sequence R (seq_key p.ip) p.at s ≡ some seq
        → Keeps key since until h s
        → Keeps key p.at until
            (h ++ vectors_of key (p ∷ []))
            (write_sequence R (seq_key p.ip) p.vector p.at seq s)
    unfolding vectors_of Keeps
    write-Keeps key since until h p seq s le soon hour found keeps at late early =
        let own = seq_key p.ip in
        let v = encode_feature_vector R p.vector in
        elim (Bool-cases (bytes_eq own key)) [
          | inl same ↦
              let e : own ≡ key = bytes_eq_sound own key same in
              let cut : seq ≡ last_items max_seq_len h =
                let q = sym found ∙ (ap (λ k. read_sequence R k p.at s) e ∙ keeps p.at le soon) in
                cc in
              rw (same, sym e)
                (read_own R L own p.vector p.at at seq s late (omega arith)
                  ∙ ap some (
                      ap (λ q. last_items max_seq_len (q ++ v ∷ [])) cut
                      ∙ last_items_again max_seq_len h v))
          | inr apart ↦
              rw (apart, append-nil h)
                (read_other R L own key p.vector p.at at seq s
                    (λ e. bytes_apart own key apart (sym e))
                  ∙ keeps at (omega arith) early)
        ]

    push_kept :
        (key : Bytes) (since until : ℕ) (h : List (List Float)) (p : Push) (s : R.State)
        → since ≤ p.at
        → p.at < until
        → until ≤ p.at + seq_ttl
        → IsTidy since s
        → Keeps key since until h s
        → (t : R.State) × ((push_feature_vector R p.ip p.vector p.at s ≡ some t)
            × (IsTidy p.at t × Keeps key p.at until (h ++ vectors_of key (p ∷ [])) t))
    unfolding push_feature_vector IsTidy
    push_kept key since until h p s le soon hour tidy keeps =
        let own = seq_key p.ip in
        let (seq, found) = tidy p.ip p.at le in
        let t = write_sequence R own p.vector p.at seq s in
        let pushed : push_feature_vector R p.ip p.vector p.at s ≡ some t =
          rw (found, push_feature_vector) refl in
        (
          t,
          (
            pushed,
            (
              write-IsTidy own p.vector since p.at seq s le tidy,
              write-Keeps key since until h p seq s le soon hour found keeps,
            ),
          ),
        )

    vectors_split :
        (key : Bytes) (h : List (List Float)) (p : Push) (ps : List Push)
        → (h ++ vectors_of key (p ∷ [])) ++ vectors_of key ps ≡ h ++ vectors_of key (p ∷ ps)
    unfolding vectors_of
    vectors_split key h p ps =
        let own =
          if bytes_eq (seq_key p.ip) key then encode_feature_vector R p.vector ∷ [] else [] in
        append_assoc h (vectors_of key (p ∷ [])) (vectors_of key ps)
        ∙ ap (λ q. h ++ (q ++ vectors_of key ps)) (append-nil own)

    pushes_kept_from :
        (key : Bytes) (since until : ℕ) (h : List (List Float)) (ps : List Push) (s : R.State)
        → until ≤ since + seq_ttl
        → IsTimely since until ps
        → IsTidy since s
        → Keeps key since until h s
        → (t : R.State) × ((push_all ps s ≡ some t)
            × Keeps key (last_time since ps) until (h ++ vectors_of key ps) t)
    unfolding push_all IsTimely last_time vectors_of
    pushes_kept_from key since until h [] s hour timely tidy keeps =
        (s, (refl, subst (λ q. Keeps key since until q s) (sym (append-nil h)) keeps))
    pushes_kept_from key since until h (p ∷ ps) s hour (le, (soon, timely)) tidy keeps =
        let (s1, (pushed, (tidy1, keeps1))) =
          push_kept key since until h p s le soon (omega arith) tidy keeps in
        let (t, (rest, kept)) =
          pushes_kept_from key p.at until (h ++ vectors_of key (p ∷ [])) ps s1 (omega arith) timely
            tidy1 keeps1 in
        (
          t,
          (
            rw (pushed, push_all) rest,
            subst (λ q. Keeps key (last_time p.at ps) until q t) (vectors_split key h p ps) kept,
          ),
        )

    -- Over less than an hour from a store without sequences, whatever else it holds, when no request's vector is written between
    -- another's reading and writing: every push succeeds, and the sequence stored for an address is the
    -- last 20 vectors of its subnet, in their order.
    pub pushes_kept :
        (ip : Bytes) (since until at : ℕ) (ps : List Push) (s : R.State)
        → ((j : Bytes) (clock : ℕ) → R.get s clock (seq_key j) ≡ none)
        → until ≤ since + seq_ttl
        → IsTimely since until ps
        → last_time since ps ≤ at
        → at < until
        → (t : R.State) × ((push_all ps s ≡ some t)
            × (read_sequence R (seq_key ip) at t
                ≡ some (last_items max_seq_len (vectors_of (seq_key ip) ps))))
    unfolding IsTidy Keeps read_sequence last_items
    pushes_kept ip since until at ps s empty hour timely late early =
        let (t, (pushed, kept)) =
          pushes_kept_from (seq_key ip) since until [] ps s hour timely
            (λ j clock _. ([], rw (empty j clock, read_sequence) refl))
            (λ clock _ _. rw (empty ip clock, read_sequence) refl) in
        (t, (pushed, kept at late early))
