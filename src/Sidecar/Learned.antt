-- ===== src/Sidecar/Learned.antt =====
-- What the nightly job learns from the topic.
use rate_limiter.Base.{
  ℕ, ◌+◌, ◌<◌, ◌≤◌, ◌≡◌, ◌∙◌, refl, ap, sym, ◌-◌, true, false, Option, some, List, [], ◌∷◌, ◌++◌,
  append_assoc, append-nil, map, Bytes, bytes_eq_refl, codes, ltb, leb, length, All, arith,
}
use rate_limiter.Float.{Float}
use rate_limiter.Kafka.{DecisionEvent}
use rate_limiter.Sidecar.Runtime.{Runtime, IsLawful}
use rate_limiter.Sidecar.Dicts.{text, object, Members, get_member, truthy, hashable}
use rate_limiter.Sidecar.Forest.{
  redis_key, model_ttl, model_of, get_set_model, min_samples_for_fit, encode_all, fit, store_model,
}
use rate_limiter.Sidecar.Training.{fit_stores, fit_model}
use rate_limiter.Sidecar.Recent.{Push, push_all}
use rate_limiter.Base.Int.{pos}
use rate_limiter.Sidecar.Retrain.{
  Record, Groups, Job, IsPython, append_vector, consume_one, consume_feature_vectors, consume,
  retrain_per_client, retrain_baseline, all_vectors, retrain, event_members,
}

abbrev pub messages : List (Record × Members) → List Record
messages ps = map (λ p. p.0) ps

abbrev pub vectors : List (Record × Members) → List Members
vectors ps = map (λ p. p.1) ps

module _ {R : Runtime} (J : Job R) where
  -- A message that holds an event, whatever the time in it is written as.
  unfoldable pub Published : Record → Type 0
  Published m =
      (e : DecisionEvent) × ((stamp : Bytes) × (J.loads m.value
          ≡ some (object (event_members stamp e))))

  -- A recent message that is a feature vector of the client.
  unfoldable pub IsVector : ℕ → Bytes → Record × Members → Type 0
  IsVector cutoff ip (m, fv) =
      (cutoff ≤ m.timestamp)
      × ((J.loads m.value ≡ some (object fv))
          × (get_member (codes "client_ip") (text []) fv ≡ text ip))

  module _ (P : IsPython J) (cutoff : ℕ) (ip : Bytes) (named : 0 < length ip) where
    consume_vector :
        (m : Record) (fv : Members) (gs : Groups)
        → IsVector cutoff ip (m, fv)
        → consume_one J cutoff m.timestamp (object fv) gs ≡ some (append_vector J (text ip) fv gs)
    unfolding consume_one IsVector truthy hashable
    consume_vector m fv gs (new, (read, own)) =
        let e : ltb m.timestamp cutoff ≡ false = ground arith in
        let t : truthy (text ip) ≡ true = ground arith in rw (e, consume_one, own, t) refl

    append_own :
        (h : List Members) (fv : Members)
        → append_vector J (text ip) fv ((text ip, h) ∷ []) ≡ (text ip, h ++ fv ∷ []) ∷ []
    unfolding append_vector
    append_own h fv = rw (P.same_key_text ip ip ∙ bytes_eq_refl ip, append_vector) refl

    consume_flat :
        (ps : List (Record × Members)) (h : List Members)
        → All (IsVector cutoff ip) ps
        → consume J cutoff (messages ps) ((text ip, h) ∷ []) ≡ (text ip, h ++ vectors ps) ∷ []
    unfolding consume IsVector
    consume_flat [] h _ = rw (append-nil h) refl
    consume_flat ((m, fv) ∷ ps) h ((new, (read, own)), rest) =
        rw
          (
            read,
            consume,
            consume_vector m fv ((text ip, h) ∷ []) (new, (read, own)),
            append_own h fv,
          )
          (consume_flat ps (h ++ fv ∷ []) rest
            ∙ ap (λ q. (text ip, q) ∷ []) (append_assoc h (fv ∷ []) (vectors ps)))

    retrain_group :
        (ms : List Record) (fvs : List Members) (vs : List (List Float)) (clock : ℕ) (s : R.State)
        (baseline : Option R.Forest)
        → consume_feature_vectors J cutoff ms ≡ (text ip, fvs) ∷ []
        → encode_all R fvs ≡ some vs
        → min_samples_for_fit ≤ length fvs
        → retrain J cutoff ms clock s baseline
          ≡ (store_model R ip (R.train vs) clock s, some (J.train_baseline vs))
    unfolding retrain_per_client retrain_baseline all_vectors retrain store_model
    retrain_group ms fvs vs clock s baseline groups encoded enough =
        let many : leb min_samples_for_fit (length fvs) ≡ true = ground arith in
        let full : ltb (length fvs) min_samples_for_fit ≡ false = ground arith in
        let fitted : fit R (J.str (text ip)) fvs clock s
            ≡ some (store_model R ip (R.train vs) clock s) =
          ap (λ k. fit R k fvs clock s) (P.str_text ip)
          ∙ fit_stores R ip fvs vs clock s enough encoded in
        let stored : retrain_per_client J ((text ip, fvs) ∷ []) clock s
            ≡ (true, store_model R ip (R.train vs) clock s) =
          rw (many, retrain_per_client, fitted) refl in
        let whole : retrain_baseline J (fvs ++ []) baseline ≡ some (J.train_baseline vs) =
          rw (append-nil fvs, full, retrain_baseline, encoded) refl in
        rw (groups, retrain, stored, whole) refl

    retrain_learns :
        (ps : List (Record × Members)) (vs : List (List Float)) (clock : ℕ) (s : R.State)
        (baseline : Option R.Forest)
        → All (IsVector cutoff ip) ps
        → encode_all R (vectors ps) ≡ some vs
        → min_samples_for_fit ≤ length (vectors ps)
        → retrain J cutoff (messages ps) clock s baseline
          ≡ (store_model R ip (R.train vs) clock s, some (J.train_baseline vs))
    unfolding retrain consume_feature_vectors consume retrain_per_client retrain_baseline
        all_vectors IsVector append_vector
    retrain_learns [] vs clock s baseline flat encoded enough = absurd (omega arith)
    retrain_learns ((m, fv) ∷ ps) vs clock s baseline ((new, (read, own)), rest) encoded enough =
        let groups : consume_feature_vectors J cutoff (messages ((m, fv) ∷ ps))
            ≡ (text ip, vectors ((m, fv) ∷ ps)) ∷ [] =
          rw (read, consume, consume_vector m fv [] (new, (read, own)))
            (consume_flat ps (fv ∷ []) rest) in
        retrain_group (messages ((m, fv) ∷ ps)) (vectors ((m, fv) ∷ ps)) vs clock s baseline groups
          encoded enough

    -- From a topic of 20 or more recent feature vectors of one client, all of which can be encoded, the
    -- job trains the baseline and the model of that client on exactly these, in their order. For a week
    -- that is the model which scores the client, and the script for stored models gives its bytes with
    -- the seconds that are left, whatever vectors are pushed in between.
    pub retrained_model :
        (L : IsLawful R) (ps : List (Record × Members)) (vs : List (List Float)) (clock at : ℕ)
        (pushes : List Push) (s t : R.State) (baseline : Option R.Forest)
        → All (IsVector cutoff ip) ps
        → encode_all R (vectors ps) ≡ some vs
        → min_samples_for_fit ≤ length (vectors ps)
        → clock ≤ at
        → at < clock + model_ttl
        → push_all R pushes (retrain J cutoff (messages ps) clock s baseline).0 ≡ some t
        → ((retrain J cutoff (messages ps) clock s baseline).1 ≡ some (J.train_baseline vs))
          × ((model_of R ip at t ≡ some (R.train vs))
              × (get_set_model R (redis_key R ip) at t
                  ≡ some (R.joblib_dump (R.train vs), pos (clock + model_ttl - at))))
    retrained_model L ps vs clock at pushes s t baseline flat encoded enough late soon pushed =
        let learned = retrain_learns ps vs clock s baseline flat encoded enough in
        let after : push_all R pushes (store_model R ip (R.train vs) clock s) ≡ some t =
          ap (λ q. push_all R pushes q.0) (sym learned) ∙ pushed in
        (
          ap (λ q. q.1) learned,
          fit_model R L ip (vectors ps) vs clock at pushes s (store_model R ip (R.train vs) clock s)
              t enough encoded (fit_stores R ip (vectors ps) vs clock s enough encoded) late soon
              after,
        )
