-- ===== src/Sidecar/Retrain.antt =====
-- ml-sidecar/training/retrain.py: the nightly job. It reads the topic that the engine writes to, fits a
-- forest for each client with enough vectors, and a baseline on all of them.
use rate_limiter.Base.{
  ℕ, ◌≡◌, Bool, true, false, Option, none, some, List, [], ◌∷◌, ◌++◌, Bytes, bytes_eq, codes, ltb,
  leb, if◌then◌else◌, length,
}
use rate_limiter.Float.{Float}
use rate_limiter.Kafka.{DecisionEvent, Features}
use rate_limiter.Sidecar.Runtime.{Runtime}
use rate_limiter.Sidecar.Dicts.{
  Json, integer, number, text, object, Members, no_members, member, get_member, truthy, hashable,
}
use rate_limiter.Sidecar.Forest.{min_samples_for_fit, encode_all, fit}

-- A message of the topic: its time in milliseconds, and its bytes.
pub record Record : Type 0 where
  pub timestamp : ℕ
  pub value : Bytes

-- The dictionary of lists, in the order of the first appends.
abbrev pub Groups : Type 0
Groups = List (Json × List Members)

-- What the job does with the JSON library, dictionaries and texts: reading a message (`none` is an
-- exception), `==` of two keys, `str` of a key; and the baseline's `IsolationForest(…).fit`.
pub record Job (R : Runtime) : Type 0 where
  pub loads : Bytes → Option Json
  pub same_key : Json → Json → Bool
  pub str : Json → Bytes
  pub train_baseline : List (List Float) → R.Forest

pub record IsPython {R : Runtime} (J : Job R) : Type 0 where
  pub same_key_text : (a b : Bytes) → J.same_key (text a) (text b) ≡ bytes_eq a b
  pub str_text : (a : Bytes) → J.str (text a) ≡ a

module _ {R : Runtime} (J : Job R) where
  -- `vectors_by_ip[ip].append(fv)`
  unfoldable pub append_vector : Json → Members → Groups → Groups
  append_vector ip fv [] = (ip, fv ∷ []) ∷ []
  append_vector ip fv ((k, fvs) ∷ gs) =
      let rest = append_vector ip fv gs in
      if J.same_key k ip then (k, fvs ++ fv ∷ []) ∷ gs else (k, fvs) ∷ rest

  -- One round of the loop on a message that could be read; `none` is an exception.
  unfoldable pub consume_one : ℕ → ℕ → Json → Groups → Option Groups
  consume_one cutoff timestamp (object fv) gs =
      if ltb timestamp cutoff
      then some gs
      else let ip = get_member (codes "client_ip") (text []) fv in
        if truthy ip then (if hashable ip then some (append_vector ip fv gs) else none) else some gs
  consume_one cutoff timestamp _ gs = if ltb timestamp cutoff then some gs else none

  unfoldable pub consume : ℕ → List Record → Groups → Groups
  consume cutoff [] gs = gs
  consume cutoff (m ∷ ms) gs = elim (J.loads m.value) [
    | none ↦ gs
    | some j ↦ elim (consume_one cutoff m.timestamp j gs) [
      | none ↦ gs
      | some next ↦ consume cutoff ms next
    ]
  ]

  -- `_consume_feature_vectors`: an exception ends the loop, and what was read so far stays.
  unfoldable pub consume_feature_vectors : ℕ → List Record → Groups
  unfolding consume
  consume_feature_vectors cutoff ms = consume cutoff ms []

  -- `_retrain_per_client`: whether no exception ends it, and the store.
  unfoldable pub retrain_per_client : Groups → ℕ → R.State → Bool × R.State
  retrain_per_client [] clock s = (true, s)
  retrain_per_client ((ip, fvs) ∷ gs) clock s = elim (leb min_samples_for_fit (length fvs)) [
    | false ↦ retrain_per_client gs clock s
    | true ↦ elim (fit R (J.str ip) fvs clock s) [
      | none ↦ (false, s)
      | some t ↦ retrain_per_client gs clock t
    ]
  ]

  -- `_retrain_baseline`: the file of the baseline.
  unfoldable pub retrain_baseline : List Members → Option R.Forest → Option R.Forest
  retrain_baseline all_vectors baseline =
      if ltb (length all_vectors) min_samples_for_fit
      then baseline
      else elim (encode_all R all_vectors) [
        | none ↦ baseline
        | some vs ↦ some (J.train_baseline vs)
      ]

  unfoldable pub all_vectors : Groups → List Members
  all_vectors [] = []
  all_vectors ((ip, fvs) ∷ gs) = fvs ++ all_vectors gs

  -- `main`: the store, and the file of the baseline.
  unfoldable pub retrain :
      ℕ → List Record → ℕ → R.State → Option R.Forest → R.State × Option R.Forest
  retrain cutoff ms clock s baseline = elim (consume_feature_vectors cutoff ms) [
    | [] ↦ (s, baseline)
    | g ∷ gs ↦
        let (passed, t) = retrain_per_client (g ∷ gs) clock s in
        (t, if passed then retrain_baseline (all_vectors (g ∷ gs)) baseline else baseline)
  ]

-- The map literal in an event.
unfoldable pub feature_members : Features → Members
feature_members f = member (codes "ja3_hash") (text f.ja3_hash) (
    member (codes "user_agent_hash") (text f.user_agent_hash) (
      member (codes "req_rate_1s") (number f.req_rate_1s) (
        member (codes "req_rate_10s") (number f.req_rate_10s) (
          member (codes "req_rate_60s") (number f.req_rate_60s) (
            member (codes "http_method") (text f.http_method)
              (member (codes "is_http2") (integer f.is_http2) no_members))))))

-- The members of an event by the tags of the struct, and those of the map in it.
unfoldable pub event_members : Bytes → DecisionEvent → Members
event_members stamp e = member (codes "ip") (text e.ip) (
    member (codes "score") (number e.score) (
      member (codes "action") (text e.action) (
        member (codes "timestamp") (text stamp) (
          member (codes "feature_vector") (object (feature_members e.feature_vector)) no_members))))
