-- ===== src/Sidecar/Dicts.antt =====
-- The dictionaries of the sidecar: what the JSON library gives, and what server.py makes of a message.
use rate_limiter.Base.{
  ℕ, suc, ◌≡◌, refl, Bool, true, false, not, Option, none, some, List, [], ◌∷◌, ◌==◌, Bytes,
  bytes_eq, codes, if◌then◌else◌, length,
}
use rate_limiter.Base.Int.{ℤ, pos, negsuc}
use rate_limiter.Float.{Float, nan, inf, fin}
use rate_limiter.Float.Double.{double_of}
use rate_limiter.Ml.{FeatureVector}
use rate_limiter.Sidecar.Runtime.{Runtime, encode_feature_vector}

-- The steps of a computation; `none` is an exception.
infixl 5 ◌>>=◌
abbrev pub ◌>>=◌ {ℓ κ} : {A : Type ℓ} {B : Type κ} → Option A → (A → Option B) → Option B
none >>= f = none
some a >>= f = f a

mutual
  pub data Json : Type 0 where
    null : Json
    flag : Bool → Json
    integer : ℤ → Json
    number : Float → Json
    text : Bytes → Json
    array : Items → Json
    object : Members → Json

  pub data Items : Type 0 where
    no_items : Items
    item : Json → Items → Items

  pub data Members : Type 0 where
    no_members : Members
    member : Bytes → Json → Members → Members

-- `fv.get(key, default)`
unfoldable pub get_member : Bytes → Json → Members → Json
get_member key default no_members = default
get_member key default (member k v ms) = if bytes_eq k key then v else get_member key default ms

is_zero : ℤ → Bool
is_zero (pos n) = n == 0
is_zero (negsuc n) = false

-- What `if ip:` makes of a value.
unfoldable pub truthy : Json → Bool
unfolding is_zero
truthy null = false
truthy (flag b) = b
truthy (integer n) = not (is_zero n)
truthy (number nan) = true
truthy (number (inf s)) = true
truthy (number (fin (pos n))) = not (n == 0)
truthy (number (fin (negsuc n))) = true
truthy (text t) = not (length t == 0)
truthy (array no_items) = false
truthy (array (item v vs)) = true
truthy (object no_members) = false
truthy (object (member k v ms)) = true

-- Lists and dictionaries are no keys of a dictionary.
unfoldable pub hashable : Json → Bool
hashable (array vs) = false
hashable (object ms) = false
hashable _ = true

unfoldable pub count_items : Items → ℕ
count_items no_items = 0
count_items (item v vs) = suc (count_items vs)

unfoldable pub count_members : Members → ℕ
count_members no_members = 0
count_members (member k v ms) = suc (count_members ms)

-- `_fv_to_dict` of server.py
unfoldable pub fv_to_dict : FeatureVector → Members
fv_to_dict fv = member (codes "client_ip") (text fv.client_ip) (
    member (codes "ja3_hash") (text fv.ja3_hash) (
      member (codes "user_agent_hash") (text fv.user_agent_hash) (
        member (codes "req_rate_1s") (number fv.req_rate_1s) (
          member (codes "req_rate_10s") (number fv.req_rate_10s) (
            member (codes "req_rate_60s") (number fv.req_rate_60s) (
              member (codes "http_method") (text fv.http_method) (
                member (codes "uri_hash") (text fv.uri_hash) (
                  member (codes "content_length") (integer fv.content_length) (
                    member (codes "header_count") (integer fv.header_count) (
                      member (codes "is_http2") (integer fv.is_http2) (
                        member (codes "unix_timestamp") (integer fv.unix_timestamp)
                          no_members)))))))))))

module _ (R : Runtime) where
  -- `float(v)`; `none` is an exception.
  unfoldable pub float_of : Json → Option Float
  float_of (flag true) = some (double_of (pos 1))
  float_of (flag false) = some (double_of (pos 0))
  float_of (integer n) = some (double_of n)
  float_of (number x) = some x
  float_of (text t) = R.parse_float t
  float_of _ = none

  -- `float(len(v))`
  unfoldable pub len_of : Json → Option Float
  len_of (text t) = some (double_of (pos (R.characters t)))
  len_of (array vs) = some (double_of (pos (count_items vs)))
  len_of (object ms) = some (double_of (pos (count_members ms)))
  len_of _ = none

  -- `_encode_feature_vector` of a dictionary.
  unfoldable pub encode_members : Members → Option (List Float)
  encode_members fv = do
    a ← float_of (get_member (codes "req_rate_1s") (number (fin (pos 0))) fv)
    b ← float_of (get_member (codes "req_rate_10s") (number (fin (pos 0))) fv)
    c ← float_of (get_member (codes "req_rate_60s") (number (fin (pos 0))) fv)
    d ← float_of (get_member (codes "content_length") (integer (pos 0)) fv)
    e ← float_of (get_member (codes "header_count") (integer (pos 0)) fv)
    f ← float_of (get_member (codes "is_http2") (integer (pos 0)) fv)
    g ← len_of (get_member (codes "http_method") (text []) fv)
    h ← len_of (get_member (codes "ja3_hash") (text []) fv)
    i ← len_of (get_member (codes "user_agent_hash") (text []) fv)
    some (a ∷ b ∷ c ∷ d ∷ e ∷ f ∷ g ∷ h ∷ i ∷ [])

  pub encode_members-fv_to_dict :
      (fv : FeatureVector) → encode_members (fv_to_dict fv) ≡ some (encode_feature_vector R fv)
  unfolding encode_members fv_to_dict encode_feature_vector get_member bytes_eq float_of len_of
  encode_members-fv_to_dict fv = refl
