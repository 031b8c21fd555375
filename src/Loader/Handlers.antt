-- ===== src/Loader/Handlers.antt =====
-- ebpf/loader/main.go: the requests, the responses, and the handlers. The map is explicit state; the
-- clock and the JSON decoder are arguments. A response keeps what its text is made of.
use rate_limiter.Base.{
  ℕ, none, some, List, map, Bytes, codes, bytes_eq, Result, ok, err, ◌==◌, if◌then◌else◌, length,
  take, drop,
}
use rate_limiter.Base.Int.{ℤ, pos, negsuc, ltb_ℤ, u64_of, i64_of, add_i64, sub_i64}
use rate_limiter.Bpf.{BpfMap}
use rate_limiter.Loader.Address.{IpError, ip_to_uint32, uint32_to_ip}

pub record BlockRequest : Type 0 where
  pub ip : Bytes
  pub ttl_seconds : ℤ  -- int64

-- "never", or the instant (Unix seconds) that is printed in RFC 3339
pub data Expiry : Type 0 where
  never : Expiry
  at : ℤ → Expiry

pub record BlockEntry : Type 0 where
  pub ip : Bytes
  pub expires_at : Expiry
  pub ttl_remaining : ℤ  -- int64

pub data Method : Type 0 where
  post get delete other : Method

pub record Request : Type 0 where
  pub method : Method
  pub path : Bytes
  pub body : Bytes

-- What a response's body says. `E` is the type of the map's errors.
pub data Body (E : Type 0) : Type 0 where
  page_not_found method_not_allowed ip_required : Body E
  invalid_json : Bytes → Body E
  invalid_ip : IpError → Body E
  put_error not_found iterate_error : E → Body E
  blocked unblocked : Bytes → Body E
  entries : List BlockEntry → Body E

pub record Response (E : Type 0) : Type 0 where
  pub status : ℕ
  pub body : Body E

abbrev pub respond : {E : Type 0} → ℕ → Body E → Response E
respond status b = record { status = status; body = b }

abbrev pub block_path : Bytes
block_path = codes "/block"

abbrev pub block_prefix : Bytes
block_prefix = codes "/block/"

-- The `expiry` that is stored: 0 unless the request's TTL is positive.
unfoldable pub expiry_of : ℤ → ℤ → ℕ
expiry_of now ttl = if ltb_ℤ (pos 0) ttl then u64_of (add_i64 now ttl) else 0

-- The body of the loop of `handleListBlocks`.
unfoldable pub list_entry : ℤ → ℕ → ℕ → BlockEntry
list_entry now key expiry =
    if expiry == 0
    then record { ip = uint32_to_ip key; expires_at = never; ttl_remaining = negsuc 0 }
    else let exp = i64_of expiry in
      let remaining = sub_i64 exp now in
      record {
        ip = uint32_to_ip key;
        expires_at = at exp;
        ttl_remaining = if ltb_ℤ remaining (pos 0) then pos 0 else remaining;
      }

module _ (M : BpfMap) where
  abbrev pub Reply : Type 0
  Reply = Response M.Error × M.State

  unfoldable pub handle_remove_block : Bytes → M.State → Reply
  handle_remove_block ip_str blocked_ips = elim (ip_to_uint32 ip_str) [
    | err e ↦ (respond 400 (invalid_ip e), blocked_ips)
    | ok key ↦ elim (M.delete blocked_ips (M.marshal_u32 key)) [
      | err e ↦ (respond 404 (not_found e), blocked_ips)
      | ok blocked_ips' ↦ (respond 200 (unblocked ip_str), blocked_ips')
    ]
  ]

  abbrev pub list_one : ℤ → Bytes × Bytes → BlockEntry
  list_one now e = list_entry now (M.unmarshal_u32 e.0) (M.unmarshal_u64 e.1)

  unfoldable pub handle_list_blocks : ℤ → M.State → Reply
  handle_list_blocks now blocked_ips =
      let (found, stop) = M.iterate blocked_ips in
      elim stop [
        | some e ↦ (respond 500 (iterate_error e), blocked_ips)
        | none ↦ (respond 200 (entries (map (list_one now) found)), blocked_ips)
      ]

  unfoldable pub route_block_ip : Request → M.State → Reply
  route_block_ip r blocked_ips = elim r.method [
    | delete ↦ handle_remove_block (drop (length block_prefix) r.path) blocked_ips
    | _ ↦ (respond 405 method_not_allowed, blocked_ips)
  ]

module _ (M : BpfMap) (decode : Bytes → Result Bytes BlockRequest) where
  unfoldable pub handle_add_block : ℤ → Request → M.State → Reply M
  unfolding expiry_of
  handle_add_block now r blocked_ips = elim (decode r.body) [
    | err message ↦ (respond 400 (invalid_json message), blocked_ips)
    | ok req ↦
        if length req.ip == 0
        then (respond 400 ip_required, blocked_ips)
        else elim (ip_to_uint32 req.ip) [
          | err e ↦ (respond 400 (invalid_ip e), blocked_ips)
          | ok key ↦
              elim (M.put blocked_ips (M.marshal_u32 key)
                (M.marshal_u64 (expiry_of now req.ttl_seconds))) [
                  | err e ↦ (respond 500 (put_error e), blocked_ips)
                  | ok blocked_ips' ↦ (respond 201 (blocked req.ip), blocked_ips')
                ]
        ]
  ]

  unfoldable pub route_block : ℤ → Request → M.State → Reply M
  route_block now r blocked_ips = elim r.method [
    | post ↦ handle_add_block now r blocked_ips
    | get ↦ handle_list_blocks M now blocked_ips
    | _ ↦ (respond 405 method_not_allowed, blocked_ips)
  ]

  -- The two patterns of `main`'s ServeMux, for a path that is clean.
  unfoldable pub serve : ℤ → Request → M.State → Reply M
  serve now r blocked_ips =
      if bytes_eq r.path block_path
      then route_block now r blocked_ips
      else if bytes_eq (take (length block_prefix) r.path) block_prefix
      then route_block_ip M r blocked_ips
      else (respond 404 page_not_found, blocked_ips)
