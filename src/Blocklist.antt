-- ===== src/Blocklist.antt =====
-- decision-engine/cmd/ebpf/blocklist.go: the decision engine's own handle on a pinned map of blocked
-- addresses. `none` is the no-op mode. A Go `error` is an option, and the map is explicit state.
pub mod Laws
use rate_limiter.Base.{ℕ, Option, none, some, Bytes, Result, ok, err}
use rate_limiter.Net.{parse_ip, to4, be_u32, put_be_u32}
use rate_limiter.Bpf.{BpfMap}

-- The two errors of `ipToKey`.
pub data KeyError : Type 0 where
  invalid_ip only_ipv4 : Bytes → KeyError

unfoldable pub ip_to_key : Bytes → Result KeyError Bytes
ip_to_key s = elim (parse_ip s) [
  | none ↦ err (invalid_ip s)
  | some ip ↦ elim (to4 ip) [ none ↦ err (only_ipv4 s) | some ip4 ↦ ok (put_be_u32 (be_u32 ip4)) ]
]

-- The errors of `Add` and `Remove`: of the address, or of the map.
pub data BlocklistError (E : Type 0) : Type 0 where
  bad_ip : KeyError → BlocklistError E
  map_error : Bytes → E → BlocklistError E

-- What the two HTTP handlers answer: 400, 500 or 200 with the address.
pub data Answer (E : Type 0) : Type 0 where
  bad_request : Bytes → Answer E
  server_error : BlocklistError E → Answer E
  done : Bytes → Answer E

module _ (M : BpfMap) where
  -- `Blocklist.m`
  abbrev pub Blocklist : Type 0
  Blocklist = Option M.State

  -- What a method returns: its error, and the block list after it.
  abbrev pub Outcome : Type 0
  Outcome = Option (BlocklistError M.Error) × Blocklist

  -- `New`, from what `LoadPinnedMap` returns.
  unfoldable pub new : Result M.Error M.State → Blocklist
  new (err e) = none
  new (ok s) = some s

  unfoldable pub add : Bytes → Blocklist → Outcome
  add ip none = (none, none)
  add ip (some s) = elim (ip_to_key ip) [
    | err e ↦ (some (bad_ip e), some s)
    | ok key ↦ elim (M.put s key (M.marshal_u32 1)) [
      | err e ↦ (some (map_error ip e), some s)
      | ok t ↦ (none, some t)
    ]
  ]

  unfoldable pub remove : Bytes → Blocklist → Outcome
  remove ip none = (none, none)
  remove ip (some s) = elim (ip_to_key ip) [
    | err e ↦ (some (bad_ip e), some s)
    | ok key ↦ elim (M.delete s key) [
      | err e ↦ (some (map_error ip e), some s)
      | ok t ↦ (none, some t)
    ]
  ]

  -- `Close`, from what closing the map's descriptor returns.
  unfoldable pub close : Option M.Error → Blocklist → Option M.Error
  close e none = none
  close e (some s) = e

  answer : Bytes → Outcome → Answer M.Error × Blocklist
  answer ip (some e, b) = (server_error e, b)
  answer ip (none, b) = (done ip, b)

  -- The argument is what binding the JSON body gives: the required field "ip", or an error text.
  unfoldable pub handle_block : Result Bytes Bytes → Blocklist → Answer M.Error × Blocklist
  unfolding answer
  handle_block (err message) b = (bad_request message, b)
  handle_block (ok ip) b = answer ip (add ip b)

  unfoldable pub handle_unblock : Bytes → Blocklist → Answer M.Error × Blocklist
  unfolding answer
  handle_unblock ip b = answer ip (remove ip b)
