-- ===== src/Loader/Strangers.antt =====
-- Whom the loader never blocks.
use rate_limiter.Base.{
  ℕ, ◌≡◌, ◌≢◌, ◌∙◌, inl, inr, none, List, [], ◌∷◌, Bytes, Result, Result-cases, ok, length, drop,
  All, arith,
}
use rate_limiter.Base.Int.{ℤ}
use rate_limiter.Net.{host_u32}
use rate_limiter.Bpf.{BpfMap, IsLawful}
use rate_limiter.Blocker.{tc_ingress_blocker, act_ok, saddr}
use rate_limiter.Blocker.Drops.{tc_absent}
use rate_limiter.Loader.Address.{ip_to_uint32}
use rate_limiter.Loader.Handlers.{
  BlockRequest, Request, block_prefix, expiry_of, handle_add_block, handle_remove_block,
  handle_list_blocks, route_block, route_block_ip, serve,
}
use rate_limiter.Loader.Service.{serve_all}

-- The request does not name an address whose key is stored as the bytes `j`.
abbrev pub IsForeign : (M : BpfMap) → (Bytes → Result Bytes BlockRequest) → Bytes → Request → Type 0
IsForeign M decode j r =
    (req : BlockRequest) (key : ℕ)
    → decode r.body ≡ ok req
    → ip_to_uint32 req.ip ≡ ok key
    → j ≢ host_u32 M.host key

module _ (M : BpfMap) (L : IsLawful M) (decode : Bytes → Result Bytes BlockRequest)
    (j : Bytes) where
  put_absent :
      (s : M.State) (key expiry : ℕ) {t : M.State}
      → M.lookup s j ≡ none
      → j ≢ host_u32 M.host key
      → M.put s (M.marshal_u32 key) (M.marshal_u64 expiry) ≡ ok t
      → M.lookup t j ≡ none
  put_absent s key expiry {t} absent ne done =
      elim (L.lookup-put_other s t (M.marshal_u32 key) (M.marshal_u64 expiry) j done
        (λ e. ne (e ∙ L.marshal_u32_host key))) [ inl same ↦ same ∙ absent | inr gone ↦ gone ]

  delete_absent :
      (s : M.State) (k : Bytes) {t : M.State}
      → M.lookup s j ≡ none
      → M.delete s k ≡ ok t
      → M.lookup t j ≡ none
  delete_absent s k {t} absent done = L.lookup-delete s t k j done ∙ ground arith

  add_absent :
      (now : ℤ) (r : Request) (s : M.State)
      → IsForeign M decode j r
      → M.lookup s j ≡ none
      → M.lookup (handle_add_block M decode now r s).1 j ≡ none
  unfolding handle_add_block
  add_absent now r s foreign absent = elim (Result-cases (decode r.body)) [
    | inr (e, bad) ↦ ground arith
    | inl (req, good) ↦ elim (Result-cases (ip_to_uint32 req.ip)) [
      | inr (e, bad) ↦ ground arith
      | inl (key, parsed) ↦
          elim (Result-cases
            (M.put s (M.marshal_u32 key) (M.marshal_u64 (expiry_of now req.ttl_seconds)))) [
              | inr (e, failed) ↦ ground arith
              | inl (t, done) ↦ ground (
                arith,
                put_absent s key (expiry_of now req.ttl_seconds) absent
                    (foreign req key good parsed) done,
              )
            ]
    ]
  ]

  remove_absent :
      (ip : Bytes) (s : M.State)
      → M.lookup s j ≡ none
      → M.lookup (handle_remove_block M ip s).1 j ≡ none
  unfolding handle_remove_block
  remove_absent ip s absent = elim (Result-cases (ip_to_uint32 ip)) [
    | inr (e, bad) ↦ ground arith
    | inl (key, parsed) ↦ elim (Result-cases (M.delete s (M.marshal_u32 key))) [
      | inr (e, failed) ↦ ground arith
      | inl (t, done) ↦ ground (arith, delete_absent s (M.marshal_u32 key) absent done)
    ]
  ]

  list_same : (now : ℤ) (s : M.State) → (handle_list_blocks M now s).1 ≡ s
  unfolding handle_list_blocks
  list_same now s = ground arith

  serve_absent :
      (now : ℤ) (r : Request) (s : M.State)
      → IsForeign M decode j r
      → M.lookup s j ≡ none
      → M.lookup (serve M decode now r s).1 j ≡ none
  unfolding serve route_block route_block_ip
  serve_absent now r s foreign absent = ground (
    arith,
    add_absent now r s foreign absent,
    list_same now s,
    remove_absent (drop (length block_prefix) r.path) s absent,
  )

  serve_all_absent :
      (rs : List (ℤ × Request)) (s : M.State)
      → All (λ q. IsForeign M decode j q.1) rs
      → M.lookup s j ≡ none
      → M.lookup (serve_all M decode rs s).1 j ≡ none
  unfolding serve_all
  serve_all_absent [] s foreign absent = absent
  serve_all_absent ((now, r) ∷ rs) s (foreign, rest) absent =
      serve_all_absent rs (serve M decode now r s).1 rest (serve_absent now r s foreign absent)

-- Any requests to the API, in any order and with any outcome, none of which names an address whose
-- key is stored as the bytes of a packet's source: if there is no entry for the source before them,
-- the packet passes after them.
pub stranger_passes :
    (M : BpfMap)
    → IsLawful M
    → (decode : Bytes → Result Bytes BlockRequest) (rs : List (ℤ × Request)) (s : M.State)
      (ktime_ns : ℕ) (packet : Bytes)
    → All (λ q. IsForeign M decode (saddr packet) q.1) rs
    → M.lookup s (saddr packet) ≡ none
    → tc_ingress_blocker M (serve_all M decode rs s).1 ktime_ns packet ≡ act_ok
stranger_passes M L decode rs s ktime_ns packet foreign absent =
    tc_absent M _ ktime_ns packet (serve_all_absent M L decode (saddr packet) rs s foreign absent)
