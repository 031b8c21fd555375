-- ===== src/Loader/Blocking.antt =====
-- What the requests to the loader do to the packets that the kernel program sees.
use rate_limiter.Base.{
  ℕ, ◌<◌, ◌^◌, ◌≡◌, none, some, Bytes, bytes_eq, Bool-cases, inl, inr, Result, ok, ap, sym, ◌∙◌,
  if◌then◌else◌, arith,
}
use rate_limiter.Base.Int.{ℤ, u64_of, add_i64}
use rate_limiter.Net.{host_u32, host_u64, load_u64-host_u64}
use rate_limiter.Bpf.{BpfMap, IsLawful}
use rate_limiter.Blocker.{act_ok, act_shot, saddr, is_expired, tc_ingress_blocker}
use rate_limiter.Blocker.Drops.{IsIpv4, tc_found, tc_absent, tc_same_lookup}
use rate_limiter.Loader.Address.{ip_to_uint32}
use rate_limiter.Loader.Handlers.{
  BlockRequest, Request, expiry_of, handle_add_block, handle_remove_block,
}

expiry_of-lt : (now ttl : ℤ) → expiry_of now ttl < 2 ^ 64
unfolding expiry_of u64_of add_i64
expiry_of-lt now ttl = ground arith

module _ (M : BpfMap) (L : IsLawful M) (decode : Bytes → Result Bytes BlockRequest) where
  -- A POST that is answered 201 has put the entry of the address.
  pub posted_put :
      (now : ℤ) (r : Request) (s : M.State) {req : BlockRequest} {key : ℕ}
      → decode r.body ≡ ok req
      → ip_to_uint32 req.ip ≡ ok key
      → (handle_add_block M decode now r s).0.status ≡ 201
      → M.put s (M.marshal_u32 key) (M.marshal_u64 (expiry_of now req.ttl_seconds))
        ≡ ok (handle_add_block M decode now r s).1
  unfolding handle_add_block
  posted_put now r s d k status = ground arith

  pub posted_lookup :
      (now : ℤ) (r : Request) (s : M.State) {req : BlockRequest} {key : ℕ}
      → decode r.body ≡ ok req
      → ip_to_uint32 req.ip ≡ ok key
      → (handle_add_block M decode now r s).0.status ≡ 201
      → M.lookup (handle_add_block M decode now r s).1 (host_u32 M.host key)
        ≡ some (host_u64 M.host (expiry_of now req.ttl_seconds))
  posted_lookup now r s {req} {key} d k status =
      ap (M.lookup _) (sym (L.marshal_u32_host key))
      ∙ L.lookup-put_self s _ _ _ (posted_put now r s d k status)
      ∙ ap some (L.marshal_u64_host _)

  -- After a POST that is answered 201, an IPv4 packet whose source address stands in memory as the
  -- machine stores the key of the posted address is dropped, unless the stored expiry is positive
  -- and the seconds of the kernel's clock have reached it.
  pub posted_packet :
      (now : ℤ) (r : Request) (s : M.State) {req : BlockRequest} {key : ℕ} (ktime_ns : ℕ)
      (packet : Bytes)
      → decode r.body ≡ ok req
      → ip_to_uint32 req.ip ≡ ok key
      → (handle_add_block M decode now r s).0.status ≡ 201
      → IsIpv4 packet
      → saddr packet ≡ host_u32 M.host key
      → tc_ingress_blocker M (handle_add_block M decode now r s).1 ktime_ns packet
        ≡ (if is_expired ktime_ns (expiry_of now req.ttl_seconds) then act_ok else act_shot)
  posted_packet now r s {req} {key} ktime_ns packet d k status ip src =
      tc_found M _ ktime_ns packet _ ip
        (ap (M.lookup (handle_add_block M decode now r s).1) src ∙ posted_lookup now r s d k status)
      ∙ rw (load_u64-host_u64 M.host _ (expiry_of-lt now req.ttl_seconds))

module _ (M : BpfMap) (L : IsLawful M) where
  deleted :
      (ip : Bytes) (s : M.State) {key : ℕ}
      → ip_to_uint32 ip ≡ ok key
      → (handle_remove_block M ip s).0.status ≡ 200
      → M.delete s (M.marshal_u32 key) ≡ ok (handle_remove_block M ip s).1
  unfolding handle_remove_block
  deleted ip s k status = ground arith

  pub deleted_lookup :
      (ip : Bytes) (s : M.State) {key : ℕ} (j : Bytes)
      → ip_to_uint32 ip ≡ ok key
      → (handle_remove_block M ip s).0.status ≡ 200
      → M.lookup (handle_remove_block M ip s).1 j
        ≡ (if bytes_eq j (host_u32 M.host key) then none else M.lookup s j)
  deleted_lookup ip s {key} j k status =
      rw (← L.marshal_u32_host key)
        (L.lookup-delete s _ (M.marshal_u32 key) j (deleted ip s k status))

  -- After a DELETE that is answered 200, a packet from the address passes; a packet from any other
  -- source fares as before.
  pub deleted_packet :
      (ip : Bytes) (s : M.State) {key : ℕ} (ktime_ns : ℕ) (packet : Bytes)
      → ip_to_uint32 ip ≡ ok key
      → (handle_remove_block M ip s).0.status ≡ 200
      → tc_ingress_blocker M (handle_remove_block M ip s).1 ktime_ns packet ≡ (
          if bytes_eq (saddr packet) (host_u32 M.host key)
          then act_ok
          else tc_ingress_blocker M s ktime_ns packet)
  deleted_packet ip s {key} ktime_ns packet k status =
      elim (Bool-cases (bytes_eq (saddr packet) (host_u32 M.host key))) [
        | inl same ↦
            rw same (
              tc_absent M _ ktime_ns packet (deleted_lookup ip s (saddr packet) k status ∙ rw same))
        | inr differ ↦ rw differ (
            tc_same_lookup M _ s ktime_ns packet
              (deleted_lookup ip s (saddr packet) k status ∙ rw differ))
      ]
