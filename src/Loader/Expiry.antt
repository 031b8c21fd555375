-- ===== src/Loader/Expiry.antt =====
-- How long a block lasts: `handleAddBlock` stores Unix time, and the kernel program compares it with
-- its own clock, which counts from boot.
use rate_limiter.Base.{
  ℕ, ◌+◌, ◌*◌, ◌/◌, ◌<◌, ◌^◌, ◌≡◌, ◌↔◌, ◌∙◌, sym, Bytes, Result, ok, if◌then◌else◌, arith,
}
use rate_limiter.Base.Int.{pos, u64_of, add_i64}
use rate_limiter.Net.{host_u32}
use rate_limiter.Bpf.{BpfMap, IsLawful}
use rate_limiter.Blocker.{act_ok, act_shot, saddr, is_expired, tc_ingress_blocker}
use rate_limiter.Blocker.Drops.{IsIpv4}
use rate_limiter.Loader.Address.{ip_to_uint32}
use rate_limiter.Loader.Handlers.{BlockRequest, Request, expiry_of, handle_add_block}
use rate_limiter.Loader.Blocking.{posted_packet}

-- A positive TTL that does not overflow gives the Unix time at which the block should end.
pub expiry_of-add :
    (now ttl : ℕ) → 0 < ttl → now + ttl < 2 ^ 63 → expiry_of (pos now) (pos ttl) ≡ now + ttl
unfolding expiry_of add_i64 u64_of
expiry_of-add now ttl h fits = ground arith

shot_iff :
    (ktime_ns expiry : ℕ)
    → 0 < expiry
    → ((if is_expired ktime_ns expiry then act_ok else act_shot) ≡ act_shot)
      ↔ (ktime_ns / 1000000000 < expiry)
shot_iff ktime_ns expiry h = (λ e. ground arith, λ e. ground arith)

module _ (M : BpfMap) (L : IsLawful M) (decode : Bytes → Result Bytes BlockRequest) where
  -- Let the machine have booted at Unix second `boot`, `up` seconds before the POST. A POST with the
  -- TTL `ttl` that is answered 201 has the packets of the address dropped `later` seconds after it
  -- exactly as long as `later` is below `ttl + boot`: the block lasts `boot` seconds too long.
  pub posted_outlives :
      (boot up later ttl nanos : ℕ) (r : Request) (s : M.State) {req : BlockRequest} {key : ℕ}
      (packet : Bytes)
      → decode r.body ≡ ok req
      → ip_to_uint32 req.ip ≡ ok key
      → req.ttl_seconds ≡ pos ttl
      → 0 < ttl
      → boot + up + ttl < 2 ^ 63
      → nanos < 1000000000
      → (handle_add_block M decode (pos (boot + up)) r s).0.status ≡ 201
      → IsIpv4 packet
      → saddr packet ≡ host_u32 M.host key
      → (tc_ingress_blocker M
            (handle_add_block M decode (pos (boot + up)) r s).1
            ((up + later) * 1000000000 + nanos)
            packet
          ≡ act_shot)
        ↔ (later < ttl + boot)
  posted_outlives boot up later ttl nanos r s {req} packet dec k t h fits small status v4 src =
      let now = boot + up in
      let ktime = (up + later) * 1000000000 + nanos in
      let stored : expiry_of (pos now) req.ttl_seconds ≡ now + ttl =
        rw t (expiry_of-add now ttl h fits) in
      let verdict =
        posted_packet M L decode (pos now) r s {req = req} ktime packet dec k status v4 src in
      let iff = shot_iff ktime (now + ttl) (omega arith) in
      (
        λ shot. ground (arith, verdict, iff.0 (rw stored at (sym verdict ∙ shot))),
        λ soon. verdict ∙ rw stored (iff.1 (omega arith)),
      )
