-- ===== src/Loader/WireOrder.antt =====
-- The byte order of the keys that the loader writes against that of `iphdr->saddr`, which holds the
-- four bytes of an address in the order in which they are printed.
use rate_limiter.Base.{
  ℕ, ◌<◌, ◌≡◌, ◌≢◌, ◌⊎◌, inl, inr, ap, sym, ◌∙◌, false, none, [], ◌∷◌, Bytes, Result, ok, arith,
}
use rate_limiter.Base.Int.{ℤ, pos, ltb_ℤ}
use rate_limiter.Net.{Endian, little, big, host_u32, be_u32, print_ipv4}
use rate_limiter.Bpf.{BpfMap, IsLawful}
use rate_limiter.Blocker.{act_ok, act_shot, saddr, tc_ingress_blocker}
use rate_limiter.Blocker.Drops.{IsIpv4, tc_absent}
use rate_limiter.Loader.Address.{ip_to_uint32}
use rate_limiter.Loader.RoundTrip.{ip_to_uint32-print_ipv4}
use rate_limiter.Loader.Handlers.{BlockRequest, Request, expiry_of, handle_add_block}
use rate_limiter.Loader.Blocking.{posted_put, posted_packet}

-- The key of a.b.c.d in the machine's memory.
abbrev pub stored : Endian → ℕ → ℕ → ℕ → ℕ → Bytes
stored big a b c d = a ∷ b ∷ c ∷ d ∷ []
stored little a b c d = d ∷ c ∷ b ∷ a ∷ []

host_u32-be_u32 :
    (e : Endian) (a b c d : ℕ)
    → a < 256
    → b < 256
    → c < 256
    → d < 256
    → host_u32 e (be_u32 (a ∷ b ∷ c ∷ d ∷ [])) ≡ stored e a b c d
unfolding host_u32 be_u32
host_u32-be_u32 big a b c d ha hb hc hd = ground arith
host_u32-be_u32 little a b c d ha hb hc hd = ground arith

expiry_of_forever : (now ttl : ℤ) → ltb_ℤ (pos 0) ttl ≡ false → expiry_of now ttl ≡ 0
unfolding expiry_of
expiry_of_forever now ttl h = rw h

module _ (M : BpfMap) (L : IsLawful M) (decode : Bytes → Result Bytes BlockRequest) where
  -- After a POST of a.b.c.d with no positive TTL that is answered 201, every IPv4 packet is dropped
  -- whose source address is a, b, c, d on a big-endian machine, and d, c, b, a on a little-endian one.
  pub posted_stored :
      (now : ℤ) (r : Request) (s : M.State) {req : BlockRequest} (a b c d ktime_ns : ℕ)
      (packet : Bytes)
      → a < 256
      → b < 256
      → c < 256
      → d < 256
      → decode r.body ≡ ok req
      → req.ip ≡ print_ipv4 a b c d
      → ltb_ℤ (pos 0) req.ttl_seconds ≡ false
      → (handle_add_block M decode now r s).0.status ≡ 201
      → IsIpv4 packet
      → saddr packet ≡ stored M.host a b c d
      → tc_ingress_blocker M (handle_add_block M decode now r s).1 ktime_ns packet ≡ act_shot
  posted_stored now r s {req} a b c d ktime_ns packet ha hb hc hd dec ip forever status v4 src =
      posted_packet M L decode now r s {req = req} ktime_ns packet dec
        (ap ip_to_uint32 ip ∙ ip_to_uint32-print_ipv4 a b c d ha hb hc hd) status v4
        (src ∙ sym (host_u32-be_u32 M.host a b c d ha hb hc hd))
      ∙ rw (expiry_of_forever now req.ttl_seconds forever)

  -- On a little-endian machine the POST of an address that is not its own reverse leaves the packets
  -- of that address passing, if they passed for want of an entry before.
  pub posted_little_misses :
      (now : ℤ) (r : Request) (s : M.State) {req : BlockRequest} (a b c d ktime_ns : ℕ)
      (packet : Bytes)
      → a < 256
      → b < 256
      → c < 256
      → d < 256
      → M.host ≡ little
      → (a ≢ d) ⊎ (b ≢ c)
      → decode r.body ≡ ok req
      → req.ip ≡ print_ipv4 a b c d
      → (handle_add_block M decode now r s).0.status ≡ 201
      → saddr packet ≡ a ∷ b ∷ c ∷ d ∷ []
      → M.lookup s (a ∷ b ∷ c ∷ d ∷ []) ≡ none
      → tc_ingress_blocker M (handle_add_block M decode now r s).1 ktime_ns packet ≡ act_ok
  posted_little_misses now r s {req} a b c d ktime_ns packet ha hb hc hd host apart dec ip status
        src absent =
      let key = be_u32 (a ∷ b ∷ c ∷ d ∷ []) in
      let e : M.marshal_u32 key ≡ d ∷ c ∷ b ∷ a ∷ [] =
        L.marshal_u32_host key ∙ rw host (host_u32-be_u32 little a b c d ha hb hc hd) in
      let other : (a ∷ b ∷ c ∷ d ∷ []) ≢ M.marshal_u32 key = λ q. absurd (ground arith) in
      tc_absent M _ ktime_ns packet
        (elim (L.lookup-put_other s _ (M.marshal_u32 key) _ (a ∷ b ∷ c ∷ d ∷ [])
          (posted_put M L decode now r s dec
            (ap ip_to_uint32 ip ∙ ip_to_uint32-print_ipv4 a b c d ha hb hc hd) status)
          other) [
            | inl same ↦ ap (M.lookup _) src ∙ same ∙ absent
            | inr evicted ↦ ap (M.lookup _) src ∙ evicted
          ])
